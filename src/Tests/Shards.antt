-- ===== src/Tests/Shards.antt =====
-- core/shard_executor.go: two shards whose goroutines interleave.
use genus.Prelude.{
  ℕ, zero, suc, ◌+◌, ◌*◌, ◌≤◌, ◌≡◌, refl, Option, none, some, List, [], ◌∷◌, ◌⊎◌, arith, length,
}
use genus.Sharding.AllShards.{
  ended, Shared, returned, Turn, caller_turn, turn_of, start, step_caller, step_goroutine, step,
  run,
}
use genus.Sharding.AllShards.Joined.{exec_on_all_shards_lem}
use genus.Sharding.AllShards.Ending.{left, Counts, goroutines_end}

-- The statement doubles the number of a shard and gives what it was; on 0 it fails.
abbrev double : ℕ → ℕ × Option ℕ × Option ℕ
double zero = (0, none, some 5)
double (suc k) = (suc k * 2, some (suc k), none)

abbrev numbers : ℕ → ℕ
numbers zero = 3
numbers (suc k) = 0

-- The second goroutine runs before the first and between its steps; wg.Wait is tried too early.
abbrev turns : List Turn
turns =
    caller_turn
    ∷ caller_turn
    ∷ caller_turn
    ∷ caller_turn
    ∷ turn_of 1
    ∷ turn_of 1
    ∷ turn_of 0
    ∷ caller_turn
    ∷ caller_turn
    ∷ turn_of 0
    ∷ turn_of 1
    ∷ turn_of 0
    ∷ turn_of 0
    ∷ turn_of 1
    ∷ caller_turn
    ∷ []

abbrev final : Shared ℕ ℕ ℕ
final = run double 2 turns (start numbers)

exec_on_all_shards_lem_example :
    (final.goroutines 1 ≡ ended)
    × (final.shards 1 ≡ 0)
    × (final.results 1 ≡ none)
    × (final.errors 1 ≡ some 5)
exec_on_all_shards_lem_example =
    exec_on_all_shards_lem double 2 numbers turns 1
      (unfold run step step_caller step_goroutine start in refl) (ground arith)

goroutines_end_example :
    (left double 2 numbers final ≤ 6 * 2 + 2)
    × ((turn : Turn) → Counts double 2 numbers turn final)
    × ((final.caller ≡ returned)
        ⊎ ((turn : Turn) × (left double 2 numbers final
              ≡ suc (left double 2 numbers (step double 2 turn final)))))
    × ((more : List Turn) × (length more ≤ left double 2 numbers final)
        × ((run double 2 more final).caller ≡ returned))
goroutines_end_example = goroutines_end double 2 numbers turns
