-- ===== src/Sharding/AllShards.antt =====
-- core/shard_executor.go: ExecOnShard, and ExecOnAllShards with its goroutines, whose steps interleave. A
-- shard's database is a world W of its own, and `exec` is ExecContext of the statement on it, with its
-- result and its error. The slices `results` and `errors` are shared: a goroutine writes at the index that
-- it was given. A slice is a function of its index, and so are the shards and the goroutines.
pub mod Count
pub mod Slots
pub mod Joined
pub mod Ending
use genus.Prelude.{
  ℕ, zero, suc, ◌+◌, ◌-◌, Option, none, some, List, [], ◌∷◌, ◌⊎◌, inl, inr, ltb, ◌==◌,
  if◌then◌else◌, ℤ,
}
use genus.Sharding.Manager.{ShardManager}
use genus.Sharding.Routing.{get_shard_by_index}

-- ExecOnShard; the error is that the shard is not found.
unfoldable pub exec_on_shard :
    {X D Ctx R E : Type 0} → ShardManager X D Ctx → (D → R ⊎ E) → ℤ → R ⊎ Option E
unfolding get_shard_by_index
exec_on_shard sm exec index = elim (get_shard_by_index sm index) [
  | none ↦ inr none
  | some shard ↦ elim (exec shard.db) [ inl r ↦ inl r | inr e ↦ inr (some e) ]
]

-- What is left of a goroutine, with its arguments idx and s, the number of the shard.
pub data Goroutine (R E : Type 0) : Type 0 where
  not_started : Goroutine R E
  executing : ℕ → ℕ → Goroutine R E
  storing_result : ℕ → Option R → Option E → Goroutine R E
  storing_error : ℕ → Option E → Goroutine R E
  calling_done : Goroutine R E
  ended : Goroutine R E

-- Where ExecOnAllShards itself is: before round i of its loop, in it after wg.Add, in wg.Wait, or at its end.
pub data Caller : Type 0 where
  looping : ℕ → Caller
  starting : ℕ → Caller
  waiting : Caller
  returned : Caller

-- What the goroutines share.
pub record Shared (W R E : Type 0) : Type 0 where
  pub shards : ℕ → W
  pub results : ℕ → Option R
  pub errors : ℕ → Option E
  -- the counter of the WaitGroup
  pub wait_group : ℕ
  pub goroutines : ℕ → Goroutine R E
  pub caller : Caller

-- The assignment of an element.
abbrev pub put : {A : Type 0} → ℕ → A → (ℕ → A) → ℕ → A
put i a f j = if i == j then a else f j

-- Who goes on.
pub data Turn : Type 0 where
  caller_turn : Turn
  turn_of : ℕ → Turn

module _ {W R E : Type 0} where
  unfoldable pub start : (ℕ → W) → Shared W R E
  start worlds = record {
    shards = worlds;
    results = λ i. none;
    errors = λ i. none;
    wait_group = 0;
    goroutines = λ i. not_started;
    caller = looping 0;
  }

  -- A step of ExecOnAllShards on n shards: the test of the loop and wg.Add, the go statement, and wg.Wait,
  -- which passes only when the counter is 0.
  unfoldable pub step_caller : ℕ → Caller → Shared W R E → Shared W R E
  step_caller n (looping i) s =
      if ltb i n
      then record s { wait_group = s.wait_group + 1; caller = starting i }
      else record s { caller = waiting }
  step_caller n (starting i) s = record s {
    goroutines = put i (executing i i) s.goroutines;
    caller = looping (i + 1);
  }
  step_caller n waiting s = if s.wait_group == 0 then record s { caller = returned } else s
  step_caller n returned s = s

module _ {W R E : Type 0} (exec : W → W × Option R × Option E) where
  -- A step of goroutine k: ExecContext, the two assignments, and the deferred wg.Done.
  unfoldable pub step_goroutine : Goroutine R E → ℕ → Shared W R E → Shared W R E
  step_goroutine not_started k s = s
  step_goroutine (executing idx shard) k s =
      let (w, result, err) = exec (s.shards shard) in
      record s {
        shards = put shard w s.shards;
        goroutines = put k (storing_result idx result err) s.goroutines;
      }
  step_goroutine (storing_result idx result err) k s = record s {
    results = put idx result s.results;
    goroutines = put k (storing_error idx err) s.goroutines;
  }
  step_goroutine (storing_error idx err) k s = record s {
    errors = put idx err s.errors;
    goroutines = put k calling_done s.goroutines;
  }
  step_goroutine calling_done k s = record s {
    wait_group = s.wait_group - 1;
    goroutines = put k ended s.goroutines;
  }
  step_goroutine ended k s = s

  unfoldable pub step : ℕ → Turn → Shared W R E → Shared W R E
  unfolding step_caller step_goroutine
  step n caller_turn s = step_caller n s.caller s
  step n (turn_of k) s = step_goroutine (s.goroutines k) k s

  -- Turns in the order in which the scheduler gives them; who cannot go on stays where it is.
  unfoldable pub run : ℕ → List Turn → Shared W R E → Shared W R E
  unfolding step
  run n [] s = s
  run n (turn ∷ turns) s = run n turns (step n turn s)
