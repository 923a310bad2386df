-- ===== src/Sharding/AllShards/Ending.antt =====
-- core/shard_executor.go, ExecOnAllShards: that it returns.
use mathlib.Core.Path.{subst}
use genus.Prelude.{
  ℕ, zero, suc, ◌+◌, ◌-◌, ◌*◌, ◌≤◌, ◌<◌, ◌≡◌, refl, ap, ◌∙◌, Option, List, [], ◌∷◌, ◌⊎◌, inl, inr,
  arith, ltb, ◌==◌, Bool-cases, length,
}
use genus.Sharding.AllShards.{
  Goroutine, not_started, executing, storing_result, storing_error, calling_done, ended, Caller,
  looping, starting, waiting, returned, Shared, put, Turn, caller_turn, turn_of, start, step_caller,
  step_goroutine, step, run,
}
use genus.Sharding.AllShards.Count.{total, total-put, alive}
use genus.Sharding.AllShards.Slots.{started, ahead, IsJoined, start-IsJoined, started_below}
use genus.Sharding.AllShards.Joined.{run-IsJoined, run_start-IsJoined}

-- The steps that are left to a goroutine, and to ExecOnAllShards with those that it has not started.
abbrev goroutine_left : {R E : Type 0} → Goroutine R E → ℕ
goroutine_left not_started = 0
goroutine_left (executing idx shard) = 4
goroutine_left (storing_result idx r e) = 3
goroutine_left (storing_error idx e) = 2
goroutine_left calling_done = 1
goroutine_left ended = 0

abbrev caller_left : ℕ → Caller → ℕ
caller_left n (looping i) = 6 * (n - i) + 2
caller_left n (starting i) = 6 * (n - i) + 1
caller_left n waiting = 1
caller_left n returned = 0

module _ {W R E : Type 0} (exec : W → W × Option R × Option E) (n : ℕ) (worlds : ℕ → W) where
  abbrev pub left : Shared W R E → ℕ
  left s = caller_left n s.caller + total goroutine_left n s.goroutines

  one_alive :
      (m : ℕ) (f : ℕ → Goroutine R E) → 0 < total alive m f → (k : ℕ) × (k < m) × (alive (f k) ≡ 1)
  one_alive zero f l = absurd (omega arith)
  one_alive (suc m) f l = elim (alive_cases (f m)) [
    | inl a ↦ (m, omega arith, a)
    | inr a ↦ let (k, below, b) = one_alive m f (omega (arith, a)) in (k, omega arith, b)
  ]
    where
      alive_cases : (g : Goroutine R E) → (alive g ≡ 1) ⊎ (alive g ≡ 0)
      alive_cases not_started = inr refl
      alive_cases (executing idx shard) = inl refl
      alive_cases (storing_result idx r e) = inl refl
      alive_cases (storing_error idx e) = inl refl
      alive_cases calling_done = inl refl
      alive_cases ended = inr refl

  less_left :
      (s : Shared W R E) (k : ℕ) (g g' : Goroutine R E)
      → k < n
      → s.goroutines k ≡ g
      → goroutine_left g ≡ suc (goroutine_left g')
      → left s ≡ suc (caller_left n s.caller + total goroutine_left n (put k g' s.goroutines))
  less_left s k g g' l e one =
      let sum : total goroutine_left n (put k g' s.goroutines) + goroutine_left (s.goroutines k)
          ≡ total goroutine_left n s.goroutines + goroutine_left g' =
        total-put goroutine_left n k g' s.goroutines l in
      let weight : goroutine_left (s.goroutines k) ≡ suc (goroutine_left g') =
        (λ i. goroutine_left (e i)) ∙ one in
      omega (arith, sum, weight)

  -- A goroutine that is alive can always go on.
  goroutine_goes_on :
      (g : Goroutine R E) (k : ℕ) (s : Shared W R E)
      → k < n
      → s.goroutines k ≡ g
      → alive g ≡ 1
      → left s ≡ suc (left (step_goroutine exec g k s))
  unfolding step_goroutine
  goroutine_goes_on not_started k s l e a = absurd (omega arith)
  goroutine_goes_on (executing idx shard) k s l e a = less_left s k (executing idx shard) _ l e refl
  goroutine_goes_on (storing_result idx r e') k s l e a =
      less_left s k (storing_result idx r e') _ l e refl
  goroutine_goes_on (storing_error idx e') k s l e a =
      less_left s k (storing_error idx e') _ l e refl
  goroutine_goes_on calling_done k s l e a = less_left s k calling_done _ l e refl
  goroutine_goes_on ended k s l e a = absurd (omega arith)

  -- A turn that changes nothing, or takes one of the steps that are left.
  abbrev pub Counts : Turn → Shared W R E → Type 0
  Counts turn s = (step exec n turn s ≡ s) ⊎ (left s ≡ suc (left (step exec n turn s)))

  goroutine-Counts :
      (g : Goroutine R E) (k : ℕ) (s : Shared W R E)
      → s.goroutines k ≡ g
      → IsJoined exec n worlds s
      → (step_goroutine exec g k s ≡ s) ⊎ (left s ≡ suc (left (step_goroutine exec g k s)))
  unfolding step_goroutine
  goroutine-Counts not_started k s e h = inl refl
  goroutine-Counts ended k s e h = inl refl
  goroutine-Counts (executing idx shard) k s e h =
      let l : k < started n s.caller = started_below exec n worlds s k _ h e refl in
      inr (goroutine_goes_on (executing idx shard) k s (omega (arith, h.within)) e refl)
  goroutine-Counts (storing_result idx r e') k s e h =
      let l : k < started n s.caller = started_below exec n worlds s k _ h e refl in
      inr (goroutine_goes_on (storing_result idx r e') k s (omega (arith, h.within)) e refl)
  goroutine-Counts (storing_error idx e') k s e h =
      let l : k < started n s.caller = started_below exec n worlds s k _ h e refl in
      inr (goroutine_goes_on (storing_error idx e') k s (omega (arith, h.within)) e refl)
  goroutine-Counts calling_done k s e h =
      let l : k < started n s.caller = started_below exec n worlds s k _ h e refl in
      inr (goroutine_goes_on calling_done k s (omega (arith, h.within)) e refl)

  -- The step of ExecOnAllShards: only wg.Wait can stand still, and then the counter is not 0.
  caller_step :
      (c : Caller) (s : Shared W R E)
      → s.caller ≡ c
      → IsJoined exec n worlds s
      → (caller_left n c + total goroutine_left n s.goroutines ≡ suc (left (step_caller n c s)))
        ⊎ ((step_caller n c s ≡ s) × ((c ≡ returned) ⊎ (0 < total alive n s.goroutines)))
  unfolding step_caller
  caller_step (looping i) s e h =
      let in_loop : i + 0 ≤ n = subst (λ c. started n c + ahead c ≤ n) e h.within in
      elim (Bool-cases (ltb i n)) [
        | inl l ↦ inl (rw (l, step_caller) (omega arith))
        | inr l ↦ let last : n ≤ i = ground arith in inl (rw (l, step_caller) (omega (arith, last)))
      ]
  caller_step (starting i) s e h =
      let in_loop : i + 1 ≤ n = subst (λ c. started n c + ahead c ≤ n) e h.within in
      let idle : s.goroutines i ≡ not_started =
        subst (λ c. (k : ℕ) → started n c ≤ k → s.goroutines k ≡ not_started) e h.fresh i
          (omega arith) in
      let sum : total goroutine_left n (put i (executing i i) s.goroutines)
            + goroutine_left (s.goroutines i)
          ≡ total goroutine_left n s.goroutines + 4 =
        total-put goroutine_left n i (executing i i) s.goroutines (omega arith) in
      let weight : goroutine_left (s.goroutines i) ≡ 0 = λ x. goroutine_left (idle x) in
      inl (omega (arith, sum, weight))
  caller_step waiting s e h =
      let count : s.wait_group ≡ total alive n s.goroutines + 0 =
        subst (λ c. s.wait_group ≡ total alive n s.goroutines + ahead c) e h.counted in
      elim (Bool-cases (s.wait_group == 0)) [
        | inl z ↦ inl (rw (z, step_caller) (omega arith))
        | inr z ↦
            let some_left : 0 < s.wait_group = ground arith in
            inr (rw (z, step_caller) refl, inr (omega (arith, count)))
      ]
  caller_step returned s e h = inr (refl, inl refl)

  turn-Counts : (turn : Turn) (s : Shared W R E) → IsJoined exec n worlds s → Counts turn s
  unfolding step
  turn-Counts caller_turn s h = elim (caller_step s.caller s refl h) [
    | inl less ↦ inr less
    | inr (still, why) ↦ inl still
  ]
  turn-Counts (turn_of k) s h = goroutine-Counts (s.goroutines k) k s refl h

  -- Someone can go on until ExecOnAllShards has returned.
  goes_on :
      (s : Shared W R E)
      → IsJoined exec n worlds s
      → (s.caller ≡ returned) ⊎ ((turn : Turn) × (left s ≡ suc (left (step exec n turn s))))
  unfolding step
  goes_on s h = elim (caller_step s.caller s refl h) [
    | inl less ↦ inr (caller_turn, less)
    | inr (still, inl back) ↦ inl back
    | inr (still, inr more) ↦
        let (k, l, a) = one_alive n s.goroutines more in
        inr (turn_of k, goroutine_goes_on (s.goroutines k) k s l refl a)
  ]

  completed :
      (fuel : ℕ) (s : Shared W R E)
      → IsJoined exec n worlds s
      → left s ≤ fuel
      → (more : List Turn) × (length more ≤ left s) × ((run exec n more s).caller ≡ returned)
  unfolding run
  completed zero s h l = elim (goes_on s h) [
    | inl back ↦ ([], omega arith, back)
    | inr (turn, less) ↦ absurd (omega (arith, less))
  ]
  completed (suc fuel) s h l = elim (goes_on s h) [
    | inl back ↦ ([], omega arith, back)
    | inr (turn, less) ↦
        let (more, short, back) =
          completed fuel (step exec n turn s) (run-IsJoined exec n worlds (turn ∷ []) s h)
            (omega (arith, less)) in
        (turn ∷ more, omega (arith, less), back)
  ]

  step-left : (turn : Turn) (s : Shared W R E) → Counts turn s → left (step exec n turn s) ≤ left s
  step-left turn s (inl still) = omega (arith, ap left still)
  step-left turn s (inr less) = omega (arith, less)

  run-left :
      (turns : List Turn) (s : Shared W R E)
      → IsJoined exec n worlds s
      → left (run exec n turns s) ≤ left s
  unfolding run
  run-left [] s h = omega arith
  run-left (turn ∷ turns) s h =
      let one = step-left turn s (turn-Counts turn s h) in
      let rest = run-left turns (step exec n turn s) (run-IsJoined exec n worlds (turn ∷ []) s h) in
      omega (arith, one, rest)

  nothing_left : (m : ℕ) → total (goroutine_left {R = R} {E = E}) m (λ i. not_started) ≡ 0
  nothing_left zero = refl
  nothing_left (suc m) = omega (arith, nothing_left m)

  left_start : left (start worlds) ≡ 6 * n + 2
  unfolding start
  left_start = omega (arith, nothing_left n)

  -- In every state that the steps of ExecOnAllShards on n shards and of its goroutines can reach, in any
  -- order, at most 6n + 2 steps are left; whoever is given a turn stays where it is or takes one of these
  -- steps; as long as it has not returned somebody can take one, so that wg.Wait does not wait for ever;
  -- and with the right turns, no more than the steps that are left, it returns.
  pub goroutines_end :
      (turns : List Turn)
      → let s = run exec n turns (start worlds) in
        (left s ≤ 6 * n + 2)
        × ((turn : Turn) → Counts turn s)
        × ((s.caller ≡ returned) ⊎ ((turn : Turn) × (left s ≡ suc (left (step exec n turn s)))))
        × ((more : List Turn) × (length more ≤ left s) × ((run exec n more s).caller ≡ returned))
  goroutines_end turns =
      let s : Shared W R E = run exec n turns (start worlds) in
      let h = run_start-IsJoined exec n worlds turns in
      let bound = run-left turns (start worlds) (start-IsJoined exec n worlds) in
      (
        omega (arith, bound, left_start),
        λ turn. turn-Counts turn s h,
        goes_on s h,
        completed (left s) s h (omega arith),
      )
