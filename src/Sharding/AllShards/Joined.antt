-- ===== src/Sharding/AllShards/Joined.antt =====
-- core/shard_executor.go, ExecOnAllShards: what it returns.
use mathlib.Core.Path.{subst}
use genus.Prelude.{
  ℕ, zero, suc, ◌+◌, ◌≤◌, ◌<◌, ◌≡◌, refl, ◌∙◌, true, false, Option, List, [], ◌∷◌, inl, inr, arith,
  ltb, ◌==◌, Bool-cases,
}
use genus.Sharding.AllShards.{
  Goroutine, not_started, executing, storing_result, storing_error, calling_done, ended, Caller,
  looping, starting, waiting, returned, Shared, put, Turn, caller_turn, turn_of, start, step_caller,
  step_goroutine, step, run,
}
use genus.Sharding.AllShards.Count.{total, total-put, alive, is_started}
use genus.Sharding.AllShards.Slots.{
  started, ahead, Waited, Slot, IsJoined, start-IsJoined, slots_put, step_goroutine-IsJoined,
}

module _ {W R E : Type 0} (exec : W → W × Option R × Option E) (n : ℕ) (worlds : ℕ → W) where
  step_caller-IsJoined :
      (c : Caller) (s : Shared W R E)
      → s.caller ≡ c
      → IsJoined exec n worlds s
      → IsJoined exec n worlds (step_caller n c s)
  unfolding step_caller
  step_caller-IsJoined (looping i) s e h =
      let in_loop : i + 0 ≤ n = subst (λ c. started n c + ahead c ≤ n) e h.within in
      let count : s.wait_group ≡ total alive n s.goroutines + 0 =
        subst (λ c. s.wait_group ≡ total alive n s.goroutines + ahead c) e h.counted in
      let fresh : (k : ℕ) → i ≤ k → s.goroutines k ≡ not_started =
        subst (λ c. (k : ℕ) → started n c ≤ k → s.goroutines k ≡ not_started) e h.fresh in
      let used : (k : ℕ) → k < i → is_started (s.goroutines k) ≡ true =
        subst (λ c. (k : ℕ) → k < started n c → is_started (s.goroutines k) ≡ true) e h.used in
      elim (Bool-cases (ltb i n)) [
        | inl l ↦
            rw (l, step_caller)
              (record {
                slots = h.slots;
                fresh = fresh;
                used = used;
                within = ground arith;
                counted = omega (arith, count);
                waited = tt;
              })
        | inr l ↦
            let last : i ≡ n = ground arith in
            rw (l, step_caller)
              (record {
                slots = h.slots;
                fresh = λ k m. fresh k (omega (arith, last));
                used = λ k m. used k (omega (arith, last));
                within = omega arith;
                counted = count;
                waited = tt;
              })
      ]
  step_caller-IsJoined (starting i) s e h =
      let in_loop : i + 1 ≤ n = subst (λ c. started n c + ahead c ≤ n) e h.within in
      let count : s.wait_group ≡ total alive n s.goroutines + 1 =
        subst (λ c. s.wait_group ≡ total alive n s.goroutines + ahead c) e h.counted in
      let fresh : (k : ℕ) → i ≤ k → s.goroutines k ≡ not_started =
        subst (λ c. (k : ℕ) → started n c ≤ k → s.goroutines k ≡ not_started) e h.fresh in
      let used : (k : ℕ) → k < i → is_started (s.goroutines k) ≡ true =
        subst (λ c. (k : ℕ) → k < started n c → is_started (s.goroutines k) ≡ true) e h.used in
      let idle : s.goroutines i ≡ not_started = fresh i (omega arith) in
      let slot : Slot exec n worlds not_started i (s.shards i) (s.results i) (s.errors i) =
        subst (λ g. Slot exec n worlds g i (s.shards i) (s.results i) (s.errors i)) idle
          (h.slots i) in
      let sum : total alive n (put i (executing i i) s.goroutines) + alive (s.goroutines i)
          ≡ total alive n s.goroutines + 1 =
        total-put alive n i (executing i i) s.goroutines (omega arith) in
      let weight : alive (s.goroutines i) ≡ 0 = λ x. alive (idle x) in
      record {
        slots =
            slots_put exec n worlds s i (executing i i) s.shards s.results s.errors h.slots
              (refl, refl, slot.0) (λ j off. (refl, refl, refl));
        fresh =
            λ j m. let other : (i == j) ≡ false = ground arith in rw other (fresh j (omega arith));
        used = λ j m. elim (Bool-cases (i == j)) [
          | inl same ↦ rw same refl
          | inr other ↦ rw other (used j (ground arith))
        ];
        within = omega arith;
        counted = omega (arith, count, sum, weight);
        waited = tt;
      }
  step_caller-IsJoined waiting s e h = elim (Bool-cases (s.wait_group == 0)) [
    | inl z ↦
        rw (z, step_caller)
          (record {
            slots = h.slots;
            fresh = subst (λ c. (k : ℕ) → started n c ≤ k → s.goroutines k ≡ not_started) e h.fresh;
            used =
                subst (λ c. (k : ℕ) → k < started n c → is_started (s.goroutines k) ≡ true) e
                  h.used;
            within = omega arith;
            counted = subst (λ c. s.wait_group ≡ total alive n s.goroutines + ahead c) e h.counted;
            waited = ground arith;
          })
    | inr z ↦ rw (z, step_caller) h
  ]
  step_caller-IsJoined returned s e h = h

  pub run-IsJoined :
      (turns : List Turn) (s : Shared W R E)
      → IsJoined exec n worlds s
      → IsJoined exec n worlds (run exec n turns s)
  unfolding run step
  run-IsJoined [] s h = h
  run-IsJoined (caller_turn ∷ turns) s h =
      run-IsJoined turns (step_caller n s.caller s) (step_caller-IsJoined s.caller s refl h)
  run-IsJoined (turn_of k ∷ turns) s h =
      run-IsJoined turns (step_goroutine exec (s.goroutines k) k s)
        (step_goroutine-IsJoined exec n worlds (s.goroutines k) k s refl h)

  pub run_start-IsJoined :
      (turns : List Turn) → IsJoined exec n worlds (run exec n turns (start worlds))
  run_start-IsJoined turns = run-IsJoined turns (start worlds) (start-IsJoined exec n worlds)

  total-alive_zero :
      (m : ℕ) (f : ℕ → Goroutine R E) (k : ℕ) → total alive m f ≡ 0 → k < m → alive (f k) ≡ 0
  total-alive_zero zero f k z l = absurd (omega arith)
  total-alive_zero (suc m) f k z l = elim (Bool-cases (k == m)) [
    | inl e ↦ let same : k ≡ m = ground arith in (λ i. alive (f (same i))) ∙ omega arith
    | inr e ↦ total-alive_zero m f k (omega arith) (ground arith)
  ]

  -- A goroutine that was started and is not alive has ended.
  ended_of : (g : Goroutine R E) → is_started g ≡ true → alive g ≡ 0 → g ≡ ended
  ended_of not_started u a = absurd (ground arith)
  ended_of (executing idx shard) u a = absurd (omega arith)
  ended_of (storing_result idx r e) u a = absurd (omega arith)
  ended_of (storing_error idx e) u a = absurd (omega arith)
  ended_of calling_done u a = absurd (omega arith)
  ended_of ended u a = refl

  -- When ExecOnAllShards has returned, in whatever order its steps and those of its goroutines were taken,
  -- then for each shard its goroutine has ended, result and error at the shard's index are those of the
  -- statement on that shard alone, and the shard is as that leaves it.
  pub exec_on_all_shards_lem :
      (turns : List Turn) (k : ℕ)
      → (run exec n turns (start worlds)).caller ≡ returned
      → k < n
      → let s = run exec n turns (start worlds) in
        (s.goroutines k ≡ ended)
        × (s.shards k ≡ (exec (worlds k)).0)
        × (s.results k ≡ (exec (worlds k)).1)
        × (s.errors k ≡ (exec (worlds k)).2)
  exec_on_all_shards_lem turns k back l =
      let s : Shared W R E = run exec n turns (start worlds) in
      let h = run_start-IsJoined turns in
      let none_left : s.wait_group ≡ 0 = subst (λ c. Waited c s.wait_group) back h.waited in
      let idle : total alive n s.goroutines ≡ 0 = omega (arith, h.counted, none_left) in
      let up : is_started (s.goroutines k) ≡ true =
        subst (λ c. (k : ℕ) → k < started n c → is_started (s.goroutines k) ≡ true) back h.used k
          l in
      let done : s.goroutines k ≡ ended =
        ended_of (s.goroutines k) up (total-alive_zero n s.goroutines k idle l) in
      let (w, r, e) : Slot exec n worlds ended k (s.shards k) (s.results k) (s.errors k) =
        subst (λ g. Slot exec n worlds g k (s.shards k) (s.results k) (s.errors k)) done
          (h.slots k) in
      (done, w, r, e)
