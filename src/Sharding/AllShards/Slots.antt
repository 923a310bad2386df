-- ===== src/Sharding/AllShards/Slots.antt =====
-- core/shard_executor.go, ExecOnAllShards: what every state of its goroutines satisfies, and that
-- their steps keep it.
use mathlib.Core.Path.{subst}
use genus.Prelude.{
  ℕ, zero, suc, ◌+◌, ◌-◌, ◌≤◌, ◌<◌, ◌≡◌, ◌≢◌, refl, sym, ◌∙◌, true, false, Option, none, inl, inr,
  arith, ltb, ◌==◌, Bool-cases,
}
use genus.Sharding.AllShards.{
  Goroutine, not_started, executing, storing_result, storing_error, calling_done, ended, Caller,
  looping, starting, waiting, returned, Shared, put, start, step_goroutine,
}
use genus.Sharding.AllShards.Count.{put_at, put_off, total, total-put, alive, is_started}

-- How many goroutines were started, and whether wg.Add is ahead of them.
abbrev pub started : ℕ → Caller → ℕ
started n (looping i) = i
started n (starting i) = i
started n waiting = n
started n returned = n

abbrev pub ahead : Caller → ℕ
ahead (looping i) = 0
ahead (starting i) = 1
ahead waiting = 0
ahead returned = 0

-- wg.Wait has returned with the counter at 0.
abbrev pub Waited : Caller → ℕ → Type 0
Waited (looping i) count = Unit
Waited (starting i) count = Unit
Waited waiting count = Unit
Waited returned count = count ≡ 0

Waited-pred : (c : Caller) (count : ℕ) → Waited c count → Waited c (count - 1)
Waited-pred (looping i) count h = tt
Waited-pred (starting i) count h = tt
Waited-pred waiting count h = tt
Waited-pred returned count h = omega arith

module _ {W R E : Type 0} (exec : W → W × Option R × Option E) (n : ℕ) (worlds : ℕ → W) where
  -- What shard k and its places hold, along goroutine k: it was given index k and shard k.
  abbrev pub Slot : Goroutine R E → ℕ → W → Option R → Option E → Type 0
  Slot not_started k w r e = (w ≡ worlds k) × (r ≡ none) × (e ≡ none)
  Slot (executing idx shard) k w r e = (idx ≡ k) × (shard ≡ k) × (w ≡ worlds k)
  Slot (storing_result idx r' e') k w r e =
      (idx ≡ k)
      × (w ≡ (exec (worlds k)).0)
      × (r' ≡ (exec (worlds k)).1)
      × (e' ≡ (exec (worlds k)).2)
  Slot (storing_error idx e') k w r e =
      (idx ≡ k) × (w ≡ (exec (worlds k)).0) × (r ≡ (exec (worlds k)).1) × (e' ≡ (exec (worlds k)).2)
  Slot calling_done k w r e =
      (w ≡ (exec (worlds k)).0) × (r ≡ (exec (worlds k)).1) × (e ≡ (exec (worlds k)).2)
  Slot ended k w r e =
      (w ≡ (exec (worlds k)).0) × (r ≡ (exec (worlds k)).1) × (e ≡ (exec (worlds k)).2)

  pub record IsJoined (s : Shared W R E) : Type 0 where
    pub slots : (k : ℕ) → Slot (s.goroutines k) k (s.shards k) (s.results k) (s.errors k)
    pub fresh : (k : ℕ) → started n s.caller ≤ k → s.goroutines k ≡ not_started
    pub used : (k : ℕ) → k < started n s.caller → is_started (s.goroutines k) ≡ true
    pub within : started n s.caller + ahead s.caller ≤ n
    pub counted : s.wait_group ≡ total alive n s.goroutines + ahead s.caller
    pub waited : Waited s.caller s.wait_group

  pub start-IsJoined : IsJoined (start worlds)
  unfolding start
  start-IsJoined = record {
    slots = λ k. (refl, refl, refl);
    fresh = λ k l. refl;
    used = λ k l. absurd (omega arith);
    within = omega arith;
    counted = sym (none_alive n) ∙ omega arith;
    waited = tt;
  }
    where
      none_alive : (m : ℕ) → total (alive {R = R} {E = E}) m (λ i. not_started) ≡ 0
      none_alive zero = refl
      none_alive (suc m) = omega (arith, none_alive m)

  -- A step of goroutine k writes in slot k only.
  pub slots_put :
      (s : Shared W R E) (k : ℕ) (g : Goroutine R E) (shards : ℕ → W) (results : ℕ → Option R)
      (errors : ℕ → Option E)
      → ((j : ℕ) → Slot (s.goroutines j) j (s.shards j) (s.results j) (s.errors j))
      → Slot g k (shards k) (results k) (errors k)
      → ((j : ℕ)
          → k ≢ j
          → (shards j ≡ s.shards j) × (results j ≡ s.results j) × (errors j ≡ s.errors j))
      → (j : ℕ) → Slot (put k g s.goroutines j) j (shards j) (results j) (errors j)
  slots_put s k g shards results errors slots here others j = elim (Bool-cases (k == j)) [
    | inl e ↦
        let same : k ≡ j = ground arith in
        rw e (subst (λ j. Slot g j (shards j) (results j) (errors j)) same here)
    | inr e ↦
        let off : k ≢ j = λ same. absurd (ground arith) in
        let (a, b, c) = others j off in rw (e, a, b, c) (slots j)
  ]

  -- The rest of the invariant after a step of goroutine k < n from g to g'.
  fresh_put :
      (s : Shared W R E) (k : ℕ) (g : Goroutine R E)
      → IsJoined s
      → k < started n s.caller
      → (j : ℕ) → started n s.caller ≤ j
      → put k g s.goroutines j ≡ not_started
  fresh_put s k g h l j m = let other : (k == j) ≡ false = ground arith in rw other (h.fresh j m)

  used_put :
      (s : Shared W R E) (k : ℕ) (g : Goroutine R E)
      → IsJoined s
      → is_started g ≡ true
      → (j : ℕ) → j < started n s.caller
      → is_started (put k g s.goroutines j) ≡ true
  used_put s k g h started_g j m = elim (Bool-cases (k == j)) [
    | inl e ↦ rw e started_g
    | inr e ↦ rw e (h.used j m)
  ]

  -- A goroutine that was started is one of the n.
  pub started_below :
      (s : Shared W R E) (k : ℕ) (g : Goroutine R E)
      → IsJoined s
      → s.goroutines k ≡ g
      → is_started g ≡ true
      → k < started n s.caller
  started_below s k g h e started_g = elim (Bool-cases (ltb k (started n s.caller))) [
    | inl l ↦ ground arith
    | inr l ↦
        let idle : s.goroutines k ≡ not_started = h.fresh k (ground arith) in
        let wrong : false ≡ true =
          (λ i. is_started (sym idle i)) ∙ (λ i. is_started (e i)) ∙ started_g in
        absurd (ground arith)
  ]

  -- A step from a live goroutine to a live one, in slot k.
  moved :
      (s : Shared W R E) (k : ℕ) (g g' : Goroutine R E) (shards : ℕ → W) (results : ℕ → Option R)
      (errors : ℕ → Option E)
      → IsJoined s
      → s.goroutines k ≡ g
      → is_started g ≡ true
      → is_started g' ≡ true
      → alive g ≡ alive g'
      → Slot g' k (shards k) (results k) (errors k)
      → ((j : ℕ)
          → k ≢ j
          → (shards j ≡ s.shards j) × (results j ≡ s.results j) × (errors j ≡ s.errors j))
      → IsJoined (record s {
        shards = shards;
        results = results;
        errors = errors;
        goroutines = put k g' s.goroutines;
      })
  moved s k g g' shards results errors h e up up' same here others =
      let below : k < started n s.caller = started_below s k g h e up in
      let sum : total alive n (put k g' s.goroutines) + alive (s.goroutines k)
          ≡ total alive n s.goroutines + alive g' =
        total-put alive n k g' s.goroutines (omega (arith, h.within)) in
      let weight : alive (s.goroutines k) ≡ alive g' = (λ i. alive (e i)) ∙ same in
      record {
        slots = slots_put s k g' shards results errors h.slots here others;
        fresh = fresh_put s k g' h below;
        used = used_put s k g' h up';
        within = h.within;
        counted = omega (arith, h.counted, sum, weight);
        waited = h.waited;
      }

  pub step_goroutine-IsJoined :
      (g : Goroutine R E) (k : ℕ) (s : Shared W R E)
      → s.goroutines k ≡ g
      → IsJoined s
      → IsJoined (step_goroutine exec g k s)
  unfolding step_goroutine
  step_goroutine-IsJoined not_started k s e h = h
  step_goroutine-IsJoined (executing idx shard) k s e h =
      let (i, at, w) : Slot (executing idx shard) k (s.shards k) (s.results k) (s.errors k) =
        subst (λ g. Slot g k (s.shards k) (s.results k) (s.errors k)) e (h.slots k) in
      let there : s.shards shard ≡ worlds k = (λ x. s.shards (at x)) ∙ w in
      moved s k (executing idx shard) _ _ s.results s.errors h e refl refl refl
        (
          i,
          put_at shard k _ s.shards at ∙ (λ x. (exec (there x)).0),
          (λ x. (exec (there x)).1),
          (λ x. (exec (there x)).2),
        )
        (λ j off. (put_off shard k j _ s.shards at off, refl, refl))
  step_goroutine-IsJoined (storing_result idx r' e') k s e h =
      let (i, w, r, err) : Slot (storing_result idx r' e') k (s.shards k) (s.results k)
          (s.errors k) =
        subst (λ g. Slot g k (s.shards k) (s.results k) (s.errors k)) e (h.slots k) in
      moved s k (storing_result idx r' e') _ s.shards _ s.errors h e refl refl refl
        (i, w, put_at idx k r' s.results i ∙ r, err)
        (λ j off. (refl, put_off idx k j r' s.results i off, refl))
  step_goroutine-IsJoined (storing_error idx e') k s e h =
      let (i, w, r, err) : Slot (storing_error idx e') k (s.shards k) (s.results k) (s.errors k) =
        subst (λ g. Slot g k (s.shards k) (s.results k) (s.errors k)) e (h.slots k) in
      moved s k (storing_error idx e') _ s.shards s.results _ h e refl refl refl
        (w, r, put_at idx k e' s.errors i ∙ err)
        (λ j off. (refl, refl, put_off idx k j e' s.errors i off))
  step_goroutine-IsJoined calling_done k s e h =
      let slot : Slot calling_done k (s.shards k) (s.results k) (s.errors k) =
        subst (λ g. Slot g k (s.shards k) (s.results k) (s.errors k)) e (h.slots k) in
      let below : k < started n s.caller = started_below s k calling_done h e refl in
      let sum : total alive n (put k ended s.goroutines) + alive (s.goroutines k)
          ≡ total alive n s.goroutines + 0 =
        total-put alive n k ended s.goroutines (omega (arith, h.within)) in
      let weight : alive (s.goroutines k) ≡ 1 = λ i. alive (e i) in
      record {
        slots =
            slots_put s k ended s.shards s.results s.errors h.slots slot
              (λ j off. (refl, refl, refl));
        fresh = fresh_put s k ended h below;
        used = used_put s k ended h refl;
        within = h.within;
        counted = omega (arith, h.counted, sum, weight);
        waited = Waited-pred s.caller s.wait_group h.waited;
      }
  step_goroutine-IsJoined ended k s e h = h
