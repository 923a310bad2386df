-- ===== src/Retry/Bounds.antt =====
-- core/circuit_breaker.go, WithRetry: how often it calls, how long it waits, and what it returns.
use genus.Prelude.{
  sum_cases, ℕ, zero, suc, ◌+◌, ◌-◌, ◌≤◌, ◌<◌, ◌≡◌, ◌≢◌, refl, true, false, Option, none, some,
  List, [], ◌∷◌, ◌⊎◌, inl, inr, arith, ltb, ℤ, pos, negsuc, length, Bool-cases, pos_part, ◌≤ℤ◌, ap,
  ltb→lt, not_ltb→le,
}
use genus.Retry.Loop.{
  RetryConfig, Done, Reaction, stop, again, rounds, react, next_backoff, loop, with_retry,
}

rounds_pos : (z : ℤ) → pos 0 ≤ℤ z → 0 < rounds z
rounds_pos (pos n) h = omega arith
rounds_pos (negsuc n) h = absurd (omega arith)

module _ {E : Type 0} (c : RetryConfig E) (done : ℕ → Option E) where
  -- Newest first: every wait but the first of the run is at most `max_backoff`.
  abbrev pub Capped : List ℕ → Type 0
  Capped [] = Unit
  Capped (b ∷ []) = Unit
  Capped (b ∷ b' ∷ bs) = (b ≤ c.max_backoff) × Capped (b' ∷ bs)

  Capped-tail : (b : ℕ) (bs : List ℕ) → Capped (b ∷ bs) → Capped bs
  Capped-tail b [] h = tt
  Capped-tail b (b' ∷ bs) h = h.1

  react_again :
      (attempt backoff : ℕ) (waits : List ℕ) (e : E) (b : ℕ) (ws : List ℕ)
      → Capped (backoff ∷ waits)
      → length waits ≤ attempt
      → length waits ≤ pos_part c.max_retries
      → react c done attempt backoff waits e ≡ again b ws
      → Capped (b ∷ ws) × (length ws ≤ attempt + 1) × (length ws ≤ pos_part c.max_retries)
  unfolding react
  react_again attempt backoff [] e b ws r h k q = ground arith
  react_again attempt backoff (x ∷ xs) e b ws r h k q = ground arith

  react_stop :
      (attempt backoff : ℕ) (waits : List ℕ) (e err : E) (ws : List ℕ)
      → Capped (backoff ∷ waits)
      → length waits ≤ attempt
      → length waits ≤ pos_part c.max_retries
      → react c done attempt backoff waits e ≡ stop err ws
      → Capped ws × (length ws ≤ pos_part c.max_retries)
  unfolding react
  react_stop attempt backoff [] e err ws r h k q = ground arith
  react_stop attempt backoff (x ∷ xs) e err ws r h k q =
      ground (arith, Capped-tail backoff (x ∷ xs))

  react_more :
      (n attempt backoff : ℕ) (waits : List ℕ) (e : E)
      → c.max_retries ≡ pos n
      → c.is_retryable e ≡ true
      → done attempt ≡ none
      → ltb attempt n ≡ true
      → react c done attempt backoff waits e ≡ again (next_backoff c done backoff) (backoff ∷ waits)
  unfolding react
  react_more n attempt backoff waits e m t d h = ground arith

  react_last :
      (n attempt backoff : ℕ) (waits : List ℕ) (e : E)
      → c.max_retries ≡ pos n
      → c.is_retryable e ≡ true
      → ltb attempt n ≡ false
      → react c done attempt backoff waits e ≡ again backoff waits
  unfolding react
  react_last n attempt backoff waits e m t h = ground arith

  react_cases :
      (r : Reaction E)
      → ((err : E) × (ws : List ℕ) × (r ≡ stop err ws))
        ⊎ ((b : ℕ) × (ws : List ℕ) × (r ≡ again b ws))
  react_cases (stop err ws) = inl (err, ws, refl)
  react_cases (again b ws) = inr (b, ws, refl)

  module _ {T W : Type 0} (nil : T) (fn : W → W × (T ⊎ E)) where
    loop_bounds :
        (left attempt backoff : ℕ) (last : Option E) (w : W) (waits : List ℕ)
        → Capped (backoff ∷ waits)
        → length waits ≤ attempt
        → length waits ≤ pos_part c.max_retries
        → let r = loop c nil done fn left attempt backoff last w waits in
          (r.calls ≤ attempt + left) × Capped r.waits × (length r.waits ≤ pos_part c.max_retries)
    unfolding loop
    loop_bounds zero attempt backoff last w waits r h k =
        (omega arith, Capped-tail backoff waits r, k)
    loop_bounds (suc left) attempt backoff last w waits r h k = grind (
      arith,
      loop_bounds left,
      react_again attempt backoff waits,
      react_stop attempt backoff waits,
    )

    -- `WithRetry` calls its function at most `MaxRetries + 1` times, and never if `MaxRetries` is
    -- negative; it waits at most `MaxRetries` times, and every wait but the first is at most
    -- `MaxBackoff`.
    pub with_retry_bounds :
        (w : W)
        → let r = with_retry c nil done fn w in
          (r.calls ≤ rounds c.max_retries)
          × Capped r.waits
          × (length r.waits ≤ pos_part c.max_retries)
    unfolding with_retry
    with_retry_bounds w =
        let h =
          loop_bounds (rounds c.max_retries) 0 c.initial_backoff none w [] tt (omega arith)
            (omega arith) in
        (omega arith, h.1, h.2)

    abbrev Sound : Done T E W → Type 0
    Sound r = r.err ≡ none → (w₀ : W) × (fn w₀ ≡ (r.world, inl r.value))

    -- The body of the loop after one call, with what the later rounds give.
    round_success :
        (left attempt backoff : ℕ) (last : Option E) (w : W) (waits : List ℕ)
        → ((b : ℕ) (x : E) (v : W) (ws : List ℕ)
            → Sound (loop c nil done fn left (attempt + 1) b (some x) v ws))
        → Sound (loop c nil done fn (suc left) attempt backoff last w waits)
    unfolding loop
    round_success left attempt backoff last w waits ih = elim (sum_cases (fn w).1) [
      | inl (t, p) ↦ λ _. (w, ground arith)
      | inr (x, p) ↦
          rw (p, loop)
            (elim (react_cases (react c done attempt backoff waits x)) [
              | inl (err, ws, q) ↦ rw (q, loop) (λ e. absurd (ground arith))
              | inr (b, ws, q) ↦ rw (q, loop) (ih b x (fn w).0 ws)
            ])
    ]

    loop_success :
        (left attempt backoff : ℕ) (last : Option E) (w : W) (waits : List ℕ)
        → (0 < left) ⊎ (last ≢ none)
        → Sound (loop c nil done fn left attempt backoff last w waits)
    loop_success zero attempt backoff last w waits h = unfold loop in (λ e. ground arith)
    loop_success (suc left) attempt backoff last w waits h =
        round_success left attempt backoff last w waits
          (λ b x v ws. loop_success left (attempt + 1) b (some x) v ws (inr (λ e. cc)))

    -- With `MaxRetries` not negative, a run that reports no error returns what a call of the function
    -- returned, and leaves the state as that call left it.
    with_retry_success :
        (w : W)
        → pos 0 ≤ℤ c.max_retries
        → (with_retry c nil done fn w).err ≡ none
        → (w₀ : W) × (fn w₀
            ≡ ((with_retry c nil done fn w).world, inl (with_retry c nil done fn w).value))
    unfolding with_retry
    with_retry_success w h e =
        loop_success (rounds c.max_retries) 0 c.initial_backoff none w []
          (inl (rounds_pos c.max_retries h)) e

    -- With a negative `MaxRetries` the function is never called, and the run still reports no error.
    pub with_retry_negative :
        (w : W) (n : ℕ)
        → c.max_retries ≡ negsuc n
        → with_retry c nil done fn w
          ≡ record { value = nil; err = none; world = w; calls = 0; waits = [] }
    unfolding with_retry loop
    with_retry_negative w n h = rw h

    loop_persistent :
        (n : ℕ) (left attempt backoff : ℕ) (last : Option E) (w : W) (waits : List ℕ)
        → c.max_retries ≡ pos n
        → attempt + left ≡ n + 1
        → ((v : W) → (x : E) × ((fn v).1 ≡ inr x) × (c.is_retryable x ≡ true))
        → ((i : ℕ) → done i ≡ none)
        → let r = loop c nil done fn left attempt backoff last w waits in
          (r.calls ≡ n + 1)
          × (length r.waits ≡ length waits + (n - attempt))
          × (r.value ≡ nil)
          × ((last ≢ none) ⊎ (0 < left) → r.err ≢ none)
    unfolding loop
    loop_persistent n zero attempt backoff last w waits m e f d = grind arith
    loop_persistent n (suc left) attempt backoff last w waits m e f d =
        let (x, p, t) = f w in
        elim (Bool-cases (ltb attempt n)) [
          | inl more ↦
              let ih =
                loop_persistent n left (attempt + 1) (next_backoff c done backoff) (some x) (fn w).0
                  (backoff ∷ waits) m (omega arith) f d in
              rw (p, loop)
                (rw (react_more n attempt backoff waits x m t (d attempt) more, loop)
                  (
                    ih.0,
                    omega (arith, ih.1, ltb→lt attempt n more),
                    ih.2,
                    λ _. ih.3 (inl (λ z. cc)),
                  ))
          | inr last_one ↦
              let ih =
                loop_persistent n left (attempt + 1) backoff (some x) (fn w).0 waits m (omega arith)
                  f d in
              rw (p, loop)
                (rw (react_last n attempt backoff waits x m t last_one, loop)
                  (
                    ih.0,
                    omega (arith, ih.1, not_ltb→le attempt n last_one),
                    ih.2,
                    λ _. ih.3 (inl (λ z. cc)),
                  ))
        ]

    -- If every call fails with an error that may be retried and the context is never done, then
    -- `WithRetry` makes exactly `MaxRetries + 1` calls and `MaxRetries` waits, and returns the zero
    -- value with an error.
    pub with_retry_persistent :
        (n : ℕ) (w : W)
        → c.max_retries ≡ pos n
        → ((v : W) → (x : E) × ((fn v).1 ≡ inr x) × (c.is_retryable x ≡ true))
        → ((i : ℕ) → done i ≡ none)
        → let r = with_retry c nil done fn w in
          (r.calls ≡ n + 1) × (length r.waits ≡ n) × (r.value ≡ nil) × (r.err ≢ none)
    unfolding with_retry
    with_retry_persistent n w m f d =
        let h = loop_persistent n (suc n) 0 c.initial_backoff none w [] m (omega arith) f d in
        rw (ap rounds m) (h.0, omega (arith, h.1), h.2, h.3 (inr (omega arith)))
