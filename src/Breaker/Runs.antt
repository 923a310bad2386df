-- ===== src/Breaker/Runs.antt =====
-- core/circuit_breaker.go: whole histories of calls, the streaks that open and close the circuit.
use genus.Prelude.{
  ℕ, zero, suc, ◌+◌, ◌<◌, ◌≡◌, refl, true, false, List, [], ◌∷◌, arith, ltb, leb, if◌then◌else◌,
  length, All, Bool-cases, inl, inr, ◌∙◌,
}
use genus.Breaker.{
  closed, opened, half_open, RawConfig, Config, CircuitBreaker, new_circuit_breaker, allow,
  record_success, counts, record_failure, reset,
}
use genus.Breaker.Invariant.{
  IsValid, IsTracked, Trail, new_circuit_breaker-IsValid, allow-IsValid, record_success-IsValid,
  record_failure-IsValid, reset-IsValid, allow-IsTracked, record_success-IsTracked,
  record_failure-IsTracked, reset-IsTracked, new_circuit_breaker-IsTracked,
}

-- The calls that a client makes, with the clock's readings.
pub data Call (E : Type 0) : Type 0 where
  ask : ℕ → Call E
  succeed : Call E
  fail : ℕ → E → Call E
  force_closed : Call E

module _ {E : Type 0} where
  unfoldable step : Call E → CircuitBreaker E → CircuitBreaker E
  step (ask now) cb = (allow now cb).0
  step succeed cb = record_success cb
  step (fail now err) cb = record_failure now err cb
  step force_closed cb = reset cb

  unfoldable pub run : List (Call E) → CircuitBreaker E → CircuitBreaker E
  unfolding step
  run [] cb = cb
  run (c ∷ cs) cb = run cs (step c cb)

  run-IsValid : (cs : List (Call E)) (cb : CircuitBreaker E) → IsValid cb → IsValid (run cs cb)
  unfolding run step
  run-IsValid [] cb v = v
  run-IsValid (ask now ∷ cs) cb v = run-IsValid cs _ (allow-IsValid now cb v)
  run-IsValid (succeed ∷ cs) cb v = run-IsValid cs _ (record_success-IsValid cb v)
  run-IsValid (fail now err ∷ cs) cb v = run-IsValid cs _ (record_failure-IsValid now err cb v)
  run-IsValid (force_closed ∷ cs) cb v = run-IsValid cs _ (reset-IsValid cb v)

  run-IsTracked :
      (cs : List (Call E)) (cb : CircuitBreaker E) → IsTracked cb → IsTracked (run cs cb)
  unfolding run step
  run-IsTracked [] cb v = v
  run-IsTracked (ask now ∷ cs) cb v = run-IsTracked cs _ (allow-IsTracked now cb v)
  run-IsTracked (succeed ∷ cs) cb v = run-IsTracked cs _ (record_success-IsTracked cb v)
  run-IsTracked (fail now err ∷ cs) cb v =
      run-IsTracked cs _ (record_failure-IsTracked now err cb v)
  run-IsTracked (force_closed ∷ cs) cb v = run-IsTracked cs _ (reset-IsTracked cb v)

  -- After any calls on a new breaker, whatever its configuration: a closed circuit has fewer
  -- failures than the failure threshold, a half-open one fewer successes than the success
  -- threshold, and one of the two counters is 0.
  pub run-new_circuit_breaker-IsValid :
      (raw : RawConfig E) (cs : List (Call E)) → IsValid (run cs (new_circuit_breaker raw))
  run-new_circuit_breaker-IsValid raw cs = run-IsValid cs _ (new_circuit_breaker-IsValid raw)

  -- After any calls on a new breaker that has a callback, the changes that the callback was told
  -- form a path of the transition diagram from `closed` to the present state.
  pub notified-Trail :
      (raw : RawConfig E) (cs : List (Call E))
      → raw.on_state_change ≡ true
      → Trail (run cs (new_circuit_breaker raw)).notified (run cs (new_circuit_breaker raw)).state
  notified-Trail raw cs h = (run-IsTracked cs _ (new_circuit_breaker-IsTracked raw h)).1

  -- Failures one after the other, each with its time.
  pub fail_all : List (ℕ × E) → CircuitBreaker E → CircuitBreaker E
  fail_all [] cb = cb
  fail_all ((now, err) ∷ es) cb = fail_all es (record_failure now err cb)

  pub succeed_times : ℕ → CircuitBreaker E → CircuitBreaker E
  succeed_times zero cb = cb
  succeed_times (suc n) cb = succeed_times n (record_success cb)

  abbrev pub Counted : Config E → List (ℕ × E) → Type 0
  Counted c = All (λ e. counts c e.1 ≡ true)

  failure_of_opened :
      (now : ℕ) (err : E) (cb : CircuitBreaker E)
      → cb.state ≡ opened
      → (record_failure now err cb).state ≡ opened
  unfolding record_failure
  failure_of_opened now err cb s = ground arith

  failure_last :
      (c : Config E) (now : ℕ) (err : E) (cb : CircuitBreaker E)
      → cb.config ≡ c
      → cb.state ≡ closed
      → counts c err ≡ true
      → leb c.failure_threshold (cb.failures + 1) ≡ true
      → (record_failure now err cb).state ≡ opened
  unfolding record_failure
  failure_last c now err cb e s k last = ground arith

  failure_more :
      (c : Config E) (now : ℕ) (err : E) (cb : CircuitBreaker E)
      → cb.config ≡ c
      → cb.state ≡ closed
      → counts c err ≡ true
      → leb c.failure_threshold (cb.failures + 1) ≡ false
      → ((record_failure now err cb).config ≡ c)
        × ((record_failure now err cb).state ≡ closed)
        × ((record_failure now err cb).failures ≡ cb.failures + 1)
  unfolding record_failure
  failure_more c now err cb e s k more = ground arith

  fail_all_opened :
      (es : List (ℕ × E)) (cb : CircuitBreaker E)
      → cb.state ≡ opened
      → (fail_all es cb).state ≡ opened
  unfolding fail_all
  fail_all_opened [] cb s = s
  fail_all_opened ((now, err) ∷ es) cb s = fail_all_opened es _ (failure_of_opened now err cb s)

  fail_all_closed :
      (c : Config E) (es : List (ℕ × E)) (cb : CircuitBreaker E)
      → cb.config ≡ c
      → cb.state ≡ closed
      → cb.failures < c.failure_threshold
      → Counted c es
      → (fail_all es cb).state
        ≡ (if ltb (cb.failures + length es) c.failure_threshold then closed else opened)
  unfolding fail_all
  fail_all_closed c [] cb e s b k = ground arith
  fail_all_closed c ((now, err) ∷ es) cb e s b k =
      elim (Bool-cases (leb c.failure_threshold (cb.failures + 1))) [
        | inl last ↦ fail_all_opened es _ (failure_last c now err cb e s k.0 last) ∙ ground (arith)
        | inr more ↦
            let (e', s', n) = failure_more c now err cb e s k.0 more in
            fail_all_closed c es _ e' s' (ground arith) k.1 ∙ ground arith
      ]

  -- A closed circuit of a valid breaker that meets only failures which count: it stays closed
  -- while the failures, with those counted before, are below the threshold, and is open from then
  -- on.
  pub fail_all_lem :
      (es : List (ℕ × E)) (cb : CircuitBreaker E)
      → IsValid cb
      → cb.state ≡ closed
      → Counted cb.config es
      → (fail_all es cb).state
        ≡ (if ltb (cb.failures + length es) cb.config.failure_threshold then closed else opened)
  fail_all_lem es cb v s k = fail_all_closed cb.config es cb refl s (v.below_failures s) k

  success_step :
      (c : Config E) (cb : CircuitBreaker E)
      → cb.config ≡ c
      → cb.state ≡ half_open
      → leb c.success_threshold (cb.successes + 1) ≡ false
      → ((record_success cb).config ≡ c)
        × ((record_success cb).state ≡ half_open)
        × ((record_success cb).successes ≡ cb.successes + 1)
  unfolding record_success
  success_step c cb e s more = ground arith

  success_last :
      (c : Config E) (cb : CircuitBreaker E)
      → cb.config ≡ c
      → cb.state ≡ half_open
      → leb c.success_threshold (cb.successes + 1) ≡ true
      → (record_success cb).state ≡ closed
  unfolding record_success
  success_last c cb e s last = ground arith

  success_of_closed :
      (cb : CircuitBreaker E) → cb.state ≡ closed → (record_success cb).state ≡ closed
  unfolding record_success
  success_of_closed cb s = ground arith

  succeed_times_closed :
      (n : ℕ) (cb : CircuitBreaker E) → cb.state ≡ closed → (succeed_times n cb).state ≡ closed
  unfolding succeed_times
  succeed_times_closed zero cb s = s
  succeed_times_closed (suc n) cb s = succeed_times_closed n _ (success_of_closed cb s)

  succeed_times_half_open :
      (c : Config E) (n : ℕ) (cb : CircuitBreaker E)
      → cb.config ≡ c
      → cb.state ≡ half_open
      → cb.successes < c.success_threshold
      → (succeed_times n cb).state
        ≡ (if ltb (cb.successes + n) c.success_threshold then half_open else closed)
  unfolding succeed_times
  succeed_times_half_open c zero cb e s b = ground arith
  succeed_times_half_open c (suc n) cb e s b =
      elim (Bool-cases (leb c.success_threshold (cb.successes + 1))) [
        | inl last ↦ succeed_times_closed n _ (success_last c cb e s last) ∙ ground arith
        | inr more ↦
            let (e', s', k) = success_step c cb e s more in
            succeed_times_half_open c n _ e' s' (ground arith) ∙ ground arith
      ]

  -- A half-open circuit of a valid breaker closes exactly when the successes in a row reach the
  -- success threshold, and is half-open until then.
  pub succeed_times_lem :
      (n : ℕ) (cb : CircuitBreaker E)
      → IsValid cb
      → cb.state ≡ half_open
      → (succeed_times n cb).state
        ≡ (if ltb (cb.successes + n) cb.config.success_threshold then half_open else closed)
  succeed_times_lem n cb v s = succeed_times_half_open cb.config n cb refl s (v.below_successes s)
