-- ===== src/Breaker/Invariant.antt =====
-- core/circuit_breaker.go: what holds of a breaker between two calls, and the transition diagram.
use genus.Prelude.{ℕ, ◌-◌, ◌↔◌, ◌<◌, ◌≡◌, ◌⊎◌, true, false, List, [], ◌∷◌, arith, positive_or_pos}
use genus.Breaker.{
  CircuitState, closed, opened, half_open, RawConfig, CircuitBreaker, default_timeout,
  new_circuit_breaker, set_state, allow, record_success, record_failure, reset,
}

-- The arrows that `setState` may take.
infix 40 ◌⟶◌
pub data ◌⟶◌ : CircuitState → CircuitState → Type 0 where
  trip : closed ⟶ opened
  probe : opened ⟶ half_open
  reopen : half_open ⟶ opened
  recover : half_open ⟶ closed
  -- only `Reset`
  force : opened ⟶ closed

-- The calls of `OnStateChange`, newest first, lead from `closed` to the given state.
pub data Trail : List (CircuitState × CircuitState) → CircuitState → Type 0 where
  start : Trail [] closed
  move :
      {l : List (CircuitState × CircuitState)} {s t : CircuitState}
      → Trail l s
      → s ⟶ t
      → Trail ((s, t) ∷ l) t

module _ {E : Type 0} where
  pub record IsValid (cb : CircuitBreaker E) : Type 0 where
    pub failure_positive : 0 < cb.config.failure_threshold
    pub success_positive : 0 < cb.config.success_threshold
    pub timeout_positive : 0 < cb.config.timeout
    pub below_failures : cb.state ≡ closed → cb.failures < cb.config.failure_threshold
    pub below_successes : cb.state ≡ half_open → cb.successes < cb.config.success_threshold
    pub one_streak : (cb.failures ≡ 0) ⊎ (cb.successes ≡ 0)

  pub new_circuit_breaker-IsValid : (raw : RawConfig E) → IsValid (new_circuit_breaker raw)
  unfolding new_circuit_breaker
  new_circuit_breaker-IsValid raw = ground (
    arith,
    positive_or_pos 5 raw.failure_threshold,
    positive_or_pos 2 raw.success_threshold,
    positive_or_pos default_timeout raw.timeout,
  )

  pub allow-IsValid : (now : ℕ) (cb : CircuitBreaker E) → IsValid cb → IsValid (allow now cb).0
  unfolding allow
  allow-IsValid now cb v = ground arith

  pub record_success-IsValid : (cb : CircuitBreaker E) → IsValid cb → IsValid (record_success cb)
  unfolding record_success
  record_success-IsValid cb v = ground arith

  pub record_failure-IsValid :
      (now : ℕ) (err : E) (cb : CircuitBreaker E) → IsValid cb → IsValid (record_failure now err cb)
  unfolding record_failure
  record_failure-IsValid now err cb v = ground arith

  pub reset-IsValid : (cb : CircuitBreaker E) → IsValid cb → IsValid (reset cb)
  unfolding reset set_state
  reset-IsValid cb v = ground arith

  -- A breaker with a callback whose reported changes are the path that it took.
  abbrev pub IsTracked : CircuitBreaker E → Type 0
  IsTracked cb = (cb.config.on_state_change ≡ true) × Trail cb.notified cb.state

  pub allow-IsTracked :
      (now : ℕ) (cb : CircuitBreaker E) → IsTracked cb → IsTracked (allow now cb).0
  unfolding allow
  allow-IsTracked now cb v = grind (arith, move, trip, probe, reopen, recover, force)

  pub record_success-IsTracked :
      (cb : CircuitBreaker E) → IsTracked cb → IsTracked (record_success cb)
  unfolding record_success
  record_success-IsTracked cb v = grind (arith, move, trip, probe, reopen, recover, force)

  pub record_failure-IsTracked :
      (now : ℕ) (err : E) (cb : CircuitBreaker E)
      → IsTracked cb
      → IsTracked (record_failure now err cb)
  unfolding record_failure
  record_failure-IsTracked now err cb v = grind (arith, move, trip, probe, reopen, recover, force)

  pub reset-IsTracked : (cb : CircuitBreaker E) → IsTracked cb → IsTracked (reset cb)
  unfolding reset set_state
  reset-IsTracked cb v = grind (arith, move, trip, probe, reopen, recover, force)

  pub new_circuit_breaker-IsTracked :
      (raw : RawConfig E) → raw.on_state_change ≡ true → IsTracked (new_circuit_breaker raw)
  unfolding new_circuit_breaker
  new_circuit_breaker-IsTracked raw h = (h, start)

  -- `Allow` refuses exactly while the circuit is open and the timeout since the last failure has
  -- not passed.
  allow_refuses_iff :
      (now : ℕ) (cb : CircuitBreaker E)
      → ((allow now cb).1 ≡ false)
        ↔ ((cb.state ≡ opened) × (now - cb.last_failure_time < cb.config.timeout))
  unfolding allow
  allow_refuses_iff now cb = (λ h. ground arith, λ h. ground arith)

  pub allow_refused_unchanged :
      (now : ℕ) (cb : CircuitBreaker E) → (allow now cb).1 ≡ false → (allow now cb).0 ≡ cb
  unfolding allow
  allow_refused_unchanged now cb h = ground arith
