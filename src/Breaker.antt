-- ===== src/Breaker.antt =====
-- core/circuit_breaker.go: the circuit breaker's state and its methods. The mutex makes each method
-- one step, so a method is a function from the state to the new state. Times are nanoseconds on ℕ.
pub mod Invariant
pub mod Runs
pub mod Executor
use genus.Prelude.{
  ℕ, ◌+◌, ◌-◌, Bool, true, false, ◌&&◌, Option, none, some, List, [], ◌∷◌, leb, if◌then◌else◌, ℤ,
  positive_or,
}

-- `CircuitState`; an `iota` enumeration.
pub data CircuitState : Type 0 where
  closed opened half_open : CircuitState

pub CircuitState-discrete : Discrete CircuitState
CircuitState-discrete = hlevel

-- `CircuitBreakerConfig` as the caller gives it. The callback is present or absent; what it is told
-- is recorded in the breaker's `notified`.
pub record RawConfig (E : Type 0) : Type 0 where
  pub failure_threshold : ℤ
  pub success_threshold : ℤ
  pub timeout : ℤ
  pub on_state_change : Bool
  pub is_failure : Option (E → Bool)

-- `CircuitBreakerConfig` after `NewCircuitBreaker` replaced what is not positive.
pub record Config (E : Type 0) : Type 0 where
  pub failure_threshold : ℕ
  pub success_threshold : ℕ
  pub timeout : ℕ
  pub on_state_change : Bool
  pub is_failure : Option (E → Bool)

pub record CircuitBreaker (E : Type 0) : Type 0 where
  pub config : Config E
  pub state : CircuitState
  pub failures : ℕ
  pub successes : ℕ
  pub last_failure_time : ℕ
  -- the calls of `OnStateChange`, newest first
  pub notified : List (CircuitState × CircuitState)

-- 30 * time.Second
abbrev pub default_timeout : ℕ
default_timeout = 30_000_000_000

abbrev same : CircuitState → CircuitState → Bool
same closed closed = true
same opened opened = true
same half_open half_open = true
same _ _ = false

abbrev pub is_closed : CircuitState → Bool
is_closed s = same s closed

module _ {E : Type 0} where
  unfoldable pub new_circuit_breaker : RawConfig E → CircuitBreaker E
  new_circuit_breaker raw = record {
    config = record {
      failure_threshold = positive_or 5 raw.failure_threshold;
      success_threshold = positive_or 2 raw.success_threshold;
      timeout = positive_or default_timeout raw.timeout;
      on_state_change = raw.on_state_change;
      is_failure = raw.is_failure;
    };
    state = closed;
    failures = 0;
    successes = 0;
    last_failure_time = 0;
    notified = [];
  }

  unfoldable pub set_state : CircuitState → CircuitBreaker E → CircuitBreaker E
  set_state new_state cb = if same cb.state new_state then cb else record cb {
    state = new_state;
    successes = 0;
    failures = if is_closed new_state then 0 else cb.failures;
    notified =
        if cb.config.on_state_change then (cb.state, new_state) ∷ cb.notified else cb.notified;
  }

  -- the `switch` of `Allow`; `now` is the clock that `time.Since` reads
  unfoldable pub allow : ℕ → CircuitBreaker E → CircuitBreaker E × Bool
  unfolding set_state
  allow now cb = elim cb.state [
    | closed ↦ (cb, true)
    | opened ↦
        if leb cb.config.timeout (now - cb.last_failure_time)
        then (set_state half_open cb, true)
        else (cb, false)
    | half_open ↦ (cb, true)
  ]

  unfoldable pub record_success : CircuitBreaker E → CircuitBreaker E
  unfolding set_state
  record_success cb =
      let counted = record cb { failures = 0; successes = cb.successes + 1 } in
      if same cb.state half_open && leb cb.config.success_threshold (cb.successes + 1)
      then set_state closed counted
      else counted

  -- `cb.config.IsFailure != nil && !cb.config.IsFailure(err)`, negated
  unfoldable pub counts : Config E → E → Bool
  counts c err = elim c.is_failure [ none ↦ true | some f ↦ f err ]

  unfoldable pub record_failure : ℕ → E → CircuitBreaker E → CircuitBreaker E
  unfolding set_state
  record_failure now err cb =
      let counted = record cb {
        successes = 0;
        failures = cb.failures + 1;
        last_failure_time = now;
      } in
      let tripped : CircuitBreaker E =
        if same cb.state closed && leb cb.config.failure_threshold (cb.failures + 1)
        then set_state opened counted
        else counted in
      if counts cb.config err
      then if same tripped.state half_open then set_state opened tripped else tripped
      else cb

  unfoldable pub reset : CircuitBreaker E → CircuitBreaker E
  unfolding set_state
  reset cb = record (set_state closed cb) { failures = 0; successes = 0 }
