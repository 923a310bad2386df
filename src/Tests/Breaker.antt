-- ===== src/Tests/Breaker.antt =====
-- core/circuit_breaker.go: a breaker with both thresholds 2 and a timeout of 10.
use genus.Prelude.{ℕ, ◌+◌, ◌≡◌, refl, true, false, none, some, Option, List, [], ◌∷◌, arith, pos}
use genus.Breaker.{
  CircuitState, closed, opened, half_open, RawConfig, CircuitBreaker, new_circuit_breaker, allow,
  record_success, record_failure, counts,
}
use genus.Breaker.Invariant.{IsValid, Trail}
use genus.Breaker.Runs.{
  Call, ask, succeed, fail, run, run-new_circuit_breaker-IsValid, notified-Trail, fail_all,
  fail_all_lem, succeed_times, succeed_times_lem,
}

abbrev raw : RawConfig ℕ
raw = record {
  failure_threshold = pos 2;
  success_threshold = pos 2;
  timeout = pos 10;
  on_state_change = true;
  is_failure = none;
}

abbrev history : List (Call ℕ)
history = fail 1 7 ∷ fail 2 7 ∷ ask 20 ∷ succeed ∷ []

abbrev base : CircuitState → CircuitBreaker ℕ
base s = record {
  config = record {
    failure_threshold = 2;
    success_threshold = 2;
    timeout = 10;
    on_state_change = true;
    is_failure = none;
  };
  state = s;
  failures = 0;
  successes = 0;
  last_failure_time = 3;
  notified = [];
}

base-IsValid : (s : CircuitState) → IsValid (base s)
base-IsValid s = ground arith

-- The database counts its calls; every call fails with error 9 or answers with the count.
abbrev failing : ℕ → ℕ × Option ℕ × Option ℕ
failing w = (w + 1, none, some 9)

abbrev row : ℕ → ℕ × ℕ
row w = (w + 1, w)

open_blocks_test : (allow 5 (base opened)).1 ≡ false
unfolding allow
open_blocks_test = refl

open_probes_test : (allow 13 (base opened)).0.state ≡ half_open
unfolding allow
open_probes_test = refl

history_test : (run history (new_circuit_breaker raw)).state ≡ half_open
unfolding run new_circuit_breaker allow record_failure record_success counts
history_test = refl

run-new_circuit_breaker-IsValid_example : IsValid (run history (new_circuit_breaker raw))
run-new_circuit_breaker-IsValid_example = run-new_circuit_breaker-IsValid raw history

notified-Trail_example :
    Trail
      (run history (new_circuit_breaker raw)).notified
      (run history (new_circuit_breaker raw)).state
notified-Trail_example = notified-Trail raw history refl

fail_all_lem_example : (fail_all ((4, 7) ∷ (5, 7) ∷ []) (base closed)).state ≡ opened
unfolding counts
fail_all_lem_example =
    fail_all_lem ((4, 7) ∷ (5, 7) ∷ []) (base closed) (base-IsValid closed) refl (refl, (refl, tt))

succeed_times_lem_example : (succeed_times 2 (base half_open)).state ≡ closed
succeed_times_lem_example = succeed_times_lem 2 (base half_open) (base-IsValid half_open) refl
