-- ===== src/Tests/Retry.antt =====
-- core/circuit_breaker.go, WithRetry: a function that fails twice and then answers.
use genus.Prelude.{
  ℕ, ◌+◌, ◌*◌, ◌≡◌, ◌≢◌, ◌≤◌, ◌↔◌, refl, true, false, Option, none, ◌⊎◌, inl, inr, [], ◌∷◌, pos, ℤ,
  codes, length, bytes_eq, ltb, if◌then◌else◌,
}
use genus.Retry.Loop.{RetryConfig, with_retry, react}
use genus.Retry.Bounds.{Capped, with_retry_bounds, with_retry_persistent}
use genus.Retry.Text.{Occurs, contains, contains_iff}

abbrev config : ℤ → RetryConfig ℕ
config n = record {
  max_retries = n;
  initial_backoff = 100;
  max_backoff = 150;
  multiply = λ b. b * 2;
  is_retryable = λ e. true;
}

abbrev never : ℕ → Option ℕ
never attempt = none

-- Fails twice, then returns the number of earlier calls.
abbrev flaky : ℕ → ℕ × (ℕ ⊎ ℕ)
flaky w = (w + 1, if ltb w 2 then inr 5 else inl w)

abbrev broken : ℕ → ℕ × (ℕ ⊎ ℕ)
broken w = (w + 1, inr 5)

flaky_test :
    with_retry (config (pos 3)) 0 never flaky 0
    ≡ record { value = 2; err = none; world = 3; calls = 3; waits = 150 ∷ 100 ∷ [] }
unfolding with_retry react
flaky_test = refl

with_retry_bounds_example :
    let r = with_retry (config (pos 3)) 0 never flaky 0 in
    (r.calls ≤ 4) × Capped (config (pos 3)) never r.waits × (length r.waits ≤ 3)
with_retry_bounds_example = with_retry_bounds (config (pos 3)) never 0 flaky 0

with_retry_persistent_example :
    let r = with_retry (config (pos 2)) 0 never broken 0 in
    (r.calls ≡ 3) × (length r.waits ≡ 2) × (r.value ≡ 0) × (r.err ≢ none)
with_retry_persistent_example =
    with_retry_persistent (config (pos 2)) never 0 broken 2 0 refl (λ v. (5, refl, refl))
      (λ i. refl)

contains_iff_example :
    (contains (codes "dial: Connection Reset") (codes "connection reset") ≡ true)
    ↔ Occurs (codes "connection reset") (codes "dial: Connection Reset")
contains_iff_example = contains_iff (codes "dial: Connection Reset") (codes "connection reset")

case_test : contains (codes "Connection Reset") (codes "connection reset") ≡ false
unfolding contains bytes_eq
case_test = refl
