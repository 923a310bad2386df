-- ===== src/Retry/Loop.antt =====
-- core/circuit_breaker.go, WithRetry. The function that is retried acts on a state of its own; the
-- waits between the attempts are recorded. The product of the backoff with the float multiplier is a
-- parameter, and so is whether the context is done during the wait of an attempt.
use genus.Prelude.{
  ℕ, zero, suc, ◌+◌, Bool, false, Option, none, some, List, [], ◌∷◌, ◌⊎◌, inl, inr, if◌then◌else◌,
  ltb, ℤ, pos, negsuc,
}

pub record RetryConfig (E : Type 0) : Type 0 where
  pub max_retries : ℤ
  pub initial_backoff : ℕ
  pub max_backoff : ℕ
  -- time.Duration(float64(backoff) * config.Multiplier)
  pub multiply : ℕ → ℕ
  pub is_retryable : E → Bool

pub record Done (T E W : Type 0) : Type 0 where
  pub value : T
  pub err : Option E
  pub world : W
  pub calls : ℕ
  pub waits : List ℕ

-- How often `for attempt := 0; attempt <= max; attempt++` runs at most.
abbrev pub rounds : ℤ → ℕ
rounds (pos n) = suc n
rounds (negsuc n) = 0

-- `attempt < config.MaxRetries`
abbrev before : ℕ → ℤ → Bool
before attempt (pos n) = ltb attempt n
before attempt (negsuc n) = false

-- What follows a failed attempt: the loop returns an error, or goes on with the next backoff.
pub data Reaction (E : Type 0) : Type 0 where
  stop : E → List ℕ → Reaction E
  again : ℕ → List ℕ → Reaction E

module _ {E : Type 0} (c : RetryConfig E) (done : ℕ → Option E) where
  abbrev pub next_backoff : ℕ → ℕ
  next_backoff b = if ltb c.max_backoff (c.multiply b) then c.max_backoff else c.multiply b

  -- `done attempt` is the context's error if it is done during the wait after that attempt.
  unfoldable pub react : ℕ → ℕ → List ℕ → E → Reaction E
  react attempt backoff waits e =
      if c.is_retryable e
      then if before attempt c.max_retries
        then elim (done attempt) [
          | some ce ↦ stop ce (backoff ∷ waits)
          | none ↦ again (next_backoff backoff) (backoff ∷ waits)
        ]
        else again backoff waits
      else stop e waits

module _ {T E W : Type 0} (c : RetryConfig E) (nil : T) (done : ℕ → Option E)
    (fn : W → W × (T ⊎ E)) where
  unfoldable pub loop : ℕ → ℕ → ℕ → Option E → W → List ℕ → Done T E W
  loop zero attempt backoff last w waits = record {
    value = nil;
    err = last;
    world = w;
    calls = attempt;
    waits = waits;
  }
  loop (suc left) attempt backoff last w waits =
      let (w', result) = fn w in
      elim result [
        | inl t ↦ record { value = t; err = none; world = w'; calls = attempt + 1; waits = waits }
        | inr e ↦ elim (react c done attempt backoff waits e) [
          | stop err waited ↦ record {
            value = nil;
            err = some err;
            world = w';
            calls = attempt + 1;
            waits = waited;
          }
          | again backoff' waited ↦ loop left (attempt + 1) backoff' (some e) w' waited
        ]
      ]

  unfoldable pub with_retry : W → Done T E W
  unfolding loop
  with_retry w = loop (rounds c.max_retries) 0 c.initial_backoff none w []
