-- ===== src/Breaker/Executor.antt =====
-- core/circuit_breaker.go: CircuitBreakerExecutor, an executor behind a circuit breaker. The wrapped
-- executor is a parameter: a call takes the database to its next state and answers.
use genus.Prelude.{ℕ, ◌-◌, ◌<◌, ◌≡◌, true, Option, none, some, List, [], ◌∷◌, arith, if◌then◌else◌}
use genus.Breaker.{
  closed, opened, half_open, CircuitBreaker, allow, record_success, record_failure, counts,
}

-- `ErrCircuitOpen`, or the error of the wrapped executor.
pub data ExecError (E : Type 0) : Type 0 where
  err_circuit_open : ExecError E
  driver : E → ExecError E

-- What a method returns, `(result, err)`, with the breaker and the database after it.
pub record Done (E R W : Type 0) : Type 0 where
  pub breaker : CircuitBreaker E
  pub world : W
  pub result : Option R
  pub err : Option (ExecError E)

module _ {E R W : Type 0} where
  -- `now` is the clock at `Allow`, `later` the clock at `RecordFailure`.
  unfoldable pub exec_context :
      ℕ → ℕ → (W → W × Option R × Option E) → CircuitBreaker E → W → Done E R W
  exec_context now later call cb w =
      let (cb', allowed) = allow now cb in
      let (w', result, err) = call w in
      if allowed
      then elim err [
        | some e ↦ record {
          breaker = record_failure later e cb';
          world = w';
          result = result;
          err = some (driver e);
        }
        | none ↦ record { breaker = record_success cb'; world = w'; result = result; err = none }
      ]
      else record { breaker = cb'; world = w; result = none; err = some err_circuit_open }

  unfoldable pub query_context :
      ℕ → ℕ → (W → W × Option R × Option E) → CircuitBreaker E → W → Done E R W
  query_context now later call cb w =
      let (cb', allowed) = allow now cb in
      let (w', rows, err) = call w in
      if allowed
      then elim err [
        | some e ↦ record {
          breaker = record_failure later e cb';
          world = w';
          result = rows;
          err = some (driver e);
        }
        | none ↦ record { breaker = record_success cb'; world = w'; result = rows; err = none }
      ]
      else record { breaker = cb'; world = w; result = none; err = some err_circuit_open }

  -- A row keeps its error until `Scan`, so the breaker does not see it.
  unfoldable pub query_row_context :
      ℕ → (W → W × R) → CircuitBreaker E → W → CircuitBreaker E × W × Option R
  query_row_context now call cb w =
      let (cb', allowed) = allow now cb in
      let (w', row) = call w in
      if allowed then (record_success cb', w', some row) else (cb', w, none)

  -- While the circuit is open and its timeout has not passed, `ExecContext`, `QueryContext` and
  -- `QueryRowContext` leave the database and the breaker alone, and the first two report
  -- `ErrCircuitOpen`.
  pub refuses_when_open :
      (now later : ℕ) (call : W → W × Option R × Option E) (row : W → W × R) (cb : CircuitBreaker E)
      (w : W)
      → cb.state ≡ opened
      → now - cb.last_failure_time < cb.config.timeout
      → let refused : Done E R W = record {
        breaker = cb;
        world = w;
        result = none;
        err = some err_circuit_open;
      } in
        (exec_context now later call cb w ≡ refused)
        × (query_context now later call cb w ≡ refused)
        × (query_row_context now row cb w ≡ (cb, w, none))
  unfolding exec_context query_context query_row_context allow
  refuses_when_open now later call row cb w s t = ground arith

  -- A call that is let through runs once, its result and error are handed on, and in a half-open
  -- circuit an error that counts opens the circuit again.
  pub exec_context_half_open :
      (now later : ℕ) (call : W → W × Option R × Option E) (cb : CircuitBreaker E) (w : W) (e : E)
      → cb.state ≡ half_open
      → (call w).2 ≡ some e
      → counts cb.config e ≡ true
      → let done = exec_context now later call cb w in
        (done.world ≡ (call w).0)
        × (done.result ≡ (call w).1)
        × (done.err ≡ some (driver e))
        × (done.breaker.state ≡ opened)
        × (done.breaker.last_failure_time ≡ later)
  unfolding exec_context allow record_failure
  exec_context_half_open now later call cb w e s f c = ground arith

  pub query_rows : List (ℕ × (W → W × R)) → CircuitBreaker E → W → CircuitBreaker E
  query_rows [] cb w = cb
  query_rows ((now, call) ∷ calls) cb w =
      let (cb', w', row) = query_row_context now call cb w in query_rows calls cb' w'

  query_row_closed :
      (now : ℕ) (call : W → W × R) (cb : CircuitBreaker E) (w : W)
      → cb.state ≡ closed
      → (query_row_context now call cb w).0.state ≡ closed
  unfolding query_row_context allow record_success
  query_row_closed now call cb w s = ground arith

  -- However the database fails, a client that uses only `QueryRowContext` never opens a closed
  -- circuit.
  query_rows_never_open :
      (calls : List (ℕ × (W → W × R))) (cb : CircuitBreaker E) (w : W)
      → cb.state ≡ closed
      → (query_rows calls cb w).state ≡ closed
  unfolding query_rows
  query_rows_never_open [] cb w s = s
  query_rows_never_open ((now, call) ∷ calls) cb w s =
      query_rows_never_open calls _ _ (query_row_closed now call cb w s)
