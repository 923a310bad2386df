-- ===== src/Retry.antt =====
-- core/circuit_breaker.go: WithRetry, and the test of an error's text for what may be retried.
pub mod Loop
pub mod Text
pub mod Bounds
