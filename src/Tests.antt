-- ===== src/Tests.antt =====
-- Runs of the definitions on concrete inputs, and the theorems applied to them.
mod Breaker
mod Retry
mod Cache
mod Sharding
mod Shards
mod Query
mod Cursor
mod Detector
mod Migrate
mod Cqrs
mod Db
mod Diff
mod Events
