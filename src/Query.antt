-- ===== src/Query.antt =====
-- query/: the query builders' conditions and the SQL text that is built from them.
pub mod Sql
pub mod Condition
pub mod Where
pub mod Numbering
pub mod Rewrite
pub mod Builder
pub mod Mutation
pub mod Statements
pub mod Fast
pub mod Chain
pub mod Scope
pub mod Nested
pub mod Cursor
pub mod Detector
