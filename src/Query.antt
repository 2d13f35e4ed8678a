-- ===== src/Query.antt =====
-- internal/query/filter.go: query expressions, compiled to predicates on events.
pub mod Duration
pub mod Operator
pub mod Field
pub mod Split
pub mod Clause
pub mod Filter
