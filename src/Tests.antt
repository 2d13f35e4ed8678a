-- ===== src/Tests.antt =====
-- The theorems applied to concrete inputs.
mod Queries
mod Rows
mod Logs
mod Captures
mod Daemon
mod Collectors
mod Outputs
mod Writers
mod Flags
