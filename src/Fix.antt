-- ===== src/Fix.antt =====
-- internal/fix: the plan of fixes for a report's findings and its execution under guard.
pub mod Paths
mod Examples
pub mod Planned
pub mod Ranked
pub mod Proposals
pub mod Planner
pub mod AuditLog
pub mod Executor
pub mod Registry
pub mod Blocklist
pub mod Templates
pub mod Cleaned
pub mod Inside
pub mod Validate
