-- ===== src/Remote.antt =====
-- internal/remote: targets of a remote diagnosis.
pub mod Target
