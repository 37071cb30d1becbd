-- ===== src/Rules/Parity.antt =====
-- internal/rules/m8engine.go: what CI and the local project have in common, or lack. A map is an
-- association list or the list of its keys; the order of a `range` over it is that of GoRuntime.
pub mod Sources
pub mod Commands
pub mod Services
pub mod Keys
pub mod Engine
pub mod Orderless
