-- ===== src/Rules.antt =====
-- internal/rules: the engines that turn the evidence of collectors into findings.
pub mod Found
pub mod Env
pub mod Project
pub mod Host
pub mod Machine
pub mod Repro
pub mod Containers
pub mod Engine
pub mod Known
pub mod Parity
pub mod Hardware
pub mod Versions
pub mod Ranges
mod Examples
