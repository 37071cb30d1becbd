-- ===== src/Tui.antt =====
-- internal/tui: what the terminal view shows of findings, its filters, its state and how messages
-- change it. How the state is drawn (view.go) is not modelled.
pub mod Derive
pub mod Filters
pub mod Model
pub mod Moves
pub mod Update
pub mod Session
pub mod Visible
pub mod Drained
mod Examples
