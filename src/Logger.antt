-- ===== src/Logger.antt =====
-- internal/elitech/logger.go: a session with one device over a HID transport.
pub mod Transport
pub mod Exchange
pub mod Identity
pub mod Download
pub mod Configure
pub mod Copies
pub mod Logic
pub mod Arrival
pub mod Window
pub mod Slots
pub mod Selection
pub mod Panics
pub mod Requests
pub mod Termination
pub mod Erase
pub mod Written
pub mod Sequence
