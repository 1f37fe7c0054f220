-- ===== src/Tests.antt =====
-- Runs of the definitions on concrete inputs, and the theorems at concrete inputs.
pub mod Device
mod Calls
mod Codec
mod Fakes
mod Forms
mod Methods
pub mod Nodes
mod Views
mod Replies
mod Routes
