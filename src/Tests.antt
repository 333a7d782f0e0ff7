-- ===== src/Tests.antt =====
-- Runs of the model at concrete inputs.
pub mod Queue
pub mod Polls
pub mod Table
pub mod Explorer
pub mod Pages
pub mod Whole
pub mod Views
pub mod Server
pub mod Commands
