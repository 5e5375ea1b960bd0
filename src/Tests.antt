-- ===== src/Tests.antt =====
-- Runs of the model on small data, and the theorems at concrete inputs.
pub mod Data
mod Matching
pub mod Valid
mod Submitting
mod Book
mod Queue
mod Risk
pub mod Listed
mod Pool
pub mod Agents
mod Files
mod Traders
mod Server
mod Ticks
