-- ===== src/Tests.antt =====
-- Small inputs: what the definitions compute on them, and the theorems at inputs where their
-- hypotheses hold.
mod Sample
mod Scheduling
mod Budgets
mod Clocks
mod Cycles
mod Timers
mod Nodes
mod Channels
mod Sweeps
mod Streams
mod Polls
mod Rounds
mod Routes
mod Handles
mod Gates
