-- ===== src/Agent.antt =====
-- agent/: the program on each node, which registers with the master, runs the jobs that are assigned
-- to the node, and reports on them.
pub mod Executor
pub mod Entries
pub mod Threads
pub mod Owners
pub mod Leak
pub mod Life
pub mod Client
pub mod Daemon
pub mod Connected
pub mod Reports
pub mod Cancelled
pub mod Races
mod Tests
