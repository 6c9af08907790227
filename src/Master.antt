-- ===== src/Master.antt =====
-- The master node: its job table, node registry, resource accounting and scheduler.
pub mod KeyValue
pub mod Jobs
pub mod Nodes
pub mod Resources
pub mod Double
pub mod FairShare
pub mod Scheduler
pub mod Samples
pub mod RequestSamples
pub mod Rpc
pub mod JobCalls
pub mod Agents
pub mod Accounts
pub mod RequestStore
pub mod Requests
pub mod StateStore
pub mod Server
pub mod System
