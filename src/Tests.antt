-- ===== src/Tests.antt =====
-- A small cluster, runs of the program on it, and instances of the theorems.
mod Cluster
mod Clients
mod Rollouts
mod Runs
mod Triggers
mod Queues
mod Wiring
mod Interleaved
mod Sources
