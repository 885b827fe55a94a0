-- ===== src/Tests.antt =====
-- The theorems at concrete inputs: a small cluster with a backend behind it, and runs in it.
mod World
mod MinioServer
mod OnMinio
mod Factories
mod Lifecycles
mod FullRuns
mod PathRuns
mod Filters
mod Cluster
mod Runs
mod Clients
mod Paths
mod Users
mod Keys
mod Links
mod Guards
mod Instances
mod Starts
mod Stays
