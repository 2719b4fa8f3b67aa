-- ===== src/Examples.antt =====
-- Concrete runs: each result applied at an input, and tests of the definitions.
mod Store
mod Server
mod Service
mod Endpoints
mod Publication
mod Deletion
mod Traffic
mod Compared
mod Batch
mod Controller
mod Watching
mod Zones
mod Clusters
mod Registration
mod Wired
mod Visits
mod Started
mod Admitted
mod Reached
mod Removed
