-- ===== src/DnsRecord.antt =====
-- pkg/controllers/dnsrecord/dnsrecord_controller.go: the reconciler of DNSRecords.
-- The clock gives the reading at each call by a function of the call's number.
pub mod Removal
pub mod Status
pub mod Reconcile
pub mod Conditions
pub mod Publication
pub mod Stale
pub mod Comparison
pub mod Deletion
pub mod Route53
pub mod Convergence
