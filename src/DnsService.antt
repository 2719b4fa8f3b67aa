-- ===== src/DnsService.antt =====
-- pkg/dns/service.go: the managed hosts of a traffic object, and the endpoints of their DNSRecords.
-- `net.IP`, the resolver behind the interface HostResolver, the environment, shortuuid and
-- `strings.ToLower` are parameters.
pub mod Endpoints
pub mod Records
pub mod Actions
pub mod Weight
pub mod Lookup
pub mod Adding
pub mod Scope
pub mod Removing
pub mod Managed
pub mod Stable
pub mod Created
pub mod Resolver
pub mod Addresses
