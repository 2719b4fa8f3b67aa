-- ===== src/Api.antt =====
-- pkg/apis/v1: the types of a DNSRecord, and the methods of an endpoint.
pub mod Types
pub mod Endpoint
