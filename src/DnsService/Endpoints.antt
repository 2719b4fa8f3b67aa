-- ===== src/DnsService/Endpoints.antt =====
-- What pkg/dns/service.go computes on the endpoints of a DNSRecord, with no call in it.
use multi_cluster_traffic_co.Prelude.{
  ℕ, zero, suc, ◌+◌, ◌/◌, String, not, ◌&&◌, none, List, [], ◌∷◌, ◌++◌, ◌==◌, map, any, keep,
  length, ltb, if◌then◌else◌, Result, ok, err, panic,
}
use multi_cluster_traffic_co.Text.{itoa, ℤ}
use multi_cluster_traffic_co.Api.Types.{Endpoint, DnsRecord}
use multi_cluster_traffic_co.Api.Endpoint.{set_provider_specific}

abbrev pub max_weight : ℕ
max_weight = 120

-- ProviderSpecificWeight, of pkg/dns/aws/dns.go
abbrev pub provider_specific_weight : String
provider_specific_weight = "aws/weight"

-- awsEndpointWeight: an integer division, which panics at 0.
unfoldable pub aws_endpoint_weight : ℕ → Result String
aws_endpoint_weight zero = panic
aws_endpoint_weight (suc n) =
    let num_ips = if ltb max_weight (suc n) then max_weight else suc n in
    ok (itoa (max_weight / num_ips))

-- The loop over the records that are set to the weight; each round computes the weight again.
unfoldable pub set_weights : ℕ → List Endpoint → Result (List Endpoint)
set_weights total_ips [] = ok []
set_weights total_ips (e ∷ es) = elim (aws_endpoint_weight total_ips) [
  | ok weight ↦ elim (set_weights total_ips es) [
    | ok rest ↦ ok (set_provider_specific e provider_specific_weight weight ∷ rest)
    | err x ↦ err x
    | panic ↦ panic
  ]
  | err x ↦ err x
  | panic ↦ panic
]

-- The inner loops of `AddEndPoints`: the addresses for which there is no endpoint of the host.
unfoldable pub missing_addresses : String → List Endpoint → List String → List String
missing_addresses host endpoints ips =
    keep (λ addr. not (any (λ e. e.dns_name == host && e.set_identifier == addr) endpoints)) ips

-- The endpoint that `AddEndPoints` makes.
abbrev pub address_endpoint : String → String → Endpoint
address_endpoint host ep = record {
  dns_name = host;
  targets = ep ∷ [];
  record_type = "A";
  set_identifier = ep;
  record_ttl = ℤ.pos 60;
  labels = none;
  provider_specific = [];
}

-- totalIPs
unfoldable pub total_ips : List Endpoint → ℕ
total_ips [] = 0
total_ips (e ∷ es) = length e.targets + total_ips es

-- The addresses that `AddEndPoints` appends: all of them where the record has no endpoint.
unfoldable pub new_addresses : String → List Endpoint → List String → List String
unfolding missing_addresses
new_addresses host [] ips = ips
new_addresses host (e ∷ endpoints) ips = missing_addresses host (e ∷ endpoints) ips

-- The body of the loop of `AddEndPoints`, up to the update.
unfoldable pub with_addresses : List String → DnsRecord → Result DnsRecord
with_addresses ips r =
    let host = r.metadata.name in
    let endpoints =
      r.spec.endpoints ++ map (address_endpoint host) (new_addresses host r.spec.endpoints ips) in
    elim (set_weights (total_ips endpoints) endpoints) [
      | ok weighted ↦ ok (record r { spec = record { endpoints = weighted } })
      | err x ↦ err x
      | panic ↦ panic
    ]

-- The two inner loops of `RemoveEndpoints`, which append to `newEndpoints`.
unfoldable pub append_copies : Endpoint → List String → List Endpoint → List Endpoint
append_copies endpoint [] new_endpoints = new_endpoints
append_copies endpoint (addr ∷ ips) new_endpoints = append_copies endpoint ips (
    if not (endpoint.set_identifier == addr) then new_endpoints ++ endpoint ∷ [] else new_endpoints)

unfoldable pub remaining : List String → List Endpoint → List Endpoint → List Endpoint
unfolding append_copies
remaining ips [] new_endpoints = new_endpoints
remaining ips (endpoint ∷ endpoints) new_endpoints =
    remaining ips endpoints (append_copies endpoint ips new_endpoints)
