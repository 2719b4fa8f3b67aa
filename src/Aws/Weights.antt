-- ===== src/Aws/Weights.antt =====
-- The record set of an endpoint that the DNS service made, with the weight that it set.
use multi_cluster_traffic_co.Prelude.{
  ℕ, ◌<◌, String, ◌≡◌, ◌≢◌, refl, arith, eq_iff, [], ◌∷◌, some, ok,
}
use multi_cluster_traffic_co.Text.{pos}
use multi_cluster_traffic_co.Api.Endpoint.{set_provider_specific, get_provider_specific_property}
use multi_cluster_traffic_co.DnsService.Endpoints.{address_endpoint}
use multi_cluster_traffic_co.DnsService.Weight.{weight_of, aws_endpoint_weight_bounds}
use multi_cluster_traffic_co.DnsService.Adding.{weighted}
use multi_cluster_traffic_co.Aws.{
  Change, change_for_endpoint, record_set_of, weight_value, property,
}

-- For a host and an address that are not empty, the endpoint that AddEndPoints makes, with the
-- weight for `n` addresses, becomes an A record of the host with that one address, the address as
-- the set identifier, a TTL of 60, and the weight as the number that it stands for.
pub change_for_endpoint-weighted :
    (n : ℕ) (host ip action : String)
    → 0 < n
    → host ≢ ""
    → ip ≢ ""
    → (c : Change) × (change_for_endpoint (weighted n (address_endpoint host ip)) action ≡ ok c)
      × (c.action ≡ action)
      × (c.resource_record_set.name ≡ host)
      × (c.resource_record_set.type ≡ "A")
      × (c.resource_record_set.ttl ≡ pos 60)
      × (c.resource_record_set.resource_records ≡ ip ∷ [])
      × (c.resource_record_set.set_identifier ≡ some ip)
      × (c.resource_record_set.weight ≡ some (pos (weight_of n)))
unfolding change_for_endpoint set_provider_specific
change_for_endpoint-weighted n host ip action h named set =
    let e = weighted n (address_endpoint host ip) in
    (
      record { action = action; resource_record_set = record_set_of e },
      ground (arith, eq_iff host ""),
      refl,
      unfold record_set_of in refl,
      unfold record_set_of in refl,
      unfold record_set_of in refl,
      unfold record_set_of in refl,
      unfold record_set_of in ground (arith, eq_iff ip ""),
      unfold record_set_of property weight_value get_provider_specific_property in
          ground (arith, aws_endpoint_weight_bounds n h),
    )
