-- ===== src/Examples/Endpoints.antt =====
-- The endpoints of a record with one host and two addresses.
use multi_cluster_traffic_co.Prelude.{
  ◌*◌, ◌≤◌, String, some, List, [], ◌∷◌, ◌==◌, ◌≡◌, refl, arith, ok, any,
}
use multi_cluster_traffic_co.Text.{itoa, parse_int, ℤ}
use multi_cluster_traffic_co.Api.Types.{DnsRecord, Endpoint, object_meta}
use multi_cluster_traffic_co.Api.Endpoint.{get_provider_specific, set_provider_specific}
use multi_cluster_traffic_co.DnsService.Endpoints.{
  with_addresses, remaining, address_endpoint, total_ips, new_addresses, missing_addresses,
  aws_endpoint_weight,
}
use multi_cluster_traffic_co.DnsService.Weight.{aws_endpoint_weight_bounds}
use multi_cluster_traffic_co.DnsService.Adding.{with_addresses-joined}
use multi_cluster_traffic_co.DnsService.Removing.{remaining_two}
use multi_cluster_traffic_co.Examples.Server.{differ}

-- The endpoint of an address, with a weight.
abbrev pub at : String → String → Endpoint
at ip weight = record (address_endpoint "shop.test" ip) {
  provider_specific = record { name = "aws/weight"; value = weight } ∷ [];
}

abbrev pub record_with : List Endpoint → DnsRecord
record_with es = record {
  metadata = object_meta "shop.test" "argocd";
  spec = record { endpoints = es };
  status = record { zones = []; observed_generation = 0 };
}

abbrev one : List Endpoint
one = at "10.0.0.1" "120" ∷ []

abbrev two : List Endpoint
two = at "10.0.0.1" "60" ∷ at "10.0.0.2" "60" ∷ []

-- The endpoint without its target.
abbrev bare : Endpoint
bare = record (at "10.0.0.1" "120") { targets = [] }

weighted_once :
    with_addresses ("10.0.0.1" ∷ "10.0.0.2" ∷ []) (record_with one)
    ≡ ok (record_with (at "10.0.0.1" "120" ∷ at "10.0.0.2" "60" ∷ []))
unfolding new_addresses missing_addresses total_ips set_provider_specific get_provider_specific itoa
weighted_once = with_addresses-joined ("10.0.0.1" ∷ "10.0.0.2" ∷ []) (record_with one) (omega arith)

remaining_two_example :
    any (λ e. e.set_identifier == "10.0.0.1") (remaining ("10.0.0.1" ∷ "10.0.0.2" ∷ []) two [])
    ≡ any (λ e. e.set_identifier == "10.0.0.1") two
remaining_two_example =
    remaining_two "10.0.0.1" "10.0.0.2" [] two (λ e. e.set_identifier == "10.0.0.1")
      (differ "10.0.0.1" "10.0.0.2" refl)

aws_endpoint_weight_bounds_example :
    (aws_endpoint_weight 7 ≡ ok "17")
    × (parse_int "17" ≡ some (ℤ.pos 17))
    × (1 ≤ 17)
    × (17 ≤ 120)
    × (17 * 7 ≤ 120)
unfolding itoa
aws_endpoint_weight_bounds_example = aws_endpoint_weight_bounds 7 (omega arith)
