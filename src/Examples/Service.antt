-- ===== src/Examples/Service.antt =====
-- The DNS service on the server of the examples.
use multi_cluster_traffic_co.Prelude.{
  String, none, some, List, [], ◌∷◌, ◌==◌, ◌≡◌, refl, ap, eq_refl, ok,
}
use multi_cluster_traffic_co.Api.Types.{DnsRecord, object_meta}
use multi_cluster_traffic_co.Slice.{contains_string}
use multi_cluster_traffic_co.Ingress.{Ingress, get_hosts, add_managed_host}
use multi_cluster_traffic_co.DnsService.Actions.{
  Managed, ensure_managed_host, add_endpoints, label_record_id, assign, generate_host, registered,
  get_managed_zones, choose_zone, register_host, get_if_exists,
}
use multi_cluster_traffic_co.DnsService.Records.{get_dns_records, records_of_hosts, add_record}
use multi_cluster_traffic_co.DnsService.Lookup.{host_key}
use multi_cluster_traffic_co.DnsService.Stable.{FindsHost, ensure_managed_host_again}
use multi_cluster_traffic_co.DnsService.Scope.{add_endpoints_other}
use multi_cluster_traffic_co.Examples.Server.{service, server_laws, view, ingress, differ}

abbrev pub host : String
host = "a1b2.example.com"

-- The record of a host, as RegisterHost creates it.
abbrev pub record_of : String → DnsRecord
record_of h = record {
  metadata = record (object_meta h "argocd") { labels = some ((label_record_id, "a1b2") ∷ []) };
  spec = record { endpoints = [] };
  status = record { zones = []; observed_generation = 0 };
}

abbrev managed : Managed
managed = record { hosts = host ∷ []; records = record_of host ∷ []; error = none }

-- An ingress with two hosts that have a record.
abbrev two_hosts : Ingress String
two_hosts = record ingress {
  rules = record { host = "a.test"; http = "x" } ∷ record { host = "b.test"; http = "x" } ∷ [];
}

abbrev two_records : List DnsRecord
two_records = record_of "a.test" ∷ record_of "b.test" ∷ []

first_run : ensure_managed_host service ingress [] ≡ (ok managed, record_of host ∷ [])
unfolding ensure_managed_host get_dns_records records_of_hosts add_record get_hosts contains_string
    assign generate_host registered get_managed_zones choose_zone register_host get_if_exists
first_run = refl

ensure_managed_host_again_example :
    FindsHost service view server_laws
      (λ a b. a == b)
      eq_refl
      host
      (record_of host ∷ [])
      (ensure_managed_host service
        (add_managed_host (λ a b. a == b) ingress host)
        (record_of host ∷ []))
ensure_managed_host_again_example =
    ensure_managed_host_again service view server_laws (λ a b. a == b) eq_refl ingress
      (record { host = "shop.test"; http = "backend" }) [] refl host (record_of host) []
      (record_of host ∷ []) (differ host "" refl) first_run

add_endpoints_other_example :
    view (add_endpoints service two_hosts two_records).1 (host_key service view "b.test")
    ≡ view two_records (host_key service view "b.test")
unfolding get_hosts contains_string
add_endpoints_other_example =
    add_endpoints_other service view (λ host s k. refl) server_laws two_hosts two_records
      (record_of "a.test") (record_of "b.test" ∷ []) (host_key service view "b.test") refl
      (λ e. differ "b.test" "a.test" refl (ap (λ k. k.name) e))
