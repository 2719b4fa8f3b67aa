-- ===== src/Examples/Visits.antt =====
-- The endpoints of a host, and the handler of a cluster, while ingresses come and go.
use multi_cluster_traffic_co.Prelude.{
  String, not, Option, ◌&&◌, none, some, List, [], ◌∷◌, ◌==◌, ◌≡◌, refl, arith, ok,
}
use multi_cluster_traffic_co.Text.{itoa}
use multi_cluster_traffic_co.Slice.{contains_string}
use multi_cluster_traffic_co.Api.Types.{DnsRecord, object_key, object_meta}
use multi_cluster_traffic_co.Api.Endpoint.{set_provider_specific}
use multi_cluster_traffic_co.Ingress.{Ingress, get_hosts, get_dns_targets}
use multi_cluster_traffic_co.DnsService.Records.{resolve_ips, resolve_targets}
use multi_cluster_traffic_co.DnsService.Endpoints.{
  with_addresses, new_addresses, missing_addresses, total_ips, remaining, append_copies,
  set_weights, aws_endpoint_weight,
}
use multi_cluster_traffic_co.DnsService.Actions.{add_endpoints, remove_endpoints}
use multi_cluster_traffic_co.DnsService.Addresses.{IsAddressed}
use multi_cluster_traffic_co.DnsService.Addresses.Extended.{extended}
use multi_cluster_traffic_co.DnsService.Addresses.Runs.{
  arrive, leave, run, replay, served, run_refines, with_remaining, Visit, StaysAddressed, listed,
}
use multi_cluster_traffic_co.DnsService.Addresses.RoundTrip.{remove_endpoints-add_endpoints}
use multi_cluster_traffic_co.TrafficController.{handle, returns}
use multi_cluster_traffic_co.Wiring.{dns_service}
use multi_cluster_traffic_co.Wiring.Published.{handler_of}
use multi_cluster_traffic_co.Wiring.Withdrawn.{handle_withdraws, released}
use multi_cluster_traffic_co.Examples.Server.{server_laws, view, ingress}
use multi_cluster_traffic_co.Examples.Endpoints.{at, record_with}
use multi_cluster_traffic_co.Examples.Wired.{deployed, accepting}

pub addressed : IsAddressed (record_with (at "10.0.0.2" "120" ∷ []))
unfolding set_provider_specific itoa contains_string
addressed = record { managed = ((1, omega arith, refl), tt); once = (refl, tt) }

abbrev visits : List Visit
visits = arrive ("10.0.0.1" ∷ "10.0.0.2" ∷ []) ∷ leave ("10.0.0.2" ∷ []) ∷ []

run_refines_example :
    (stored' : Option DnsRecord) × (run visits (some (record_with (at "10.0.0.2" "120" ∷ [])))
      ≡ ok stored')
    × StaysAddressed (record_with (at "10.0.0.2" "120" ∷ [])) stored'
    × (listed stored' ≡ replay visits (some ("10.0.0.2" ∷ [])))
unfolding contains_string
run_refines_example =
    run_refines visits (record_with (at "10.0.0.2" "120" ∷ [])) addressed
      ((refl, (refl, tt)), (("10.0.0.2", refl), tt))

visits_test :
    run visits (some (record_with (at "10.0.0.2" "120" ∷ [])))
    ≡ ok (some (record_with (at "10.0.0.1" "60" ∷ [])))
unfolding with_addresses new_addresses missing_addresses total_ips set_provider_specific itoa
    remaining append_copies set_weights aws_endpoint_weight
visits_test = refl

-- The last address goes, and the record with it.
last_visit_test :
    run (leave ("10.0.0.2" ∷ []) ∷ []) (some (record_with (at "10.0.0.2" "120" ∷ []))) ≡ ok none
unfolding remaining append_copies
last_visit_test = refl

-- The server with the record, and one of another host.
abbrev elsewhere : DnsRecord → List DnsRecord
elsewhere r = record r { metadata = object_meta "other.test" "argocd" } ∷ r ∷ []

abbrev first : DnsRecord
first = record_with (at "10.0.0.2" "120" ∷ [])

abbrev joined : DnsRecord
joined = extended ("10.0.0.1" ∷ []) (record_with (at "10.0.0.2" "120" ∷ []))

remove_endpoints-add_endpoints_example :
    (add_endpoints (dns_service deployed) ingress (elsewhere first)
      ≡ (ok tt, joined ∷ elsewhere first))
    × (remove_endpoints (dns_service deployed) ingress (joined ∷ elsewhere first)
        ≡ (ok tt, first ∷ joined ∷ elsewhere first))
unfolding get_hosts contains_string resolve_ips resolve_targets get_dns_targets
remove_endpoints-add_endpoints_example =
    remove_endpoints-add_endpoints (dns_service deployed) view server_laws ingress "10.0.0.1" first
      joined (elsewhere first) (elsewhere first) (joined ∷ elsewhere first)
      (joined ∷ elsewhere first) addressed refl refl refl refl refl refl refl

-- The ingress, when it is to be deleted.
abbrev leaving : Ingress String
leaving = record ingress { metadata = record ingress.metadata { deletion_timestamp = some 5 } }

abbrev both : DnsRecord
both = record_with (at "10.0.0.1" "60" ∷ at "10.0.0.2" "60" ∷ [])

abbrev left : DnsRecord
left = with_remaining ("10.0.0.1" ∷ []) both

handle_withdraws_example :
    (handle (handler_of deployed accepting) leaving (both ∷ []) ≡ (
      ok (
          returns
            (handler_of deployed accepting)
            (released deployed view server_laws accepting leaving)
            none
            none),
      left ∷ both ∷ [],
    ))
    × (view (left ∷ both ∷ []) (object_key both.metadata) ≡ some left)
    × ((a : String) → served left a ≡ (served both a && not (a == "10.0.0.1")))
unfolding get_hosts contains_string resolve_ips resolve_targets get_dns_targets remaining
    append_copies
handle_withdraws_example =
    handle_withdraws deployed view server_laws accepting leaving "10.0.0.1" both left
      (at "10.0.0.2" "60") [] (both ∷ []) (both ∷ []) (left ∷ both ∷ []) refl refl refl refl refl
      refl
