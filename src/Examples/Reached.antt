-- ===== src/Examples/Reached.antt =====
-- An ingress whose address is published to a zone, by the program of the examples.
use multi_cluster_traffic_co.Prelude.{
  String, true, some, none, List, [], ◌∷◌, ◌≡◌, refl, eq_refl, ok,
}
use multi_cluster_traffic_co.Text.{itoa}
use multi_cluster_traffic_co.Slice.{contains_string}
use multi_cluster_traffic_co.Api.Types.{DnsRecord, object_key, object_meta}
use multi_cluster_traffic_co.Api.Endpoint.{set_provider_specific}
use multi_cluster_traffic_co.Certificates.{ensure_certificate, certificate}
use multi_cluster_traffic_co.Ingress.{Ingress, get_hosts, get_dns_targets}
use multi_cluster_traffic_co.DnsService.Records.{resolve_ips, resolve_targets}
use multi_cluster_traffic_co.DnsService.Endpoints.{
  new_addresses, missing_addresses, total_ips, set_weights, aws_endpoint_weight,
}
use multi_cluster_traffic_co.DnsService.Addresses.{IsAddressed}
use multi_cluster_traffic_co.DnsService.Addresses.Extended.{extended}
use multi_cluster_traffic_co.Aws.{
  change, update_record, submit, changes_of, changes_for, deletes_for, change_for_endpoint,
  endpoints_from_zone_status,
}
use multi_cluster_traffic_co.DnsRecord.Status.{
  zone_equal, published_in, record_is_already_published_to_zone, failed_is_false, merge_statuses,
  merge_all, merge_status, count_zone,
}
use multi_cluster_traffic_co.DnsRecord.Reconcile.{
  skips, publish_record_to_zones, publish_zones, append_status, condition_of, with_statuses,
}
use multi_cluster_traffic_co.DnsRecord.Convergence.Served.{ServesIf}
use multi_cluster_traffic_co.TrafficController.{
  handle, returns, copy_secret_to_workload_cluster, update_if_exists,
}
use multi_cluster_traffic_co.Wiring.Published.{handler_of}
use multi_cluster_traffic_co.Wiring.Zone.{handle_reaches_zone}
use multi_cluster_traffic_co.Examples.Server.{server_laws, view, ingress}
use multi_cluster_traffic_co.Examples.Compared.{cmp_laws}
use multi_cluster_traffic_co.Examples.Batch.{shop_naming}
use multi_cluster_traffic_co.Examples.Endpoints.{record_with}
use multi_cluster_traffic_co.Examples.Publication.{zone}
use multi_cluster_traffic_co.Examples.Wired.{deployed, host_secret, accepting}
use multi_cluster_traffic_co.Examples.Zones.{base, route53, route53_laws, start, after, published}

unserved : IsAddressed (record_with [])
unserved = record { managed = tt; once = tt }

-- The ingress, with the address of the zone's example.
abbrev arriving : Ingress String
arriving = record ingress { load_balancer = record { ip = "10.0.0.2"; hostname = "" } ∷ [] }

-- The server with the record of the host, and one of another host.
abbrev held : List DnsRecord
held =
    record (record_with []) { metadata = object_meta "other.test" "argocd" } ∷ record_with [] ∷ []

abbrev extended_record : DnsRecord
extended_record = extended ("10.0.0.2" ∷ []) (record_with [])

handle_reaches_zone_example :
    (t' : Ingress String) × (handle (handler_of deployed accepting) arriving held
      ≡ (ok (returns (handler_of deployed accepting) t' none none), extended_record ∷ held))
    × (view (extended_record ∷ held) (object_key (record_with []).metadata) ≡ some extended_record)
    × ServesIf true after.state (shop_naming "10.0.0.2")
unfolding get_hosts contains_string ensure_certificate certificate copy_secret_to_workload_cluster
    update_if_exists resolve_ips resolve_targets get_dns_targets skips with_statuses
    publish_record_to_zones publish_zones append_status merge_statuses merge_all published_in
    zone_equal failed_is_false condition_of record_is_already_published_to_zone change update_record
    submit changes_of changes_for change_for_endpoint deletes_for endpoints_from_zone_status
    count_zone merge_status new_addresses missing_addresses total_ips set_weights
    aws_endpoint_weight set_provider_specific itoa
handle_reaches_zone_example =
    handle_reaches_zone base route53 (λ z. z) zone shop_naming refl cmp_laws route53_laws start
      after refl (refl, tt) (λ k. refl) published refl deployed view server_laws accepting arriving
      (record_with []) extended_record (ok tt) host_secret ("10.0.0.2" ∷ []) held held held held
      held (extended_record ∷ held) eq_refl refl refl unserved refl refl refl refl refl (refl, tt)
      refl refl refl refl refl (shop_naming "10.0.0.2")
