-- ===== src/Examples/Zones.antt =====
-- A zone of Route 53 as the state, and a record that is published to it.
use multi_cluster_traffic_co.Prelude.{
  String, List, [], ◌∷◌, refl, ap, none, some, Kind, ok, Exec, sym,
}
use multi_cluster_traffic_co.Slice.{contains_string, remove_string}
use multi_cluster_traffic_co.Api.Types.{DnsRecord, DnsZoneStatus}
use multi_cluster_traffic_co.Aws.{
  Change, upsert_action, change, update_record, submit, changes_of, changes_for, deletes_for,
  change_for_endpoint, endpoints_from_zone_status, aws_provider,
}
use multi_cluster_traffic_co.Aws.Zone.{Zone, apply_all, change_to}
use multi_cluster_traffic_co.DnsRecord.Status.{
  zone_equal, published_in, record_is_already_published_to_zone, failed_is_false, merge_statuses,
  merge_all, merge_status, count_zone,
}
use multi_cluster_traffic_co.DnsRecord.Reconcile.{
  Reconciler, skips, publish_record_to_zones, publish_zones, append_status, condition_of,
  with_statuses,
}
use multi_cluster_traffic_co.DnsRecord.Route53.{Route53Laws, Exact}
use multi_cluster_traffic_co.DnsRecord.Convergence.{World, with_aws, round, Reach, here, next}
use multi_cluster_traffic_co.DnsRecord.Convergence.Reachable.{Reach-Exact}
use multi_cluster_traffic_co.DnsRecord.Convergence.Served.{
  is_address_key, serving, ServesIf, Reach-Serves, IsManaged-Named,
}
use multi_cluster_traffic_co.DnsService.Addresses.Runs.{Visit, arrive, replay}
use multi_cluster_traffic_co.DnsService.Endpoints.{
  with_addresses, new_addresses, total_ips, set_weights, aws_endpoint_weight,
}
use multi_cluster_traffic_co.Api.Endpoint.{set_provider_specific}
use multi_cluster_traffic_co.Text.{itoa}
use multi_cluster_traffic_co.Examples.Compared.{cmp_equal, cmp_laws}
use multi_cluster_traffic_co.Examples.Visits.{addressed}
use multi_cluster_traffic_co.Examples.Batch.{shop_naming}
use multi_cluster_traffic_co.Examples.Endpoints.{at, record_with}
use multi_cluster_traffic_co.Examples.Publication.{zone}

abbrev pub fresh : DnsRecord
fresh = record_with (at "10.0.0.2" "120" ∷ [])

-- Every batch is applied.
abbrev pub route53 : String → List Change → Exec Zone (Unit {0})
route53 zone_id batch z = (ok tt, apply_all batch z)

abbrev pub base : Reconciler Zone
base = record {
  client = record {
    get = λ k s. (ok fresh, s);
    create = λ o s. (ok o, s);
    update = λ o s. (ok o, s);
    update_status = λ o s. (ok o, s);
    delete = λ o s. (ok tt, s);
  };
  dns_provider = aws_provider route53;
  dns_zones = zone ∷ [];
  contains_finalizer = contains_string;
  add_finalizer = λ fs f. f ∷ fs;
  remove_finalizer = remove_string;
  new_aggregate = λ errs. record { kind = Kind.plain; message = "" };
  cmp_equal = cmp_equal;
  now = λ calls. 5;
  clock = λ calls. 5;
}

pub route53_laws : Route53Laws route53 (λ z. z) "Z1"
route53_laws = record { applied = λ batch s s' k called. ap (λ x. x.1 k) (sym called) }

abbrev pub start : World Zone
start = record { dns_record = fresh; state = λ k. none }

abbrev pub statuses : List DnsZoneStatus
statuses = (elim (publish_record_to_zones (with_aws base route53) (zone ∷ []) fresh (λ k. none)).0 [
  | ok published ↦ published
  | _ ↦ []
])

abbrev pub after : World Zone
after = record {
  dns_record = with_statuses (with_aws base route53) fresh statuses;
  state = apply_all (change_to upsert_action (at "10.0.0.2" "120") ∷ []) (λ k. none);
}

pub published : Reach base route53 (λ z. z) zone shop_naming start after
unfolding skips record_is_already_published_to_zone change update_record submit changes_of
    changes_for change_for_endpoint deletes_for endpoints_from_zone_status publish_record_to_zones
    publish_zones append_status merge_statuses condition_of
published = next here (round statuses _ refl refl refl)

Reach-Exact_example : Exact after.state after.dns_record
unfolding skips with_statuses publish_record_to_zones publish_zones append_status merge_statuses
    merge_all published_in zone_equal failed_is_false condition_of
    record_is_already_published_to_zone change update_record submit changes_of changes_for
    change_for_endpoint deletes_for endpoints_from_zone_status count_zone merge_status
Reach-Exact_example =
    Reach-Exact base route53 (λ z. z) zone shop_naming refl cmp_laws route53_laws start after refl
      (refl, tt) (λ k. refl) published refl

abbrev visits : List Visit
visits = arrive ("10.0.0.2" ∷ []) ∷ []

Reach-Serves_example :
    ServesIf
      (is_address_key "shop.test" (serving (replay visits (some []))) (shop_naming "10.0.0.2"))
      after.state
      (shop_naming "10.0.0.2")
unfolding skips with_statuses publish_record_to_zones publish_zones append_status merge_statuses
    merge_all published_in zone_equal failed_is_false condition_of
    record_is_already_published_to_zone change update_record submit changes_of changes_for
    change_for_endpoint deletes_for endpoints_from_zone_status count_zone merge_status
    contains_string with_addresses new_addresses total_ips set_weights aws_endpoint_weight
    set_provider_specific itoa
Reach-Serves_example =
    Reach-Serves base route53 (λ z. z) zone shop_naming refl cmp_laws route53_laws "shop.test"
      visits (record_with []) fresh start after refl refl ((refl, tt), tt) refl refl
      (IsManaged-Named "shop.test" fresh.spec.endpoints addressed.managed refl) (λ k. refl)
      published refl refl refl (shop_naming "10.0.0.2")
