-- ===== src/Examples/Removed.antt =====
-- The record of the zone's example, deleted.
use multi_cluster_traffic_co.Prelude.{List, [], ◌∷◌, ◌≡◌, refl, some, none, ok, pure, ◌>>=◌}
use multi_cluster_traffic_co.Api.Types.{DnsRecord, DnsZoneStatus, object_key}
use multi_cluster_traffic_co.Aws.{
  delete_action, change, update_record, submit, changes_of, changes_for, deletes_for,
  change_for_endpoint, endpoints_from_zone_status,
}
use multi_cluster_traffic_co.Aws.Zone.{apply_all, change_to}
use multi_cluster_traffic_co.DnsRecord.Status.{
  zone_equal, published_in, record_is_already_published_to_zone, failed_is_false, merge_statuses,
  merge_all, merge_status, count_zone,
}
use multi_cluster_traffic_co.DnsRecord.Reconcile.{
  Reconciler, skips, publish_record_to_zones, publish_zones, append_status, condition_of,
  with_statuses, reconcile, without_finalizer, is_deleted,
}
use multi_cluster_traffic_co.DnsRecord.Convergence.{Reach, here, next, round, with_aws}
use multi_cluster_traffic_co.DnsRecord.Removal.{Reach-removed, change-without}
use multi_cluster_traffic_co.Aws.Zone.{Zone, RecordKey}
use multi_cluster_traffic_co.Examples.Compared.{cmp_laws}
use multi_cluster_traffic_co.Examples.Batch.{shop_naming}
use multi_cluster_traffic_co.Examples.Endpoints.{at, record_with}
use multi_cluster_traffic_co.Examples.Publication.{zone}
use multi_cluster_traffic_co.Examples.Zones.{base, route53, route53_laws, start, after, statuses}

abbrev removed : DnsRecord
removed = record after.dns_record {
  metadata = record after.dns_record.metadata { deletion_timestamp = some 7 };
}

-- The reconciler reads the record that is to be deleted.
abbrev removing : Reconciler Zone
removing = record base { client = record base.client { get = λ k s. (ok removed, s) } }

removing_published : Reach removing route53 (λ z. z) zone shop_naming start after
unfolding skips record_is_already_published_to_zone change update_record submit changes_of
    changes_for change_for_endpoint deletes_for endpoints_from_zone_status publish_record_to_zones
    publish_zones append_status merge_statuses condition_of with_statuses
removing_published = next here (round statuses _ refl refl refl)

abbrev emptied : Zone
emptied = apply_all (change_to delete_action (at "10.0.0.2" "120") ∷ []) after.state

abbrev first_status : List DnsZoneStatus → DnsZoneStatus
first_status [] = record { dns_zone = zone; conditions = []; endpoints = [] }
first_status (status ∷ _) = status

Reach-removed_example :
    (reconcile (with_aws removing route53) (object_key removed.metadata) after.state
      ≡ (removing.client.update (
              without_finalizer
                (with_aws removing route53)
                (without_finalizer (with_aws removing route53) removed))
            >>= λ _. pure tt)
          emptied)
    × ((k : RecordKey) → emptied k ≡ none)
unfolding skips with_statuses publish_record_to_zones publish_zones append_status merge_statuses
    merge_all published_in zone_equal failed_is_false condition_of
    record_is_already_published_to_zone change update_record submit changes_of changes_for
    change_for_endpoint deletes_for endpoints_from_zone_status count_zone merge_status is_deleted
Reach-removed_example =
    Reach-removed removing route53 (λ z. z) zone shop_naming refl cmp_laws route53_laws start after
      (object_key removed.metadata) removed (first_status after.dns_record.status.zones) after.state
      emptied refl (refl, tt) (λ k. refl) removing_published refl refl refl refl refl refl refl refl

-- The record after an edit that takes its endpoint out: Delete leaves the endpoint in the zone.
abbrev edited : DnsRecord
edited = record_with []

change-without_example :
    (change route53 edited zone delete_action after.state).1 (shop_naming "10.0.0.2")
    ≡ after.state (shop_naming "10.0.0.2")
unfolding change update_record submit changes_of changes_for
change-without_example =
    change-without route53 (λ z. z) edited zone route53_laws after.state (shop_naming "10.0.0.2")
      refl
