-- ===== src/Examples/Publication.antt =====
-- The reconciler of DNSRecords on the server of the examples, with a provider that fails or not.
use multi_cluster_traffic_co.Prelude.{
  ℕ, String, Bool, false, none, List, [], ◌∷◌, ◌++◌, ◌==◌, ◌≡◌, refl, any, Error, errorf, Result,
  ok, err, if◌then◌else◌,
}
use multi_cluster_traffic_co.Slice.{contains_string, remove_string}
use multi_cluster_traffic_co.Api.Types.{
  DnsRecord, DnsZone, DnsZoneCondition, DnsZoneStatus, object_meta, failed_condition_type,
}
use multi_cluster_traffic_co.DnsRecord.Status.{zone_equal}
use multi_cluster_traffic_co.DnsRecord.Reconcile.{
  Reconciler, skips, publish_record_to_zones, with_statuses, dns_record_finalizer,
}
use multi_cluster_traffic_co.DnsRecord.Publication.{skips-publish_record_to_zones}
use multi_cluster_traffic_co.DnsRecord.Stale.{stale-publish_record_to_zones}
use multi_cluster_traffic_co.Aws.Zone.{stale}
use multi_cluster_traffic_co.Examples.Server.{server}
use multi_cluster_traffic_co.Examples.Compared.{cmp_equal, cmp_laws}
use multi_cluster_traffic_co.Examples.Endpoints.{at}

abbrev pub zone : DnsZone
zone = record { id = "Z1"; tags = none }

abbrev pub says : Error → Bool
says e = e.message == "was not found"

-- A provider that answers the same to every call.
abbrev pub reconciler :
    Result (Unit {0}) → (DnsZone → Result (Unit {0})) → Reconciler (List DnsRecord)
reconciler ensured deleted = record {
  client = server;
  dns_provider = record { ensure = λ r z s. (ensured, s); delete = λ r z s. (deleted z, s) };
  dns_zones = zone ∷ [];
  contains_finalizer = contains_string;
  add_finalizer = λ fs f. fs ++ f ∷ [];
  remove_finalizer = remove_string;
  new_aggregate = λ errs. if any says errs then errorf "was not found" else errorf "failed";
  cmp_equal = cmp_equal;
  now = λ calls. 5;
  clock = λ calls. 5;
}

abbrev pub condition : String → DnsZoneCondition
condition status = record {
  type = failed_condition_type;
  status = status;
  last_transition_time = 1;
  reason = "ProviderSuccess";
  message = "";
}

-- A record of generation 2, with a status for the zone, seen at a generation.
abbrev pub seen_at : ℕ → String → DnsRecord
seen_at generation status = record {
  metadata = record (object_meta "shop.test" "argocd") {
    generation = 2;
    finalizers = dns_record_finalizer ∷ [];
  };
  spec = record { endpoints = at "10.0.0.2" "120" ∷ [] };
  status = record {
    zones =
        record {
          dns_zone = zone;
          conditions = condition status ∷ [];
          endpoints = at "10.0.0.1" "120" ∷ [];
        }
        ∷ [];
    observed_generation = generation;
  };
}

-- The record was published at generation 1, and its next publication fails.
skips-publish_record_to_zones_example :
    (statuses : List DnsZoneStatus) × (publish_record_to_zones
        (reconciler (err (errorf "Throttling")) (λ z. ok tt))
        (zone ∷ [])
        (seen_at 1 "False")
        []
      ≡ (ok statuses, []))
    × (skips
          (with_statuses
            (reconciler (err (errorf "Throttling")) (λ z. ok tt))
            (seen_at 1 "False")
            statuses)
          zone
        ≡ false)
unfolding zone_equal skips
skips-publish_record_to_zones_example =
    skips-publish_record_to_zones (reconciler (err (errorf "Throttling")) (λ z. ok tt))
      (seen_at 1 "False") zone [] [] (err (errorf "Throttling")) cmp_laws refl (refl, tt) refl
      (λ e. cc) refl

stale-publish_record_to_zones_example :
    (statuses : List DnsZoneStatus) × (publish_record_to_zones
        (reconciler (err (errorf "Throttling")) (λ z. ok tt))
        (zone ∷ [])
        (seen_at 1 "False")
        []
      ≡ (ok statuses, []))
    × (stale
          (record (seen_at 1 "False") {
            status = record (seen_at 1 "False").status { zones = statuses };
          })
          "Z1"
        ≡ [])
unfolding zone_equal skips
stale-publish_record_to_zones_example =
    stale-publish_record_to_zones (reconciler (err (errorf "Throttling")) (λ z. ok tt))
      (seen_at 1 "False") zone [] [] (err (errorf "Throttling")) refl (refl, tt) refl (λ e. cc) refl
