-- ===== src/DnsRecord/Convergence.antt =====
-- A DNSRecord and its zone in Route 53 over time: edits of the record, other changes of the
-- cluster, and rounds of publication in which no call of Route 53 fails. An edit keeps to a naming: a
-- SetID always goes with the same name, type and set identifier.
pub mod Tracking
pub mod Reachable
pub mod Served
use multi_cluster_traffic_co.Prelude.{
  ℕ, String, Bool, true, false, not, ◌||◌, List, [], ◌∷◌, ◌==◌, ◌≡◌, ◌≢◌, ◌⊎◌, refl, sym, ap, ◌∙◌,
  arith, nat_eq, eq_refl, Bool-cases, inl, inr, Result, ok, err, panic, is_ok, Exec, All, none,
  if◌then◌else◌,
}
use multi_cluster_traffic_co.Api.Types.{Endpoint, DnsRecord, DnsZone, DnsZoneStatus}
use multi_cluster_traffic_co.Aws.{
  Change, upsert_action, change, endpoints_from_zone_status, aws_provider,
}
use multi_cluster_traffic_co.Aws.Zone.{Zone, RecordKey, Named}
use multi_cluster_traffic_co.DnsRecord.Status.{
  zone_equal, record_is_already_published_to_zone, published_in, merge_statuses,
}
use multi_cluster_traffic_co.DnsRecord.Reconcile.{
  Reconciler, status_of, skips, publish_record_to_zones, with_statuses,
}
use multi_cluster_traffic_co.DnsRecord.Conditions.{HoldEndpoints, merge_statuses-HoldEndpoints}
use multi_cluster_traffic_co.DnsRecord.Publication.{
  publish_record_to_zones_quiet, publish_record_to_zones_once, published_in-publish_record_to_zones,
}
use multi_cluster_traffic_co.DnsRecord.Comparison.{ById}
use multi_cluster_traffic_co.DnsRecord.Route53.{
  Route53Laws, Covered, Exact, Exact-Covered, change-Exact,
}

-- The record as the server has it, and the state of the cluster and of Route 53.
pub record World (S : Type 0) : Type 0 where
  pub dns_record : DnsRecord
  pub state : S

-- An edit of the record: its spec is another, of a generation that was not observed.
abbrev pub edited : DnsRecord → List Endpoint → ℕ → DnsRecord
edited r es generation = record r {
  spec = record { endpoints = es };
  metadata = record r.metadata { generation = generation };
}

-- The reconciler with the AWS provider.
abbrev pub with_aws :
    {S : Type 0} → Reconciler S → (String → List Change → Exec S (Unit {0})) → Reconciler S
with_aws base call = record base { dns_provider = aws_provider call }

module _ {S : Type 0} (base : Reconciler S) (call : String → List Change → Exec S (Unit {0}))
    (zone_of : S → Zone) (zone : DnsZone) (naming : String → RecordKey) where
  pub data Step (w : World S) : World S → Type 0 where
    edit :
        (es : List Endpoint) (generation : ℕ)
        → nat_eq generation w.dns_record.status.observed_generation ≡ false
        → Named naming es
        → Step w (record w { dns_record = edited w.dns_record es generation })
    elsewhere :
        (s : S)
        → ((k : RecordKey) → zone_of s k ≡ zone_of w.state k)
        → Step w (record w { state = s })
    skip_round :
        (statuses : List DnsZoneStatus) (s : S)
        → skips w.dns_record zone ≡ true
        → publish_record_to_zones (with_aws base call) (zone ∷ []) w.dns_record w.state
          ≡ (ok statuses, s)
        → Step w (record {
          dns_record = with_statuses (with_aws base call) w.dns_record statuses;
          state = s;
        })
    round :
        (statuses : List DnsZoneStatus) (s : S)
        → skips w.dns_record zone ≡ false
        → is_ok (change call w.dns_record zone upsert_action w.state).0 ≡ true
        → publish_record_to_zones (with_aws base call) (zone ∷ []) w.dns_record w.state
          ≡ (ok statuses, s)
        → Step w (record {
          dns_record = with_statuses (with_aws base call) w.dns_record statuses;
          state = s;
        })

  pub data Reach (start : World S) : World S → Type 0 where
    here : Reach start start
    next : {w u : World S} → Reach start w → Step w u → Reach start u

  -- A SetID always goes with the same key, the statuses cover the zone, and a record that is skipped has
  -- an exact zone.
  pub record IsTracked (w : World S) : Type 0 where
    pub by_id : ById zone w.dns_record.status.zones
    pub named : Named naming w.dns_record.spec.endpoints
    pub named_before : Named naming (endpoints_from_zone_status w.dns_record.status.zones zone.id)
    pub covered : Covered (zone_of w.state) w.dns_record.status.zones zone.id
    pub exact : skips w.dns_record zone ≡ true → Exact (zone_of w.state) w.dns_record
