-- ===== src/DnsRecord/Convergence/Reachable.antt =====
-- What holds of a DNSRecord and its zone in every state that is reached.
use multi_cluster_traffic_co.Prelude.{String, true, List, [], ◌≡◌, arith, inr, Exec, none}
use multi_cluster_traffic_co.Api.Types.{DnsZone}
use multi_cluster_traffic_co.Aws.{Change, endpoints_from_zone_status}
use multi_cluster_traffic_co.Aws.Zone.{Zone, RecordKey, Named}
use multi_cluster_traffic_co.DnsRecord.Status.{
  zone_equal, record_is_already_published_to_zone, published_in,
}
use multi_cluster_traffic_co.DnsRecord.Reconcile.{Reconciler, skips}
use multi_cluster_traffic_co.DnsRecord.Comparison.{CmpLaws}
use multi_cluster_traffic_co.DnsRecord.Route53.{Route53Laws, Exact}
use multi_cluster_traffic_co.DnsRecord.Convergence.{World, Reach}
use multi_cluster_traffic_co.DnsRecord.Convergence.Tracking.{Reach-IsTracked}

module _ {S : Type 0} (base : Reconciler S) (call : String → List Change → Exec S (Unit {0}))
    (zone_of : S → Zone) (zone : DnsZone) (naming : String → RecordKey) where
  module _ (own : zone_equal zone zone ≡ true) (equal : CmpLaws base.cmp_equal)
      (laws : Route53Laws call zone_of zone.id) where
    -- From a record without a status, over an empty zone, by edits of the record, changes
    -- elsewhere, and rounds in which no call of Route 53 fails, where in the first record and in every
    -- edit a SetID goes with the same name, type and set identifier, and statuses for which `cmp.Equal`
    -- holds agree: whenever the reconciler would skip the zone, the zone holds what the endpoints of the
    -- record put into an empty zone, and nothing else.
    pub Reach-Exact :
        (start w : World S)
        → start.dns_record.status.zones ≡ []
        → Named naming start.dns_record.spec.endpoints
        → ((k : RecordKey) → zone_of start.state k ≡ none)
        → Reach base call zone_of zone naming start w
        → skips w.dns_record zone ≡ true
        → Exact (zone_of w.state) w.dns_record
    unfolding endpoints_from_zone_status skips record_is_already_published_to_zone published_in
    Reach-Exact start w fresh all_named empty reach skip =
        (Reach-IsTracked base call zone_of zone naming own equal laws
            (record {
              by_id = rw fresh tt;
              named = all_named;
              named_before = rw fresh tt;
              covered = λ k. inr (empty k);
              exact = λ skipped. absurd (ground (arith, fresh));
            })
            reach).exact
          skip
