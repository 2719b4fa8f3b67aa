-- ===== src/Examples/Deletion.antt =====
-- A record that is published to two zones, deleted.
use multi_cluster_traffic_co.Prelude.{
  String, Option, none, some, List, [], ◌∷◌, ◌==◌, ◌≡◌, refl, inr, arith, any, Error, errorf, ok,
  pure, ◌>>=◌, if◌then◌else◌, Bool-cases, inl,
}
use multi_cluster_traffic_co.Text.{contains_text}
use multi_cluster_traffic_co.Slice.{remove_string}
use multi_cluster_traffic_co.Api.Types.{DnsRecord, DnsZone}
use multi_cluster_traffic_co.DnsRecord.Status.{
  zone_equal, published_in, failed_is_false, record_is_already_published_to_zone,
}
use multi_cluster_traffic_co.DnsRecord.Reconcile.{Reconciler, without_finalizer, reconcile_deleted}
use multi_cluster_traffic_co.DnsRecord.Deletion.{answer, says_not_found, reconcile_deleted_drops}
use multi_cluster_traffic_co.Examples.Server.{server}
use multi_cluster_traffic_co.Examples.Publication.{zone, condition, reconciler, seen_at}

-- As `reconciler`, with an aggregate of two texts.
abbrev deleting : (DnsZone → Option Error) → Reconciler (List DnsRecord)
deleting outcome = record (reconciler (ok tt) (λ z. answer (outcome z))) {
  new_aggregate =
      λ errs. if any says_not_found errs then errorf "was not found" else errorf "failed";
}

aggregates :
    (outcome : DnsZone → Option Error) (e : Error) (errs : List Error)
    → says_not_found ((deleting outcome).new_aggregate (e ∷ errs)) ≡ any says_not_found (e ∷ errs)
unfolding contains_text
aggregates outcome e errs = elim (Bool-cases (any says_not_found (e ∷ errs))) [
  | inl says ↦ rw says refl
  | inr silent ↦ rw silent refl
]

remove_string_twice :
    (fs : List String) (f : String) → remove_string (remove_string fs f) f ≡ remove_string fs f
unfolding remove_string
remove_string_twice [] f = refl
remove_string_twice (x ∷ fs) f = ground (arith, remove_string_twice fs f)

abbrev other : DnsZone
other = record { id = "Z2"; tags = none }

-- Published to both zones.
abbrev both : DnsRecord
both = record (seen_at 2 "False") {
  status = record {
    zones =
        record { dns_zone = zone; conditions = condition "False" ∷ []; endpoints = [] }
        ∷ record { dns_zone = other; conditions = condition "False" ∷ []; endpoints = [] }
        ∷ [];
    observed_generation = 2;
  };
}

-- The first zone lacks the record, and the call for the second fails.
abbrev one_missing : DnsZone → Option Error
one_missing z =
    if z.id == "Z1" then some (errorf "it was not found") else some (errorf "Throttling")

abbrev second_fails : DnsZone → Option Error
second_fails z = if z.id == "Z1" then none else some (errorf "Throttling")

reconcile_deleted_drops_example :
    reconcile_deleted (deleting one_missing) both []
    ≡ (server.update (without_finalizer (deleting one_missing) both) >>= λ _. pure tt) []
unfolding record_is_already_published_to_zone published_in zone_equal failed_is_false contains_text
reconcile_deleted_drops_example =
    reconcile_deleted_drops (deleting one_missing) both one_missing [] (λ z s. refl)
      (aggregates one_missing) remove_string_twice (inr refl)
