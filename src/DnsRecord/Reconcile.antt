-- ===== src/DnsRecord/Reconcile.antt =====
-- The reconciler: `publishRecordToZones`, `deleteRecord` and `Reconcile`.
use Prim.Native.String.{◌++◌ as ◌+++◌}
use multi_cluster_traffic_co.Prelude.{
  ℕ, ◌+◌, String, Bool, false, not, ◌&&◌, ◌||◌, Option, none, some, List, [], ◌∷◌, nat_eq,
  if◌then◌else◌, Error, is_not_found, Result, ok, err, panic, Exec, pure, fail, lift, ◌>>=◌,
}
use multi_cluster_traffic_co.Text.{contains_text, text_less}
use multi_cluster_traffic_co.Api.Types.{
  DnsRecord, DnsZone, DnsZoneCondition, DnsZoneStatus, NamespacedName, failed_condition_type,
}
use multi_cluster_traffic_co.Client.{ObjectClient}
use multi_cluster_traffic_co.Provider.{Provider}
use multi_cluster_traffic_co.DnsRecord.Status.{
  condition_true, condition_false, record_is_already_published_to_zone, merge_statuses,
}

-- DNSRecordFinalizer
abbrev pub dns_record_finalizer : String
dns_record_finalizer = "kuadrant.io/dns-record"

-- What the reconciler is made of, and the outside functions that it calls: the finalizer functions
-- of controllerutil, `utilerrors.NewAggregate` on errors of which there is one, `cmp.Equal`
-- on statuses with the options `EquateEmpty` and `SortSlices` of a comparison of conditions, the readings of `metav1.Now` and those of the clock.
pub record Reconciler (S : Type 0) : Type 0 where
  pub client : ObjectClient S DnsRecord
  pub dns_provider : Provider S
  pub dns_zones : List DnsZone
  pub contains_finalizer : List String → String → Bool
  pub add_finalizer : List String → String → List String
  pub remove_finalizer : List String → String → List String
  pub new_aggregate : List Error → Error
  pub cmp_equal :
      (DnsZoneCondition → DnsZoneCondition → Bool) → List DnsZoneStatus → List DnsZoneStatus → Bool
  pub now : ℕ → ℕ
  pub clock : ℕ → ℕ

-- The zones that `SetupWithManager` sets, from the variable AWS_DNS_PUBLIC_ZONE_ID if it is set.
unfoldable pub zones_of_env : Option String → List DnsZone
zones_of_env none = []
zones_of_env (some zone_id) = record { id = zone_id; tags = none } ∷ []

-- SetupWithManager, over `os.LookupEnv` and `Complete` of the builder.
unfoldable pub setup_with_manager :
    {S A : Type 0} → (Reconciler S → A) → (String → Option String) → Reconciler S → A
unfolding zones_of_env
setup_with_manager complete lookup_env r =
    complete (record r { dns_zones = zones_of_env (lookup_env "AWS_DNS_PUBLIC_ZONE_ID") })

-- The condition for the outcome of `Ensure`, on a record that is published already or not.
unfoldable pub condition_of : Bool → Result (Unit {0}) → ℕ → DnsZoneCondition
condition_of published (err e) time = record {
  type = failed_condition_type;
  status = condition_true;
  last_transition_time = time;
  reason = "ProviderError";
  message =
      (if published
        then "The DNS provider failed to replace the record: "
        else "The DNS provider failed to ensure the record: ")
      +++ e.message;
}
condition_of published _ time = record {
  type = failed_condition_type;
  status = condition_false;
  last_transition_time = time;
  reason = "ProviderSuccess";
  message =
      if published
      then "The DNS provider succeeded in replacing the record"
      else "The DNS provider succeeded in ensuring the record";
}

-- The status that a round of `publishRecordToZones` appends.
abbrev pub status_of : DnsRecord → DnsZone → Result (Unit {0}) → ℕ → DnsZoneStatus
status_of r zone outcome time = record {
  dns_zone = zone;
  conditions = condition_of (record_is_already_published_to_zone r zone) outcome time ∷ [];
  endpoints = r.spec.endpoints;
}

-- The test by which a zone is skipped.
unfoldable pub skips : DnsRecord → DnsZone → Bool
skips r zone =
    nat_eq r.metadata.generation r.status.observed_generation
    && record_is_already_published_to_zone r zone

-- `!dnsRecord.DeletionTimestamp.IsZero()`, at a timestamp that is not nil.
unfoldable pub is_deleted : DnsRecord → Bool
is_deleted r = elim r.metadata.deletion_timestamp [ none ↦ false | some time ↦ not (nat_eq time 0) ]

module _ {S : Type 0} (reconciler : Reconciler S) where
  open reconciler use {
    client, dns_provider, dns_zones, contains_finalizer, add_finalizer, remove_finalizer,
    new_aggregate, cmp_equal, now, clock,
  }

  -- The end of a round of `publishRecordToZones` and the rounds after it, which a panic ends.
  unfoldable pub append_status :
      DnsRecord
      → DnsZone
      → ℕ
      → Result (Unit {0})
      → Exec S (List DnsZoneStatus)
      → Exec S (List DnsZoneStatus)
  append_status r zone time panic rest s = (panic, s)
  append_status r zone time (err e) rest s =
      (rest >>= λ statuses. pure (status_of r zone (err e) time ∷ statuses)) s
  append_status r zone time (ok done) rest s =
      (rest >>= λ statuses. pure (status_of r zone (ok done) time ∷ statuses)) s

  -- The loop of `publishRecordToZones`; `calls` counts the readings of `metav1.Now`.
  unfoldable pub publish_zones : DnsRecord → ℕ → List DnsZone → Exec S (List DnsZoneStatus)
  unfolding append_status
  publish_zones r calls [] s = (ok [], s)
  publish_zones r calls (zone ∷ zones) s =
      let skipped = publish_zones r calls zones s in
      let (outcome, s') = dns_provider.ensure r zone s in
      let rest = publish_zones r (calls + 1) zones in
      let published = append_status r zone (now calls) outcome rest s' in
      if skips r zone then skipped else published

  -- publishRecordToZones
  unfoldable pub publish_record_to_zones : List DnsZone → DnsRecord → Exec S (List DnsZoneStatus)
  unfolding publish_zones
  publish_record_to_zones zones r = do
    statuses ← publish_zones r 0 zones
    pure (merge_statuses clock 0 zones r.status.zones statuses)

  -- The end of a round of `deleteRecord` and the rounds after it.
  unfoldable pub append_error : Result (Unit {0}) → Exec S (List Error) → Exec S (List Error)
  append_error panic rest s = (panic, s)
  append_error (err e) rest s = (rest >>= λ errs. pure (e ∷ errs)) s
  append_error (ok done) rest s = rest s

  -- The loop of `deleteRecord`: the errors of the zones to which the record is published.
  unfoldable pub delete_from_zones : DnsRecord → List DnsZoneStatus → Exec S (List Error)
  unfolding append_error
  delete_from_zones r [] s = (ok [], s)
  delete_from_zones r (status ∷ zones) s =
      let skipped = delete_from_zones r zones s in
      let (outcome, s') = dns_provider.delete r status.dns_zone s in
      let rest = delete_from_zones r zones in
      let tried = append_error outcome rest s' in
      if record_is_already_published_to_zone r status.dns_zone then tried else skipped

  -- `record` with the finalizer gone.
  abbrev pub without_finalizer : DnsRecord → DnsRecord
  without_finalizer r = record r {
    metadata = record r.metadata {
      finalizers = remove_finalizer r.metadata.finalizers dns_record_finalizer;
    };
  }

  -- What `Reconcile` does after `deleteRecord`, with the errors of the zones. Without one the
  -- finalizer is taken out twice.
  unfoldable pub finish_delete : DnsRecord → List Error → Exec S (Unit {0})
  finish_delete r [] = client.update (without_finalizer (without_finalizer r)) >>= λ _. pure tt
  finish_delete r (e ∷ errs) =
      if contains_text (new_aggregate (e ∷ errs)).message "was not found"
      then (client.update (without_finalizer r) >>= λ _. pure tt)
      else fail (new_aggregate (e ∷ errs))

  -- The branch of `Reconcile` on a record that is to be deleted.
  unfoldable pub reconcile_deleted : DnsRecord → Exec S (Unit {0})
  unfolding delete_from_zones finish_delete
  reconcile_deleted r = do errs ← delete_from_zones r r.status.zones; finish_delete r errs

  -- The finalizer is added, where it is missing; the record is then what the server returns.
  unfoldable pub ensure_finalizer : DnsRecord → Exec S DnsRecord
  ensure_finalizer r =
      if contains_finalizer r.metadata.finalizers dns_record_finalizer
      then pure r
      else client.update (record r {
        metadata = record r.metadata {
          finalizers = add_finalizer r.metadata.finalizers dns_record_finalizer;
        };
      })

  -- dnsZoneStatusSlicesEqual
  unfoldable pub dns_zone_status_slices_equal : List DnsZoneStatus → List DnsZoneStatus → Bool
  dns_zone_status_slices_equal a b = cmp_equal (λ c d. text_less c.type d.type) a b

  -- The record with the new statuses, if they differ or the generation was not yet observed.
  unfoldable pub with_statuses : DnsRecord → List DnsZoneStatus → DnsRecord
  unfolding dns_zone_status_slices_equal
  with_statuses r statuses =
      if not (dns_zone_status_slices_equal statuses r.status.zones)
        || not (nat_eq r.status.observed_generation r.metadata.generation)
      then record r {
        status = record { zones = statuses; observed_generation = r.metadata.generation };
      }
      else r

  -- The rest of `Reconcile`.
  unfoldable pub reconcile_live : DnsRecord → Exec S (Unit {0})
  unfolding ensure_finalizer with_statuses publish_record_to_zones
  reconcile_live r = do
    r' ← ensure_finalizer r
    statuses ← publish_record_to_zones dns_zones r'
    _ ← client.update_status (with_statuses r' statuses)
    pure tt

  -- What `Reconcile` does with the outcome of the `Get`.
  unfoldable pub reconcile_found : Result DnsRecord → Exec S (Unit {0})
  unfolding reconcile_deleted reconcile_live is_deleted
  reconcile_found (ok r) = if is_deleted r then reconcile_deleted r else reconcile_live r
  reconcile_found (err e) = if is_not_found e then pure tt else fail e
  reconcile_found panic = lift panic

  -- Reconcile; its result is always the zero `ctrl.Result`, beside the error.
  unfoldable pub reconcile : NamespacedName → Exec S (Unit {0})
  unfolding reconcile_found
  reconcile request s = let (found, s') = client.get request s in reconcile_found found s'
