-- ===== src/TrafficController.antt =====
-- pkg/controllers/traffic/traffic_controller.go: what the controller does with an ingress. The
-- services that it calls are the records HostService and CertificateService, as in the source.
pub mod Copied
pub mod Deletion
pub mod Requeue
pub mod Totality
use multi_cluster_traffic_co.Prelude.{
  ℕ, String, Bool, true, false, not, Option, none, some, List, [], ◌∷◌, ◌++◌, if◌then◌else◌, nat_eq,
  Error, is_not_found, is_already_exists, is_already_assigned, Result, ok, err, panic, Exec, pure,
  fail, lift, ◌>>=◌,
}
use multi_cluster_traffic_co.Api.Types.{ObjectMeta, DnsRecord, object_meta, object_key}
use multi_cluster_traffic_co.Client.{ObjectClient}
use multi_cluster_traffic_co.Ingress.{Ingress, add_managed_host, add_tls}
use multi_cluster_traffic_co.DnsService.Actions.{Managed}
use multi_cluster_traffic_co.Certificates.{Secret}

-- trafficFinalizer
abbrev pub traffic_finalizer : String
traffic_finalizer = "kuadrant.io/traffic-management"

pub record HostService (S Http : Type 0) : Type 0 where
  pub ensure_managed_host : Ingress Http → Exec S Managed
  pub add_endpoints : Ingress Http → Exec S (Unit {0})
  pub remove_endpoints : Ingress Http → Exec S (Unit {0})

-- A secret may be nil.
pub record CertificateService (S : Type 0) : Type 0 where
  pub ensure_certificate : String → DnsRecord → Exec S (Unit {0})
  pub get_certificate_secret : String → Exec S (Option Secret)

-- What the reconciler is made of, and the outside functions that it calls.
pub record TrafficReconciler (S Http : Type 0) : Type 0 where
  pub workload_client : ObjectClient S Secret
  pub hosts : HostService S Http
  pub certificates : CertificateService S
  pub deep_equal : Http → Http → Bool
  pub add_finalizer : List String → String → List String
  pub remove_finalizer : List String → String → List String

-- What `Handle` returns, and the traffic object as it leaves it. A result is the number of seconds
-- after which the object is queued again, or `none` for the zero result.
pub record Handled (Http : Type 0) : Type 0 where
  pub traffic : Ingress Http
  pub requeue_after : Option ℕ
  pub error : Option Error

-- `GetDeletionTimestamp()` that is neither nil nor zero.
abbrev pub is_being_deleted : {Http : Type 0} → Ingress Http → Bool
is_being_deleted t = elim t.metadata.deletion_timestamp [
  | none ↦ false
  | some time ↦ not (nat_eq time 0)
]

-- An error that passes the test is taken for success.
abbrev pub ignoring : (Error → Bool) → Result (Unit {0}) → Result (Unit {0})
ignoring test (ok done) = ok done
ignoring test (err e) = if test e then ok tt else err e
ignoring test panic = panic

module _ {S Http A : Type 0} where
  -- The `if err != nil` behind a call: an early return, or what comes next.
  abbrev pub unless_err :
      Result A → (Error → Handled Http) → (A → Exec S (Handled Http)) → Exec S (Handled Http)
  unless_err (ok a) early next s = next a s
  unless_err (err e) early next s = (ok (early e), s)
  unless_err panic early next s = (panic, s)

module _ {S Http : Type 0} (reconciler : TrafficReconciler S Http) where
  open reconciler use {
    workload_client, hosts, certificates, deep_equal, add_finalizer, remove_finalizer,
  }

  -- What `copySecretToWorkloadCluster` does after its `Create`.
  unfoldable pub update_if_exists : Secret → Secret → Result Secret → Exec S (Unit {0})
  update_if_exists tls copy (ok created) = pure tt
  update_if_exists tls copy (err e) =
      if is_already_exists e
      then (do
        found ← workload_client.get (object_key copy.metadata)
        _ ← workload_client.update (record found { data_entries = tls.data_entries })
        pure tt)
      else pure tt
  update_if_exists tls copy panic = lift panic

  -- copySecretToWorkloadCluster
  unfoldable pub copy_secret_to_workload_cluster :
      Ingress Http → Secret → String → Exec S (Unit {0})
  unfolding update_if_exists
  copy_secret_to_workload_cluster t tls host s =
      let copy : Secret = record tls { metadata = object_meta host t.metadata.namespace } in
      let (created, s') = workload_client.create copy s in update_if_exists tls copy created s'

  abbrev pub returns : Ingress Http → Option ℕ → Option Error → Handled Http
  returns t requeue_after error = record {
    traffic = t;
    requeue_after = requeue_after;
    error = error;
  }

  -- The end of a round of `Handle`; `next` is what comes after it.
  unfoldable pub publish :
      Ingress Http → (Ingress Http → Exec S (Handled Http)) → Exec S (Handled Http)
  publish t next s =
      let (done, s') = hosts.add_endpoints t s in
      unless_err done (λ e. returns t (some 5) (some e)) (λ _. next t) s'

  -- A round from where the secret is known.
  unfoldable pub with_secret :
      Ingress Http
      → String
      → Option Secret
      → (Ingress Http → Exec S (Handled Http))
      → Exec S (Handled Http)
  unfolding publish
  with_secret t host none next s = publish t next s
  with_secret t host (some secret) next s =
      let (copied, s') = copy_secret_to_workload_cluster t secret host s in
      unless_err copied (λ e. returns t none (some e))
        (λ _. publish (add_tls t host secret.metadata.name) next) s'

  -- A round of the loop of `Handle`.
  unfoldable pub assign_host :
      Ingress Http
      → String
      → DnsRecord
      → (Ingress Http → Exec S (Handled Http))
      → Exec S (Handled Http)
  unfolding with_secret
  assign_host t host r next s =
      let t' : Ingress Http = add_managed_host deep_equal t host in
      let (ensured, s') = certificates.ensure_certificate host r s in
      unless_err (ignoring is_already_exists ensured) (λ e. returns t' none (some e))
        (λ _ s1.
          let (found, s2) = certificates.get_certificate_secret host s1 in
          unless_err found
            (λ e. if is_not_found e then returns t' (some 10) none else returns t' none (some e))
            (λ secret. with_secret t' host secret next) s2)
        s'

  -- The loop; a host without a record at its index is a panic.
  unfoldable pub assign_hosts : List String → List DnsRecord → Ingress Http → Exec S (Handled Http)
  unfolding assign_host
  assign_hosts [] records t s = (ok (returns t none none), s)
  assign_hosts (host ∷ hosts) [] t s = (panic, s)
  assign_hosts (host ∷ hosts) (r ∷ records) t s =
      assign_host t host r (assign_hosts hosts records) s

  abbrev pub with_finalizers : Ingress Http → List String → Ingress Http
  with_finalizers t finalizers = record t {
    metadata = record t.metadata { finalizers = finalizers };
  }

  -- What `Handle` does with a traffic object that is to be deleted.
  unfoldable pub handle_deleted : Ingress Http → Exec S (Handled Http)
  handle_deleted t s =
      let (removed, s') = hosts.remove_endpoints t s in
      unless_err removed (λ e. returns t none (some e))
        (λ _. pure (
          returns (with_finalizers t (remove_finalizer t.metadata.finalizers traffic_finalizer))
            none none))
        s'

  -- What `Handle` does with what `EnsureManagedHost` returned.
  unfoldable pub with_managed : Ingress Http → Managed → Exec S (Handled Http)
  unfolding assign_hosts
  with_managed t m s =
      let rest = assign_hosts m.hosts m.records t in
      elim m.error [
        | none ↦ rest s
        | some e ↦ if is_already_assigned e then rest s else (ok (returns t none (some e)), s)
      ]

  -- The rest of `Handle`.
  unfoldable pub handle_live : Ingress Http → Exec S (Handled Http)
  unfolding with_managed
  handle_live t s =
      let (managed, s') = hosts.ensure_managed_host t s in
      unless_err managed (λ e. returns t none (some e)) (with_managed t) s'

  -- Handle
  unfoldable pub handle : Ingress Http → Exec S (Handled Http)
  unfolding handle_deleted handle_live
  handle t s =
      let t' : Ingress Http =
        with_finalizers t (add_finalizer t.metadata.finalizers traffic_finalizer) in
      if is_being_deleted t then handle_deleted t' s else handle_live t' s
