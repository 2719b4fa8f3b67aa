-- ===== src/TrafficController/Totality.antt =====
-- Handle and panics: the index into the records, and the calls that may panic.
use multi_cluster_traffic_co.Prelude.{
  String, Bool, true, false, Option, none, some, List, [], ◌∷◌, ◌≡◌, refl, arith, length, Error,
  is_already_exists, is_already_assigned, Result, ok, err, panic, Exec, proceed, ◌>>=◌,
  Option-cases, Bool-cases, inl, inr, subst,
}
use multi_cluster_traffic_co.Api.Types.{DnsRecord, NamespacedName, object_key, object_meta}
use multi_cluster_traffic_co.Ingress.{Ingress}
use multi_cluster_traffic_co.DnsService.Actions.{Managed}
use multi_cluster_traffic_co.DnsService.Managed.{Consistent}
use multi_cluster_traffic_co.Certificates.{Secret}
use multi_cluster_traffic_co.TrafficController.{
  TrafficReconciler, Handled, unless_err, ignoring, update_if_exists,
  copy_secret_to_workload_cluster, publish, with_secret, assign_host, assign_hosts, handle_deleted,
  with_managed, handle_live, is_being_deleted, handle,
}

abbrev pub is_panic {ℓ} : {A : Type ℓ} → Result A → Bool
is_panic panic = true
is_panic _ = false

-- A call that returns.
abbrev pub Returns : {S A : Type 0} → Exec S A → Type 0
Returns {S} m = (s : S) → is_panic (m s).0 ≡ false

-- The calls that `Handle` makes return, and the host service gives a record for each host.
pub record CallsReturn {S Http : Type 0} (reconciler : TrafficReconciler S Http) : Type 0 where
  pub ensure_managed_host : (t : Ingress Http) → Returns (reconciler.hosts.ensure_managed_host t)
  pub consistent :
      (t : Ingress Http) (s : S) → Consistent (reconciler.hosts.ensure_managed_host t s).0
  pub add_endpoints : (t : Ingress Http) → Returns (reconciler.hosts.add_endpoints t)
  pub remove_endpoints : (t : Ingress Http) → Returns (reconciler.hosts.remove_endpoints t)
  pub ensure_certificate :
      (h : String) (r : DnsRecord) → Returns (reconciler.certificates.ensure_certificate h r)
  pub get_certificate_secret :
      (h : String) → Returns (reconciler.certificates.get_certificate_secret h)
  pub get : (k : NamespacedName) → Returns (reconciler.workload_client.get k)
  pub create : (o : Secret) → Returns (reconciler.workload_client.create o)
  pub update : (o : Secret) → Returns (reconciler.workload_client.update o)

unless_err-returns :
    {S Http A : Type 0} (r : Result A) (early : Error → Handled Http)
    (next : A → Exec S (Handled Http)) (s : S)
    → is_panic r ≡ false
    → ((a : A) → r ≡ ok a → is_panic (next a s).0 ≡ false)
    → is_panic (unless_err r early next s).0 ≡ false
unless_err-returns (ok a) early next s h after = after a refl
unless_err-returns (err e) early next s h after = refl
unless_err-returns panic early next s h after = cc

proceed-returns :
    {S A B : Type 0} (r : Result A) (f : A → Exec S B) (s : S)
    → is_panic r ≡ false
    → ((a : A) → Returns (f a))
    → is_panic (proceed r f s).0 ≡ false
proceed-returns (ok a) f s h after = after a s
proceed-returns (err e) f s h after = refl
proceed-returns panic f s h after = cc

bind-returns :
    {S A B : Type 0} (m : Exec S A) (f : A → Exec S B)
    → Returns m
    → ((a : A) → Returns (f a))
    → Returns (m >>= f)
bind-returns m f h after s = proceed-returns (m s).0 f (m s).1 (h s) after

ignoring-returns :
    (test : Error → Bool) (r : Result (Unit {0}))
    → is_panic r ≡ false
    → is_panic (ignoring test r) ≡ false
ignoring-returns test (ok done) h = refl
ignoring-returns test (err e) h = ground arith
ignoring-returns test panic h = cc

module _ {S Http : Type 0} (reconciler : TrafficReconciler S Http)
    (calls : CallsReturn reconciler) where
  open reconciler use {workload_client, hosts, certificates}

  update_if_exists-returns :
      (tls copy : Secret) (created : Result Secret) (s : S)
      → is_panic created ≡ false
      → is_panic (update_if_exists reconciler tls copy created s).0 ≡ false
  unfolding update_if_exists
  update_if_exists-returns tls copy (ok c) s h = refl
  update_if_exists-returns tls copy (err e) s h = elim (Bool-cases (is_already_exists e)) [
    | inl there ↦ rw there (
        bind-returns (workload_client.get (object_key copy.metadata)) _
          (calls.get (object_key copy.metadata))
          (λ found.
            bind-returns (workload_client.update (record found { data_entries = tls.data_entries }))
              _ (calls.update (record found { data_entries = tls.data_entries })) (λ _ s'. refl))
          s)
    | inr other ↦ rw other refl
  ]
  update_if_exists-returns tls copy panic s h = cc

  publish-returns :
      (t : Ingress Http) (next : Ingress Http → Exec S (Handled Http))
      → ((t' : Ingress Http) → Returns (next t'))
      → Returns (publish reconciler t next)
  unfolding publish
  publish-returns t next after s =
      unless_err-returns (hosts.add_endpoints t s).0 _ _ _ (calls.add_endpoints t s)
        (λ _ _. after t _)

  with_secret-returns :
      (t : Ingress Http) (h : String) (secret : Option Secret)
      (next : Ingress Http → Exec S (Handled Http))
      → ((t' : Ingress Http) → Returns (next t'))
      → Returns (with_secret reconciler t h secret next)
  unfolding with_secret copy_secret_to_workload_cluster
  with_secret-returns t h none next after s = publish-returns t next after s
  with_secret-returns t h (some secret) next after s =
      let copy : Secret = record secret { metadata = object_meta h t.metadata.namespace } in
      unless_err-returns
        (update_if_exists reconciler secret copy (workload_client.create copy s).0
          (workload_client.create copy s).1).0
        _ _ _ (update_if_exists-returns secret copy _ _ (calls.create copy s))
        (λ _ _. publish-returns _ next after _)

  assign_host-returns :
      (t : Ingress Http) (h : String) (r : DnsRecord) (next : Ingress Http → Exec S (Handled Http))
      → ((t' : Ingress Http) → Returns (next t'))
      → Returns (assign_host reconciler t h r next)
  unfolding assign_host
  assign_host-returns t h r next after s =
      unless_err-returns (ignoring is_already_exists (certificates.ensure_certificate h r s).0) _ _
        _ (ignoring-returns is_already_exists _ (calls.ensure_certificate h r s))
        (λ _ _.
          unless_err-returns
            (certificates.get_certificate_secret h (certificates.ensure_certificate h r s).1).0 _ _
            _ (calls.get_certificate_secret h _)
            (λ secret _. with_secret-returns _ h secret next after _))

  assign_hosts-returns :
      (hs : List String) (records : List DnsRecord)
      → length hs ≡ length records
      → (t : Ingress Http) → Returns (assign_hosts reconciler hs records t)
  unfolding assign_hosts
  assign_hosts-returns [] records same t s = refl
  assign_hosts-returns (h ∷ hs) [] same t s = absurd (omega (arith, same))
  assign_hosts-returns (h ∷ hs) (r ∷ records) same t s =
      assign_host-returns t h r _ (assign_hosts-returns hs records (omega (arith, same))) s

  with_managed-returns :
      (t : Ingress Http) (m : Managed)
      → length m.hosts ≡ length m.records
      → Returns (with_managed reconciler t m)
  unfolding with_managed
  with_managed-returns t m same s = elim (Option-cases m.error) [
    | inl fine ↦ rw fine (assign_hosts-returns m.hosts m.records same t s)
    | inr (e, failed) ↦ rw failed (elim (Bool-cases (is_already_assigned e)) [
      | inl assigned ↦ rw assigned (assign_hosts-returns m.hosts m.records same t s)
      | inr other ↦ rw other refl
    ])
  ]

  handle_deleted-returns : (t : Ingress Http) → Returns (handle_deleted reconciler t)
  unfolding handle_deleted
  handle_deleted-returns t s =
      unless_err-returns (hosts.remove_endpoints t s).0 _ _ _ (calls.remove_endpoints t s)
        (λ _ _. refl)

  handle_live-returns : (t : Ingress Http) → Returns (handle_live reconciler t)
  unfolding handle_live
  handle_live-returns t s =
      unless_err-returns (hosts.ensure_managed_host t s).0 _ _ _ (calls.ensure_managed_host t s)
        (λ m done. with_managed-returns t m (subst Consistent done (calls.consistent t s)) _)

  -- If the calls of the services and of the client return, and EnsureManagedHost gives a record for
  -- each host, then Handle returns: no host is without a record at its index.
  pub handle-Returns : (t : Ingress Http) (s : S) → is_panic (handle reconciler t s).0 ≡ false
  unfolding handle
  handle-Returns t s = elim (Bool-cases (is_being_deleted t)) [
    | inl deleted ↦ rw deleted (handle_deleted-returns _ s)
    | inr live ↦ rw live (handle_live-returns _ s)
  ]
