-- ===== src/TrafficController/Copied.antt =====
-- The copy of a host's secret in the workload cluster.
use multi_cluster_traffic_co.Prelude.{
  String, true, Option, some, ◌≡◌, refl, ap, subst, Error, Result, ok, err, panic,
  is_already_exists, Option-cases, inl, inr, proceed, pure,
}
use multi_cluster_traffic_co.Api.Types.{NamespacedName, object_key, object_meta}
use multi_cluster_traffic_co.Client.{ObjectClient, ClientLaws}
use multi_cluster_traffic_co.Certificates.{Secret}
use multi_cluster_traffic_co.Ingress.{Ingress}
use multi_cluster_traffic_co.TrafficController.{
  TrafficReconciler, copy_secret_to_workload_cluster, update_if_exists,
}

-- A server that stores the data of a secret as it is sent.
pub record KeepsData {S : Type 0} (client : ObjectClient S Secret) : Type 0 where
  pub create_keeps :
      (o o' : Secret) (s s' : S)
      → client.create o s ≡ (ok o', s')
      → o'.data_entries ≡ o.data_entries
  pub update_keeps :
      (o o' : Secret) (s s' : S)
      → client.update o s ≡ (ok o', s')
      → o'.data_entries ≡ o.data_entries

module _ {S Http : Type 0} (reconciler : TrafficReconciler S Http)
    (view : S → NamespacedName → Option Secret)
    (laws : ClientLaws (λ x. x.metadata) reconciler.workload_client view)
    (keeps : KeepsData reconciler.workload_client) (t : Ingress Http) (tls : Secret)
    (host : String) where
  open reconciler use {workload_client}

  abbrev copy : Secret
  copy = record tls { metadata = object_meta host t.metadata.namespace }

  -- The workload cluster has a secret under the name with the data of the original.
  abbrev pub HasCopy : S → Type 0
  HasCopy s =
      (x : Secret) × (view s (object_key (object_meta host t.metadata.namespace)) ≡ some x)
      × (x.data_entries ≡ tls.data_entries)

  -- What is left of the update of the secret that is there.
  written-HasCopy :
      (found : Secret) (written : Result Secret) (s s2 s' : S)
      → view s (object_key copy.metadata) ≡ some found
      → workload_client.update (record found { data_entries = tls.data_entries }) s ≡ (written, s2)
      → proceed written (λ _. pure {A = Unit {0}} tt) s2 ≡ (ok tt, s')
      → HasCopy s'
  written-HasCopy found (ok o) s s2 s' there e done =
      let same : s2 ≡ s' = ap (λ x. x.1) done in
      let stored = laws.update_stored (record found { data_entries = tls.data_entries }) o s s2 e in
      subst HasCopy same (
        o,
        subst (λ k. view s2 k ≡ some o) (laws.view_key s (object_key copy.metadata) found there)
            stored,
        keeps.update_keeps (record found { data_entries = tls.data_entries }) o s s2 e,
      )
  written-HasCopy found (err e') s s2 s' there e done = cc
  written-HasCopy found panic s s2 s' there e done = cc

  update_if_exists-HasCopy :
      (e : Error) (s s' : S)
      → is_already_exists e ≡ true
      → update_if_exists reconciler tls copy (err e) s ≡ (ok tt, s')
      → HasCopy s'
  unfolding update_if_exists
  update_if_exists-HasCopy e s s' exists done =
      elim (Option-cases (view s (object_key copy.metadata))) [
        | inl gone ↦
            let (x, missing, _) = laws.get_missing (object_key copy.metadata) s gone in
            let failed = rw (exists, missing) at done in cc
        | inr (found, there) ↦
            written-HasCopy found
              (workload_client.update (record found { data_entries = tls.data_entries }) s).0 s
              (workload_client.update (record found { data_entries = tls.data_entries }) s).1 s'
              there refl
              (rw (exists, laws.get_found (object_key copy.metadata) s found there) at done)
      ]

  created-HasCopy :
      (created : Result Secret) (s s1 s' : S)
      → workload_client.create copy s ≡ (created, s1)
      → ((e : Error) → created ≡ err e → is_already_exists e ≡ true)
      → update_if_exists reconciler tls copy created s1 ≡ (ok tt, s')
      → HasCopy s'
  unfolding update_if_exists
  created-HasCopy (ok o) s s1 s' e only done =
      let same : s1 ≡ s' = ap (λ x. x.1) done in
      subst HasCopy same (o, laws.create_stored copy o s s1 e, keeps.create_keeps copy o s s1 e)
  created-HasCopy (err x) s s1 s' e only done = update_if_exists-HasCopy x s1 s' (only x refl) done
  created-HasCopy panic s s1 s' e only done = cc

  -- On a workload cluster that stores the data of a secret as it is sent: where the copy of a secret
  -- returns without an error, and its Create did not fail with an error other than AlreadyExists, the
  -- workload cluster has a secret with the data of the original, under the name of the host and in the
  -- namespace of the ingress.
  pub copy_secret_to_workload_cluster-HasCopy :
      (s s' : S)
      → ((e : Error) → (workload_client.create copy s).0 ≡ err e → is_already_exists e ≡ true)
      → copy_secret_to_workload_cluster reconciler t tls host s ≡ (ok tt, s')
      → HasCopy s'
  unfolding copy_secret_to_workload_cluster
  copy_secret_to_workload_cluster-HasCopy s s' only done =
      created-HasCopy (workload_client.create copy s).0 s (workload_client.create copy s).1 s' refl
        only done
