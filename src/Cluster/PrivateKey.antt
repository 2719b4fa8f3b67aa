-- ===== src/Cluster/PrivateKey.antt =====
-- The private key of the webhook server's certificate stays in the control cluster.
use multi_cluster_traffic_co.Prelude.{
  String, Option, none, some, [], ◌∷◌, ◌≡◌, refl, arith, eq_iff, ok, err, panic, ◌>>=◌, pure,
  fun_ext, Result, ap, proceed, Option-cases, List-cases, inl, inr,
}
use multi_cluster_traffic_co.Prelude.StringMap.{StringMap, insert}
use multi_cluster_traffic_co.Api.Types.{NamespacedName}
use multi_cluster_traffic_co.Certificates.{Secret}
use multi_cluster_traffic_co.Text.{split}
use multi_cluster_traffic_co.Ingress.{Ingress}
use multi_cluster_traffic_co.Cluster.{
  AdmissionReconciler, Object, bundle_ca, reconcile, get_tls_secret, with_tls_secret, with_traffic,
  write_configurations, managed_hosts_text, get_webhook_traffic, tls_config_of,
}

bundle_ca-insert :
    (key : String) (entries : StringMap)
    → bundle_ca (insert "tls.key" key entries) ≡ bundle_ca entries
unfolding bundle_ca insert
bundle_ca-insert key [] = refl
bundle_ca-insert key (entry ∷ entries) =
    ground (arith, bundle_ca-insert key entries, eq_iff entry.0 "tls.key")

-- The secret with another private key.
abbrev pub with_key : String → Secret → Secret
with_key key secret = record secret { data_entries = insert "tls.key" key secret.data_entries }

module _ {S Http : Type 0} (r : AdmissionReconciler S Http) (key : String) where
  open r use {secrets}

  -- A control cluster whose secrets have this private key.
  abbrev pub with_private_key : AdmissionReconciler S Http
  with_private_key = record r {
    secrets = record secrets { get = λ k. secrets.get k >>= λ secret. pure (with_key key secret) };
  }

  write_configurations-with_key :
      (obj : Object) (host : String) (secret : Secret) (s : S)
      → write_configurations with_private_key obj host (with_key key secret) s
        ≡ write_configurations r obj host secret s
  unfolding write_configurations
  write_configurations-with_key obj host secret s =
      rw (bundle_ca-insert key secret.data_entries) refl

  -- The rest of Reconcile, at what a Get of the secret gives.
  with_tls_secret-get :
      (obj : Object) (host : String) (found : Result Secret) (s : S)
      → (let (seen, s') =
            proceed
              (proceed found (λ x. pure (with_key key x)) s).0
              (λ x. pure (some x))
              (proceed found (λ x. pure (with_key key x)) s).1 in
          with_tls_secret with_private_key obj host seen s')
        ≡ (let (seen, s') = proceed found (λ x. pure (some x)) s in
            with_tls_secret r obj host seen s')
  unfolding with_tls_secret
  with_tls_secret-get obj host (ok secret) s = write_configurations-with_key obj host secret s
  with_tls_secret-get obj host (err e) s = refl
  with_tls_secret-get obj host panic s = refl

  with_tls_secret-get_tls_secret :
      (obj : Object) (host : String) (a : Ingress Http) (s : S)
      → (let (seen, s') = get_tls_secret with_private_key host a s in
          with_tls_secret with_private_key obj host seen s')
        ≡ (let (seen, s') = get_tls_secret r host a s in with_tls_secret r obj host seen s')
  unfolding get_tls_secret with_tls_secret
  with_tls_secret-get_tls_secret obj host a s = elim (Option-cases (tls_config_of host a)) [
    | inl e ↦ rw (get_tls_secret, e) refl
    | inr (c, e) ↦
        rw (get_tls_secret, e)
          (let k : NamespacedName = record {
            name = c.secret_name;
            namespace = a.metadata.namespace;
          } in
            with_tls_secret-get obj host (secrets.get k s).0 (secrets.get k s).1)
  ]

  with_traffic-key :
      (obj : Object) (found : Option (Ingress Http)) (s : S)
      → with_traffic with_private_key obj found s ≡ with_traffic r obj found s
  unfolding with_traffic
  with_traffic-key obj none s = refl
  with_traffic-key obj (some a) s = elim (List-cases (split (managed_hosts_text a))) [
    | inl e ↦ rw (with_traffic, e) refl
    | inr (host, others, e) ↦ rw (with_traffic, e) (with_tls_secret-get_tls_secret obj host a s)
  ]

  -- What Reconcile returns and what it does to the clusters does not depend on the private key: with
  -- another value under "tls.key" in every secret that is read, the result and the state are the same.
  pub reconcile_ignores_key :
      (obj : Object) (s : S) → reconcile with_private_key obj s ≡ reconcile r obj s
  unfolding reconcile get_webhook_traffic
  reconcile_ignores_key obj s =
      ap (λ f. (get_webhook_traffic r >>= f) s)
        (fun_ext (λ found. fun_ext (λ s'. with_traffic-key obj found s')))
