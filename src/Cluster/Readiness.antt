-- ===== src/Cluster/Readiness.antt =====
-- What Reconcile of the cluster reconciler waits for: the host, the TLS section and the secret of the
-- webhook server's ingress.
use multi_cluster_traffic_co.Prelude.{
  String, Option, none, some, List, [], ◌∷◌, ◌≡◌, refl, arith, ok, inl, inr, ◌⊎◌, Option-cases,
  List-cases, ◌≢◌, eq_iff,
}
use multi_cluster_traffic_co.Text.{split}
use multi_cluster_traffic_co.Slice.{find}
use multi_cluster_traffic_co.Api.Types.{NamespacedName}
use multi_cluster_traffic_co.Client.{ClientLaws}
use multi_cluster_traffic_co.Certificates.{Secret}
use multi_cluster_traffic_co.Ingress.{Ingress, TlsConfig}
use multi_cluster_traffic_co.Cluster.{
  AdmissionReconciler, Object, reconcile, get_tls_secret, with_tls_secret, with_traffic,
  managed_hosts_text, get_webhook_traffic, tls_config_of, webhook_key, checked_traffic,
}

-- The ingress names no managed host, or has no TLS section for the first one that it names.
abbrev pub Lacks : {Http : Type 0} → Ingress Http → Type 0
Lacks a =
    (managed_hosts_text a ≡ "")
    ⊎ ((a.tls ≡ [])
        ⊎ ((host : String) × (others : List String) × (split (managed_hosts_text a) ≡ host ∷ others)
            × (tls_config_of host a ≡ none)))

checked_traffic-cases :
    {Http : Type 0} (a : Ingress Http) → (checked_traffic a ≡ none) ⊎ (checked_traffic a ≡ some a)
unfolding checked_traffic
checked_traffic-cases a = elim (Option-cases a.metadata.annotations) [
  | inl e ↦ ground (arith, e)
  | inr (m, e) ↦ elim (List-cases a.tls) [
    | inl none_there ↦ ground (arith, e, none_there)
    | inr (t, ts, there) ↦ ground (arith, e, there)
  ]
]

checked_traffic-bare :
    {Http : Type 0} (a : Ingress Http) → managed_hosts_text a ≡ "" → checked_traffic a ≡ none
unfolding checked_traffic
checked_traffic-bare a bare = elim (Option-cases a.metadata.annotations) [
  | inl e ↦ rw e refl
  | inr (m, e) ↦ rw (checked_traffic, e, bare) refl
]

pub checked_traffic-some :
    {Http : Type 0} (a : Ingress Http) (host : String) (section : TlsConfig)
    → managed_hosts_text a ≢ ""
    → tls_config_of host a ≡ some section
    → checked_traffic a ≡ some a
unfolding checked_traffic managed_hosts_text tls_config_of find
checked_traffic-some a host section named found = elim (Option-cases a.metadata.annotations) [
  | inl e ↦ ground (arith, e)
  | inr (m, e) ↦ elim (List-cases a.tls) [
    | inl none_there ↦ ground (arith, none_there)
    | inr (t, ts, there) ↦ ground (arith, e, there, eq_iff (managed_hosts_text a) "")
  ]
]

checked_traffic-insecure :
    {Http : Type 0} (a : Ingress Http) → a.tls ≡ [] → checked_traffic a ≡ none
unfolding checked_traffic
checked_traffic-insecure a insecure = elim (Option-cases a.metadata.annotations) [
  | inl e ↦ rw e refl
  | inr (m, e) ↦ ground (arith, e, insecure)
]

module _ {S Http : Type 0} (r : AdmissionReconciler S Http)
    (stored : S → NamespacedName → Option (Ingress Http))
    (ingress_laws : ClientLaws (λ a. a.metadata) r.ingresses stored) where
  -- Reconcile goes on with what the checks say of the stored ingress.
  pub reconcile-stored :
      (obj : Object) (s : S) (a : Ingress Http)
      → stored s webhook_key ≡ some a
      → reconcile r obj s ≡ with_traffic r obj (checked_traffic a) s
  unfolding reconcile get_webhook_traffic
  reconcile-stored obj s a here = rw (ingress_laws.get_found webhook_key s a here) refl

  with_traffic-sectionless :
      (obj : Object) (s : S) (a : Ingress Http) (host : String) (others : List String)
      → split (managed_hosts_text a) ≡ host ∷ others
      → tls_config_of host a ≡ none
      → with_traffic r obj (some a) s ≡ (ok (some 60), s)
  unfolding with_traffic get_tls_secret with_tls_secret
  with_traffic-sectionless obj s a host others first sectionless =
      rw (with_traffic, first, get_tls_secret, sectionless) refl

  -- While the stored ingress of the webhook server names no managed host, has no TLS section at all, or
  -- none for the first host that it names, Reconcile asks to be called again after 60 seconds and makes
  -- no call that changes anything.
  pub reconcile_waits :
      (obj : Object) (s : S) (a : Ingress Http)
      → stored s webhook_key ≡ some a
      → Lacks a
      → reconcile r obj s ≡ (ok (some 60), s)
  unfolding with_traffic
  reconcile_waits obj s a here (inl bare) =
      rw (reconcile-stored obj s a here, checked_traffic-bare a bare) refl
  reconcile_waits obj s a here (inr (inl insecure)) =
      rw (reconcile-stored obj s a here, checked_traffic-insecure a insecure) refl
  reconcile_waits obj s a here (inr (inr (host, others, first, sectionless))) =
      rw (reconcile-stored obj s a here) (elim (checked_traffic-cases a) [
        | inl e ↦ rw e refl
        | inr e ↦ rw e (with_traffic-sectionless obj s a host others first sectionless)
      ])

  -- Where the ingress names a host and has a section for it, but the secret of the section is not
  -- there, Reconcile returns no error and does not ask to be called again, and nothing is changed.
  pub reconcile_secret_missing :
      (kept : S → NamespacedName → Option Secret)
      (secret_laws : ClientLaws (λ x. x.metadata) r.secrets kept) (obj : Object) (s : S)
      (a : Ingress Http) (host : String) (others : List String) (section : TlsConfig)
      → stored s webhook_key ≡ some a
      → managed_hosts_text a ≢ ""
      → split (managed_hosts_text a) ≡ host ∷ others
      → tls_config_of host a ≡ some section
      → kept s (record { name = section.secret_name; namespace = a.metadata.namespace }) ≡ none
      → reconcile r obj s ≡ (ok none, s)
  unfolding with_traffic get_tls_secret with_tls_secret
  reconcile_secret_missing kept secret_laws obj s a host others section here named first found
        missing =
      let (e, fails, _) =
        secret_laws.get_missing
          (record { name = section.secret_name; namespace = a.metadata.namespace }) s missing in
      rw
        (
          reconcile-stored obj s a here,
          checked_traffic-some a host section named found,
          with_traffic,
          first,
          get_tls_secret,
          found,
          fails,
        )
        refl
