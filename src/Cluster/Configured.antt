-- ===== src/Cluster/Configured.antt =====
-- What Reconcile of the cluster reconciler writes to a workload cluster, for the ingress that the
-- traffic controller leaves in the control cluster.
use multi_cluster_traffic_co.Prelude.{
  ℕ, String, Bool, true, Option, none, some, List, [], ◌∷◌, ◌≡◌, ◌≢◌, refl, arith, eq_refl, ok, err,
  inl, inr, ◌∙◌, ap, Result, Exec, is_ok, Result-cases, sym, pure, proceed, ◌>>=◌, panic,
}
use multi_cluster_traffic_co.Prelude.StringMap.{lookup, lookup-insert}
use multi_cluster_traffic_co.Text.Split.{LacksComma, split-LacksComma}
use multi_cluster_traffic_co.Api.Types.{NamespacedName}
use multi_cluster_traffic_co.Client.{ClientLaws}
use multi_cluster_traffic_co.Certificates.{Secret}
use multi_cluster_traffic_co.Ingress.{
  Ingress, TlsConfig, add_managed_host, add_tls, annotations_of, annotation_managed_hosts,
  record_managed_host, tls_section,
}
use multi_cluster_traffic_co.Ingress.Tls.{section_of-add_tls}
use multi_cluster_traffic_co.Ingress.WebhookConfigurations.{
  WebhookConfiguration, MutatingWebhook, get_webhook_configurations, ingress_webhook,
}
use multi_cluster_traffic_co.Cluster.{
  AdmissionReconciler, WorkloadClient, Object, reconcile, get_tls_secret, with_tls_secret,
  with_traffic, managed_hosts_text, tls_config_of, webhook_key, write_configurations,
  write_webhooks, set_webhooks, bundle_ca,
}
use multi_cluster_traffic_co.Cluster.Readiness.{reconcile-stored, checked_traffic-some}

-- What the program relies on of `CreateOrUpdate`: a call that returns an object has applied the given
-- function to an object of the same name, and that is what the cluster has from then on.
pub record WorkloadLaws {S : Type 0} (client : WorkloadClient S)
    (configured : S → String → Option WebhookConfiguration) : Type 0 where
  pub written :
      (g g' : WebhookConfiguration) (f : WebhookConfiguration → Result WebhookConfiguration)
      (s s' : S)
      → client.create_or_update_mutating g f s ≡ (ok g', s')
      → (current : WebhookConfiguration) × (current.name ≡ g.name)
        × (f current ≡ ok g')
        × (configured s' g.name ≡ some g')

module _ {Http : Type 0} (deep_equal : Http → Http → Bool) (a : Ingress Http)
    (h secret_name : String) where
  -- The ingress with the host and its section, as Handle leaves it.
  abbrev pub managed : Ingress Http
  managed = add_tls (add_managed_host deep_equal a h) h secret_name

  managed_hosts_text-managed :
      lookup annotation_managed_hosts (annotations_of a.metadata) ≡ none
      → managed_hosts_text managed ≡ h
  unfolding managed_hosts_text add_tls add_managed_host record_managed_host
  managed_hosts_text-managed unmanaged = ground (
    arith,
    lookup-insert annotation_managed_hosts annotation_managed_hosts h (annotations_of a.metadata),
    eq_refl annotation_managed_hosts,
  )

  tls_config_of-managed : tls_config_of h managed ≡ some (tls_section h secret_name)
  unfolding tls_config_of
  tls_config_of-managed =
      (section_of-add_tls (add_managed_host deep_equal a h) h secret_name secret_name).0

-- The configuration that the webhook server's host and certificate ask for.
abbrev pub wanted : Bool → String → Secret → WebhookConfiguration
wanted is_local h secret = record {
  name = "mctc";
  webhooks = ingress_webhook is_local h (bundle_ca secret.data_entries) ∷ [];
}

-- The object that `CreateOrUpdate` is called with.
abbrev pub unwritten : WebhookConfiguration
unwritten = record { name = "mctc"; webhooks = [] }

module _ {S : Type 0} (client : WorkloadClient S)
    (configured : S → String → Option WebhookConfiguration)
    (laws : WorkloadLaws client configured) where
  written-set_webhooks :
      (webhooks : List MutatingWebhook) (g' : WebhookConfiguration) (s s' : S)
      → client.create_or_update_mutating unwritten (set_webhooks webhooks) s ≡ (ok g', s')
      → configured s' "mctc" ≡ some (record { name = "mctc"; webhooks = webhooks })
  unfolding set_webhooks
  written-set_webhooks webhooks g' s s' e =
      let (current, name, set, there) = laws.written unwritten g' (set_webhooks webhooks) s s' e in
      ground (arith, name, set, there)

-- The unit between two steps makes no difference.
after_write :
    {S : Type 0} (next : Exec S (Option ℕ)) (written : Result WebhookConfiguration) (s : S)
    → (proceed written (λ _. pure {A = Unit {0}} tt) >>= λ _. next) s
      ≡ proceed written (λ _. next) s
after_write next (ok g) s = refl
after_write next (err e) s = refl
after_write next panic s = refl

module _ {S Http : Type 0} (r : AdmissionReconciler S Http) (client : WorkloadClient S)
    (obj : Object) (h : String) (secret : Secret) (s : S) where
  -- The one call that changes something, and what Reconcile returns after it.
  write_configurations-mutating :
      r.new_client obj.rest_config s ≡ (ok client, s)
      → write_configurations r obj h secret s
        ≡ (client.create_or_update_mutating unwritten
                (set_webhooks (wanted r.running_locally h secret).webhooks)
              >>= λ _. pure none)
            s
  unfolding write_configurations write_webhooks get_webhook_configurations
  write_configurations-mutating there = rw there (
      after_write (pure none)
        (client.create_or_update_mutating unwritten
          (set_webhooks (wanted r.running_locally h secret).webhooks) s).0
        (client.create_or_update_mutating unwritten
          (set_webhooks (wanted r.running_locally h secret).webhooks) s).1)

  -- What comes of the call, if it succeeds.
  write_configurations-wanted :
      (configured : S → String → Option WebhookConfiguration)
      → WorkloadLaws client configured
      → r.new_client obj.rest_config s ≡ (ok client, s)
      → is_ok
          (client.create_or_update_mutating unwritten
            (set_webhooks (wanted r.running_locally h secret).webhooks)
            s).0
        ≡ true
      → ((write_configurations r obj h secret s).0 ≡ ok none)
        × (configured (write_configurations r obj h secret s).1 "mctc"
            ≡ some (wanted r.running_locally h secret))
  write_configurations-wanted configured laws there accepted =
      let W = set_webhooks (wanted r.running_locally h secret).webhooks in
      elim (Result-cases (client.create_or_update_mutating unwritten W s).0) [
        | inl (g, e) ↦
            rw (write_configurations-mutating there, e)
              (
                refl,
                written-set_webhooks client configured laws
                    (wanted r.running_locally h secret).webhooks g s
                    (client.create_or_update_mutating unwritten W s).1
                    (ap (λ x. (x, (client.create_or_update_mutating unwritten W s).1)) e),
              )
        | inr e ↦ ground (arith, accepted, e)
      ]

module _ {S Http : Type 0} (r : AdmissionReconciler S Http) (obj : Object) (s : S)
    (stored : S → NamespacedName → Option (Ingress Http))
    (ingress_laws : ClientLaws (λ a. a.metadata) r.ingresses stored)
    (kept : S → NamespacedName → Option Secret)
    (secret_laws : ClientLaws (λ x. x.metadata) r.secrets kept) where
  -- Reconcile with the stored ingress and the stored secret at hand comes down to the writing.
  reconcile-ready :
      (a : Ingress Http) (host : String) (section : TlsConfig) (secret : Secret)
      → stored s webhook_key ≡ some a
      → host ≢ ""
      → LacksComma host
      → managed_hosts_text a ≡ host
      → tls_config_of host a ≡ some section
      → kept s (record { name = section.secret_name; namespace = a.metadata.namespace })
        ≡ some secret
      → reconcile r obj s ≡ write_configurations r obj host secret s
  unfolding with_traffic get_tls_secret with_tls_secret
  reconcile-ready a host section secret here nonempty plain named found present =
      rw
        (
          reconcile-stored r stored ingress_laws obj s a here,
          checked_traffic-some a host section (λ e. nonempty (sym named ∙ e)) found,
          with_traffic,
          named,
          split-LacksComma host plain,
          get_tls_secret,
          found,
          secret_laws.get_found
              (record { name = section.secret_name; namespace = a.metadata.namespace }) s secret
              present,
        )
        refl

  -- Where the stored ingress of the webhook server is one to which AddManagedHost and AddTLS gave a
  -- nonempty host without a comma, with no host before, the secret that AddTLS names is stored, and the
  -- workload cluster is reached and accepts the write, Reconcile returns neither an error nor a
  -- requeue, and the workload cluster then has the configuration "mctc" with one webhook: that of the
  -- host, with the certificates of the secret.
  pub reconcile_configures :
      (deep_equal : Http → Http → Bool) (a : Ingress Http) (h secret_name : String)
      (secret : Secret) (client : WorkloadClient S)
      (configured : S → String → Option WebhookConfiguration)
      → WorkloadLaws client configured
      → r.new_client obj.rest_config s ≡ (ok client, s)
      → h ≢ ""
      → LacksComma h
      → lookup annotation_managed_hosts (annotations_of a.metadata) ≡ none
      → stored s webhook_key ≡ some (managed deep_equal a h secret_name)
      → kept s (record { name = secret_name; namespace = a.metadata.namespace }) ≡ some secret
      → is_ok
          (client.create_or_update_mutating unwritten
            (set_webhooks (wanted r.running_locally h secret).webhooks)
            s).0
        ≡ true
      → ((reconcile r obj s).0 ≡ ok none)
        × (configured (reconcile r obj s).1 "mctc" ≡ some (wanted r.running_locally h secret))
  unfolding add_tls add_managed_host
  reconcile_configures deep_equal a h secret_name secret client configured laws there nonempty plain
        unmanaged here present accepted =
      rw
        (reconcile-ready (managed deep_equal a h secret_name) h (tls_section h secret_name) secret
          here nonempty plain (managed_hosts_text-managed deep_equal a h secret_name unmanaged)
          (tls_config_of-managed deep_equal a h secret_name) present)
        (write_configurations-wanted r client obj h secret s configured laws there accepted)
