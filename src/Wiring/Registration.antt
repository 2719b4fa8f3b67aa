-- ===== src/Wiring/Registration.antt =====
-- The secret reconciler of `main`, with the watch and the cluster reconciler that `main` gives it.
use multi_cluster_traffic_co.Prelude.{
  String, Bool, true, Option, none, some, ◌∷◌, ◌≡◌, ◌≢◌, refl, ok, is_ok, beside,
}
use multi_cluster_traffic_co.Prelude.StringMap.{lookup}
use multi_cluster_traffic_co.Text.Split.{LacksComma}
use multi_cluster_traffic_co.Api.Types.{NamespacedName}
use multi_cluster_traffic_co.Client.{ObjectClient, RestConfig, ClientLaws}
use multi_cluster_traffic_co.Certificates.{Secret}
use multi_cluster_traffic_co.Ingress.{Ingress, annotations_of, annotation_managed_hosts}
use multi_cluster_traffic_co.Ingress.WebhookConfigurations.{WebhookConfiguration}
use multi_cluster_traffic_co.TrafficController.{TrafficReconciler}
use multi_cluster_traffic_co.Cluster.{
  Object, WorkloadClient, reconcile as reconcile_object, set_webhooks, webhook_key,
}
use multi_cluster_traffic_co.Cluster.Configured.{
  WorkloadLaws, managed, wanted, unwritten, reconcile_configures,
}
use multi_cluster_traffic_co.Watch.Clusters.{
  Watcher, Watchers, watcher_of, watch_cluster, new_cluster_watcher, keep_watcher, add_watcher,
  traffic_handler_factory,
}
use multi_cluster_traffic_co.Watch.Clusters.Once.{watcher_for}
use multi_cluster_traffic_co.SecretController.{
  ArgoClusterConfig, data_of, rest_config_of, reconcile, register_secret, register,
}
use multi_cluster_traffic_co.SecretController.Registration.{SharesMap}
use multi_cluster_traffic_co.Wiring.{
  Platform, secret_reconciler, watch_controller, traffic_services, admission_reconciler,
}

module _ {S Ip Http Client Session Aws : Type 0} (p : Platform S Ip Http Client Session Aws) where
  -- What a watcher of a cluster is made of: the client of its informers, and the traffic controller
  -- that has the services of `main` and a client of the cluster.
  abbrev pub wired_watcher :
      RestConfig → Client → ObjectClient S Secret → Watcher Client (TrafficReconciler S Http)
  wired_watcher config client workload_client =
      watcher_for (watch_controller p) config client
        (record (traffic_services p) { workload_client = workload_client })

  -- Nothing but the watch that `main` gives to the secret reconciler touches the map of watchers.
  pub secret_reconciler-SharesMap : SharesMap (watch_controller p) (secret_reconciler p)
  secret_reconciler-SharesMap = record {
    watches = λ config st. refl;
    get_keeps = λ k st. refl;
    reconcile_keeps = λ obj st. refl;
  }

  watch_cluster-wired :
      (config : RestConfig) (ws : Watchers Client (TrafficReconciler S Http)) (client : Client)
      (workload_client : ObjectClient S Secret) (s s1 s2 s3 : S)
      → watcher_of config.host ws ≡ none
      → p.new_for_config config s ≡ (ok client, s1)
      → p.new_workload_client config s1 ≡ (ok workload_client, s2)
      → p.add_to_manager (wired_watcher config client workload_client) s2 ≡ (ok tt, s3)
      → watch_cluster (watch_controller p) config (ws, s) ≡ (
        ok (wired_watcher config client workload_client),
        ((config.host, wired_watcher config client workload_client) ∷ ws, s3),
      )
  unfolding watch_cluster new_cluster_watcher keep_watcher add_watcher traffic_handler_factory
  watch_cluster-wired config ws client workload_client s s1 s2 s3 absent made reached added =
      rw
        (
          watch_cluster, absent, new_cluster_watcher, made, traffic_handler_factory, reached, added,
          keep_watcher,
        )
        refl

  module _ (secret : Secret) (config : ArgoClusterConfig) (host : String) where
    -- The object that Reconcile of the secret controller hands on.
    abbrev pub object_of : Object
    object_of = record { name = secret.metadata.name; rest_config = rest_config_of config host }

    reconcile-wired :
        (req : NamespacedName) (ws : Watchers Client (TrafficReconciler S Http)) (client : Client)
        (workload_client : ObjectClient S Secret) (s s1 s2 s3 s4 : S)
        → p.secrets.get req s ≡ (ok secret, s1)
        → p.unmarshal (data_of secret "config") ≡ ok config
        → p.parse_url (data_of secret "server") ≡ ok host
        → watcher_of host ws ≡ none
        → p.new_for_config (rest_config_of config host) s1 ≡ (ok client, s2)
        → p.new_workload_client (rest_config_of config host) s2 ≡ (ok workload_client, s3)
        → p.add_to_manager (wired_watcher (rest_config_of config host) client workload_client) s3
          ≡ (ok tt, s4)
        → reconcile (secret_reconciler p) req (ws, s)
          ≡ beside
              (reconcile_object (admission_reconciler p) object_of)
              ((host, wired_watcher (rest_config_of config host) client workload_client) ∷ ws, s4)
    unfolding reconcile register_secret register rest_config_of
    reconcile-wired req ws client workload_client s s1 s2 s3 s4 got read parsed absent made reached
          added =
        rw
          (
            reconcile,
            got,
            register_secret,
            read,
            parsed,
            register,
            watch_cluster-wired (rest_config_of config host) ws client workload_client s1 s2 s3 s4
                absent made reached added,
          )
          refl

    -- Where the secret, its configuration and its URL can be read, the map has no watcher for the
    -- host yet, the clients of the cluster are made and the manager takes the watcher, the ingress of
    -- the webhook server is one to which AddManagedHost and AddTLS gave a nonempty host without a
    -- comma, with no host before, the secret that AddTLS names is stored, and the workload cluster
    -- accepts the write: Reconcile of the secret controller that `main` sets up returns neither an
    -- error nor a requeue, the map has one watcher more, that of the cluster with the services of
    -- `main`, and the workload cluster has the configuration "mctc" for the host with the certificates
    -- of the secret.
    pub reconcile_registers :
        (req : NamespacedName) (ws : Watchers Client (TrafficReconciler S Http)) (client : Client)
        (workload_client : ObjectClient S Secret) (s s1 s2 s3 s4 : S)
        (stored : S → NamespacedName → Option (Ingress Http))
        (ingress_laws : ClientLaws (λ a. a.metadata) p.admission.ingresses stored)
        (kept : S → NamespacedName → Option Secret)
        (secret_laws : ClientLaws (λ x. x.metadata) p.admission.secrets kept)
        (deep_equal : Http → Http → Bool) (a : Ingress Http) (h secret_name : String)
        (certificate : Secret) (workload : WorkloadClient S)
        (configured : S → String → Option WebhookConfiguration)
        → p.secrets.get req s ≡ (ok secret, s1)
        → p.unmarshal (data_of secret "config") ≡ ok config
        → p.parse_url (data_of secret "server") ≡ ok host
        → watcher_of host ws ≡ none
        → p.new_for_config (rest_config_of config host) s1 ≡ (ok client, s2)
        → p.new_workload_client (rest_config_of config host) s2 ≡ (ok workload_client, s3)
        → p.add_to_manager (wired_watcher (rest_config_of config host) client workload_client) s3
          ≡ (ok tt, s4)
        → WorkloadLaws workload configured
        → p.admission.new_client (rest_config_of config host) s4 ≡ (ok workload, s4)
        → h ≢ ""
        → LacksComma h
        → lookup annotation_managed_hosts (annotations_of a.metadata) ≡ none
        → stored s4 webhook_key ≡ some (managed deep_equal a h secret_name)
        → kept s4 (record { name = secret_name; namespace = a.metadata.namespace })
          ≡ some certificate
        → is_ok
            (workload.create_or_update_mutating unwritten
              (set_webhooks
                (wanted (admission_reconciler p).running_locally h certificate).webhooks)
              s4).0
          ≡ true
        → ((reconcile (secret_reconciler p) req (ws, s)).0 ≡ ok none)
          × ((reconcile (secret_reconciler p) req (ws, s)).1.0
              ≡ ((host, wired_watcher (rest_config_of config host) client workload_client) ∷ ws))
          × (configured (reconcile (secret_reconciler p) req (ws, s)).1.1 "mctc"
              ≡ some (wanted (admission_reconciler p).running_locally h certificate))
    reconcile_registers req ws client workload_client s s1 s2 s3 s4 stored ingress_laws kept
          secret_laws deep_equal a h secret_name certificate workload configured got read parsed
          absent made reached added laws there nonempty plain unmanaged here present accepted =
        let written =
          reconcile_configures (admission_reconciler p) object_of s4 stored ingress_laws kept
            secret_laws deep_equal a h secret_name certificate workload configured laws there
            nonempty plain unmanaged here present accepted in
        rw
          (reconcile-wired req ws client workload_client s s1 s2 s3 s4 got read parsed absent made
            reached added)
          (written.0, refl, written.1)
