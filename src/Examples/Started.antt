-- ===== src/Examples/Started.antt =====
-- A cluster that is registered with the program as `main` puts it together, and the program's start.
use multi_cluster_traffic_co.Prelude.{String, false, Option, none, some, [], ◌∷◌, ◌≡◌, refl, ok}
use multi_cluster_traffic_co.Prelude.StringMap.{lookup}
use multi_cluster_traffic_co.Api.Types.{object_key}
use multi_cluster_traffic_co.Ingress.{add_tls, add_managed_host}
use multi_cluster_traffic_co.Ingress.WebhookConfigurations.{WebhookConfiguration}
use multi_cluster_traffic_co.Cluster.{set_webhooks, is_running_locally}
use multi_cluster_traffic_co.Cluster.Configured.{managed, wanted}
use multi_cluster_traffic_co.Watch.Clusters.{watcher_of}
use multi_cluster_traffic_co.SecretController.{reconcile, rest_config_of, before_colon}
use multi_cluster_traffic_co.Wiring.{Platform, Manager, secret_reconciler, main, exited}
use multi_cluster_traffic_co.Wiring.Registration.{wired_watcher, reconcile_registers}
use multi_cluster_traffic_co.Wiring.Exits.{main_unlisted}
use multi_cluster_traffic_co.Examples.Server.{differ}
use multi_cluster_traffic_co.Examples.Clusters.{
  bare, always, certified, control, workload, configuration, workload_laws, sole, read_only_laws,
}
use multi_cluster_traffic_co.Examples.Registration.{argo, registration}
use multi_cluster_traffic_co.Examples.Wired.{platform, closed, accepting, refused}

-- The state is the configuration that the workload cluster has.
abbrev registering : Platform (Option WebhookConfiguration) String String String String String
registering =
    platform closed closed (record closed { get = λ k s. (ok registration, s) })
      (control (managed always bare "web.test" "web-tls"))

reconcile_registers_example :
    ((reconcile (secret_reconciler registering) (object_key registration.metadata) ([], none)).0
      ≡ ok none)
    × ((reconcile (secret_reconciler registering) (object_key registration.metadata) ([], none)).1.0
        ≡ (
          "10.0.0.2:6443",
          wired_watcher registering (rest_config_of argo "10.0.0.2:6443") "10.0.0.2:6443" accepting,
        )
          ∷ [])
    × ((reconcile (secret_reconciler registering) (object_key registration.metadata) ([], none)).1.1
        ≡ some (wanted false "web.test" certified))
unfolding lookup add_tls add_managed_host set_webhooks watcher_of is_running_locally rest_config_of
    before_colon
reconcile_registers_example =
    reconcile_registers registering registration argo "10.0.0.2:6443"
      (object_key registration.metadata) [] "10.0.0.2:6443" accepting none none none none none
      (sole (λ x. x.metadata) (managed always bare "web.test" "web-tls"))
      (read_only_laws (λ x. x.metadata) (managed always bare "web.test" "web-tls"))
      (sole (λ x. x.metadata) certified) (read_only_laws (λ x. x.metadata) certified) always bare
      "web.test" "web-tls" certified workload configuration refl refl refl refl refl refl refl
      workload_laws refl (differ "web.test" "" refl)
      (refl, (refl, (refl, (refl, (refl, (refl, (refl, (refl, tt)))))))) refl refl refl refl

abbrev manager : Manager (Option WebhookConfiguration) String String
manager = record {
  new_manager = λ s. (ok tt, s);
  complete_dns_records = λ r s. (ok tt, s);
  complete_secrets = λ filter r s. (ok tt, s);
  add_healthz_check = λ name s. (ok tt, s);
  add_readyz_check = λ name s. (ok tt, s);
  add = λ server s. (ok tt, s);
  start = λ s. (ok tt, s);
}

-- The zones of the examples cannot be listed.
main_unlisted_example : main registering manager none ≡ (exited 1, none)
main_unlisted_example =
    main_unlisted registering manager "session" refused none none none none refl refl refl
