-- ===== src/Wiring.antt =====
-- main.go: the services, the reconcilers and the webhook server as `main` puts them together.
pub mod Registration
pub mod Published
pub mod Withdrawn
pub mod Exits
pub mod Assigned
pub mod Zone
pub mod Admitted
use multi_cluster_traffic_co.Prelude.{
  ℕ, String, Bool, Option, some, if◌then◌else◌, nat_eq, Error, Result, ok, err, panic, Exec, pure,
  beside, ◌>>=◌,
}
use multi_cluster_traffic_co.Api.Types.{ObjectMeta}
use multi_cluster_traffic_co.Client.{ObjectClient, RestConfig}
use multi_cluster_traffic_co.Certificates.{
  Secret, CertificateStore, ensure_certificate, get_certificate_secret,
}
use multi_cluster_traffic_co.Provider.{Provider}
use multi_cluster_traffic_co.Aws.Session.{Sdk, dns_provider}
use multi_cluster_traffic_co.DnsService.Records.{Service}
use multi_cluster_traffic_co.DnsService.Resolver.{DefaultHostResolver, lookup_ip_addr}
use multi_cluster_traffic_co.DnsService.Actions.{
  ensure_managed_host, add_endpoints, remove_endpoints,
}
use multi_cluster_traffic_co.DnsRecord.Reconcile.{
  Reconciler, setup_with_manager as setup_dns_records,
}
use multi_cluster_traffic_co.TrafficController.{TrafficReconciler, HostService, CertificateService}
use multi_cluster_traffic_co.Cluster.{
  AdmissionReconciler, is_running_locally, reconcile as reconcile_object,
}
use multi_cluster_traffic_co.Watch.Clusters.{
  Watcher, Watchers, WatchController, watch_cluster, traffic_handler_factory,
}
use multi_cluster_traffic_co.SecretController.{
  SecretReconciler, ArgoClusterConfig, setup_with_manager as setup_secrets,
}
use multi_cluster_traffic_co.Webhook.Server.{WebhookServer, new_webhook_server}

-- defaultCtrlNS and defaultCertProvider
abbrev pub default_ctrl_ns : String
default_ctrl_ns = "argocd"

abbrev pub default_cert_provider : String
default_cert_provider = "glbc-ca"

-- The DNS service as the traffic controller and the webhook take it.
abbrev pub host_service : {S Ip Http : Type 0} → Service S Ip → HostService S Http
host_service service = record {
  ensure_managed_host = λ t. ensure_managed_host service t;
  add_endpoints = λ t. add_endpoints service t;
  remove_endpoints = λ t. remove_endpoints service t;
}

-- The certificate service as they take it; the secret that it returns is never nil.
abbrev pub certificate_service : {S : Type 0} → CertificateStore S → CertificateService S
certificate_service store = record {
  ensure_certificate = ensure_certificate store;
  get_certificate_secret =
      λ host. get_certificate_secret store host >>= λ secret. pure (some secret);
}

-- What `main` is given: the flag of the port, the environment, the clients of the manager and of the
-- clusters, and, in the fields of the program's own records that `main` does not set, the outside
-- functions that they call.
pub record Platform (S Ip Http Client Session Aws : Type 0) : Type 0 where
  pub webhook_port_number : ℕ
  pub lookup_env : String → Option String
  pub sdk : Sdk S Session Aws
  pub aws_provider : Aws → Provider S
  pub dns_records : Reconciler S
  pub dns : Service S Ip
  pub resolver : DefaultHostResolver S Ip
  pub tls : CertificateStore S
  pub traffic : TrafficReconciler S Http
  pub new_workload_client : RestConfig → Exec S (ObjectClient S Secret)
  pub new_for_config : RestConfig → Exec S Client
  pub add_to_manager : Watcher Client (TrafficReconciler S Http) → Exec S (Unit {0})
  pub secrets : ObjectClient S Secret
  pub unmarshal : String → Result ArgoClusterConfig
  pub parse_url : String → Result String
  pub admission : AdmissionReconciler S Http
  pub stat : String → Option Error
  pub is_not_exist : Error → Bool

module _ {S Ip Http Client Session Aws : Type 0} (p : Platform S Ip Http Client Session Aws) where
  open p use {
    dns, resolver, tls, traffic, new_workload_client, new_for_config, add_to_manager, secrets,
    unmarshal, parse_url, admission, stat, is_not_exist,
  }

  -- `dnsService` and `certService`
  abbrev pub dns_service : Service S Ip
  dns_service = record dns {
    default_ctrl_ns = default_ctrl_ns;
    lookup_ip_addr = lookup_ip_addr resolver;
  }

  abbrev pub cert_service : CertificateStore S
  cert_service = record tls {
    default_ctrl_ns = default_ctrl_ns;
    default_issuer = default_cert_provider;
  }

  -- What the handlers of all clusters share.
  abbrev pub traffic_services : TrafficReconciler S Http
  traffic_services = record traffic {
    hosts = host_service dns_service;
    certificates = certificate_service cert_service;
  }

  -- The WatchController that the secret reconciler gets.
  abbrev pub watch_controller : WatchController S Client (TrafficReconciler S Http)
  watch_controller = record {
    new_for_config = new_for_config;
    factory = traffic_handler_factory new_workload_client traffic_services;
    add_to_manager = add_to_manager;
  }

  -- The cluster reconciler; the file that IsRunningLocally looks for does not come or go while the
  -- program runs.
  abbrev pub admission_reconciler : AdmissionReconciler S Http
  admission_reconciler = record admission { running_locally = is_running_locally stat is_not_exist }

  -- The secret reconciler, whose watch alone sees the map of watchers.
  abbrev pub secret_reconciler :
      SecretReconciler
        (Watchers Client (TrafficReconciler S Http) × S)
        (Watcher Client (TrafficReconciler S Http))
  secret_reconciler = record {
    secrets = record {
      get = λ k. beside (secrets.get k);
      create = λ o. beside (secrets.create o);
      update = λ o. beside (secrets.update o);
      update_status = λ o. beside (secrets.update_status o);
      delete = λ o. beside (secrets.delete o);
    };
    unmarshal = unmarshal;
    parse_url = parse_url;
    watch_cluster = watch_cluster watch_controller;
    reconcile_cluster = λ obj. beside (reconcile_object admission_reconciler obj);
  }

-- The manager: `NewManager`, the ends of the builders, the checks, `Add` and `Start`.
pub record Manager (S Http Client : Type 0) : Type 0 where
  pub new_manager : Exec S (Unit {0})
  pub complete_dns_records : Reconciler S → Exec S (Unit {0})
  pub complete_secrets :
      (ObjectMeta → Bool)
      → SecretReconciler
          (Watchers Client (TrafficReconciler S Http) × S)
          (Watcher Client (TrafficReconciler S Http))
      → Exec S (Unit {0})
  pub add_healthz_check : String → Exec S (Unit {0})
  pub add_readyz_check : String → Exec S (Unit {0})
  pub add : WebhookServer S Http → Exec S (Unit {0})
  pub start : Exec S (Unit {0})

-- How the process ends: `main` returns, calls `os.Exit`, or panics.
pub data Exit : Type 0 where
  returned crashed : Exit
  exited : ℕ → Exit

-- The `if err != nil` behind each call of `main`.
unfoldable pub or_exit : {S A : Type 0} → Exec S A → (A → S → Exit × S) → S → Exit × S
or_exit m next s =
    let (r, s') = m s in
    elim r [ ok a ↦ next a s' | err e ↦ (exited 1, s') | panic ↦ (crashed, s') ]

module _ {S Ip Http Client Session Aws : Type 0} (p : Platform S Ip Http Client Session Aws)
    (m : Manager S Http Client) where
  open p use {webhook_port_number, lookup_env, sdk, aws_provider, dns_records}
  open m use {
    new_manager, complete_dns_records, complete_secrets, add_healthz_check, add_readyz_check, add,
    start,
  }

  -- The webhook server, unless the port is 0.
  unfoldable pub add_webhook_server : Exec S (Unit {0})
  add_webhook_server =
      if nat_eq webhook_port_number 0
      then pure tt
      else add (
          new_webhook_server (host_service (dns_service p)) (certificate_service (cert_service p))
            webhook_port_number)

  -- main, after the flags.
  unfoldable pub main : S → Exit × S
  unfolding or_exit add_webhook_server
  main = or_exit new_manager λ _. or_exit (dns_provider sdk aws_provider "aws") λ provider.
      or_exit
        (setup_dns_records complete_dns_records lookup_env
          (record dns_records { dns_provider = provider }))
        λ _. or_exit (setup_secrets complete_secrets (secret_reconciler p)) λ _.
          or_exit (add_healthz_check "healthz") λ _.
            or_exit (add_readyz_check "readyz")
              λ _. or_exit add_webhook_server λ _. or_exit start λ _ s. (returned, s)
