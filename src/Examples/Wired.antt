-- ===== src/Examples/Wired.antt =====
-- The program as `main` puts it together, on the servers of the examples.
use multi_cluster_traffic_co.Prelude.{
  String, Bool, none, some, List, [], ◌∷◌, ◌++◌, ◌==◌, ◌≡◌, refl, eq_refl, Error, Kind, errorf,
  Result, ok, err,
}
use multi_cluster_traffic_co.Slice.{contains_string, remove_string}
use multi_cluster_traffic_co.Api.Types.{DnsRecord, object_key, object_meta}
use multi_cluster_traffic_co.Client.{ObjectClient}
use multi_cluster_traffic_co.Provider.{fake_provider}
use multi_cluster_traffic_co.Certificates.{Secret, ensure_certificate, certificate}
use multi_cluster_traffic_co.Ingress.{
  Ingress, get_hosts, get_tls, tls_section, get_dns_targets, add_managed_host, additional_rules,
  covered_rules,
}
use multi_cluster_traffic_co.Ingress.Tls.{section_of}
use multi_cluster_traffic_co.DnsService.Records.{resolve_ips, resolve_targets}
use multi_cluster_traffic_co.DnsService.Addresses.Extended.{extended}
use multi_cluster_traffic_co.DnsService.Addresses.Runs.{served}
use multi_cluster_traffic_co.TrafficController.{
  handle, returns, copy_secret_to_workload_cluster, update_if_exists,
}
use multi_cluster_traffic_co.Cluster.{AdmissionReconciler}
use multi_cluster_traffic_co.Wiring.{Platform}
use multi_cluster_traffic_co.Wiring.Published.{handler_of}
use multi_cluster_traffic_co.Wiring.Assigned.{handle_twice, with_host}
use multi_cluster_traffic_co.Examples.Server.{server, server_laws, service, view, ingress}
use multi_cluster_traffic_co.Examples.Service.{host, record_of}
use multi_cluster_traffic_co.Examples.Registration.{argo}

abbrev pub refused : Error
refused = errorf "refused"

abbrev pub closed : {S Obj : Type 0} → ObjectClient S Obj
closed = record {
  get = λ k s. (err refused, s);
  create = λ o s. (err refused, s);
  update = λ o s. (err refused, s);
  update_status = λ o s. (err refused, s);
  delete = λ o s. (err refused, s);
}

-- A client that accepts what it is given, and has nothing.
abbrev pub accepting : {S Obj : Type 0} → ObjectClient S Obj
accepting = record closed { create = λ o s. (ok o, s); update = λ o s. (ok o, s) }

abbrev pub no_admission : {S : Type 0} → AdmissionReconciler S String
no_admission = record {
  ingresses = closed;
  secrets = closed;
  new_client = λ config s. (err refused, s);
  running_locally = Bool.false;
}

-- The clients of the control cluster for records, for secrets of hosts and for secrets of clusters.
abbrev pub platform :
    {S : Type 0}
    → ObjectClient S DnsRecord
    → ObjectClient S Secret
    → ObjectClient S Secret
    → AdmissionReconciler S String
    → Platform S String String String String String
platform {S} records host_secrets cluster_secrets admission = record {
  webhook_port_number = 8082;
  lookup_env = λ name. none;
  sdk = record {
    ids = record {
      cn_north1 = "cn-north-1";
      cn_northwest1 = "cn-northwest-1";
      us_gov_east1 = "us-gov-east-1";
      us_gov_west1 = "us-gov-west-1";
      us_iso_east1 = "us-iso-east-1";
      us_east1 = "us-east-1";
    };
    new_session = λ region s. (ok "session", s);
    new_client = λ session config. session;
    list_hosted_zones = λ client s. (err refused, s);
    aggregate = λ errs. refused;
  };
  aws_provider = λ client. fake_provider;
  dns_records = record {
    client = records;
    dns_provider = fake_provider;
    dns_zones = [];
    contains_finalizer = contains_string;
    add_finalizer = λ fs f. fs ++ f ∷ [];
    remove_finalizer = remove_string;
    new_aggregate = λ errs. refused;
    cmp_equal = λ less a b. Bool.false;
    now = λ calls. 5;
    clock = λ calls. 5;
  };
  dns = record {
    control_client = records;
    default_ctrl_ns = "";
    lookup_ip_addr = λ name s. (err refused, s);
    ip_string = λ ip. ip;
    getenv = service.getenv;
    short_uuid = service.short_uuid;
    to_lower = service.to_lower;
  };
  resolver = record {
    servers = λ s. (err refused, s);
    exchange = λ question server s. (err refused, s);
  };
  tls = record {
    certificates = accepting;
    secrets = host_secrets;
    default_ctrl_ns = "";
    default_issuer = "";
    set_owner_reference = λ owner cert. ok cert;
  };
  traffic = record {
    workload_client = closed;
    hosts = record {
      ensure_managed_host = λ t s. (err refused, s);
      add_endpoints = λ t s. (err refused, s);
      remove_endpoints = λ t s. (err refused, s);
    };
    certificates = record {
      ensure_certificate = λ h r s. (err refused, s);
      get_certificate_secret = λ h s. (err refused, s);
    };
    deep_equal = λ a b. a == b;
    add_finalizer = λ fs f. fs ++ f ∷ [];
    remove_finalizer = remove_string;
  };
  new_workload_client = λ config s. (ok accepting, s);
  new_for_config = λ config s. (ok config.host, s);
  add_to_manager = λ watcher s. (ok tt, s);
  secrets = cluster_secrets;
  unmarshal = λ text. ok argo;
  parse_url = λ text. ok "10.0.0.2:6443";
  admission = admission;
  stat = λ name. none;
  is_not_exist = λ e. Bool.true;
}

abbrev pub missing : Error
missing = record { kind = Kind.not_found; message = "missing" }

abbrev pub host_secret : Secret
host_secret = record { metadata = object_meta host "argocd"; data_entries = [] }

-- The secret is there once the server has two records.
abbrev issued : List DnsRecord → Result Secret × List DnsRecord
issued (r ∷ r' ∷ rs) = (ok host_secret, r ∷ r' ∷ rs)
issued rs = (err missing, rs)

abbrev pub deployed : Platform (List DnsRecord) String String String String String
deployed = platform server (record closed { get = λ k s. issued s }) closed no_admission

-- The server when the host has a record, then with another record beside it, and at last with the
-- address of the ingress in the record of the host.
abbrev before : List DnsRecord
before = record_of host ∷ []

abbrev between : List DnsRecord
between = record_of "other.test" ∷ before

abbrev last : List DnsRecord
last = extended ("10.0.0.1" ∷ []) (record_of host) ∷ between

abbrev assigned : Ingress String
assigned = with_host deployed view server_laws accepting ingress (record_of host)

handle_twice_example :
    (handle (handler_of deployed accepting) ingress []
      ≡ (ok (returns (handler_of deployed accepting) assigned (some 10) none), before))
    × ((t' : Ingress String) × (handle (handler_of deployed accepting) assigned between
          ≡ (ok (returns (handler_of deployed accepting) t' none none), last))
        × (section_of host (get_tls t') ≡ some (tls_section host host))
        × (view last (object_key (object_meta host "argocd"))
            ≡ some (extended ("10.0.0.1" ∷ []) (record_of host)))
        × ((a : String)
            → served (extended ("10.0.0.1" ∷ []) (record_of host)) a
              ≡ contains_string ("10.0.0.1" ∷ []) a))
unfolding get_hosts contains_string ensure_certificate certificate copy_secret_to_workload_cluster
    update_if_exists resolve_ips resolve_targets get_dns_targets add_managed_host additional_rules
    covered_rules
handle_twice_example =
    handle_twice deployed view server_laws accepting ingress (record_of host)
      (extended ("10.0.0.1" ∷ []) (record_of host)) (ok tt) (ok tt) missing host_secret
      ("10.0.0.1" ∷ []) [] before before before between between between between between last eq_refl
      refl refl refl refl refl refl refl refl refl refl refl refl refl refl refl refl refl refl
