-- ===== src/Examples/Controller.antt =====
-- The traffic controller with the DNS service of the examples, whose endpoints always succeed.
use multi_cluster_traffic_co.Prelude.{
  String, false, Option, none, some, List, [], ◌∷◌, ◌++◌, ◌==◌, ◌≡◌, refl, Error, Kind, Result, ok,
  err,
}
use multi_cluster_traffic_co.Slice.{remove_string}
use multi_cluster_traffic_co.Api.Types.{object_meta}
use multi_cluster_traffic_co.Client.{ObjectClient}
use multi_cluster_traffic_co.Ingress.{Ingress, get_tls, tls_section}
use multi_cluster_traffic_co.Ingress.Tls.{section_of}
use multi_cluster_traffic_co.DnsService.Actions.{Managed}
use multi_cluster_traffic_co.Certificates.{Secret}
use multi_cluster_traffic_co.TrafficController.{TrafficReconciler, returns, handle}
use multi_cluster_traffic_co.TrafficController.Requeue.{hosted, handle_waits, handle_uncopied}
use multi_cluster_traffic_co.TrafficController.Deletion.{handle-deleted}
use multi_cluster_traffic_co.TrafficController.Totality.{is_panic, CallsReturn, handle-Returns}
use multi_cluster_traffic_co.Examples.Server.{ingress}
use multi_cluster_traffic_co.Examples.Endpoints.{record_with}

-- The state counts the calls of AddEndPoints.
abbrev secret : Secret
secret = record {
  metadata = object_meta "shop.test" "argocd";
  data_entries = ("tls.key", "k") ∷ [];
}

abbrev workload : ObjectClient (List String) Secret
workload = record {
  get = λ k s. (ok secret, "get" ∷ s);
  create = λ o s. (ok o, "create" ∷ s);
  update = λ o s. (ok o, "update" ∷ s);
  update_status = λ o s. (ok o, s);
  delete = λ o s. (ok tt, s);
}

abbrev pub managed : Managed
managed = record { hosts = "shop.test" ∷ []; records = record_with [] ∷ []; error = none }

-- A secret that is there, or an error.
abbrev pub controller : Result (Option Secret) → TrafficReconciler (List String) String
controller found = record {
  workload_client = workload;
  hosts = record {
    ensure_managed_host = λ t s. (ok managed, "ensure host" ∷ s);
    add_endpoints = λ t s. (ok tt, "add endpoints" ∷ s);
    remove_endpoints = λ t s. (ok tt, "remove endpoints" ∷ s);
  };
  certificates = record {
    ensure_certificate = λ h r s.
        (err (record { kind = Kind.already_exists; message = "exists" }), "ensure certificate" ∷ s);
    get_certificate_secret = λ h s. (found, "get secret" ∷ s);
  };
  deep_equal = λ a b. a == b;
  add_finalizer = λ fs f. fs ++ f ∷ [];
  remove_finalizer = remove_string;
}

abbrev pub missing : Error
missing = record { kind = Kind.not_found; message = "missing" }

handle_waits_example : handle (controller (err missing)) ingress [] ≡ (
  ok (
      returns
        (controller (err missing))
        (hosted (controller (err missing)) ingress "shop.test" (record_with []))
        (some 10)
        none),
  "get secret" ∷ "ensure certificate" ∷ "ensure host" ∷ [],
)
handle_waits_example =
    handle_waits (controller (err missing)) ingress "shop.test" (record_with []) managed [] []
      (err (record { kind = Kind.already_exists; message = "exists" })) missing []
      ("ensure host" ∷ []) ("ensure certificate" ∷ "ensure host" ∷ [])
      ("get secret" ∷ "ensure certificate" ∷ "ensure host" ∷ []) refl refl refl refl refl refl refl
      refl refl

-- An ingress that is to be deleted.
abbrev deleted : Ingress String
deleted = record ingress { metadata = record ingress.metadata { deletion_timestamp = some 5 } }

deleted_run :
    handle (controller (err missing)) deleted []
    ≡ (ok (returns (controller (err missing)) deleted none none), "remove endpoints" ∷ [])
unfolding remove_string
deleted_run =
    handle-deleted (controller (err missing)) deleted none [] ("remove endpoints" ∷ []) refl refl

calls_return : CallsReturn (controller (err missing))
calls_return = record {
  ensure_managed_host = λ t s. refl;
  consistent = λ t s. refl;
  add_endpoints = λ t s. refl;
  remove_endpoints = λ t s. refl;
  ensure_certificate = λ h r s. refl;
  get_certificate_secret = λ h s. refl;
  get = λ k s. refl;
  create = λ o s. refl;
  update = λ o s. refl;
}

handle-Returns_example : is_panic (handle (controller (err missing)) ingress []).0 ≡ false
handle-Returns_example = handle-Returns (controller (err missing)) calls_return ingress []

-- The same controller, with a workload cluster that refuses every Create.
abbrev refusing : TrafficReconciler (List String) String
refusing = record (controller (ok (some secret))) {
  workload_client = record workload {
    create = λ o s. (err (record { kind = Kind.plain; message = "forbidden" }), "refused" ∷ s);
  };
}

handle_uncopied_example :
    (t' : Ingress String) × (handle refusing ingress [] ≡ (
      ok (returns refusing t' none none),
      "add endpoints" ∷ "refused" ∷ "get secret" ∷ "ensure certificate" ∷ "ensure host" ∷ [],
    ))
    × (section_of "shop.test" (get_tls t') ≡ some (tls_section "shop.test" "shop.test"))
handle_uncopied_example =
    handle_uncopied refusing ingress "shop.test" (record_with []) managed
      (err (record { kind = Kind.already_exists; message = "exists" })) secret
      (record { kind = Kind.plain; message = "forbidden" }) [] ("ensure host" ∷ [])
      ("ensure certificate" ∷ "ensure host" ∷ [])
      ("get secret" ∷ "ensure certificate" ∷ "ensure host" ∷ [])
      ("refused" ∷ "get secret" ∷ "ensure certificate" ∷ "ensure host" ∷ [])
      ("add endpoints" ∷ "refused" ∷ "get secret" ∷ "ensure certificate" ∷ "ensure host" ∷ []) refl
      refl refl refl refl refl refl refl refl refl refl
