-- ===== src/Examples/Clusters.antt =====
-- A workload cluster that keeps one configuration, and a control cluster with one ingress and one
-- secret that can only be read.
use multi_cluster_traffic_co.Prelude.{
  String, Bool, true, false, Option, none, some, [], ◌∷◌, ◌≡◌, refl, ◌∙◌, Result, ok, err, panic,
  errorf, Kind, Bool-cases, inl, inr, subst, if◌then◌else◌, arith,
}
use multi_cluster_traffic_co.Prelude.StringMap.{lookup}
use multi_cluster_traffic_co.Api.Types.{NamespacedName, ObjectMeta, object_key, object_meta}
use multi_cluster_traffic_co.Client.{ObjectClient, ClientLaws, RestConfig}
use multi_cluster_traffic_co.Certificates.{Secret}
use multi_cluster_traffic_co.Ingress.{Ingress, add_managed_host, add_tls}
use multi_cluster_traffic_co.Ingress.WebhookConfigurations.{WebhookConfiguration}
use multi_cluster_traffic_co.Cluster.{
  AdmissionReconciler, WorkloadClient, Object, reconcile, bundle_ca, set_webhooks,
  managed_hosts_text,
}
use multi_cluster_traffic_co.Cluster.PrivateKey.{with_private_key, reconcile_ignores_key}
use multi_cluster_traffic_co.Cluster.Readiness.{reconcile_waits}
use multi_cluster_traffic_co.Cluster.Configured.{
  WorkloadLaws, managed, wanted, reconcile_configures,
}
use multi_cluster_traffic_co.Examples.Store.{key_eq, key_eq-eq}
use multi_cluster_traffic_co.Examples.Server.{differ, ingress}

module _ {S Obj : Type 0} (meta : Obj → ObjectMeta) (only : Obj) where
  abbrev pub sole : S → NamespacedName → Option Obj
  sole s k = if key_eq (object_key (meta only)) k then some only else none

  abbrev pub read_only : ObjectClient S Obj
  read_only = record {
    get = λ k s. (
      if key_eq (object_key (meta only)) k
          then ok only
          else err (record { kind = Kind.not_found; message = "not found" }),
      s,
    );
    create = λ o s. (err (errorf "read only"), s);
    update = λ o s. (err (errorf "read only"), s);
    update_status = λ o s. (err (errorf "read only"), s);
    delete = λ o s. (err (errorf "read only"), s);
  }

  sole-view_key :
      (s : S) (k : NamespacedName) (o : Obj) → sole s k ≡ some o → object_key (meta o) ≡ k
  sole-view_key s k o h = elim (Bool-cases (key_eq (object_key (meta only)) k)) [
    | inl own ↦
        let same : only ≡ o = ground arith in
        subst (λ x. object_key (meta x) ≡ k) same (key_eq-eq _ _ own)
    | inr other ↦ ground arith
  ]

  sole-get_found :
      (k : NamespacedName) (s : S) (o : Obj) → sole s k ≡ some o → read_only.get k s ≡ (ok o, s)
  sole-get_found k s o h = ground arith

  pub read_only_laws : ClientLaws meta read_only sole
  read_only_laws = record {
    get_found = sole-get_found;
    get_missing =
        λ k s gone. (record { kind = Kind.not_found; message = "not found" }, ground arith, refl);
    view_key = sole-view_key;
    create_stored = λ o o' s s' done. cc;
    update_stored = λ o o' s s' done. cc;
    update_other = λ o s k n. refl;
    delete_other = λ o s k n. refl;
  }

abbrev pub address : RestConfig
address = record {
  host = "10.0.0.2:6443";
  username = "";
  password = "";
  bearer_token = "t";
  server_name = "10.0.0.2";
  cert_data = "";
  key_data = "";
  ca_data = "";
}

abbrev east : Object
east = record { name = "east"; rest_config = address }

-- It stores what it is given under the name "mctc".
abbrev pub workload : WorkloadClient (Option WebhookConfiguration)
workload = record {
  create_or_update_validating = λ g f s. (f g, s);
  create_or_update_mutating =
      λ g f s. elim (f g) [ ok g' ↦ (ok g', some g') | err e ↦ (err e, s) | panic ↦ (panic, s) ];
}

abbrev pub configuration : Option WebhookConfiguration → String → Option WebhookConfiguration
configuration s name = s

workload_stores :
    (f : WebhookConfiguration → Result WebhookConfiguration) (g g' : WebhookConfiguration)
    (s s' : Option WebhookConfiguration)
    → workload.create_or_update_mutating g f s ≡ (ok g', s')
    → (f g ≡ ok g') × (s' ≡ some g')
workload_stores f g g' s s' e = go (f g) refl
  where
    go : (r : Result WebhookConfiguration) → f g ≡ r → (f g ≡ ok g') × (s' ≡ some g')
    go (ok x) given = let e' = rw given at e in (given ∙ cc, cc)
    go (err x) given = let e' = rw given at e in cc
    go panic given = let e' = rw given at e in cc

pub workload_laws : WorkloadLaws workload configuration
workload_laws = record {
  written = λ g g' f s s' e.
      let (applied, kept) = workload_stores f g g' s s' e in (g, refl, applied, kept);
}

-- The ingress of the webhook server, as the chart installs it.
abbrev pub bare : Ingress String
bare = record ingress {
  metadata = object_meta "mctc-ingress-mctc" "multi-cluster-traffic-controller-system";
}

abbrev pub always : String → String → Bool
always a b = true

abbrev pub certified : Secret
certified = record {
  metadata = object_meta "web-tls" "multi-cluster-traffic-controller-system";
  data_entries = ("ca.crt", "CA") ∷ ("tls.crt", "CERT") ∷ ("tls.key", "KEY") ∷ [];
}

abbrev pub control : Ingress String → AdmissionReconciler (Option WebhookConfiguration) String
control a = record {
  ingresses = read_only (λ x. x.metadata) a;
  secrets = read_only (λ x. x.metadata) certified;
  new_client = λ c s. (ok workload, s);
  running_locally = false;
}

bundle_ca_test : bundle_ca certified.data_entries ≡ "CACERT"
unfolding bundle_ca
bundle_ca_test = refl

reconcile_configures_example :
    ((reconcile (control (managed always bare "web.test" "web-tls")) east none).0 ≡ ok none)
    × ((reconcile (control (managed always bare "web.test" "web-tls")) east none).1
        ≡ some (wanted false "web.test" certified))
unfolding lookup add_tls add_managed_host set_webhooks
reconcile_configures_example =
    reconcile_configures (control (managed always bare "web.test" "web-tls")) east none
      (sole (λ x. x.metadata) (managed always bare "web.test" "web-tls"))
      (read_only_laws (λ x. x.metadata) (managed always bare "web.test" "web-tls"))
      (sole (λ x. x.metadata) certified) (read_only_laws (λ x. x.metadata) certified) always bare
      "web.test" "web-tls" certified workload configuration workload_laws refl
      (differ "web.test" "" refl) (refl, (refl, (refl, (refl, (refl, (refl, (refl, (refl, tt))))))))
      refl refl refl refl

reconcile_ignores_key_example :
    reconcile
      (with_private_key (control (managed always bare "web.test" "web-tls")) "OTHER")
      east
      none
    ≡ reconcile (control (managed always bare "web.test" "web-tls")) east none
reconcile_ignores_key_example =
    reconcile_ignores_key (control (managed always bare "web.test" "web-tls")) "OTHER" east none

reconcile_waits_example : reconcile (control bare) east none ≡ (ok (some 60), none)
unfolding managed_hosts_text
reconcile_waits_example =
    reconcile_waits (control bare) (sole (λ x. x.metadata) bare)
      (read_only_laws (λ x. x.metadata) bare) east none bare refl (inl refl)
