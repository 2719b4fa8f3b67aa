-- ===== src/Examples/Admitted.antt =====
-- The webhook of `main` on an ingress without a host, and the copy of a secret over one that is there.
use multi_cluster_traffic_co.Prelude.{
  String, false, some, List, [], ◌∷◌, ◌==◌, ◌≡◌, refl, eq_refl, Kind, ok, err, nat_eq, arith,
  length, if◌then◌else◌,
}
use multi_cluster_traffic_co.Slice.{contains_string}
use multi_cluster_traffic_co.Api.Types.{DnsRecord, object_meta}
use multi_cluster_traffic_co.Client.{ObjectClient, ClientLaws}
use multi_cluster_traffic_co.Certificates.{Secret, ensure_certificate, certificate}
use multi_cluster_traffic_co.Ingress.{
  Ingress, get_hosts, get_tls, tls_section, add_tls, add_managed_host,
}
use multi_cluster_traffic_co.Ingress.Tls.{section_of}
use multi_cluster_traffic_co.DnsService.Actions.{ensure_managed_host}
use multi_cluster_traffic_co.DnsService.Stable.{FindsHost}
use multi_cluster_traffic_co.TrafficController.{
  TrafficReconciler, copy_secret_to_workload_cluster, update_if_exists,
}
use multi_cluster_traffic_co.TrafficController.Copied.{
  KeepsData, HasCopy, copy_secret_to_workload_cluster-HasCopy,
}
use multi_cluster_traffic_co.Webhook.{WebhookHandler, Response, handle_request}
use multi_cluster_traffic_co.Wiring.{dns_service}
use multi_cluster_traffic_co.Wiring.Published.{handler_of}
use multi_cluster_traffic_co.Wiring.Admitted.{webhook_of, admitted, handle_request_agrees}
use multi_cluster_traffic_co.Examples.Store.{held, store, store_laws}
use multi_cluster_traffic_co.Examples.Server.{server_laws, view, ingress, differ}
use multi_cluster_traffic_co.Examples.Service.{host, record_of}
use multi_cluster_traffic_co.Examples.Wired.{deployed, closed, missing, platform, no_admission}

-- A request is the ingress, and a patch tells only whether there is a TLS section.
abbrev outside : WebhookHandler (List DnsRecord) String (Ingress String)
outside = record {
  host_service = deployed.traffic.hosts;
  cert_service = deployed.traffic.certificates;
  deep_equal = λ a b. a == b;
  is_dry_run = λ request. false;
  decode = λ request. ok request;
  same = λ a b. nat_eq (length a.tls) (length b.tls);
  encode = λ t. ok (if nat_eq (length t.tls) 0 then "without" else "with");
}

handle_request_agrees_example :
    (handle_request (webhook_of deployed outside) ingress []
      ≡ (ok (Response.patch_from_raw "without" "with"), record_of host ∷ []))
    × (section_of host (get_tls (admitted deployed view server_laws outside eq_refl ingress))
        ≡ some (tls_section host host))
    × FindsHost
        (dns_service deployed)
        view
        server_laws
        outside.deep_equal
        eq_refl
        host
        (record_of host ∷ [])
        (ensure_managed_host
          (dns_service deployed)
          (admitted deployed view server_laws outside eq_refl ingress)
          (record_of host ∷ []))
unfolding get_hosts contains_string ensure_certificate certificate add_tls add_managed_host
handle_request_agrees_example =
    handle_request_agrees deployed view server_laws outside eq_refl ingress ingress
      (record { host = "shop.test"; http = "backend" }) [] (record_of host) (ok tt) missing
      "without" "with" [] (record_of host ∷ []) (record_of host ∷ []) (record_of host ∷ [])
      (record_of host ∷ []) refl refl refl refl refl refl (differ host "" refl) refl refl refl refl
      refl refl refl (λ k. refl)

-- A workload cluster on which every Create finds that the secret is there.
abbrev taken : ObjectClient (List Secret) Secret
taken = record (store (λ x. x.metadata)) {
  create = λ o s. (err (record { kind = Kind.already_exists; message = "exists" }), s);
}

taken_laws : ClientLaws (λ x. x.metadata) taken (held (λ x. x.metadata))
taken_laws = record {
  get_found = (store_laws (λ (x : Secret). x.metadata)).get_found;
  get_missing = (store_laws (λ (x : Secret). x.metadata)).get_missing;
  view_key = (store_laws (λ (x : Secret). x.metadata)).view_key;
  create_stored = λ o o' s s' done. cc;
  update_stored = (store_laws (λ (x : Secret). x.metadata)).update_stored;
  update_other = (store_laws (λ (x : Secret). x.metadata)).update_other;
  delete_other = (store_laws (λ (x : Secret). x.metadata)).delete_other;
}

taken_data : KeepsData taken
taken_data = record {
  create_keeps = λ o o' s s' done. cc;
  update_keeps = λ o o' s s' done. ground arith;
}

abbrev copying : TrafficReconciler (List Secret) String
copying = handler_of (platform closed closed closed no_admission) taken

abbrev old : Secret
old = record { metadata = object_meta "shop.test" "web"; data_entries = ("tls.key", "old") ∷ [] }

abbrev renewed : Secret
renewed = record {
  metadata = object_meta "shop.test" "argocd";
  data_entries = ("tls.key", "new") ∷ [];
}

copy_secret_to_workload_cluster-HasCopy_example :
    HasCopy copying
      (held (λ x. x.metadata))
      taken_laws
      taken_data
      ingress
      renewed
      "shop.test"
      (record old { data_entries = renewed.data_entries } ∷ old ∷ [])
unfolding copy_secret_to_workload_cluster update_if_exists
copy_secret_to_workload_cluster-HasCopy_example =
    copy_secret_to_workload_cluster-HasCopy copying (held (λ x. x.metadata)) taken_laws taken_data
      ingress renewed "shop.test" (old ∷ [])
      (record old { data_entries = renewed.data_entries } ∷ old ∷ []) (λ e failed. ground arith)
      refl
