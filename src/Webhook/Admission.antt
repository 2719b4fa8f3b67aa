-- ===== src/Webhook/Admission.antt =====
-- What the webhook answers for an object with a managed host.
use multi_cluster_traffic_co.Prelude.{
  String, true, false, some, [], ◌∷◌, ◌≡◌, refl, Error, is_not_found, is_already_exists,
  is_already_assigned, Result, ok, err, Option-cases, inl, inr,
}
use multi_cluster_traffic_co.Api.Types.{DnsRecord}
use multi_cluster_traffic_co.Ingress.{Ingress, add_managed_host, add_tls, get_tls, tls_section}
use multi_cluster_traffic_co.Ingress.Tls.{section_of, section_of-add_tls}
use multi_cluster_traffic_co.DnsService.Actions.{Managed}
use multi_cluster_traffic_co.TrafficController.{ignoring}
use multi_cluster_traffic_co.TrafficController.Requeue.{is_assigned}
use multi_cluster_traffic_co.Webhook.{
  WebhookHandler, Response, expect_tls, expect_certificate, admit_records, admit_managed, admit,
  patch_of, respond, handle_decoded, handle_request,
}

module _ {S Http Request : Type 0} (webhook : WebhookHandler S Http Request) where
  open webhook use {host_service, cert_service, deep_equal, is_dry_run, decode, same, encode}

  admit-admit_records :
      (t : Ingress Http) (m : Managed) (s s1 : S)
      → host_service.ensure_managed_host t s ≡ (ok m, s1)
      → is_assigned m ≡ true
      → admit webhook t s ≡ admit_records webhook m.records t s1
  unfolding admit admit_managed
  admit-admit_records t m s s1 managed assigned = elim (Option-cases m.error) [
    | inl fine ↦ rw (managed, fine) refl
    | inr (e, failed) ↦
        let known : is_already_assigned e ≡ true = rw failed at assigned in
        rw (managed, failed, known) refl
  ]

  -- A request that is no dry run, for an object with one managed host, whose certificate is created
  -- or exists and whose secret is not there yet: the webhook answers with the patch to the object
  -- that has the host and a TLS section of the host for the secret that has the host's name.
  pub handle_request-patch :
      (request : Request) (t : Ingress Http) (m : Managed) (r : DnsRecord)
      (ensured : Result (Unit {0})) (e : Error) (original current : String) (s s1 s2 s3 : S)
      → is_dry_run request ≡ false
      → decode request ≡ ok t
      → host_service.ensure_managed_host t s ≡ (ok m, s1)
      → is_assigned m ≡ true
      → m.records ≡ r ∷ []
      → cert_service.ensure_certificate r.metadata.name r s1 ≡ (ensured, s2)
      → ignoring is_already_exists ensured ≡ ok tt
      → cert_service.get_certificate_secret r.metadata.name s2 ≡ (err e, s3)
      → is_not_found e ≡ true
      → same t
          (add_tls (add_managed_host deep_equal t r.metadata.name) r.metadata.name r.metadata.name)
        ≡ false
      → encode t ≡ ok original
      → encode
          (add_tls (add_managed_host deep_equal t r.metadata.name) r.metadata.name r.metadata.name)
        ≡ ok current
      → (handle_request webhook request s ≡ (ok (Response.patch_from_raw original current), s3))
        × (section_of r.metadata.name (
              get_tls (
                add_tls
                  (add_managed_host deep_equal t r.metadata.name)
                  r.metadata.name
                  r.metadata.name))
            ≡ some (tls_section r.metadata.name r.metadata.name))
  unfolding handle_request handle_decoded respond patch_of admit_records expect_certificate
      expect_tls
  handle_request-patch request t m r ensured e original current s s1 s2 s3 wet decoded managed
        assigned one_record cert fine secret missing changed before after =
      (
        rw
            (
              wet,
              decoded,
              admit-admit_records t m s s1 managed assigned,
              one_record,
              cert,
              fine,
              secret,
              missing,
              changed,
              before,
              after,
            )
            refl,
        (section_of-add_tls (add_managed_host deep_equal t r.metadata.name) r.metadata.name
            r.metadata.name "").0,
      )
