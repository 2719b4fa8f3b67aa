-- ===== src/Wiring/Admitted.antt =====
-- The admission webhook as `main` makes it, and the traffic controller after it.
use multi_cluster_traffic_co.Prelude.{
  String, true, false, Option, some, List, [], ◌∷◌, ◌==◌, ◌≡◌, ◌≢◌, refl, ap, sym, ◌∙◌, subst,
  Error, Result, ok, err, is_already_exists, is_not_found, ◌>>=◌, pure,
}
use multi_cluster_traffic_co.Slice.{contains_string}
use multi_cluster_traffic_co.Api.Types.{DnsRecord, NamespacedName, object_key, object_meta}
use multi_cluster_traffic_co.Client.{ClientLaws}
use multi_cluster_traffic_co.Certificates.{ensure_certificate, get_certificate_secret}
use multi_cluster_traffic_co.Ingress.{
  Ingress, IngressRule, get_hosts, get_tls, tls_section, add_managed_host, add_tls,
}
use multi_cluster_traffic_co.Ingress.Hosts.{get_hosts-Distinct}
use multi_cluster_traffic_co.Ingress.Tls.{section_of}
use multi_cluster_traffic_co.DnsService.Lookup.{stored, host_key, get_dns_records-stored}
use multi_cluster_traffic_co.DnsService.Actions.{ensure_managed_host}
use multi_cluster_traffic_co.DnsService.Managed.{stored-Names}
use multi_cluster_traffic_co.DnsService.Stable.{FindsHost, HasRule-add_managed_host, assign_found}
use multi_cluster_traffic_co.DnsService.Created.{
  new_host, new_record, created_for, ensure_managed_host-created, created_key,
}
use multi_cluster_traffic_co.TrafficController.{ignoring}
use multi_cluster_traffic_co.Webhook.{WebhookHandler, Response, handle_request}
use multi_cluster_traffic_co.Webhook.Admission.{handle_request-patch}
use multi_cluster_traffic_co.Wiring.{
  Platform, default_ctrl_ns, dns_service, cert_service, host_service, certificate_service,
}

-- The handler that NewTrafficWebhookHandler makes of the services of `main`.
abbrev pub webhook_of :
    {S Ip Http Client Session Aws Request : Type 0}
    → Platform S Ip Http Client Session Aws
    → WebhookHandler S Http Request
    → WebhookHandler S Http Request
webhook_of p outside = record outside {
  host_service = host_service (dns_service p);
  cert_service = certificate_service (cert_service p);
}

module _ {S Ip Http Client Session Aws Request : Type 0} (p : Platform S Ip Http Client Session Aws)
    (view : S → NamespacedName → Option DnsRecord)
    (laws : ClientLaws (λ r. r.metadata) p.dns.control_client view)
    (outside : WebhookHandler S Http Request)
    (deep_equal_refl : (v : Http) → outside.deep_equal v v ≡ true) (t : Ingress Http) where
  abbrev host_of : String
  host_of = new_host (dns_service p) t

  -- The ingress with the host and its TLS section, as the webhook patches it.
  abbrev pub admitted_at : String → Ingress Http
  admitted_at h = add_tls (add_managed_host outside.deep_equal t h) h h

  abbrev pub admitted : Ingress Http
  admitted = admitted_at host_of

  -- Once a record of a host of the ingress is stored, EnsureManagedHost finds it.
  admitted-FindsHost :
      (rule : IngressRule Http) (rules : List (IngressRule Http)) (r : DnsRecord) (s : S)
      → t.rules ≡ rule ∷ rules
      → host_of ≢ ""
      → view s (host_key (dns_service p) view host_of) ≡ some r
      → r.metadata.name ≡ host_of
      → FindsHost
          (dns_service p)
          view
          laws
          outside.deep_equal
          deep_equal_refl
          host_of
          s
          (ensure_managed_host (dns_service p) admitted s)
  unfolding ensure_managed_host
  admitted-FindsHost rule rules r s shape nonempty there named =
      let listed : contains_string (get_hosts admitted) host_of ≡ true =
        (get_hosts-Distinct admitted).1 host_of
        ∙ unfold add_tls in
          HasRule-add_managed_host outside.deep_equal host_of deep_equal_refl t rule rules shape in
      rw (get_dns_records-stored (dns_service p) view laws admitted s) (
        assign_found (dns_service p) view laws outside.deep_equal deep_equal_refl admitted host_of s
          (stored (dns_service p) view s (get_hosts admitted))
          (stored-Names (dns_service p) view host_of r s nonempty there named (get_hosts admitted)
            listed))

  -- A request that is no dry run, for an ingress that has a rule and for whose hosts no record is
  -- stored, with a zone configured: where the server accepts the record, whose host is not the empty
  -- text, the certificate is created or exists and its secret is not there yet, the webhook with the
  -- services of `main` answers with the patch to the ingress that has the new host and a TLS section of
  -- it. As long as the records that are stored stay as they are, EnsureManagedHost, which the traffic
  -- controller calls, finds for that ingress the host of the webhook as assigned, and writes nothing.
  pub handle_request_agrees :
      (request : Request) (rule : IngressRule Http) (rules : List (IngressRule Http))
      (created : DnsRecord) (ensured : Result (Unit {0})) (missing : Error)
      (original current : String) (s s1 s2 s3 s4 : S)
      → outside.is_dry_run request ≡ false
      → outside.decode request ≡ ok t
      → t.rules ≡ rule ∷ rules
      → stored (dns_service p) view s (get_hosts t) ≡ []
      → (p.dns.getenv "AWS_DNS_PUBLIC_ZONE_ID" == "") ≡ false
      → p.dns.control_client.create (new_record (dns_service p) t) s ≡ (ok created, s1)
      → host_of ≢ ""
      → ensure_certificate (cert_service p) host_of created s1 ≡ (ensured, s2)
      → ignoring is_already_exists ensured ≡ ok tt
      → p.tls.secrets.get (object_key (object_meta host_of default_ctrl_ns)) s2 ≡ (err missing, s3)
      → is_not_found missing ≡ true
      → outside.same t admitted ≡ false
      → outside.encode t ≡ ok original
      → outside.encode admitted ≡ ok current
      → ((k : NamespacedName) → view s4 k ≡ view s1 k)
      → (handle_request (webhook_of p outside) request s
          ≡ (ok (Response.patch_from_raw original current), s3))
        × (section_of host_of (get_tls admitted) ≡ some (tls_section host_of host_of))
        × FindsHost
            (dns_service p)
            view
            laws
            outside.deep_equal
            deep_equal_refl
            host_of
            s4
            (ensure_managed_host (dns_service p) admitted s4)
  unfolding get_certificate_secret
  handle_request_agrees request rule rules created ensured missing original current s s1 s2 s3 s4
        wet decoded shape fresh zone accepted nonempty cert fine absent gone changed before after
        stay =
      let named : created.metadata.name ≡ host_of =
        ap (λ k. k.name) (created_key (dns_service p) t view laws created s s1 accepted) in
      let there : view s4 (host_key (dns_service p) view host_of) ≡ some created =
        stay (host_key (dns_service p) view host_of)
        ∙ laws.create_stored (new_record (dns_service p) t) created s s1 accepted in
      let (answered, section) =
        handle_request-patch (webhook_of p outside) request t
          (created_for (dns_service p) t created) created ensured missing original current s s1 s2
          s3 wet decoded
          (ensure_managed_host-created (dns_service p) t view laws created s s1 accepted fresh zone)
          refl refl
          (subst (λ h. ensure_certificate (cert_service p) h created s1 ≡ (ensured, s2)) (sym named)
            cert)
          fine
          (subst
            (λ h.
              (get_certificate_secret (cert_service p) h >>= λ x. pure (some x)) s2
              ≡ (err missing, s3))
            (sym named) (rw absent refl))
          gone (subst (λ h. outside.same t (admitted_at h) ≡ false) (sym named) changed) before
          (subst (λ h. outside.encode (admitted_at h) ≡ ok current) (sym named) after) in
      (
        answered,
        subst (λ h. section_of h (get_tls (admitted_at h)) ≡ some (tls_section h h)) named section,
        admitted-FindsHost rule rules created s4 shape nonempty there named,
      )
