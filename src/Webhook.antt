-- ===== src/Webhook.antt =====
-- pkg/admission/traffic/webhook_handler.go: the admission of a traffic object. The decoder, the
-- serializer and `equality.Semantic.DeepEqual` are parameters.
pub mod Admission
pub mod Server
use multi_cluster_traffic_co.Prelude.{
  String, Bool, true, false, not, Option, none, some, List, [], ◌∷◌, if◌then◌else◌, Error,
  is_not_found, is_already_exists, is_already_assigned, Result, ok, err, panic, Exec, pure, lift,
}
use multi_cluster_traffic_co.Api.Types.{DnsRecord}
use multi_cluster_traffic_co.Ingress.{Ingress, add_managed_host, add_tls}
use multi_cluster_traffic_co.DnsService.Actions.{Managed}
use multi_cluster_traffic_co.Certificates.{Secret}
use multi_cluster_traffic_co.TrafficController.{HostService, CertificateService, ignoring}

-- TrafficWebhookHandler, at ingresses; a request is what the decoder reads.
pub record WebhookHandler (S Http Request : Type 0) : Type 0 where
  pub host_service : HostService S Http
  pub cert_service : CertificateService S
  pub deep_equal : Http → Http → Bool
  pub is_dry_run : Request → Bool
  pub decode : Request → Result (Ingress Http)
  pub same : Ingress Http → Ingress Http → Bool
  pub encode : Ingress Http → Result String

-- `admission.Response`, as the constructor that the code calls.
pub data Response : Type 0 where
  allowed denied : String → Response
  errored : Error → Response
  patch_from_raw : String → String → Response

-- What the inner `handle` returns, and the object as it leaves it.
pub record Admitted (Http : Type 0) : Type 0 where
  pub traffic : Ingress Http
  pub is_allowed : Bool
  pub error : Option Error

module _ {S Http Request : Type 0} (webhook : WebhookHandler S Http Request) where
  open webhook use {host_service, cert_service, deep_equal, is_dry_run, decode, same, encode}

  abbrev refused : Ingress Http → Error → Admitted Http
  refused t e = record { traffic = t; is_allowed = false; error = some e }

  -- The name of the secret, or the host where the secret is nil.
  abbrev pub expected_secret : String → Option Secret → String
  expected_secret host none = host
  expected_secret host (some secret) = secret.metadata.name

  -- What a round does with the secret; with an error the secret is nil.
  unfoldable pub expect_tls :
      Ingress Http
      → String
      → Result (Option Secret)
      → (Ingress Http → Exec S (Admitted Http))
      → Exec S (Admitted Http)
  expect_tls t host (ok secret) next = next (add_tls t host (expected_secret host secret))
  expect_tls t host (err e) next =
      if is_not_found e then next (add_tls t host host) else pure (refused t e)
  expect_tls t host panic next = lift panic

  -- What a round does with the outcome of EnsureCertificate.
  unfoldable pub expect_certificate :
      Ingress Http
      → String
      → Result (Unit {0})
      → (Ingress Http → Exec S (Admitted Http))
      → Exec S (Admitted Http)
  unfolding expect_tls
  expect_certificate t host (ok done) next s =
      let (found, s') = cert_service.get_certificate_secret host s in
      expect_tls t host found next s'
  expect_certificate t host (err e) next s = (ok (refused t e), s)
  expect_certificate t host panic next s = (panic, s)

  -- The loop of `handle`.
  unfoldable pub admit_records : List DnsRecord → Ingress Http → Exec S (Admitted Http)
  unfolding expect_certificate
  admit_records [] t s = (ok (record { traffic = t; is_allowed = true; error = none }), s)
  admit_records (r ∷ records) t s =
      let host : String = r.metadata.name in
      let t' : Ingress Http = add_managed_host deep_equal t host in
      let (ensured, s') = cert_service.ensure_certificate host r s in
      expect_certificate t' host (ignoring is_already_exists ensured) (admit_records records) s'

  -- What `handle` does with what EnsureManagedHost returned.
  unfoldable pub admit_managed : Ingress Http → Result Managed → Exec S (Admitted Http)
  unfolding admit_records
  admit_managed t (ok m) s =
      let rest = admit_records m.records t s in
      elim m.error [
        | none ↦ rest
        | some e ↦ if is_already_assigned e then rest else (ok (refused t e), s)
      ]
  admit_managed t (err e) s = (ok (refused t e), s)
  admit_managed t panic s = (panic, s)

  -- handle
  unfoldable pub admit : Ingress Http → Exec S (Admitted Http)
  unfolding admit_managed
  admit t s = let (managed, s') = host_service.ensure_managed_host t s in admit_managed t managed s'

  -- The end of `Handle`: the two texts that the patch is made from.
  unfoldable pub patch_of : Result String → Result String → Result Response
  patch_of panic current = panic
  patch_of (err e) current = ok (Response.errored e)
  patch_of (ok original) panic = panic
  patch_of (ok original) (err e) = ok (Response.errored e)
  patch_of (ok original) (ok current) = ok (Response.patch_from_raw original current)

  -- What `Handle` answers.
  unfoldable pub respond : Ingress Http → Result (Admitted Http) → Result Response
  unfolding patch_of
  respond t panic = panic
  respond t (err e) = ok (Response.errored e)
  respond t (ok admitted) = elim admitted.error [
    | some e ↦ ok (Response.errored e)
    | none ↦
        if not admitted.is_allowed
        then ok (Response.denied "")
        else if not (same t admitted.traffic)
        then patch_of (encode t) (encode admitted.traffic)
        else ok (Response.allowed "")
  ]

  -- `Handle` behind the decoder.
  unfoldable pub handle_decoded : Result (Ingress Http) → Exec S Response
  unfolding admit respond
  handle_decoded (ok t) s = let (admitted, s') = admit t s in (respond t admitted, s')
  handle_decoded (err e) s = (ok (Response.errored e), s)
  handle_decoded panic s = (panic, s)

  -- Handle
  unfoldable pub handle_request : Request → Exec S Response
  unfolding handle_decoded
  handle_request request s =
      let decoded = handle_decoded (decode request) s in
      if is_dry_run request then (ok (Response.allowed "skipped due to dry run"), s) else decoded
