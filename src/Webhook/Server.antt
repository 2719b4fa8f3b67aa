-- ===== src/Webhook/Server.antt =====
-- pkg/admission/webhook_server.go and pkg/admission/ingress/webhook_handler.go: the server of the
-- admission webhook, and the constructor of its handler in pkg/admission/traffic/webhook_handler.go.
use Prim.Native.String.{◌++◌ as ◌+++◌}
use multi_cluster_traffic_co.Prelude.{
  ℕ, String, Bool, Option, none, some, if◌then◌else◌, Error, Result, Exec, pure, fail, ◌>>=◌, ◌≡◌,
  refl, ok,
}
use multi_cluster_traffic_co.Text.{itoa}
use multi_cluster_traffic_co.Ingress.{Ingress}
use multi_cluster_traffic_co.TrafficController.{HostService, CertificateService}
use multi_cluster_traffic_co.Webhook.{WebhookHandler}

-- WebhookServer
pub record WebhookServer (S Http : Type 0) : Type 0 where
  pub port : ℕ
  pub hosts : HostService S Http
  pub certificates : CertificateService S

-- NewWebhookServer
abbrev pub new_webhook_server :
    {S Http : Type 0} → HostService S Http → CertificateService S → ℕ → WebhookServer S Http
new_webhook_server hosts certificates port = record {
  port = port;
  hosts = hosts;
  certificates = certificates;
}

-- What ends the `select` of `Start`: ListenAndServe returned, or the context is done.
pub data Stop : Type 0 where
  http_stopped : Option Error → Stop
  context_done : Error → Stop

-- The outside functions: those of a scheme, a decoder for it, the webhook of controller-runtime, and
-- the HTTP server, which gets an address, a path and the handler of the path.
pub record Serving (S Http Request : Type 0) : Type 0 where
  pub add_to_scheme : Exec S (Unit {0})
  pub new_decoder : Exec S (Request → Result (Ingress Http))
  pub outside : WebhookHandler S Http Request
  pub inject_logger : WebhookHandler S Http Request → Exec S (Unit {0})
  pub serve : String → String → WebhookHandler S Http Request → Exec S Stop
  pub is_canceled : Error → Bool

module _ {S Http Request : Type 0} (serving : Serving S Http Request) where
  open serving use {add_to_scheme, new_decoder, outside, inject_logger, serve, is_canceled}

  -- NewTrafficWebhookHandler, of ingresses; `outside` has the serializer and the comparisons.
  unfoldable pub new_traffic_webhook_handler :
      HostService S Http → CertificateService S → Exec S (WebhookHandler S Http Request)
  new_traffic_webhook_handler host_service cert_service = do
    _ ← add_to_scheme
    decoder ← new_decoder
    pure (record outside {
      host_service = host_service;
      cert_service = cert_service;
      decode = decoder;
    })

  -- CreateHandler
  unfoldable pub create_handler :
      HostService S Http → CertificateService S → Exec S (WebhookHandler S Http Request)
  unfolding new_traffic_webhook_handler
  create_handler host_service cert_service = new_traffic_webhook_handler host_service cert_service

  -- The `select` of `Start`.
  unfoldable pub stopped : Stop → Exec S (Unit {0})
  stopped (http_stopped none) = pure tt
  stopped (http_stopped (some e)) = fail e
  stopped (context_done e) = if is_canceled e then pure tt else fail e

  -- Start
  unfoldable pub start : WebhookServer S Http → Exec S (Unit {0})
  unfolding create_handler stopped
  start server = do
    handler ← create_handler server.hosts server.certificates
    _ ← inject_logger handler
    stop ← serve (":" +++ itoa server.port) "/ingress" handler
    stopped stop

  -- Where the scheme and the decoder are made, the handler of the server has the two services that it
  -- is given, and the decoder.
  pub create_handler-services :
      (host_service : HostService S Http) (cert_service : CertificateService S)
      (decoder : Request → Result (Ingress Http)) (s s1 s2 : S)
      → add_to_scheme s ≡ (ok tt, s1)
      → new_decoder s1 ≡ (ok decoder, s2)
      → create_handler host_service cert_service s ≡ (
        ok (record outside {
          host_service = host_service;
          cert_service = cert_service;
          decode = decoder;
        }),
        s2,
      )
  unfolding create_handler new_traffic_webhook_handler
  create_handler-services host_service cert_service decoder s s1 s2 registered made =
      rw (registered, made) refl
