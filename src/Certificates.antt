-- ===== src/Certificates.antt =====
-- pkg/tls/service.go: the certificates of the managed hosts, and the secrets that hold them.
-- Certificates are cert-manager's; a record of the fields that the code sets stands for one.
use multi_cluster_traffic_co.Prelude.{
  ℕ, String, some, List, [], ◌∷◌, Result, Exec, pure, lift, ◌>>=◌, ◌*◌,
}
use multi_cluster_traffic_co.Prelude.StringMap.{StringMap}
use multi_cluster_traffic_co.Api.Types.{ObjectMeta, DnsRecord, object_meta, object_key}
use multi_cluster_traffic_co.Client.{ObjectClient}

-- `v1.Secret`, of which the program reads the metadata and the data.
pub record Secret : Type 0 where
  pub metadata : ObjectMeta
  pub data_entries : StringMap

-- `certman.Certificate`; durations are in hours. `DefaultKeyUsages()`, which depends on nothing, and
-- the algorithm and the encoding of the key are left out.
pub record Certificate : Type 0 where
  pub metadata : ObjectMeta
  pub secret_name : String
  pub template_labels : StringMap
  pub template_annotations : StringMap
  pub duration : ℕ
  pub renew_before : ℕ
  pub key_size : ℕ
  pub dns_names : List String
  pub issuer_group : String
  pub issuer_kind : String
  pub issuer_name : String

-- What `Service` is made of, and `controllerutil.SetOwnerReference` with the scheme.
pub record CertificateStore (S : Type 0) : Type 0 where
  pub certificates : ObjectClient S Certificate
  pub secrets : ObjectClient S Secret
  pub default_ctrl_ns : String
  pub default_issuer : String
  pub set_owner_reference : ObjectMeta → Certificate → Result Certificate

-- TlsIssuerAnnotation
abbrev pub tls_issuer_annotation : String
tls_issuer_annotation = "kuadrant.dev/tls-issuer"

-- certificate
unfoldable pub certificate : String → String → String → Certificate
certificate host issuer control_ns = record {
  metadata = record (object_meta host control_ns) {
    labels = some [];
    annotations = some ((tls_issuer_annotation, issuer) ∷ []);
  };
  secret_name = host;
  template_labels = [];
  template_annotations = (tls_issuer_annotation, issuer) ∷ [];
  duration = 24 * 90;
  renew_before = 24 * 15;
  key_size = 2048;
  dns_names = host ∷ [];
  issuer_group = "cert-manager.io";
  issuer_kind = "ClusterIssuer";
  issuer_name = issuer;
}

module _ {S : Type 0} (store : CertificateStore S) where
  open store use {certificates, secrets, default_ctrl_ns, default_issuer, set_owner_reference}

  -- EnsureCertificate
  unfoldable pub ensure_certificate : String → DnsRecord → Exec S (Unit {0})
  ensure_certificate host owner = do
    cert ←
        lift (set_owner_reference owner.metadata (certificate host default_issuer default_ctrl_ns))
    _ ← certificates.create cert
    pure tt

  -- GetCertificateSecret
  unfoldable pub get_certificate_secret : String → Exec S Secret
  get_certificate_secret host = secrets.get (object_key (object_meta host default_ctrl_ns))
