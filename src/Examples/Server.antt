-- ===== src/Examples/Server.antt =====
-- A server that keeps a list of DNSRecords, and a traffic object, for the examples.
use multi_cluster_traffic_co.Prelude.{
  String, true, false, Option, List, [], ◌∷◌, ◌==◌, ◌≡◌, ◌≢◌, eq_iff, if◌then◌else◌, ok,
}
use multi_cluster_traffic_co.Api.Types.{DnsRecord, NamespacedName, object_meta}
use multi_cluster_traffic_co.Client.{ObjectClient, ClientLaws}
use multi_cluster_traffic_co.Ingress.{Ingress}
use multi_cluster_traffic_co.DnsService.Records.{Service}
use multi_cluster_traffic_co.Examples.Store.{held, store, store_laws}

abbrev pub view : List DnsRecord → NamespacedName → Option DnsRecord
view = held (λ r. r.metadata)

abbrev pub server : ObjectClient (List DnsRecord) DnsRecord
server = store (λ r. r.metadata)

pub server_laws : ClientLaws (λ r. r.metadata) server view
server_laws = store_laws (λ r. r.metadata)

pub differ : (a b : String) → (a == b) ≡ false → a ≢ b
differ a b h = λ e. let same : (a == b) ≡ true = (eq_iff a b).1 e in cc

abbrev pub environment : String → String
environment name = if name == "AWS_DNS_PUBLIC_ZONE_ID" then "Z1" else "example.com"

-- Every name has the address 10.0.0.9.
abbrev pub service : Service (List DnsRecord) String
service = record {
  control_client = server;
  default_ctrl_ns = "argocd";
  lookup_ip_addr =
      λ host s. (ok (record { host = host; ip = "10.0.0.9"; ttl = 60; txt = "" } ∷ []), s);
  ip_string = λ ip. ip;
  getenv = environment;
  short_uuid = λ t. "a1b2";
  to_lower = λ t. t;
}

-- An ingress with one rule, for "shop.test", and one address.
abbrev pub ingress : Ingress String
ingress = record {
  metadata = object_meta "shop" "web";
  rules = record { host = "shop.test"; http = "backend" } ∷ [];
  tls = [];
  load_balancer = record { ip = "10.0.0.1"; hostname = "" } ∷ [];
}
