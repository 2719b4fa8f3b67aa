-- ===== src/DnsService/Created.antt =====
-- EnsureManagedHost on an ingress for whose hosts no record is stored.
use Prim.Native.String.{◌++◌ as ◌+++◌}
use multi_cluster_traffic_co.Prelude.{
  String, false, Option, none, some, [], ◌∷◌, ◌==◌, ◌≡◌, refl, ok,
}
use multi_cluster_traffic_co.Api.Types.{DnsRecord, NamespacedName, object_key, object_meta}
use multi_cluster_traffic_co.Client.{ClientLaws}
use multi_cluster_traffic_co.Ingress.{Ingress, get_hosts}
use multi_cluster_traffic_co.DnsService.Records.{Service}
use multi_cluster_traffic_co.DnsService.Lookup.{stored, get_dns_records-stored}
use multi_cluster_traffic_co.DnsService.Actions.{
  Managed, label_record_id, ensure_managed_host, assign, generate_host, register_host,
  get_if_exists, registered, choose_zone, get_managed_zones,
}

module _ {S Ip Http : Type 0} (service : Service S Ip) (t : Ingress Http) where
  open service use {default_ctrl_ns, getenv, short_uuid, to_lower}

  -- The id and the host that EnsureManagedHost gives to the ingress, and the record that it creates.
  abbrev pub record_id : String
  record_id = short_uuid (t.metadata.namespace +++ t.metadata.name)

  abbrev pub new_host : String
  new_host = to_lower (record_id +++ ("." +++ getenv "ZONE_ROOT_DOMAIN"))

  abbrev pub new_record : DnsRecord
  new_record = record {
    metadata = record (object_meta new_host default_ctrl_ns) {
      labels = some ((label_record_id, record_id) ∷ []);
    };
    spec = record { endpoints = [] };
    status = record { zones = []; observed_generation = 0 };
  }

  -- What it returns for the record as the server has it.
  abbrev pub created_for : DnsRecord → Managed
  created_for created = record { hosts = new_host ∷ []; records = created ∷ []; error = none }

  module _ (view : S → NamespacedName → Option DnsRecord)
      (laws : ClientLaws (λ r. r.metadata) service.control_client view) (created : DnsRecord)
      (s s1 : S) (accepted : service.control_client.create new_record s ≡ (ok created, s1)) where
    pub ensure_managed_host-created :
        stored service view s (get_hosts t) ≡ []
        → (getenv "AWS_DNS_PUBLIC_ZONE_ID" == "") ≡ false
        → ensure_managed_host service t s ≡ (ok (created_for created), s1)
    unfolding ensure_managed_host assign generate_host register_host get_if_exists registered
        choose_zone get_managed_zones
    ensure_managed_host-created fresh zone =
        rw (get_dns_records-stored service view laws t s, fresh, zone, accepted) refl

    -- The server has the record under its name.
    pub created_key : object_key created.metadata ≡ object_key new_record.metadata
    created_key =
        laws.view_key s1 (object_key new_record.metadata) created
          (laws.create_stored new_record created s s1 accepted)
