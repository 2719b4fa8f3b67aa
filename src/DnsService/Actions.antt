-- ===== src/DnsService/Actions.antt =====
-- The operations of pkg/dns/service.go that change the cluster.
use Prim.Native.String.{◌++◌ as ◌+++◌}
use multi_cluster_traffic_co.Prelude.{
  String, Bool, true, Option, none, some, List, [], ◌∷◌, ◌==◌, map, if◌then◌else◌, Error, Kind,
  errorf, is_already_exists, Result, ok, err, panic, Exec, pure, lift, fail, ◌>>=◌,
}
use multi_cluster_traffic_co.Api.Types.{DnsRecord, DnsZone, Endpoint, object_meta, object_key}
use multi_cluster_traffic_co.Ingress.{Ingress}
use multi_cluster_traffic_co.DnsService.Endpoints.{with_addresses, remaining}
use multi_cluster_traffic_co.DnsService.Records.{Service, resolve_ips, get_dns_records}

-- labelRecordID
abbrev pub label_record_id : String
label_record_id = "kuadrant.io/record-id"

-- AlreadyAssignedErr
abbrev pub already_assigned_err : Error
already_assigned_err = record {
  kind = Kind.already_assigned;
  message = "managed host already assigned";
}

-- zone, of which `getManagedZones` makes one.
pub record Zone : Type 0 where
  pub dns_zone : DnsZone
  pub root_domain : String
  pub default : Bool

-- getManagedZones
unfoldable pub get_managed_zones : (String → String) → List Zone
get_managed_zones getenv =
    record {
      dns_zone = record { id = getenv "AWS_DNS_PUBLIC_ZONE_ID"; tags = none };
      root_domain = getenv "ZONE_ROOT_DOMAIN";
      default = true;
    }
    ∷ []

-- The loop of `EnsureManagedHost`: the first default zone.
unfoldable pub choose_zone : List Zone → Option Zone
choose_zone [] = none
choose_zone (z ∷ zones) = if z.default then some z else choose_zone zones

-- What `EnsureManagedHost` returns: the hosts, their records, and an error or nil.
pub record Managed : Type 0 where
  pub hosts : List String
  pub records : List DnsRecord
  pub error : Option Error

abbrev pub failed : Error → Managed
failed e = record { hosts = []; records = []; error = some e }

abbrev pub no_zone_err : Error
no_zone_err = errorf "no zone available to use"

module _ {S Ip : Type 0} (service : Service S Ip) where
  open service use {control_client, default_ctrl_ns, getenv, short_uuid, to_lower}

  -- The loop of `AddEndPoints`: its body ends in a `return`, so that it runs once at most.
  unfoldable pub update_first : List String → List DnsRecord → Exec S (Unit {0})
  update_first ips [] = pure tt
  update_first ips (r ∷ records) = do
    r' ← lift (with_addresses ips r)
    _ ← control_client.update r'
    pure tt

  -- AddEndPoints
  unfoldable pub add_endpoints : {Http : Type 0} → Ingress Http → Exec S (Unit {0})
  unfolding update_first
  add_endpoints t = do
    ips ← resolve_ips service t
    records ← get_dns_records service t
    update_first ips records

  -- What one round of `RemoveEndpoints` does with the endpoints that stay; `rest` is the next.
  unfoldable pub write_remaining : DnsRecord → List Endpoint → Exec S (Unit {0}) → Exec S (Unit {0})
  write_remaining r [] rest = control_client.delete (record r { spec = record { endpoints = [] } })
  write_remaining r (e ∷ endpoints) rest = do
    _ ← control_client.update (record r { spec = record { endpoints = e ∷ endpoints } })
    rest

  -- The loop of `RemoveEndpoints`. `newEndpoints` is declared above it, and is carried from one
  -- record to the next.
  unfoldable pub remove_from_records :
      List String → List DnsRecord → List Endpoint → Exec S (Unit {0})
  unfolding write_remaining
  remove_from_records ips [] new_endpoints = pure tt
  remove_from_records ips (r ∷ records) new_endpoints =
      let kept = remaining ips r.spec.endpoints new_endpoints in
      write_remaining r kept (remove_from_records ips records kept)

  -- RemoveEndpoints
  unfoldable pub remove_endpoints : {Http : Type 0} → Ingress Http → Exec S (Unit {0})
  unfolding remove_from_records
  remove_endpoints t = do
    records ← get_dns_records service t
    ips ← resolve_ips service t
    remove_from_records ips records []

  -- What `RegisterHost` does with the outcome of the `Create`.
  unfoldable pub get_if_exists : DnsRecord → Result DnsRecord → Exec S DnsRecord
  get_if_exists r (ok created) = pure created
  get_if_exists r (err e) =
      if is_already_exists e then control_client.get (object_key r.metadata) else fail e
  get_if_exists r panic = lift panic

  -- RegisterHost; it does not read the zone.
  unfoldable pub register_host : String → String → DnsZone → Exec S DnsRecord
  unfolding get_if_exists
  register_host h id zone s =
      let dns_record : DnsRecord = record {
        metadata = record (object_meta h default_ctrl_ns) {
          labels = some ((label_record_id, id) ∷ []);
        };
        spec = record { endpoints = [] };
        status = record { zones = []; observed_generation = 0 };
      } in
      let (created, s') = control_client.create dns_record s in get_if_exists dns_record created s'

  -- The last part of `EnsureManagedHost`: the outcome of `RegisterHost`.
  unfoldable pub registered : String → Result DnsRecord → Result Managed
  registered host (ok r) = ok (record { hosts = host ∷ []; records = r ∷ []; error = none })
  registered host (err e) = ok (failed e)
  registered host panic = panic

  -- EnsureManagedHost without a record: a host in the chosen zone.
  unfoldable pub generate_host : {Http : Type 0} → Ingress Http → Exec S Managed
  unfolding registered get_managed_zones choose_zone
  generate_host t s =
      let host_key = short_uuid (t.metadata.namespace +++ t.metadata.name) in
      elim (choose_zone (get_managed_zones getenv)) [
        | none ↦ (ok (failed no_zone_err), s)
        | some z ↦
            let managed_host = to_lower (host_key +++ ("." +++ z.root_domain)) in
            if z.dns_zone.id == ""
            then (ok (failed no_zone_err), s)
            else (let (r, s') = register_host managed_host host_key z.dns_zone s in
                (registered managed_host r, s'))
      ]

  -- The branches of `EnsureManagedHost` on the records that there are.
  unfoldable pub assign : {Http : Type 0} → Ingress Http → Result (List DnsRecord) → Exec S Managed
  unfolding generate_host
  assign t (ok []) = generate_host t
  assign t (ok (r ∷ records)) = pure (record {
    hosts = map (λ x. x.metadata.name) (r ∷ records);
    records = r ∷ records;
    error = some already_assigned_err;
  })
  assign t (err e) = pure (failed e)
  assign t panic = lift panic

  -- EnsureManagedHost
  unfoldable pub ensure_managed_host : {Http : Type 0} → Ingress Http → Exec S Managed
  unfolding assign
  ensure_managed_host t s = let (found, s') = get_dns_records service t s in assign t found s'
