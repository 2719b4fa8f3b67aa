-- ===== src/DnsService/Records.antt =====
-- The service of pkg/dns/service.go, the addresses of a traffic object, and its DNSRecords.
use Prim.Native.String.{◌++◌ as ◌+++◌}
use multi_cluster_traffic_co.Prelude.{
  ℕ, String, List, [], ◌∷◌, ◌++◌, ◌==◌, map, if◌then◌else◌, errorf, is_not_found, Result, ok, err,
  panic, Exec, pure, proceed, ◌>>=◌,
}
use multi_cluster_traffic_co.Api.Types.{DnsRecord, Target, object_meta, object_key, target_type_ip}
use multi_cluster_traffic_co.Ingress.{Ingress, get_hosts, get_dns_targets}
use multi_cluster_traffic_co.Client.{ObjectClient}

-- HostAddress, of pkg/dns/hostresolv.go; a duration is a number of nanoseconds.
pub record HostAddress (Ip : Type 0) : Type 0 where
  pub host : String
  pub ip : Ip
  pub ttl : ℕ
  pub txt : String

-- What `Service` is made of, and the outside functions that it calls.
pub record Service (S Ip : Type 0) : Type 0 where
  pub control_client : ObjectClient S DnsRecord
  pub default_ctrl_ns : String
  pub lookup_ip_addr : String → Exec S (List (HostAddress Ip))
  pub ip_string : Ip → String
  pub getenv : String → String
  pub short_uuid : String → String
  pub to_lower : String → String

module _ {S Ip : Type 0} (service : Service S Ip) where
  open service use {control_client, default_ctrl_ns, lookup_ip_addr, ip_string}

  -- An error of the lookup, with the text that `resolveIPS` puts around it.
  abbrev pub lookup_error : String → Result (List (HostAddress Ip)) → Result (List (HostAddress Ip))
  lookup_error host (ok addr) = ok addr
  lookup_error host (err e) =
      err (errorf ("DNSLookup failed for host " +++ (host +++ (" : " +++ e.message))))
  lookup_error host panic = panic

  -- The loop of `resolveIPS`. Beside an error it returns the addresses so far, which no caller
  -- reads.
  unfoldable pub resolve_targets : List Target → Exec S (List String)
  resolve_targets [] s = (ok [], s)
  resolve_targets (target ∷ targets) s =
      let rest = resolve_targets targets in
      if target.target_type == target_type_ip
      then (rest >>= λ ips. pure (target.value ∷ ips)) s
      else (let (found, s') = lookup_ip_addr target.value s in
          proceed (lookup_error target.value found)
            (λ addr. rest >>= λ ips. pure (map (λ a. ip_string a.ip) addr ++ ips)) s')

  -- resolveIPS
  unfoldable pub resolve_ips : {Http : Type 0} → Ingress Http → Exec S (List String)
  resolve_ips t = resolve_targets (get_dns_targets t)

  -- What `GetDNSRecords` does with the outcome of a `Get`.
  unfoldable pub add_record : Result DnsRecord → Exec S (List DnsRecord) → Exec S (List DnsRecord)
  add_record (ok found) rest s = (rest >>= λ records. pure (found ∷ records)) s
  add_record (err e) rest s = if is_not_found e then rest s else (err e, s)
  add_record panic rest s = (panic, s)

  -- The loop of `GetDNSRecords`.
  unfoldable pub records_of_hosts : List String → Exec S (List DnsRecord)
  unfolding add_record
  records_of_hosts [] s = (ok [], s)
  records_of_hosts (host ∷ hosts) s =
      let rest = records_of_hosts hosts in
      if host == ""
      then rest s
      else (let (found, s') =
            control_client.get (object_key (object_meta host default_ctrl_ns)) s in
          add_record found rest s')

  -- GetDNSRecords
  unfoldable pub get_dns_records : {Http : Type 0} → Ingress Http → Exec S (List DnsRecord)
  get_dns_records t = records_of_hosts (get_hosts t)
