-- ===== src/Api/Types.antt =====
-- The types of pkg/apis/v1/dnsrecord_types.go, and the object metadata that the program reads.
-- A slice that is nil and one that is empty are both `[]`; no operation here tells them apart. A
-- pointer to an endpoint is the endpoint, since no two pointers of a record are the same.
use multi_cluster_traffic_co.Prelude.{ℕ, String, Option, List}
use multi_cluster_traffic_co.Prelude.StringMap.{StringMap}
use multi_cluster_traffic_co.Text.{ℤ}

pub record ProviderSpecificProperty : Type 0 where
  pub name : String
  pub value : String

pub record Endpoint : Type 0 where
  pub dns_name : String
  pub targets : List String
  pub record_type : String
  pub set_identifier : String
  pub record_ttl : ℤ
  pub labels : Option StringMap
  pub provider_specific : List ProviderSpecificProperty

pub record DnsRecordSpec : Type 0 where
  pub endpoints : List Endpoint

pub record DnsZone : Type 0 where
  pub id : String
  pub tags : Option StringMap

-- A `metav1.Time` is a number of seconds, and 0 is the zero time.
pub record DnsZoneCondition : Type 0 where
  pub type : String
  pub status : String
  pub last_transition_time : ℕ
  pub reason : String
  pub message : String

pub record DnsZoneStatus : Type 0 where
  pub dns_zone : DnsZone
  pub conditions : List DnsZoneCondition
  pub endpoints : List Endpoint

pub record DnsRecordStatus : Type 0 where
  pub zones : List DnsZoneStatus
  pub observed_generation : ℕ

-- The fields of `metav1.ObjectMeta` that the program reads or writes.
pub record ObjectMeta : Type 0 where
  pub name : String
  pub namespace : String
  pub labels : Option StringMap
  pub annotations : Option StringMap
  pub generation : ℕ
  pub deletion_timestamp : Option ℕ
  pub finalizers : List String

pub record DnsRecord : Type 0 where
  pub metadata : ObjectMeta
  pub spec : DnsRecordSpec
  pub status : DnsRecordStatus

pub record Target : Type 0 where
  pub cluster : String
  pub target_type : String
  pub value : String

abbrev pub cname_record_type : String
cname_record_type = "CNAME"

abbrev pub a_record_type : String
a_record_type = "A"

abbrev pub target_type_host : String
target_type_host = "HOST"

abbrev pub target_type_ip : String
target_type_ip = "IP"

-- DNSRecordFailedConditionType
abbrev pub failed_condition_type : String
failed_condition_type = "Failed"

-- `metav1.ObjectMeta{Name: name, Namespace: namespace}`
abbrev pub object_meta : String → String → ObjectMeta
object_meta name namespace = record {
  name = name;
  namespace = namespace;
  labels = Option.none;
  annotations = Option.none;
  generation = 0;
  deletion_timestamp = Option.none;
  finalizers = List.[];
}

-- `types.NamespacedName`
pub record NamespacedName : Type 0 where
  pub namespace : String
  pub name : String

-- `client.ObjectKeyFromObject`
abbrev pub object_key : ObjectMeta → NamespacedName
object_key m = record { namespace = m.namespace; name = m.name }
