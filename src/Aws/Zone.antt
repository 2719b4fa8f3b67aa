-- ===== src/Aws/Zone.antt =====
-- What a batch makes of a zone of Route 53: the record sets by name, type and set identifier, an
-- UPSERT as a write, and a DELETE as a removal.
pub mod Effects
use multi_cluster_traffic_co.Prelude.{
  String, Bool, true, false, not, ◌&&◌, List, [], ◌∷◌, ◌++◌, ◌==◌, ◌≡◌, ◌⊎◌, refl, sym, ap, ◌∙◌,
  arith, eq_iff, any, keep, map, All, eq_refl, Option, none, some, Bool-cases, inl, inr,
  if◌then◌else◌,
}
use multi_cluster_traffic_co.Api.Types.{Endpoint, DnsRecord}
use multi_cluster_traffic_co.Api.Endpoint.{set_id}
use multi_cluster_traffic_co.Aws.{
  Change, ResourceRecordSet, upsert_action, delete_action, record_set_of, is_expected,
  endpoints_from_zone_status,
}

-- The change of an endpoint.
abbrev pub change_to : String → Endpoint → Change
change_to action e = record { action = action; resource_record_set = record_set_of e }

-- The endpoints of the last publication whose SetID no endpoint of the record has.
abbrev pub stale : DnsRecord → String → List Endpoint
stale r zone_id =
    keep (λ e. not (is_expected r.spec.endpoints e))
      (endpoints_from_zone_status r.status.zones zone_id)

-- What tells record sets of a zone apart in Route 53: the name, the type and the set identifier, which
-- is empty where there is none.
pub record RecordKey : Type 0 where
  pub name : String
  pub type : String
  pub set_identifier : String

abbrev pub same_key : RecordKey → RecordKey → Bool
same_key a b = a.name == b.name && a.type == b.type && a.set_identifier == b.set_identifier

abbrev pub key_of : ResourceRecordSet → RecordKey
key_of rs = record {
  name = rs.name;
  type = rs.type;
  set_identifier = elim rs.set_identifier [ none ↦ "" | some i ↦ i ];
}

-- The key of the record set of an endpoint.
abbrev pub record_key : Endpoint → RecordKey
record_key e = record { name = e.dns_name; type = e.record_type; set_identifier = e.set_identifier }

abbrev pub keys : List Endpoint → List RecordKey
keys = map record_key

-- The SetID of an endpoint with the key.
abbrev pub id_of : RecordKey → String
id_of k = if k.set_identifier == "" then k.name else k.set_identifier

-- A SetID always goes with the same name, type and set identifier.
abbrev pub Named : (String → RecordKey) → List Endpoint → Type 0
Named naming es = All (λ k. k ≡ naming (id_of k)) (keys es)

abbrev pub Zone : Type 0
Zone = RecordKey → Option ResourceRecordSet

-- One change.
unfoldable pub apply : Change → Zone → Zone
apply c z k =
    if same_key (key_of c.resource_record_set) k
    then (if c.action == upsert_action then some c.resource_record_set else none)
    else z k

-- A batch, in order.
unfoldable pub apply_all : List Change → Zone → Zone
apply_all [] z = z
apply_all (c ∷ cs) z = apply_all cs (apply c z)

pub key_of-record_set_of : (e : Endpoint) → key_of (record_set_of e) ≡ record_key e
unfolding record_set_of
key_of-record_set_of e = elim (Bool-cases (e.set_identifier == "")) [
  | inl bare ↦
      let empty : e.set_identifier ≡ "" = (eq_iff e.set_identifier "").0 bare in
      rw (bare, empty) refl
  | inr set ↦ rw set refl
]

pub set_id-id_of : (e : Endpoint) → set_id e ≡ id_of (record_key e)
unfolding set_id
set_id-id_of e = refl

pub same_key_refl : (k : RecordKey) → same_key k k ≡ true
same_key_refl k = ground (arith, eq_refl k.name, eq_refl k.type, eq_refl k.set_identifier)

pub same_key-eq : (a b : RecordKey) → same_key a b ≡ true → a ≡ b
same_key-eq a b same =
    let named : a.name ≡ b.name = (eq_iff a.name b.name).0 (ground arith) in
    let typed : a.type ≡ b.type = (eq_iff a.type b.type).0 (ground arith) in
    let told : a.set_identifier ≡ b.set_identifier =
      (eq_iff a.set_identifier b.set_identifier).0 (ground arith) in
    ap (λ n. record { name = n; type = a.type; set_identifier = a.set_identifier }) named
    ∙ ap (λ n. record { name = b.name; type = n; set_identifier = a.set_identifier }) typed
    ∙ ap (λ n. record { name = b.name; type = b.type; set_identifier = n }) told

-- Some endpoint has the key.
abbrev pub has_key : RecordKey → List Endpoint → Bool
has_key k es = any (λ x. same_key x k) (keys es)
