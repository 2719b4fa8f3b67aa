-- ===== src/Aws.antt =====
-- pkg/dns/aws/dns.go: the Route 53 provider. `ChangeResourceRecordSets` of the AWS SDK is a
-- parameter over a state `S`.
pub mod Validation
pub mod Zone
pub mod Batch
pub mod Weights
pub mod Metrics
pub mod Session
use Prim.Native.String.{◌++◌ as ◌+++◌}
use multi_cluster_traffic_co.Prelude.{
  String, Bool, true, not, ◌&&◌, ◌||◌, Option, none, some, List, [], ◌∷◌, ◌++◌, ◌==◌, any,
  if◌then◌else◌, Error, errorf, Result, ok, err, panic, Exec, lift,
}
use multi_cluster_traffic_co.Text.{ℤ, pos, parse_int}
use multi_cluster_traffic_co.Api.Types.{
  Endpoint, DnsRecord, DnsZone, DnsZoneStatus, a_record_type, cname_record_type,
}
use multi_cluster_traffic_co.Api.Endpoint.{set_id, get_provider_specific_property}
use multi_cluster_traffic_co.DnsService.Endpoints.{provider_specific_weight}
use multi_cluster_traffic_co.Provider.{Provider}

pub record GeoLocation : Type 0 where
  pub continent_code : Option String
  pub country_code : Option String
  pub subdivision_code : Option String

-- `route53.ResourceRecordSet`; a nil pointer is `none`.
pub record ResourceRecordSet : Type 0 where
  pub name : String
  pub type : String
  pub ttl : ℤ
  pub resource_records : List String
  pub set_identifier : Option String
  pub weight : Option ℤ
  pub region : Option String
  pub failover : Option String
  pub multi_value_answer : Option Bool
  pub geo_location : Option GeoLocation
  pub health_check_id : Option String

-- `route53.Change`
pub record Change : Type 0 where
  pub action : String
  pub resource_record_set : ResourceRecordSet

abbrev pub upsert_action : String
upsert_action = "UPSERT"

abbrev pub delete_action : String
delete_action = "DELETE"

-- The value of a property, if the endpoint has it.
unfoldable pub property : Endpoint → String → Option String
property e name = elim (get_provider_specific_property e name) [
  | none ↦ none
  | some p ↦ some p.value
]

-- The weight of a property's value: 0, if it is no number.
unfoldable pub weight_value : Option String → Option ℤ
weight_value none = none
weight_value (some value) = elim (parse_int value) [
  | none ↦ some (pos 0)
  | some weight ↦ some weight
]

unfoldable pub multi_value : Option String → Option Bool
multi_value none = none
multi_value (some value) = some true

-- The continent comes before country and subdivision; without any of them there is no location.
unfoldable pub geo_location_of : Option String → Option String → Option String → Option GeoLocation
geo_location_of (some continent) country subdivision =
    some (record { continent_code = some continent; country_code = none; subdivision_code = none })
geo_location_of none none none = none
geo_location_of none country subdivision =
    some (record { continent_code = none; country_code = country; subdivision_code = subdivision })

-- The record set that `changeForEndpoint` builds.
unfoldable pub record_set_of : Endpoint → ResourceRecordSet
record_set_of e = record {
  name = e.dns_name;
  type = e.record_type;
  ttl = e.record_ttl;
  resource_records = e.targets;
  set_identifier = if e.set_identifier == "" then none else some e.set_identifier;
  weight = weight_value (property e provider_specific_weight);
  region = property e "aws/region";
  failover = property e "aws/failover";
  multi_value_answer = multi_value (property e "aws/multi-value-answer");
  geo_location =
      geo_location_of (property e "aws/geolocation-continent-code")
        (property e "aws/geolocation-country-code") (property e "aws/geolocation-subdivision-code");
  health_check_id = property e "aws/health-check-id";
}

abbrev is_empty : List String → Bool
is_empty [] = true
is_empty (_ ∷ _) = Bool.false

-- changeForEndpoint
unfoldable pub change_for_endpoint : Endpoint → String → Result Change
change_for_endpoint e action =
    if not (e.record_type == a_record_type) && not (e.record_type == cname_record_type)
    then err (errorf ("unsupported record type " +++ e.record_type))
    else if e.dns_name == ""
    then err (errorf "domain is required")
    else if is_empty e.targets
    then err (errorf "targets is required")
    else ok (record { action = action; resource_record_set = record_set_of e })

-- endpointsFromZoneStatus, which returns no error.
unfoldable pub endpoints_from_zone_status : List DnsZoneStatus → String → List Endpoint
endpoints_from_zone_status [] zone_id = []
endpoints_from_zone_status (zone_status ∷ zones) zone_id =
    if zone_status.dns_zone.id == zone_id
    then zone_status.endpoints
    else endpoints_from_zone_status zones zone_id

-- The first loop of `updateRecord`: a change for each endpoint.
unfoldable pub changes_for : List Endpoint → String → Result (List Change)
changes_for [] action = ok []
changes_for (e ∷ es) action = elim (change_for_endpoint e action) [
  | err x ↦ err x
  | panic ↦ panic
  | ok change ↦ elim (changes_for es action) [
    | err x ↦ err x
    | panic ↦ panic
    | ok changes ↦ ok (change ∷ changes)
  ]
]

-- `expectedEndpointsMap` holds the SetID of the endpoint.
unfoldable pub is_expected : List Endpoint → Endpoint → Bool
is_expected expected e = any (λ x. set_id x == set_id e) expected

-- The second loop: a DELETE for each endpoint published before that is not expected.
unfoldable pub deletes_for : List Endpoint → List Endpoint → Result (List Change)
deletes_for expected [] = ok []
deletes_for expected (e ∷ es) =
    let rest = deletes_for expected es in
    if is_expected expected e then rest else elim (change_for_endpoint e delete_action) [
      | err x ↦ err x
      | panic ↦ panic
      | ok change ↦ elim rest [ err x ↦ err x | panic ↦ panic | ok changes ↦ ok (change ∷ changes) ]
    ]

-- The changes of `updateRecord`.
unfoldable pub changes_of : DnsRecord → String → String → Result (List Change)
changes_of r zone_id action = elim (changes_for r.spec.endpoints action) [
  | err x ↦ err x
  | panic ↦ panic
  | ok changes ↦
      if action == delete_action
      then ok changes
      else elim (deletes_for r.spec.endpoints (endpoints_from_zone_status r.status.zones zone_id)) [
        | err x ↦ err x
        | panic ↦ panic
        | ok deletes ↦ ok (changes ++ deletes)
      ]
]

-- An error, with a text in front of its own.
abbrev pub wrap : String → Result (Unit {0}) → Result (Unit {0})
wrap text (ok a) = ok a
wrap text (err e) = err (errorf (text +++ e.message))
wrap text panic = panic

module _ {S : Type 0} (change_resource_record_sets : String → List Change → Exec S (Unit {0})) where
  -- The end of `updateRecord`: no call for an empty batch.
  unfoldable pub submit : DnsRecord → String → Result (List Change) → Exec S (Unit {0})
  submit r zone_id (ok []) s = (ok tt, s)
  submit r zone_id (ok (change ∷ changes)) s =
      let (done, s') = change_resource_record_sets zone_id (change ∷ changes) s in
      (
        wrap
            ("couldn't update DNS record "
              +++ (r.metadata.name +++ (" in zone " +++ (zone_id +++ ": "))))
            done,
        s',
      )
  submit r zone_id (err e) s = (err e, s)
  submit r zone_id panic s = (panic, s)

  -- updateRecord
  unfoldable pub update_record : DnsRecord → String → String → Exec S (Unit {0})
  unfolding submit
  update_record r zone_id action s = submit r zone_id (changes_of r zone_id action) s

  -- change
  unfoldable pub change : DnsRecord → DnsZone → String → Exec S (Unit {0})
  unfolding update_record
  change r zone action s =
      let (done, s') = update_record r zone.id action s in
      (wrap ("failed to update record in zone " +++ (zone.id +++ ": ")) done, s')

  -- Ensure and Delete, as a Provider.
  abbrev pub aws_provider : Provider S
  aws_provider = record {
    ensure = λ r zone. change r zone upsert_action;
    delete = λ r zone. change r zone delete_action;
  }
