-- ===== src/Api/Endpoint.antt =====
-- The methods of `Endpoint` in pkg/apis/v1/dnsrecord_types.go.
pub mod Properties
use multi_cluster_traffic_co.Prelude.{
  String, Bool, true, false, ◌||◌, Option, none, some, List, [], ◌∷◌, ◌++◌, ◌==◌, if◌then◌else◌,
}
use multi_cluster_traffic_co.Api.Types.{Endpoint, ProviderSpecificProperty}

-- SetID
unfoldable pub set_id : Endpoint → String
set_id e = if e.set_identifier == "" then e.dns_name else e.set_identifier

-- WithSetIdentifier
unfoldable pub with_set_identifier : Endpoint → String → Endpoint
with_set_identifier e set_identifier = record e { set_identifier = set_identifier }

-- WithProviderSpecific
unfoldable pub with_provider_specific : Endpoint → String → String → Endpoint
with_provider_specific e key value = record e {
  provider_specific = e.provider_specific ++ (record { name = key; value = value }) ∷ [];
}

-- The loop that `GetProviderSpecificProperty` and `GetProviderSpecific` share.
unfoldable pub find_property :
    String → List ProviderSpecificProperty → Option ProviderSpecificProperty
find_property key [] = none
find_property key (p ∷ ps) = if p.name == key then some p else find_property key ps

-- GetProviderSpecificProperty; `none` is the result `(ProviderSpecificProperty{}, false)`.
unfoldable pub get_provider_specific_property : Endpoint → String → Option ProviderSpecificProperty
unfolding find_property
get_provider_specific_property e key = find_property key e.provider_specific

-- GetProviderSpecific; `none` is the result `("", false)`.
unfoldable pub get_provider_specific : Endpoint → String → Option String
unfolding find_property
get_provider_specific e name = elim (find_property name e.provider_specific) [
  | none ↦ none
  | some p ↦ some p.value
]

-- GetAddress; `none` is the result `("", false)`.
first_target : Bool → List String → Option String
first_target unset [] = none
first_target true (t ∷ ts) = none
first_target false (t ∷ ts) = some t

unfoldable pub get_address : Endpoint → Option String
unfolding first_target
get_address e = first_target (e.set_identifier == "") e.targets

-- The first loop of `SetProviderSpecific`: `property` is nil, or it points to the loop's own
-- variable `pair`, which holds a copy of an element.
unfoldable pub pair_copy :
    String
    → List ProviderSpecificProperty
    → Option ProviderSpecificProperty
    → Option ProviderSpecificProperty
pair_copy name [] property = property
pair_copy name (pair ∷ pairs) property =
    pair_copy name pairs (if pair.name == name then some pair else property)

-- SetProviderSpecific. `property.Value = value` writes to the copy, which is then dropped.
unfoldable pub set_provider_specific : Endpoint → String → String → Endpoint
unfolding pair_copy
set_provider_specific e name value = elim (pair_copy name e.provider_specific none) [
  | some property ↦ e
  | none ↦ record e {
    provider_specific = e.provider_specific ++ (record { name = name; value = value }) ∷ [];
  }
]

-- The loop of `DeleteProviderSpecific`: whether a pair was dropped, and the pairs that stay.
unfoldable pub drop_property :
    String
    → List ProviderSpecificProperty
    → Bool
    → List ProviderSpecificProperty
    → List ProviderSpecificProperty × Bool
drop_property name [] deleted kept = (kept, deleted)
drop_property name (pair ∷ pairs) deleted kept =
    drop_property name pairs (pair.name == name || deleted)
      (if pair.name == name then kept else kept ++ pair ∷ [])

-- DeleteProviderSpecific
unfoldable pub delete_provider_specific : Endpoint → String → Endpoint × Bool
unfolding drop_property
delete_provider_specific e name =
    let (kept, deleted) = drop_property name e.provider_specific false [] in
    (record e { provider_specific = kept }, deleted)
