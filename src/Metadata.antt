-- ===== src/Metadata.antt =====
-- pkg/_internal/metadata: the labels (labels.go) and the annotations (annotations.go) of an object. A
-- function that changes the object gives the new metadata. A map is ranged over in the order of its
-- list; where the result could depend on the order, a theorem says that it does not.
pub mod Entries
use Prim.Native.Char.{code}
use multi_cluster_traffic_co.Prelude.{
  ℕ, String, Bool, true, false, not, ◌&&◌, Option, none, some, List, [], ◌∷◌, ◌==◌, if◌then◌else◌,
  any, keep, ltb, length, ◌||◌, nat_eq, leb,
}
use multi_cluster_traffic_co.Prelude.StringMap.{StringMap, lookup, insert}
use multi_cluster_traffic_co.Text.{contains_text}
use multi_cluster_traffic_co.Api.Types.{ObjectMeta}

-- `_, ok := m[key]`
abbrev pub is_some : Option String → Bool
is_some o = elim o [ none ↦ false | some value ↦ true ]

-- `delete(m, key)`
unfoldable pub remove : String → StringMap → StringMap
remove key entries = keep (λ entry. not (entry.0 == key)) entries

-- HasLabel
unfoldable pub has_label : ObjectMeta → String → Bool
has_label m key = elim m.labels [ none ↦ false | some labels ↦ is_some (lookup key labels) ]

-- The loop of `HasLabelsContaining` and `HasAnnotationsContaining`.
unfoldable pub collect_matches : String → StringMap → StringMap → StringMap
collect_matches key [] matches = matches
collect_matches key (entry ∷ entries) matches =
    collect_matches key entries
      (if contains_text entry.0 key then insert entry.0 entry.1 matches else matches)

-- What the two functions return for the map of the object.
unfoldable pub matches_of : Option StringMap → String → Bool × StringMap
unfolding collect_matches
matches_of none key = (false, [])
matches_of (some entries) key =
    let matches = collect_matches key entries [] in (ltb 0 (length matches), matches)

-- HasLabelsContaining
unfoldable pub has_labels_containing : ObjectMeta → String → Bool × StringMap
unfolding matches_of
has_labels_containing m key = matches_of m.labels key

-- HasAnnotationsContaining
unfoldable pub has_annotations_containing : ObjectMeta → String → Bool × StringMap
unfolding matches_of
has_annotations_containing m key = matches_of m.annotations key

-- `AddLabel` and `AddAnnotation` on the map: with the key and the value there, nothing is set.
unfoldable pub with_entry : String → String → Option StringMap → Option StringMap
with_entry key value none = some (insert key value [])
with_entry key value (some entries) =
    if any (λ entry. entry.0 == key && entry.1 == value) entries
    then some entries
    else some (insert key value entries)

-- `RemoveLabel` and `RemoveAnnotation` on the map.
unfoldable pub without_entry : String → Option StringMap → Option StringMap
unfolding remove
without_entry key none = none
without_entry key (some entries) =
    if any (λ entry. entry.0 == key) entries then some (remove key entries) else some entries

-- AddLabel
unfoldable pub add_label : ObjectMeta → String → String → ObjectMeta
unfolding with_entry
add_label m key value = record m { labels = with_entry key value m.labels }

-- RemoveLabel
unfoldable pub remove_label : ObjectMeta → String → ObjectMeta
unfolding without_entry
remove_label m key = record m { labels = without_entry key m.labels }

-- AddAnnotation
unfoldable pub add_annotation : ObjectMeta → String → String → ObjectMeta
unfolding with_entry
add_annotation m key value = record m { annotations = with_entry key value m.annotations }

-- RemoveAnnotation
unfoldable pub remove_annotation : ObjectMeta → String → ObjectMeta
unfolding without_entry
remove_annotation m key = record m { annotations = without_entry key m.annotations }

-- `unicode.IsSpace`
unfoldable pub is_space : ℕ → Bool
is_space n =
    (leb 9 n && leb n 13)
    || nat_eq n 32
    || nat_eq n 133
    || nat_eq n 160
    || nat_eq n 5760
    || (leb 8192 n && leb n 8202)
    || nat_eq n 8232
    || nat_eq n 8233
    || nat_eq n 8239
    || nat_eq n 8287
    || nat_eq n 12288

unfoldable pub trim_left : String → String
unfolding is_space
trim_left String.[] = String.[]
trim_left (String.◌∷◌ c s) =
    let rest = trim_left s in if is_space (code c) then rest else String.◌∷◌ c s

unfoldable pub trim_right : String → String
unfolding is_space
trim_right String.[] = String.[]
trim_right (String.◌∷◌ c s) =
    let rest = trim_right s in
    if rest == "" && is_space (code c) then String.[] else String.◌∷◌ c rest

-- `strings.TrimSpace`
unfoldable pub trim_space : String → String
unfolding trim_left trim_right
trim_space s = trim_right (trim_left s)

-- HasAnnotation
unfoldable pub has_annotation : ObjectMeta → String → Bool
unfolding trim_space
has_annotation m key = elim m.annotations [
  | none ↦ false
  | some annotations ↦ is_some (lookup (trim_space key) annotations)
]

-- GetAnnotation
unfoldable pub get_annotation : ObjectMeta → String → String
unfolding has_annotation
get_annotation m key = if not (has_annotation m key) then "" else elim m.annotations [
  | none ↦ ""
  | some annotations ↦ elim (lookup key annotations) [ none ↦ "" | some value ↦ value ]
]

-- The loop of `CopyAnnotationsPredicate`.
unfoldable pub copy_entries :
    (String → String → Bool) → StringMap → StringMap → Bool → Bool × StringMap
copy_entries predicate [] target copied = (copied, target)
copy_entries predicate (entry ∷ entries) target copied =
    copy_entries predicate entries
      (if predicate entry.0 entry.1 then insert entry.0 entry.1 target else target)
      (if predicate entry.0 entry.1 then true else copied)

-- CopyAnnotationsPredicate
unfoldable pub copy_annotations_predicate :
    ObjectMeta → ObjectMeta → (String → String → Bool) → Bool × ObjectMeta
unfolding copy_entries
copy_annotations_predicate source target predicate = elim source.annotations [
  | none ↦ (false, target)
  | some entries ↦
      let there : StringMap = elim target.annotations [
        | none ↦ []
        | some annotations ↦ annotations
      ] in
      let (copied, annotations) = copy_entries predicate entries there false in
      (copied, record target { annotations = some annotations })
]

-- KeyPredicate
unfoldable pub key_predicate : (String → Bool) → String → String → Bool
key_predicate predicate key _ = predicate key

-- CopyAnnotation
unfoldable pub copy_annotation : ObjectMeta → ObjectMeta → String → Bool × ObjectMeta
unfolding copy_annotations_predicate
copy_annotation source target key =
    copy_annotations_predicate source target (λ each_key value. each_key == key)
