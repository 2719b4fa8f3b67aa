-- ===== src/Metadata/Entries.antt =====
-- What the labels and the annotations of an object read after they were changed.
use multi_cluster_traffic_co.Prelude.{
  String, Bool, true, false, ◌&&◌, ◌||◌, Option, none, some, [], ◌∷◌, ◌==◌, ◌≡◌, refl, arith,
  eq_iff, any, if◌then◌else◌, Bool-cases, Option-cases, subst, inl, inr,
}
use multi_cluster_traffic_co.Prelude.StringMap.{StringMap, lookup, insert, lookup-insert}
use multi_cluster_traffic_co.Api.Types.{ObjectMeta}
use multi_cluster_traffic_co.Metadata.{
  remove, with_entry, without_entry, add_label, remove_label, add_annotation, remove_annotation,
  copy_entries, copy_annotations_predicate, has_annotation, get_annotation, trim_space,
}

-- Each key stands in the list once, as in a map.
abbrev pub KeysOnce : StringMap → Type 0
KeysOnce [] = Unit
KeysOnce (entry ∷ entries) = (any (λ x. x.0 == entry.0) entries ≡ false) × KeysOnce entries

-- `m[key]`, where the map may be nil.
abbrev pub entry_of : String → Option StringMap → Option String
entry_of key none = none
entry_of key (some entries) = lookup key entries

abbrev pub entries_of : Option StringMap → StringMap
entries_of none = []
entries_of (some entries) = entries

lookup-absent :
    (key : String) (entries : StringMap)
    → any (λ x. x.0 == key) entries ≡ false
    → lookup key entries ≡ none
unfolding lookup
lookup-absent key [] absent = refl
lookup-absent key (entry ∷ entries) absent = ground (arith, lookup-absent key entries)

any-key :
    (key value : String) (entries : StringMap)
    → any (λ x. x.0 == key && x.1 == value) entries ≡ true
    → any (λ x. x.0 == key) entries ≡ true
any-key key value [] there = there
any-key key value ((name, text) ∷ entries) there = ground (arith, any-key key value entries)

lookup-any :
    (key value : String) (entries : StringMap)
    → KeysOnce entries
    → any (λ x. x.0 == key && x.1 == value) entries ≡ true
    → lookup key entries ≡ some value
unfolding lookup
lookup-any key value [] once there = cc
lookup-any key value ((name, text) ∷ entries) (once, later) there = ground (
  arith,
  eq_iff name key,
  eq_iff text value,
  any-key key value entries,
  lookup-any key value entries later,
)

lookup-remove :
    (other key : String) (entries : StringMap)
    → lookup other (remove key entries) ≡ (if key == other then none else lookup other entries)
unfolding lookup remove
lookup-remove other key [] = ground arith
lookup-remove other key (entry ∷ entries) = ground (
  arith,
  lookup-remove other key entries,
  eq_iff entry.0 key,
  eq_iff entry.0 other,
  eq_iff key other,
)

entry_of-with_entry :
    (other key value : String) (o : Option StringMap)
    → KeysOnce (entries_of o)
    → entry_of other (with_entry key value o)
      ≡ (if key == other then some value else entry_of other o)
unfolding with_entry lookup
entry_of-with_entry other key value none once = lookup-insert other key value []
entry_of-with_entry other key value (some entries) once = ground (
  arith,
  lookup-insert other key value entries,
  lookup-any key value entries once,
  eq_iff key other,
)

entry_of-without_entry :
    (other key : String) (o : Option StringMap)
    → entry_of other (without_entry key o) ≡ (if key == other then none else entry_of other o)
unfolding without_entry
entry_of-without_entry other key none = ground arith
entry_of-without_entry other key (some entries) =
    ground (arith, lookup-remove other key entries, lookup-absent key entries, eq_iff key other)

entry_of-without_with :
    (other key value : String) (o : Option StringMap)
    → KeysOnce (entries_of o)
    → entry_of other (without_entry key (with_entry key value o))
      ≡ (if key == other then none else entry_of other o)
entry_of-without_with other key value o once = ground (
  arith,
  entry_of-without_entry other key (with_entry key value o),
  entry_of-with_entry other key value o once,
)

lookup-copy_entries :
    (p : String → String → Bool) (key : String) (entries target : StringMap) (copied : Bool)
    → KeysOnce entries
    → lookup key (copy_entries p entries target copied).1 ≡ (elim (lookup key entries) [
      | none ↦ lookup key target
      | some value ↦ if p key value then some value else lookup key target
    ])
unfolding copy_entries lookup
lookup-copy_entries p key [] target copied once = refl
lookup-copy_entries p key ((name, text) ∷ entries) target copied (once, later) =
    elim (Bool-cases (name == key)) [
      | inl own ↦
          let same : name ≡ key = (eq_iff name key).0 own in
          let gone : lookup key entries ≡ none =
            lookup-absent key entries
              (subst (λ k. any (λ x. x.0 == k) entries ≡ false) same once) in
          rw own (
            ground (
              arith,
              gone,
              same,
              own,
              lookup-copy_entries p key entries
                  (if p name text then insert name text target else target)
                  (if p name text then true else copied) later,
              lookup-insert key name text target,
            ))
      | inr other ↦ rw other (
          ground (
            arith,
            other,
            lookup-copy_entries p key entries
                (if p name text then insert name text target else target)
                (if p name text then true else copied) later,
            lookup-insert key name text target,
          ))
    ]

copied-copy_entries :
    (p : String → String → Bool) (entries target : StringMap) (copied : Bool)
    → (copy_entries p entries target copied).0 ≡ (copied || any (λ x. p x.0 x.1) entries)
unfolding copy_entries
copied-copy_entries p [] target copied = ground arith
copied-copy_entries p ((name, text) ∷ entries) target copied = ground (
  arith,
  copied-copy_entries p entries (if p name text then insert name text target else target)
      (if p name text then true else copied),
)

-- For labels and annotations with each key once: after AddLabel the key reads the value, after
-- RemoveLabel of the key then it is missing, and every other key reads what it read before; the same
-- holds of AddAnnotation and RemoveAnnotation.
pub remove_label-add_label :
    (m : ObjectMeta) (key value other : String)
    → KeysOnce (entries_of m.labels)
    → KeysOnce (entries_of m.annotations)
    → (entry_of other (add_label m key value).labels
        ≡ (if key == other then some value else entry_of other m.labels))
      × (entry_of other (remove_label (add_label m key value) key).labels
          ≡ (if key == other then none else entry_of other m.labels))
      × (entry_of other (add_annotation m key value).annotations
          ≡ (if key == other then some value else entry_of other m.annotations))
      × (entry_of other (remove_annotation (add_annotation m key value) key).annotations
          ≡ (if key == other then none else entry_of other m.annotations))
unfolding add_label remove_label add_annotation remove_annotation
remove_label-add_label m key value other labels annotations = (
  entry_of-with_entry other key value m.labels labels,
  entry_of-without_with other key value m.labels labels,
  entry_of-with_entry other key value m.annotations annotations,
  entry_of-without_with other key value m.annotations annotations,
)

-- CopyAnnotationsPredicate, from annotations with each key once: a key that is there with a value that
-- passes the test reads this value in the target, every other key reads what it read in the target
-- before, and the result tells whether some entry passed.
pub entry_of-copy_annotations_predicate :
    (source target : ObjectMeta) (p : String → String → Bool) (key : String)
    → KeysOnce (entries_of source.annotations)
    → (entry_of key (copy_annotations_predicate source target p).1.annotations
        ≡ (elim (entry_of key source.annotations) [
          | none ↦ entry_of key target.annotations
          | some value ↦ if p key value then some value else entry_of key target.annotations
        ]))
      × ((copy_annotations_predicate source target p).0
          ≡ any (λ x. p x.0 x.1) (entries_of source.annotations))
unfolding copy_annotations_predicate lookup
entry_of-copy_annotations_predicate source target p key once =
    elim (Option-cases source.annotations) [
      | inl e ↦ (ground (arith, e), ground (arith, e))
      | inr (entries, e) ↦
          let once' : KeysOnce entries = subst (λ o. KeysOnce (entries_of o)) e once in
          (
            ground (
              arith,
              e,
              lookup-copy_entries p key entries (entries_of target.annotations) false once',
            ),
            ground (arith, e, copied-copy_entries p entries (entries_of target.annotations) false),
          )
    ]

-- Where the annotations have the key without the spaces around it, but not the key as it is given,
-- HasAnnotation finds it and GetAnnotation reads the empty text.
pub get_annotation-untrimmed :
    (m : ObjectMeta) (key value : String) (entries : StringMap)
    → m.annotations ≡ some entries
    → lookup (trim_space key) entries ≡ some value
    → lookup key entries ≡ none
    → (has_annotation m key ≡ true) × (get_annotation m key ≡ "")
unfolding has_annotation get_annotation
get_annotation-untrimmed m key value entries there trimmed given =
    (rw (there, trimmed) refl, ground (arith, there, trimmed, given))
