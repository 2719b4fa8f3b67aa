-- ===== src/Aws/Zone/Effects.antt =====
-- What the batches that updateRecord sends leave under each key of a zone.
use multi_cluster_traffic_co.Prelude.{
  String, true, false, not, ◌&&◌, List, [], ◌∷◌, ◌++◌, ◌==◌, ◌≡◌, ◌⊎◌, refl, sym, ap, ◌∙◌, arith,
  eq_iff, any, keep, map, none, some, Bool-cases, inl, inr, if◌then◌else◌,
}
use multi_cluster_traffic_co.Api.Types.{Endpoint, DnsRecord}
use multi_cluster_traffic_co.Api.Endpoint.{set_id}
use multi_cluster_traffic_co.Aws.{
  Change, upsert_action, delete_action, record_set_of, is_expected, endpoints_from_zone_status,
}
use multi_cluster_traffic_co.Aws.Zone.{
  change_to, stale, RecordKey, same_key, record_key, id_of, Named, Zone, apply, apply_all,
  key_of-record_set_of, set_id-id_of, same_key_refl, same_key-eq, has_key,
}

-- Under a naming, the test by SetID of the program is one by key.
is_expected-has_key :
    (naming : String → RecordKey) (expected : List Endpoint) (e : Endpoint)
    → Named naming expected
    → Named naming (e ∷ [])
    → is_expected expected e ≡ has_key (record_key e) expected
unfolding is_expected
is_expected-has_key naming [] e all one = refl
is_expected-has_key naming (x ∷ xs) e (here, all) one =
    let ids : (set_id x == set_id e) ≡ same_key (record_key x) (record_key e) =
      elim (Bool-cases (set_id x == set_id e)) [
        | inl own ↦
            let same : set_id x ≡ set_id e = (eq_iff (set_id x) (set_id e)).0 own in
            let key : record_key x ≡ record_key e =
              here ∙ ap naming (sym (set_id-id_of x) ∙ same ∙ set_id-id_of e) ∙ sym one.0 in
            own ∙ sym (ap (λ k. same_key k (record_key e)) key ∙ same_key_refl (record_key e))
        | inr other ↦ elim (Bool-cases (same_key (record_key x) (record_key e))) [
          | inr apart ↦ other ∙ sym apart
          | inl own ↦
              let key : record_key x ≡ record_key e =
                same_key-eq (record_key x) (record_key e) own in
              let same : set_id x ≡ set_id e =
                set_id-id_of x ∙ ap id_of key ∙ sym (set_id-id_of e) in
              absurd (ground (arith, (eq_iff (set_id x) (set_id e)).1 same))
        ]
      ] in
    rw (ids, is_expected-has_key naming xs e all one) refl

pub apply_all-append :
    (xs ys : List Change) (z : Zone) → apply_all (xs ++ ys) z ≡ apply_all ys (apply_all xs z)
unfolding apply_all
apply_all-append [] ys z = refl
apply_all-append (x ∷ xs) ys z = apply_all-append xs ys (apply x z)

module _ (k : RecordKey) where
  pub apply_at :
      (action : String) (e : Endpoint) (z : Zone)
      → apply (change_to action e) z k ≡ (
          if same_key (record_key e) k
          then (if action == upsert_action then some (record_set_of e) else none)
          else z k)
  unfolding apply
  apply_at action e z =
      ap
        (λ own.
          if same_key own k
          then (if action == upsert_action then some (record_set_of e) else none)
          else z k)
        (key_of-record_set_of e)

  upserts_at :
      (es : List Endpoint) (z w : Zone)
      → (has_key k es ≡ true) ⊎ (z k ≡ w k)
      → apply_all (map (change_to upsert_action) es) z k
        ≡ apply_all (map (change_to upsert_action) es) w k
  unfolding apply_all
  upserts_at [] z w (inl h) = cc
  upserts_at [] z w (inr h) = h
  upserts_at (e ∷ es) z w h = upserts_at es (apply c z) (apply c w) (same h)
    where
      c : Change
      c = change_to upsert_action e

      same :
          (has_key k (e ∷ es) ≡ true) ⊎ (z k ≡ w k)
          → (has_key k es ≡ true) ⊎ (apply c z k ≡ apply c w k)
      same h = elim (Bool-cases (same_key (record_key e) k)) [
        | inl own ↦ inr (ground (arith, apply_at upsert_action e z, apply_at upsert_action e w))
        | inr other ↦ ground (arith, apply_at upsert_action e z, apply_at upsert_action e w)
      ]

  pub upserts_absent :
      (es : List Endpoint) (z : Zone)
      → has_key k es ≡ false
      → apply_all (map (change_to upsert_action) es) z k ≡ z k
  unfolding apply_all
  upserts_absent [] z h = refl
  upserts_absent (e ∷ es) z h =
      ground
        (arith, upserts_absent es (apply (change_to upsert_action e) z), apply_at upsert_action e z)

  pub deletes_absent :
      (es : List Endpoint) (z : Zone)
      → (has_key k es ≡ false) ⊎ (z k ≡ none)
      → apply_all (map (change_to delete_action) es) z k ≡ z k
  unfolding apply_all
  deletes_absent [] z h = refl
  deletes_absent (e ∷ es) z h =
      ground
        (arith, deletes_absent es (apply (change_to delete_action e) z), apply_at delete_action e z)

  pub deletes_gone :
      (es : List Endpoint) (z : Zone)
      → has_key k es ≡ true
      → apply_all (map (change_to delete_action) es) z k ≡ none
  unfolding apply_all
  deletes_gone [] z h = cc
  deletes_gone (e ∷ es) z h = ground (
    arith,
    deletes_gone es (apply (change_to delete_action e) z),
    deletes_absent es (apply (change_to delete_action e) z),
    apply_at delete_action e z,
  )

  has_key-stale :
      (naming : String → RecordKey) (expected es : List Endpoint)
      → Named naming expected
      → Named naming es
      → has_key k (keep (λ e. not (is_expected expected e)) es)
        ≡ (has_key k es && not (has_key k expected))
  has_key-stale naming expected [] all_expected all = refl
  has_key-stale naming expected (e ∷ es) all_expected (here, all) =
      let known : is_expected expected e ≡ has_key (record_key e) expected =
        is_expected-has_key naming expected e all_expected (here, tt) in
      let later = has_key-stale naming expected es all_expected all in
      elim (Bool-cases (same_key (record_key e) k)) [
        | inl own ↦
            let same : has_key (record_key e) expected ≡ has_key k expected =
              ap (λ x. has_key x expected) (same_key-eq (record_key e) k own) in
            elim (Bool-cases (has_key k expected)) [
              | inl there ↦ rw (known ∙ same ∙ there, there) (later ∙ rw there (ground arith))
              | inr absent ↦ rw (known ∙ same ∙ absent, own, absent) refl
            ]
        | inr other ↦ elim (Bool-cases (is_expected expected e)) [
          | inl kept ↦ rw (kept, other) later
          | inr dropped ↦ rw (dropped, other) later
        ]
      ]

-- A key is not stale where its SetID is that of an expected endpoint.
pub has_key-expected :
    (k : RecordKey) (expected es : List Endpoint)
    → any (λ x. set_id x == id_of k) expected ≡ true
    → has_key k (keep (λ e. not (is_expected expected e)) es) ≡ false
unfolding is_expected
has_key-expected k expected [] taken = refl
has_key-expected k expected (e ∷ es) taken = elim (Bool-cases (is_expected expected e)) [
  | inl kept ↦ rw kept (has_key-expected k expected es taken)
  | inr dropped ↦ elim (Bool-cases (same_key (record_key e) k)) [
    | inr other ↦ rw (dropped, other) (has_key-expected k expected es taken)
    | inl own ↦
        let id : set_id e ≡ id_of k =
          set_id-id_of e ∙ ap id_of (same_key-eq (record_key e) k own) in
        let known : is_expected expected e ≡ true =
          ap (λ i. any (λ x. set_id x == i) expected) id ∙ taken in
        let never : true ≡ false = sym known ∙ dropped in cc
  ]
]

-- The upserts and the deletes, applied to a zone that holds nothing but what was published last,
-- leave what the upserts alone put into an empty zone.
pub batch-Zone :
    (naming : String → RecordKey) (r : DnsRecord) (zone_id : String) (z : Zone)
    → Named naming r.spec.endpoints
    → Named naming (endpoints_from_zone_status r.status.zones zone_id)
    → ((k : RecordKey)
        → (has_key k (endpoints_from_zone_status r.status.zones zone_id) ≡ true) ⊎ (z k ≡ none))
    → (k : RecordKey)
    → apply_all
        (map (change_to upsert_action) r.spec.endpoints
          ++ map (change_to delete_action) (stale r zone_id))
        z
        k
      ≡ apply_all (map (change_to upsert_action) r.spec.endpoints) (λ _. none) k
batch-Zone naming r zone_id z spec_named old_named published k =
    ap (λ w. w k) (apply_all-append (map (change_to upsert_action) spec) _ z)
    ∙ elim (Bool-cases (has_key k spec)) [
      | inl own ↦
          deletes_absent k (stale r zone_id) (apply_all (map (change_to upsert_action) spec) z)
            (inl (has_key-stale k naming spec old spec_named old_named ∙ ground arith))
          ∙ upserts_at k spec z (λ _. none) (inl own)
      | inr other ↦ elim (published k) [
        | inl before ↦
            deletes_gone k (stale r zone_id) (apply_all (map (change_to upsert_action) spec) z)
              (has_key-stale k naming spec old spec_named old_named ∙ ground arith)
            ∙ sym (upserts_absent k spec (λ _. none) other)
        | inr free ↦
            let still : apply_all (map (change_to upsert_action) spec) z k ≡ none =
              upserts_absent k spec z other ∙ free in
            deletes_absent k (stale r zone_id) (apply_all (map (change_to upsert_action) spec) z)
              (inr still)
            ∙ still
            ∙ sym (upserts_absent k spec (λ _. none) other)
      ]
    ]
  where
    spec : List Endpoint
    spec = r.spec.endpoints

    old : List Endpoint
    old = endpoints_from_zone_status r.status.zones zone_id
