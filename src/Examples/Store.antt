-- ===== src/Examples/Store.antt =====
-- A server that keeps a list of objects, the first of a key being the one that counts.
use multi_cluster_traffic_co.Prelude.{
  Bool, true, ◌&&◌, Option, none, some, List, [], ◌∷◌, ◌==◌, ◌≡◌, ◌≢◌, refl, ap, arith, eq_iff,
  eq_refl, keep, not, if◌then◌else◌, Kind, Result, ok, err, Bool-cases, inl, inr, sym, ◌∙◌,
}
use multi_cluster_traffic_co.Api.Types.{NamespacedName, ObjectMeta, object_key}
use multi_cluster_traffic_co.Client.{ObjectClient, ClientLaws}

abbrev pub key_eq : NamespacedName → NamespacedName → Bool
key_eq a b = a.namespace == b.namespace && a.name == b.name

pub key_eq_refl : (k : NamespacedName) → key_eq k k ≡ true
key_eq_refl k = ground (arith, eq_refl k.namespace, eq_refl k.name)

pub key_eq-eq : (a b : NamespacedName) → key_eq a b ≡ true → a ≡ b
key_eq-eq a b h =
    let same_namespace : a.namespace ≡ b.namespace =
      (eq_iff a.namespace b.namespace).0 (ground arith) in
    let same_name : a.name ≡ b.name = (eq_iff a.name b.name).0 (ground arith) in
    rw (same_namespace, same_name) refl

module _ {Obj : Type 0} (meta : Obj → ObjectMeta) where
  abbrev pub held : List Obj → NamespacedName → Option Obj
  held [] k = none
  held (r ∷ s) k = let rest = held s k in if key_eq (object_key (meta r)) k then some r else rest

  abbrev pub answer_get : Option Obj → List Obj → Result Obj × List Obj
  answer_get none s = (err (record { kind = Kind.not_found; message = "not found" }), s)
  answer_get (some r) s = (ok r, s)

  abbrev pub store : ObjectClient (List Obj) Obj
  store = record {
    get = λ k s. answer_get (held s k) s;
    create = λ r s. (ok r, r ∷ s);
    update = λ r s. (ok r, r ∷ s);
    update_status = λ r s. (ok r, r ∷ s);
    delete = λ r s. (ok tt, keep (λ x. not (key_eq (object_key (meta x)) (object_key (meta r)))) s);
  }

  held_own : (r : Obj) (s : List Obj) → held (r ∷ s) (object_key (meta r)) ≡ some r
  held_own r s = rw (key_eq_refl (object_key (meta r))) refl

  held-view_key :
      (s : List Obj) (k : NamespacedName) (o : Obj) → held s k ≡ some o → object_key (meta o) ≡ k
  held-view_key [] k o h = cc
  held-view_key (r ∷ s) k o h = elim (Bool-cases (key_eq (object_key (meta r)) k)) [
    | inl own ↦
        let same : r ≡ o = ground arith in
        sym (ap (λ x. object_key (meta x)) same) ∙ key_eq-eq (object_key (meta r)) k own
    | inr other ↦ held-view_key s k o (rw other at h)
  ]

  held_other :
      (r : Obj) (s : List Obj) (k : NamespacedName)
      → k ≢ object_key (meta r)
      → held (r ∷ s) k ≡ held s k
  held_other r s k n = elim (Bool-cases (key_eq (object_key (meta r)) k)) [
    | inl own ↦ absurd (n (sym (key_eq-eq (object_key (meta r)) k own)))
    | inr other ↦ rw other refl
  ]

  held-delete :
      (r : Obj) (s : List Obj) (k : NamespacedName)
      → k ≢ object_key (meta r)
      → held (keep (λ x. not (key_eq (object_key (meta x)) (object_key (meta r)))) s) k ≡ held s k
  held-delete r [] k n = refl
  held-delete r (x ∷ s) k n =
      elim (Bool-cases (key_eq (object_key (meta x)) (object_key (meta r)))) [
        | inl gone ↦
            let same : object_key (meta x) ≡ object_key (meta r) = key_eq-eq _ _ gone in
            rw gone (held-delete r s k n ∙ sym (held_other x s k (rw same n)))
        | inr stays ↦ rw stays (ground (arith, held-delete r s k n))
      ]

  pub store_laws : ClientLaws meta store held
  store_laws = record {
    get_found = λ k s o there. rw there refl;
    get_missing =
        λ k s gone. (record { kind = Kind.not_found; message = "not found" }, rw gone refl, refl);
    view_key = held-view_key;
    create_stored = λ o o' s s' done. ground (arith, held_own o s);
    update_stored = λ o o' s s' done. ground (arith, held_own o s);
    update_other = λ o s k n. held_other o s k n;
    delete_other = λ o s k n. held-delete o s k n;
  }
