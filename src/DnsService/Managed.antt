-- ===== src/DnsService/Managed.antt =====
-- EnsureManagedHost: the hosts and the records that it returns, and what a second call returns.
use multi_cluster_traffic_co.Prelude.{
  suc, String, true, false, List, [], ◌∷◌, ◌==◌, ◌≡◌, ◌≢◌, inl, inr, refl, ap, subst, arith, eq_iff,
  map, length, Option, none, some, any, Result, ok, err, panic, is_already_exists, Option-cases,
  Bool-cases,
}
use multi_cluster_traffic_co.Api.Types.{DnsRecord, DnsZone, object_key, NamespacedName}
use multi_cluster_traffic_co.Slice.{contains_string}
use multi_cluster_traffic_co.Ingress.{Ingress}
use multi_cluster_traffic_co.Client.{ClientLaws}
use multi_cluster_traffic_co.DnsService.Records.{Service, get_dns_records}
use multi_cluster_traffic_co.DnsService.Lookup.{stored, host_key, add_stored}
use multi_cluster_traffic_co.DnsService.Actions.{
  Managed, registered, generate_host, assign, ensure_managed_host, register_host, get_if_exists,
}

length-map {ℓ κ} :
    {A : Type ℓ} {B : Type κ} (f : A → B) (xs : List A) → length (map f xs) ≡ length xs
length-map f [] = refl
length-map f (x ∷ xs) = ap suc (length-map f xs)

-- A result without a Go error beside it, of as many hosts as records, or a panic.
abbrev pub Consistent : Result Managed → Type 0
Consistent (ok m) = length m.hosts ≡ length m.records
Consistent (err e) = ⊥
Consistent panic = Unit

module _ {S Ip : Type 0} (service : Service S Ip) where
  registered-Consistent :
      (host : String) (r : Result DnsRecord) → Consistent (registered service host r)
  unfolding registered
  registered-Consistent host (ok r) = refl
  registered-Consistent host (err e) = refl
  registered-Consistent host panic = tt

  generate_host-Consistent :
      {Http : Type 0} (t : Ingress Http) (s : S) → Consistent (generate_host service t s).0
  unfolding generate_host
  generate_host-Consistent t s = elim (Bool-cases (service.getenv "AWS_DNS_PUBLIC_ZONE_ID" == "")) [
    | inl e ↦ rw e refl
    | inr e ↦ rw e (registered-Consistent _ _)
  ]

  assign-Consistent :
      {Http : Type 0} (t : Ingress Http) (found : Result (List DnsRecord)) (s : S)
      → Consistent (assign service t found s).0
  unfolding assign
  assign-Consistent t (ok []) s = generate_host-Consistent t s
  assign-Consistent t (ok (r ∷ records)) s = ap suc (length-map _ records)
  assign-Consistent t (err e) s = refl
  assign-Consistent t panic s = tt

  -- EnsureManagedHost returns as many records as hosts, with an error or without one, so that the
  -- record at a host's index is there.
  pub ensure_managed_host-Consistent :
      {Http : Type 0} (t : Ingress Http) (s : S) → Consistent (ensure_managed_host service t s).0
  unfolding ensure_managed_host
  ensure_managed_host-Consistent t s =
      let found : Result (List DnsRecord) × S = get_dns_records service t s in
      assign-Consistent t found.0 found.1

  module _ (view : S → NamespacedName → Option DnsRecord) where
    -- Some record is named by the host.
    abbrev pub Names : String → List DnsRecord → Type 0
    Names host records = any (λ r. r.metadata.name == host) records ≡ true

    Names-add_stored :
        (host : String) (o : Option DnsRecord) (rest : List DnsRecord)
        → Names host rest
        → Names host (add_stored service view o rest)
    Names-add_stored host none rest h = h
    Names-add_stored host (some r) rest h = ground arith

    pub stored-Names :
        (host : String) (r : DnsRecord) (s : S)
        → host ≢ ""
        → view s (host_key service view host) ≡ some r
        → r.metadata.name ≡ host
        → (hosts : List String) → contains_string hosts host ≡ true
        → Names host (stored service view s hosts)
    unfolding contains_string
    stored-Names host r s n there named [] h = cc
    stored-Names host r s n there named (x ∷ hosts) h = elim (Bool-cases (x == host)) [
      | inl e ↦
          let same : x ≡ host = (eq_iff x host).0 e in
          let set : (host == "") ≡ false = ground (arith, eq_iff host "") in
          rw (same, set, there) (ground (arith, eq_iff r.metadata.name host))
      | inr e ↦
          let later : contains_string hosts host ≡ true = ground arith in
          let rest : Names host (stored service view s hosts) =
            stored-Names host r s n there named hosts later in
          elim (Bool-cases (x == "")) [
            | inl blank ↦ rw blank rest
            | inr set ↦ rw set (Names-add_stored host (view s (host_key service view x)) _ rest)
          ]
    ]

    module _ (laws : ClientLaws (λ r. r.metadata) service.control_client view) where
      -- A nil error comes with one host, whose record is stored under the host's name.
      abbrev HasStored : Managed → S → Type 0
      HasStored m s' =
          m.error ≡ none
          → (h : String) × (r : DnsRecord) × (m.hosts ≡ h ∷ [])
            × (m.records ≡ r ∷ [])
            × (view s' (host_key service view h) ≡ some r)

      abbrev Stored : Result Managed → S → Type 0
      Stored (ok m) s' = HasStored m s'
      Stored (err e) s' = Unit
      Stored panic s' = Unit

      abbrev StoredAt : NamespacedName → Result DnsRecord → S → Type 0
      StoredAt k (ok r) s' = view s' k ≡ some r
      StoredAt k (err e) s' = Unit
      StoredAt k panic s' = Unit

      get-StoredAt :
          (k : NamespacedName) (s : S)
          → StoredAt k (service.control_client.get k s).0 (service.control_client.get k s).1
      get-StoredAt k s = elim (Option-cases (view s k)) [
        | inl gone ↦ let (x, got, _) = laws.get_missing k s gone in rw got tt
        | inr (r, there) ↦ rw (laws.get_found k s r there) there
      ]

      get_if_exists-StoredAt :
          (o : DnsRecord) (created : Result DnsRecord) (s s' : S)
          → service.control_client.create o s ≡ (created, s')
          → StoredAt
              (object_key o.metadata)
              (get_if_exists service o created s').0
              (get_if_exists service o created s').1
      unfolding get_if_exists
      get_if_exists-StoredAt o (ok r) s s' e = laws.create_stored o r s s' e
      get_if_exists-StoredAt o (err x) s s' e = elim (Bool-cases (is_already_exists x)) [
        | inl there ↦ rw there (get-StoredAt (object_key o.metadata) s')
        | inr other ↦ rw other tt
      ]
      get_if_exists-StoredAt o panic s s' e = tt

      register_host-StoredAt :
          (h id : String) (zone : DnsZone) (s : S)
          → StoredAt
              (host_key service view h)
              (register_host service h id zone s).0
              (register_host service h id zone s).1
      unfolding register_host
      register_host-StoredAt h id zone s = get_if_exists-StoredAt _ _ s _ refl

      registered-Stored :
          (h : String) (r : Result DnsRecord) (s' : S)
          → StoredAt (host_key service view h) r s'
          → Stored (registered service h r) s'
      unfolding registered
      registered-Stored h (ok r) s' there = λ _. (h, r, refl, refl, there)
      registered-Stored h (err e) s' there = λ none_is_some. cc
      registered-Stored h panic s' there = tt

      generate_host-Stored :
          {Http : Type 0} (t : Ingress Http) (s : S)
          → Stored (generate_host service t s).0 (generate_host service t s).1
      unfolding generate_host
      generate_host-Stored t s = elim (Bool-cases (service.getenv "AWS_DNS_PUBLIC_ZONE_ID" == "")) [
        | inl e ↦ rw e (λ h. cc)
        | inr e ↦ rw e (registered-Stored _ _ _ (register_host-StoredAt _ _ _ s))
      ]

      assign-Stored :
          {Http : Type 0} (t : Ingress Http) (found : Result (List DnsRecord)) (s : S)
          → Stored (assign service t found s).0 (assign service t found s).1
      unfolding assign
      assign-Stored t (ok []) s = generate_host-Stored t s
      assign-Stored t (ok (r ∷ records)) s = λ h. cc
      assign-Stored t (err e) s = λ h. cc
      assign-Stored t panic s = tt

      settled :
          {Http : Type 0} (t : Ingress Http) (s : S)
          → Stored (ensure_managed_host service t s).0 (ensure_managed_host service t s).1
      unfolding ensure_managed_host
      settled t s =
          let found : Result (List DnsRecord) × S = get_dns_records service t s in
          assign-Stored t found.0 found.1

      -- On a server that keeps the client's laws: when EnsureManagedHost returns a nil error, it
      -- returns one host and one record, and the server has that record under the host's name.
      pub ensure_managed_host-Stored :
          {Http : Type 0} (t : Ingress Http) (s s' : S) (m : Managed)
          → ensure_managed_host service t s ≡ (ok m, s')
          → m.error ≡ none
          → (h : String) × (r : DnsRecord) × (m.hosts ≡ h ∷ [])
            × (m.records ≡ r ∷ [])
            × (view s' (host_key service view h) ≡ some r)
      ensure_managed_host-Stored t s s' m done fine =
          subst (λ x. Stored x.0 x.1) done (settled t s) fine
