-- ===== src/DnsService/Addresses/Runs.antt =====
-- Traffic objects of several clusters that come and go, against a list of addresses.
use multi_cluster_traffic_co.Prelude.{
  String, Bool, not, ◌&&◌, List, [], ◌∷◌, ◌==◌, ◌≡◌, refl, arith, eq_iff, keep, All, Result, Option,
  none, some, ◌++◌, ok, ap, sym, ◌∙◌, err, panic, Bool-cases, inl, inr, eq_refl,
}
use multi_cluster_traffic_co.Slice.{contains_string}
use multi_cluster_traffic_co.Ingress.Hosts.{Distinct}
use multi_cluster_traffic_co.Api.Types.{Endpoint, DnsRecord}
use multi_cluster_traffic_co.DnsService.Endpoints.{with_addresses, remaining}
use multi_cluster_traffic_co.DnsService.Removing.{remaining_one}
use multi_cluster_traffic_co.DnsService.Addresses.{addresses, IsManaged, IsAddressed}
use multi_cluster_traffic_co.DnsService.Addresses.Extended.{
  extended, with_addresses-extended, extended-IsAddressed, addresses-extended-keep,
}

-- A traffic object of the host whose addresses are published, or one that is deleted.
pub data Visit : Type 0 where
  arrive : List String → Visit
  leave : List String → Visit

-- The record that RemoveEndpoints writes back or deletes.
abbrev pub with_remaining : List String → DnsRecord → DnsRecord
with_remaining ips r = record r { spec = record { endpoints = remaining ips r.spec.endpoints [] } }

-- What becomes of a record that RemoveEndpoints gives these endpoints: without any, it is deleted.
abbrev pub kept_with : DnsRecord → List Endpoint → Option DnsRecord
kept_with r [] = none
kept_with r (e ∷ es) = some (record r { spec = record { endpoints = e ∷ es } })

abbrev pub then_run :
    Result DnsRecord → (DnsRecord → Result (Option DnsRecord)) → Result (Option DnsRecord)
then_run (ok r) next = next r
then_run (err e) next = err e
then_run panic next = panic

-- The record after the visits, by the code of AddEndPoints and RemoveEndpoints, which do nothing where
-- there is no record; Stored has the calls that they make of the server.
abbrev pub run : List Visit → Option DnsRecord → Result (Option DnsRecord)
run [] stored = ok stored
run (_ ∷ visits) none = run visits none
run (arrive ips ∷ visits) (some r) = then_run (with_addresses ips r) (λ r'. run visits (some r'))
run (leave ips ∷ visits) (some r) = run visits (kept_with r (remaining ips r.spec.endpoints []))

abbrev kept_addresses : List String → Option (List String)
kept_addresses [] = none
kept_addresses (a ∷ others) = some (a ∷ others)

-- The same visits, on a list of addresses, which is gone when it gets empty.
abbrev pub replay : List Visit → Option (List String) → Option (List String)
replay [] published = published
replay (_ ∷ visits) none = replay visits none
replay (arrive ips ∷ visits) (some published) =
    replay visits (some (published ++ keep (λ a. not (contains_string published a)) ips))
replay (leave ips ∷ visits) (some published) =
    replay visits (kept_addresses (keep (λ a. not (contains_string ips a)) published))

-- The addresses of a record that may be gone.
abbrev pub listed : Option DnsRecord → Option (List String)
listed none = none
listed (some r) = some (addresses r.spec.endpoints)

-- The addresses that serve the host of the record.
abbrev pub served : DnsRecord → String → Bool
served r a = contains_string (addresses r.spec.endpoints) a

-- Each traffic object that comes has each of its addresses once, and each that goes has one address.
abbrev pub AreOrderly : List Visit → Type 0
AreOrderly [] = Unit
AreOrderly (arrive ips ∷ visits) = Distinct ips × AreOrderly visits
AreOrderly (leave ips ∷ visits) = ((ip : String) × (ips ≡ ip ∷ [])) × AreOrderly visits

-- The record, if it is still there, has the metadata of the first, endpoints of its own host only, and
-- one for each address.
abbrev pub StaysAddressed : DnsRecord → Option DnsRecord → Type 0
StaysAddressed r none = Unit
StaysAddressed r (some r') = IsAddressed r' × (r'.metadata ≡ r.metadata)

contains_string-addresses-keep :
    (ip : String) (es : List Endpoint) (a : String)
    → contains_string (addresses (keep (λ e. not (e.set_identifier == ip)) es)) a
      ≡ (contains_string (addresses es) a && not (a == ip))
unfolding contains_string
contains_string-addresses-keep ip [] a = refl
contains_string-addresses-keep ip (e ∷ es) a = elim (Bool-cases (e.set_identifier == a)) [
  | inl own ↦
      let same : e.set_identifier ≡ a = (eq_iff e.set_identifier a).0 own in
      ground (arith, own, same, eq_refl a, contains_string-addresses-keep ip es a)
  | inr other ↦ ground (arith, contains_string-addresses-keep ip es a)
]

Distinct-addresses-keep :
    (ip : String) (es : List Endpoint)
    → Distinct (addresses es)
    → Distinct (addresses (keep (λ e. not (e.set_identifier == ip)) es))
Distinct-addresses-keep ip [] h = tt
Distinct-addresses-keep ip (e ∷ es) (fresh, h) = elim (Bool-cases (e.set_identifier == ip)) [
  | inl own ↦ rw own (Distinct-addresses-keep ip es h)
  | inr other ↦ rw other (
    ground (arith, contains_string-addresses-keep ip es e.set_identifier),
    Distinct-addresses-keep ip es h,
  )
]

All-keep :
    (P : Endpoint → Type 0) (p : Endpoint → Bool) (es : List Endpoint)
    → All P es
    → All P (keep p es)
All-keep P p [] h = tt
All-keep P p (e ∷ es) (here, h) = elim (Bool-cases (p e)) [
  | inl kept ↦ rw kept (here, All-keep P p es h)
  | inr dropped ↦ rw dropped (All-keep P p es h)
]

pub served-with_remaining :
    (ip : String) (r : DnsRecord) (a : String)
    → served (with_remaining (ip ∷ []) r) a ≡ (served r a && not (a == ip))
served-with_remaining ip r a =
    ap (λ es. contains_string (addresses es) a) (remaining_one ip r.spec.endpoints)
    ∙ contains_string-addresses-keep ip r.spec.endpoints a

eq_comm : (a b : String) → (a == b) ≡ (b == a)
eq_comm a b = elim (Bool-cases (a == b)) [
  | inl same ↦ let equal : a ≡ b = (eq_iff a b).0 same in rw equal refl
  | inr differ ↦ elim (Bool-cases (b == a)) [
    | inl same ↦
        let equal : b ≡ a = (eq_iff b a).0 same in
        absurd (ground (arith, differ, (eq_iff a b).1 (sym equal)))
    | inr other ↦ differ ∙ sym other
  ]
]

addresses-keep :
    (ip : String) (es : List Endpoint)
    → addresses (keep (λ e. not (e.set_identifier == ip)) es)
      ≡ keep (λ a. not (contains_string (ip ∷ []) a)) (addresses es)
unfolding contains_string
addresses-keep ip [] = refl
addresses-keep ip (e ∷ es) = elim (Bool-cases (e.set_identifier == ip)) [
  | inl own ↦ rw (own, sym (eq_comm e.set_identifier ip) ∙ own) (addresses-keep ip es)
  | inr other ↦ rw (other, sym (eq_comm e.set_identifier ip) ∙ other, addresses-keep ip es) refl
]

run_nothing : (visits : List Visit) → (run visits none ≡ ok none) × (replay visits none ≡ none)
run_nothing [] = (refl, refl)
run_nothing (arrive ips ∷ visits) = run_nothing visits
run_nothing (leave ips ∷ visits) = run_nothing visits

-- The outcome of the visits, from a record that may be gone.
abbrev Refines : DnsRecord → List Visit → Option DnsRecord → List String → Type 0
Refines r visits stored published =
    (stored' : Option DnsRecord) × (run visits stored ≡ ok stored')
    × StaysAddressed r stored'
    × (listed stored' ≡ replay visits (kept_addresses published))

run-kept_with :
    (r : DnsRecord) (visits : List Visit) (es : List Endpoint)
    → All (IsManaged r.metadata.name) es
    → Distinct (addresses es)
    → ((r' : DnsRecord)
        → IsAddressed r'
        → (stored' : Option DnsRecord) × (run visits (some r') ≡ ok stored')
          × StaysAddressed r' stored'
          × (listed stored' ≡ replay visits (some (addresses r'.spec.endpoints))))
    → Refines r visits (kept_with r es) (addresses es)
run-kept_with r visits [] managed once later =
    let (done, reads) = run_nothing visits in (none, done, tt, sym reads)
run-kept_with r visits (e ∷ es) managed once later =
    later (record r { spec = record { endpoints = e ∷ es } })
      (record { managed = managed; once = once })

-- A record with endpoints of its own host only, one for each address, and any visits of traffic objects
-- that have each address once when they come, and one address when they go: none of the visits panics or
-- fails. Afterwards the record is there if and only if the list of its addresses is, when the visits are
-- replayed on that list: an arrival appends its addresses that are not in the list, in order, a
-- departure takes its address out, and a list that gets empty is gone for good. The record then has the
-- addresses of that list, in order, and still endpoints of its own host only, one for each address.
pub run_refines :
    (visits : List Visit) (r : DnsRecord)
    → IsAddressed r
    → AreOrderly visits
    → (stored' : Option DnsRecord) × (run visits (some r) ≡ ok stored')
      × StaysAddressed r stored'
      × (listed stored' ≡ replay visits (some (addresses r.spec.endpoints)))
run_refines [] r addressed orderly = (some r, refl, (addressed, refl), refl)
run_refines (arrive ips ∷ visits) r addressed (distinct, later) =
    let (stored', done, stays, reads) =
      run_refines visits (extended ips r) (extended-IsAddressed ips r addressed distinct) later in
    (
      stored',
      ap (λ x. then_run x (λ r'. run visits (some r'))) (with_addresses-extended ips r addressed)
          ∙ done,
      stays,
      reads ∙ ap (λ xs. replay visits (some xs)) (addresses-extended-keep ips r addressed),
    )
run_refines (leave ips ∷ visits) r addressed ((ip, one), later) =
    let es = keep (λ e. not (e.set_identifier == ip)) r.spec.endpoints in
    let (stored', done, stays, reads) =
      run-kept_with r visits es
        (All-keep (IsManaged r.metadata.name) (λ e. not (e.set_identifier == ip)) r.spec.endpoints
          addressed.managed)
        (Distinct-addresses-keep ip r.spec.endpoints addressed.once)
        (λ r' here. run_refines visits r' here later) in
    (
      stored',
      ap (λ xs. run visits (kept_with r (remaining xs r.spec.endpoints []))) one
          ∙ ap (λ xs. run visits (kept_with r xs)) (remaining_one ip r.spec.endpoints)
          ∙ done,
      stays,
      reads
          ∙ ap (λ xs. replay visits (kept_addresses xs)) (addresses-keep ip r.spec.endpoints)
          ∙ ap
              (λ (xs : List String). replay visits (
                kept_addresses
                  (keep (λ a. not (contains_string xs a)) (addresses r.spec.endpoints))))
              (sym one),
    )
