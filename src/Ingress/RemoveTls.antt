-- ===== src/Ingress/RemoveTls.antt =====
-- RemoveTLS of pkg/traffic/ingress.go, with the arrays behind its slices. `append(s[:i], s[i+1:]...)`
-- writes into the array of `s`, and a `range` goes on to read that array to the length that the
-- slice had at its start. No section's hosts share the array of the hosts to remove.
use multi_cluster_traffic_co.Prelude.{
  ℕ, zero, suc, ◌-◌, String, Bool, true, false, Option, none, some, List, [], ◌∷◌, ◌==◌, ◌≡◌, refl,
  arith, length, leb, nat_eq, if◌then◌else◌, Result, ok, err, panic, any, Bool-cases, inl, inr,
}
use multi_cluster_traffic_co.Ingress.{Ingress, TlsConfig}

module _ {ℓ} {A : Type ℓ} where
  -- The array after `append(s[:i], s[i+1:]...)`, for a slice of `n` elements from its start: each
  -- element behind `i` moves one to the front, and the last one stays where it was, too.
  unfoldable pub shift_left : ℕ → ℕ → List A → List A
  shift_left (suc i) (suc n) (x ∷ xs) = x ∷ shift_left i n xs
  shift_left zero (suc (suc n)) (x ∷ y ∷ xs) = y ∷ shift_left zero (suc n) (y ∷ xs)
  shift_left i n xs = xs

  unfoldable pub element : List A → ℕ → Option A
  element [] i = none
  element (x ∷ xs) zero = some x
  element (x ∷ xs) (suc i) = element xs i

  abbrev pub take : ℕ → List A → List A
  take zero xs = []
  take (suc n) [] = []
  take (suc n) (x ∷ xs) = x ∷ take n xs

-- The arrays behind `hosts` and `a.Spec.TLS`, and the length of the latter.
pub record Arrays : Type 0 where
  pub hosts : List String
  pub sections : List TlsConfig
  pub count : ℕ

-- The loop over the hosts of a section, from index `j`, with `n` hosts to remove; it gives the array
-- of these hosts and the length of `tlsHosts`. The slice `hosts[j+1:]` panics behind the end.
unfoldable pub cut_hosts : String → ℕ → ℕ → List String → List String → ℕ → Result (List String × ℕ)
unfolding shift_left
cut_hosts remove_host n j [] hosts left = ok (hosts, left)
cut_hosts remove_host n j (host ∷ tls_hosts) hosts left =
    let kept = cut_hosts remove_host n (suc j) tls_hosts hosts left in
    let cut = cut_hosts remove_host n (suc j) tls_hosts (shift_left j n hosts) (n - 1) in
    if host == remove_host then (if leb n j then panic else cut) else kept

-- What a round of the loop over the sections does after the loop over the hosts.
unfoldable pub drop_section : ℕ → Arrays → List String × ℕ → Result Arrays
unfolding shift_left
drop_section i arrays (hosts, left) =
    if nat_eq left 0
    then (if leb arrays.count i
        then panic
        else ok (record {
          hosts = hosts;
          sections = shift_left i arrays.count arrays.sections;
          count = arrays.count - 1;
        }))
    else ok (record arrays { hosts = hosts })

-- A round of the loop over the sections.
unfoldable pub cut_section : String → ℕ → ℕ → Arrays → Result Arrays
unfolding cut_hosts drop_section element
cut_section remove_host n i arrays = elim (element arrays.sections i) [
  | none ↦ panic
  | some tls ↦ elim (cut_hosts remove_host n 0 tls.hosts arrays.hosts (length tls.hosts)) [
    | ok cut ↦ drop_section i arrays cut
    | err e ↦ err e
    | panic ↦ panic
  ]
]

-- The loop over the sections, of `rounds` rounds from index `i`.
unfoldable pub cut_sections : ℕ → String → ℕ → ℕ → Arrays → Result Arrays
unfolding cut_section
cut_sections zero remove_host n i arrays = ok arrays
cut_sections (suc rounds) remove_host n i arrays = elim (cut_section remove_host n i arrays) [
  | ok arrays' ↦ cut_sections rounds remove_host n (suc i) arrays'
  | err e ↦ err e
  | panic ↦ panic
]

-- The loop over the hosts to remove, of `rounds` rounds from index `k`.
unfoldable pub remove_hosts : ℕ → ℕ → ℕ → Arrays → Result Arrays
unfolding cut_sections element
remove_hosts zero n k arrays = ok arrays
remove_hosts (suc rounds) n k arrays = elim (element arrays.hosts k) [
  | none ↦ panic
  | some remove_host ↦ elim (cut_sections arrays.count remove_host n 0 arrays) [
    | ok arrays' ↦ remove_hosts rounds n (suc k) arrays'
    | err e ↦ err e
    | panic ↦ panic
  ]
]

-- RemoveTLS
unfoldable pub remove_tls : {Http : Type 0} → Ingress Http → List String → Result (Ingress Http)
unfolding remove_hosts
remove_tls a hosts =
    elim (remove_hosts (length hosts) (length hosts) 0
      (record { hosts = hosts; sections = a.tls; count = length a.tls })) [
        | ok arrays ↦ ok (record a { tls = take arrays.count arrays.sections })
        | err e ↦ err e
        | panic ↦ panic
      ]

-- Whether the host stands among the hosts.
abbrev pub names_host : String → List String → Bool
names_host h hosts = any (λ x. x == h) hosts

cut_hosts_none :
    (h : String) (n j : ℕ) (tls_hosts hosts : List String) (left : ℕ)
    → names_host h tls_hosts ≡ false
    → cut_hosts h n j tls_hosts hosts left ≡ ok (hosts, left)
unfolding cut_hosts
cut_hosts_none h n j [] hosts left absent = refl
cut_hosts_none h n j (x ∷ tls_hosts) hosts left absent =
    ground (arith, cut_hosts_none h n (suc j) tls_hosts hosts left)

cut_hosts_late :
    (h : String) (j : ℕ) (tls_hosts hosts : List String) (left : ℕ)
    → names_host h tls_hosts ≡ true
    → cut_hosts h 1 (suc j) tls_hosts hosts left ≡ panic
unfolding cut_hosts
cut_hosts_late h j [] hosts left present = cc
cut_hosts_late h j (x ∷ tls_hosts) hosts left present =
    ground (arith, cut_hosts_late h (suc j) tls_hosts hosts left)

remove_tls_named :
    {Http : Type 0} (a : Ingress Http) (h first : String) (others : List String) (secret : String)
    → a.tls ≡ record { hosts = first ∷ others; secret_name = secret } ∷ []
    → remove_tls a (h ∷ []) ≡ (
        if names_host h others
        then panic
        else ok (record a { tls = if first == h then [] else a.tls }))
unfolding remove_tls drop_section cut_section cut_sections remove_hosts element shift_left
remove_tls_named a h first others secret one = elim (Bool-cases (names_host h others)) [
  | inl later ↦ rw one (
      ground (
        arith,
        later,
        cut_hosts_late h 0 others (h ∷ []) (length (first ∷ others)),
        cut_hosts_late h 0 others (h ∷ []) 0,
      ))
  | inr absent ↦ ground (
    arith,
    absent,
    cut_hosts_none h 1 1 others (h ∷ []) (length (first ∷ others)),
    cut_hosts_none h 1 1 others (h ∷ []) 0,
  )
]

-- The hosts behind the first.
abbrev pub behind_first : List String → List String
behind_first [] = []
behind_first (first ∷ others) = others

-- The host is the first, or there is none.
abbrev pub is_first : String → List String → Bool
is_first h [] = true
is_first h (first ∷ others) = first == h

-- RemoveTLS of one host, on an ingress with one section: the call panics if the host stands behind the
-- first of the section's hosts; otherwise the section goes as a whole if the host is the first of its
-- hosts, whatever other hosts it has, and also if it has no hosts at all, and nothing changes if it
-- has hosts and not this one.
pub remove_tls_one :
    {Http : Type 0} (a : Ingress Http) (h : String) (hosts : List String) (secret : String)
    → a.tls ≡ record { hosts = hosts; secret_name = secret } ∷ []
    → remove_tls a (h ∷ []) ≡ (
        if names_host h (behind_first hosts)
        then panic
        else ok (record a { tls = if is_first h hosts then [] else a.tls }))
unfolding remove_tls drop_section cut_section cut_sections cut_hosts remove_hosts element shift_left
remove_tls_one a h [] secret one = rw one refl
remove_tls_one a h (first ∷ others) secret one = remove_tls_named a h first others secret one
