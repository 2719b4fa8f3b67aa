-- ===== src/DnsService/Removing.antt =====
-- RemoveEndpoints: which endpoints stay.
use multi_cluster_traffic_co.Prelude.{
  ℕ, ◌+◌, String, Bool, true, not, ◌&&◌, ◌||◌, List, [], ◌∷◌, ◌++◌, ◌==◌, ◌≡◌, ◌≢◌, refl, arith,
  eq_iff, any, keep, length, any-append, length-append, append_assoc, append-nil, ◌∙◌,
}
use multi_cluster_traffic_co.Api.Types.{Endpoint}
use multi_cluster_traffic_co.DnsService.Endpoints.{append_copies, remaining}

-- Some address is not that of the endpoint.
abbrev pub differs : List String → Endpoint → Bool
differs ips e = any (λ addr. not (e.set_identifier == addr)) ips

any-append_copies :
    (p : Endpoint → Bool) (e : Endpoint) (ips : List String) (new : List Endpoint)
    → any p (append_copies e ips new) ≡ (any p new || (p e && differs ips e))
unfolding append_copies
any-append_copies p e [] new = ground arith
any-append_copies p e (addr ∷ ips) new = ground (
  arith,
  any-append_copies p e ips new,
  any-append_copies p e ips (new ++ e ∷ []),
  any-append p new (e ∷ []),
)

any-remaining_from :
    (p : Endpoint → Bool) (ips : List String) (es new : List Endpoint)
    → any p (remaining ips es new) ≡ (any p new || any (λ e. p e && differs ips e) es)
unfolding remaining
any-remaining_from p ips [] new = ground arith
any-remaining_from p ips (e ∷ es) new =
    ground
      (arith, any-remaining_from p ips es (append_copies e ips new), any-append_copies p e ips new)

-- Of one record's endpoints, those stay that differ from at least one of the addresses to remove.
pub any-remaining :
    (p : Endpoint → Bool) (ips : List String) (es : List Endpoint)
    → any p (remaining ips es []) ≡ any (λ e. p e && differs ips e) es
any-remaining p ips es = any-remaining_from p ips es []

remaining_one_from :
    (ip : String) (es new : List Endpoint)
    → remaining (ip ∷ []) es new ≡ new ++ keep (λ e. not (e.set_identifier == ip)) es
unfolding remaining append_copies
remaining_one_from ip [] new = rw append-nil
remaining_one_from ip (e ∷ es) new = ground (
  arith,
  remaining_one_from ip es new,
  remaining_one_from ip es (new ++ e ∷ []),
  append_assoc new (e ∷ []) (keep (λ e. not (e.set_identifier == ip)) es),
)

-- For a traffic object with one address, RemoveEndpoints drops the endpoints of that address, and
-- keeps the others in order, once each.
pub remaining_one :
    (ip : String) (es : List Endpoint)
    → remaining (ip ∷ []) es [] ≡ keep (λ e. not (e.set_identifier == ip)) es
remaining_one ip es = remaining_one_from ip es []

-- The addresses that the endpoint differs from.
abbrev pub differing : List String → Endpoint → ℕ
differing ips e = length (keep (λ addr. not (e.set_identifier == addr)) ips)

abbrev pub sum_differing : List String → List Endpoint → ℕ
sum_differing ips [] = 0
sum_differing ips (e ∷ es) = differing ips e + sum_differing ips es

length-append_copies :
    (e : Endpoint) (ips : List String) (new : List Endpoint)
    → length (append_copies e ips new) ≡ length new + differing ips e
unfolding append_copies
length-append_copies e [] new = omega arith
length-append_copies e (addr ∷ ips) new = ground (
  arith,
  length-append_copies e ips new,
  length-append_copies e ips (new ++ e ∷ []),
  length-append new (e ∷ []),
)

-- The number of endpoints that RemoveEndpoints keeps for a record: those kept of the records
-- before it, and each endpoint of its own once for every address that the endpoint differs from.
pub length-remaining :
    (ips : List String) (es new : List Endpoint)
    → length (remaining ips es new) ≡ length new + sum_differing ips es
unfolding remaining
length-remaining ips [] new = omega arith
length-remaining ips (e ∷ es) new =
    omega (arith, length-remaining ips es (append_copies e ips new), length-append_copies e ips new)

differs_two :
    (a b : String) (ips : List String) (e : Endpoint) → a ≢ b → differs (a ∷ b ∷ ips) e ≡ true
differs_two a b ips e n = ground (arith, eq_iff e.set_identifier a, eq_iff e.set_identifier b)

any_congr :
    (p q : Endpoint → Bool)
    → ((e : Endpoint) → p e ≡ q e)
    → (es : List Endpoint) → any p es ≡ any q es
any_congr p q h [] = refl
any_congr p q h (e ∷ es) = rw (h e, any_congr p q h es)

-- With two different addresses to remove, every endpoint of the record stays.
pub remaining_two :
    (a b : String) (ips : List String) (es : List Endpoint) (p : Endpoint → Bool)
    → a ≢ b
    → any p (remaining (a ∷ b ∷ ips) es []) ≡ any p es
remaining_two a b ips es p n =
    any-remaining p (a ∷ b ∷ ips) es
    ∙ any_congr _ p (λ e. ground (arith, differs_two a b ips e n)) es
