-- ===== src/DnsService/Addresses.antt =====
-- The endpoints of a host as the list of the addresses that serve it: what AddEndPoints and
-- RemoveEndpoints make of the list, when traffic objects of several clusters come and go.
pub mod Extended
pub mod Runs
pub mod RoundTrip
pub mod Stored
use multi_cluster_traffic_co.Prelude.{
  ℕ, ◌<◌, String, Bool, true, false, ◌&&◌, List, [], ◌∷◌, ◌++◌, ◌==◌, ◌≡◌, refl, arith, eq_iff,
  eq_refl, any, keep, map, length, All, ap, sym, ◌∙◌, some, Bool-cases, inl, inr, subst,
}
use multi_cluster_traffic_co.Slice.{contains_string}
use multi_cluster_traffic_co.Slice.Properties.{contains_string-append}
use multi_cluster_traffic_co.Ingress.Hosts.{Distinct}
use multi_cluster_traffic_co.Text.{itoa}
use multi_cluster_traffic_co.Api.Types.{Endpoint, DnsRecord}
use multi_cluster_traffic_co.Api.Endpoint.{set_provider_specific, get_provider_specific}
use multi_cluster_traffic_co.DnsService.Endpoints.{
  address_endpoint, total_ips, provider_specific_weight,
}
use multi_cluster_traffic_co.DnsService.Weight.{weight_of}
use multi_cluster_traffic_co.DnsService.Adding.{weighted, serves, HasWeight}

-- The addresses of the endpoints, in order.
abbrev pub addresses : List Endpoint → List String
addresses es = map (λ e. e.set_identifier) es

-- The endpoint is one that AddEndPoints made for the host, with some weight.
abbrev pub IsManaged : String → Endpoint → Type 0
IsManaged host e = (n : ℕ) × (0 < n) × (e ≡ weighted n (address_endpoint host e.set_identifier))

-- The record has endpoints of its own host only, one for each address.
pub record IsAddressed (r : DnsRecord) : Type 0 where
  pub managed : All (IsManaged r.metadata.name) r.spec.endpoints
  pub once : Distinct (addresses r.spec.endpoints)

pub weighted-fields :
    (n : ℕ) (host a : String)
    → ((weighted n (address_endpoint host a)).dns_name ≡ host)
      × ((weighted n (address_endpoint host a)).set_identifier ≡ a)
      × ((weighted n (address_endpoint host a)).targets ≡ a ∷ [])
unfolding set_provider_specific
weighted-fields n host a = (refl, refl, refl)

pub IsManaged-weighted :
    (n : ℕ) (host a : String) → 0 < n → IsManaged host (weighted n (address_endpoint host a))
unfolding set_provider_specific
IsManaged-weighted n host a pos = (n, pos, refl)

pub IsManaged-HasWeight : (host : String) (e : Endpoint) → IsManaged host e → HasWeight e
IsManaged-HasWeight host e (n, pos, same) = subst HasWeight (sym same) (itoa (weight_of n), weight)
  where
    weight :
        get_provider_specific
          (weighted n (address_endpoint host e.set_identifier))
          provider_specific_weight
        ≡ some (itoa (weight_of n))
    weight = unfold set_provider_specific get_provider_specific in refl

module _ (host : String) where
  pub total_ips-managed : (es : List Endpoint) → All (IsManaged host) es → total_ips es ≡ length es
  unfolding total_ips
  total_ips-managed [] _ = refl
  total_ips-managed (e ∷ es) ((n, pos, same), h) =
      let one : e.targets ≡ e.set_identifier ∷ [] =
        ap (λ x. x.targets) same ∙ (weighted-fields n host e.set_identifier).2 in
      rw (one, total_ips-managed es h) (omega arith)

  pub any-serves :
      (addr : String) (es : List Endpoint)
      → All (IsManaged host) es
      → any (serves host addr) es ≡ contains_string (addresses es) addr
  unfolding contains_string
  any-serves addr [] _ = refl
  any-serves addr (e ∷ es) ((n, pos, same), h) =
      let own : e.dns_name ≡ host =
        ap (λ x. x.dns_name) same ∙ (weighted-fields n host e.set_identifier).0 in
      ground (arith, own, eq_refl host, any-serves addr es h)

pub contains_string-keep :
    (p : String → Bool) (xs : List String) (a : String)
    → contains_string (keep p xs) a ≡ (contains_string xs a && p a)
unfolding contains_string
contains_string-keep p [] a = refl
contains_string-keep p (x ∷ xs) a = elim (Bool-cases (x == a)) [
  | inl own ↦
      let same : x ≡ a = (eq_iff x a).0 own in
      rw same (ground (arith, eq_refl a, contains_string-keep p xs a))
  | inr other ↦ ground (arith, contains_string-keep p xs a)
]

pub Distinct-keep : (p : String → Bool) (xs : List String) → Distinct xs → Distinct (keep p xs)
Distinct-keep p [] h = tt
Distinct-keep p (x ∷ xs) (fresh, h) = elim (Bool-cases (p x)) [
  | inl e ↦ rw e (ground (arith, contains_string-keep p xs x), Distinct-keep p xs h)
  | inr e ↦ rw e (Distinct-keep p xs h)
]

pub Distinct-append :
    (xs ys : List String)
    → Distinct xs
    → Distinct ys
    → ((a : String) → contains_string ys a ≡ true → contains_string xs a ≡ false)
    → Distinct (xs ++ ys)
unfolding contains_string
Distinct-append [] ys hx hy apart = hy
Distinct-append (x ∷ xs) ys (fresh, hx) hy apart = (
  ground (arith, contains_string-append xs ys x, apart x, eq_refl x),
  Distinct-append xs ys hx hy (λ a there. ground (arith, apart a there)),
)

pub addresses-append : (xs ys : List Endpoint) → addresses (xs ++ ys) ≡ addresses xs ++ addresses ys
addresses-append [] ys = refl
addresses-append (e ∷ xs) ys = rw (addresses-append xs ys)
