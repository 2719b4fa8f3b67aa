-- ===== src/DnsService/Addresses/Extended.antt =====
-- What AddEndPoints makes of the endpoints of a host.
use multi_cluster_traffic_co.Prelude.{
  ℕ, ◌+◌, ◌<◌, String, true, not, ◌&&◌, ◌||◌, List, [], ◌∷◌, ◌++◌, ◌≡◌, refl, arith, any, keep, map,
  length, All, All-append, All-map, ok, ap, sym, ◌∙◌, subst, fun_ext,
}
use multi_cluster_traffic_co.Slice.{contains_string}
use multi_cluster_traffic_co.Slice.Properties.{contains_string-append}
use multi_cluster_traffic_co.Ingress.Hosts.{Distinct}
use multi_cluster_traffic_co.Api.Types.{Endpoint, DnsRecord}
use multi_cluster_traffic_co.DnsService.Endpoints.{
  with_addresses, new_addresses, missing_addresses, address_endpoint, total_ips, set_weights,
}
use multi_cluster_traffic_co.DnsService.Adding.{
  weighted, joined, serves, set_weights_pos, weighted-All, map_append,
}
use multi_cluster_traffic_co.DnsService.Addresses.{
  addresses, IsManaged, IsAddressed, weighted-fields, IsManaged-weighted, IsManaged-HasWeight,
  total_ips-managed, any-serves, contains_string-keep, Distinct-keep, Distinct-append,
  addresses-append,
}

-- The endpoints that AddEndPoints makes for new addresses.
abbrev pub made : ℕ → String → List String → List Endpoint
made n host new = map (weighted n) (map (address_endpoint host) new)

addresses-made : (n : ℕ) (host : String) (new : List String) → addresses (made n host new) ≡ new
addresses-made n host [] = refl
addresses-made n host (a ∷ new) = rw ((weighted-fields n host a).1, addresses-made n host new)

made-IsManaged :
    (n : ℕ) (host : String) (new : List String)
    → (0 < length new → 0 < n)
    → All (IsManaged host) (made n host new)
made-IsManaged n host [] pos = tt
made-IsManaged n host (a ∷ new) pos = (
  IsManaged-weighted n host a (pos (omega arith)),
  made-IsManaged n host new (λ _. pos (omega arith)),
)

keep_all : (xs : List String) → keep (λ a. true) xs ≡ xs
keep_all [] = refl
keep_all (x ∷ xs) = rw (keep_all xs)

module _ (host : String) (es : List Endpoint) (managed : All (IsManaged host) es)
    (ips : List String) where
  pub new_addresses-keep : new_addresses host es ips ≡ keep (λ a. not (any (serves host a) es)) ips
  unfolding new_addresses missing_addresses
  new_addresses-keep =
      elim es as (λ es. new_addresses host es ips ≡ keep (λ a. not (any (serves host a) es)) ips) [
        | [] ↦ sym (keep_all ips)
        | _ ∷ _ ↦ refl
      ]

  contains_string-new_addresses :
      (a : String)
      → contains_string (new_addresses host es ips) a
        ≡ (contains_string ips a && not (contains_string (addresses es) a))
  contains_string-new_addresses a =
      ap (λ xs. contains_string xs a) new_addresses-keep
      ∙ contains_string-keep (λ x. not (any (serves host x) es)) ips a
      ∙ ap (λ b. contains_string ips a && not b) (any-serves host a es managed)

  Distinct-new_addresses : Distinct ips → Distinct (new_addresses host es ips)
  Distinct-new_addresses d =
      subst Distinct (sym new_addresses-keep)
        (Distinct-keep (λ x. not (any (serves host x) es)) ips d)

total_ips-addresses :
    (host : String) (new : List String) (xs : List Endpoint)
    → All (IsManaged host) xs
    → total_ips (xs ++ map (address_endpoint host) new) ≡ length xs + length new
unfolding total_ips
total_ips-addresses host [] [] _ = refl
total_ips-addresses host (a ∷ new) [] _ = omega (arith, total_ips-addresses host new [] tt)
total_ips-addresses host new (e ∷ xs) (m, h) =
    omega (arith, total_ips-managed host (e ∷ []) (m, tt), total_ips-addresses host new xs h)

managed-weighted :
    (n : ℕ) (host : String) (es : List Endpoint)
    → All (IsManaged host) es
    → map (weighted n) es ≡ es
managed-weighted n host es managed =
    weighted-All n es (All-map (IsManaged-HasWeight host) es managed)

positive_weights :
    (n : ℕ) (host : String) (es : List Endpoint) (new : List String)
    → All (IsManaged host) es
    → 0 < n
    → set_weights n (es ++ map (address_endpoint host) new) ≡ ok (es ++ made n host new)
positive_weights n host es new managed pos =
    set_weights_pos n (es ++ map (address_endpoint host) new) pos
    ∙ ap ok (
        map_append (weighted n) es (map (address_endpoint host) new)
        ∙ ap (λ xs. xs ++ made n host new) (managed-weighted n host es managed))

set_weights-extended :
    (host : String) (es : List Endpoint) (new : List String)
    → All (IsManaged host) es
    → set_weights
        (total_ips (es ++ map (address_endpoint host) new))
        (es ++ map (address_endpoint host) new)
      ≡ ok (es ++ made (total_ips (es ++ map (address_endpoint host) new)) host new)
unfolding set_weights
set_weights-extended host [] [] managed = refl
set_weights-extended host [] (a ∷ new) managed =
    positive_weights _ host [] (a ∷ new) tt
      (omega (arith, total_ips-addresses host (a ∷ new) [] tt))
set_weights-extended host (e ∷ es) new managed =
    positive_weights _ host (e ∷ es) new managed
      (omega (arith, total_ips-addresses host new (e ∷ es) managed))

-- The record with the endpoints of the addresses that were not there, after those that were.
abbrev pub extended : List String → DnsRecord → DnsRecord
extended ips r = record r {
  spec = record {
    endpoints =
        r.spec.endpoints
        ++ made (total_ips (joined ips r)) r.metadata.name
            (new_addresses r.metadata.name r.spec.endpoints ips);
  };
}

module _ (ips : List String) (r : DnsRecord) (addressed : IsAddressed r) where
  abbrev new : List String
  new = new_addresses r.metadata.name r.spec.endpoints ips

  -- Where the record has endpoints of its own host only, one for each address, AddEndPoints does not
  -- panic: it keeps them and adds one for each address that is not there.
  pub with_addresses-extended : with_addresses ips r ≡ ok (extended ips r)
  unfolding with_addresses
  with_addresses-extended =
      rw
        (
          with_addresses,
          set_weights-extended r.metadata.name r.spec.endpoints new addressed.managed,
        )
        refl

  addresses-extended : addresses (extended ips r).spec.endpoints ≡ addresses r.spec.endpoints ++ new
  addresses-extended =
      addresses-append r.spec.endpoints (made (total_ips (joined ips r)) r.metadata.name new)
      ∙ ap (λ xs. addresses r.spec.endpoints ++ xs)
          (addresses-made (total_ips (joined ips r)) r.metadata.name new)

  pub addresses-extended-keep :
      addresses (extended ips r).spec.endpoints
      ≡ addresses r.spec.endpoints
        ++ keep (λ a. not (contains_string (addresses r.spec.endpoints) a)) ips
  addresses-extended-keep =
      addresses-extended
      ∙ ap (λ xs. addresses r.spec.endpoints ++ xs)
          (new_addresses-keep r.metadata.name r.spec.endpoints addressed.managed ips
            ∙ ap (λ p. keep (λ a. not (p a)) ips)
                (fun_ext (λ a. any-serves r.metadata.name a r.spec.endpoints addressed.managed)))

  pub extended-IsAddressed : Distinct ips → IsAddressed (extended ips r)
  extended-IsAddressed distinct = record {
    managed = All-append (IsManaged r.metadata.name) r.spec.endpoints _ addressed.managed (
        made-IsManaged (total_ips (joined ips r)) r.metadata.name new (λ pos. omega (
          arith,
          pos,
          total_ips-addresses r.metadata.name new r.spec.endpoints addressed.managed,
        )));
    once = subst Distinct (sym (addresses-extended)) (
        Distinct-append (addresses r.spec.endpoints) new addressed.once
          (Distinct-new_addresses r.metadata.name r.spec.endpoints addressed.managed ips distinct)
          (λ a there. ground (
            arith,
            there,
            contains_string-new_addresses r.metadata.name r.spec.endpoints addressed.managed ips a,
          )));
  }

  pub contains_string-extended :
      (a : String)
      → contains_string (addresses (extended ips r).spec.endpoints) a
        ≡ (contains_string (addresses r.spec.endpoints) a || contains_string ips a)
  contains_string-extended a =
      ap (λ xs. contains_string xs a) addresses-extended
      ∙ ground (
        arith,
        contains_string-append (addresses r.spec.endpoints) new a,
        contains_string-new_addresses r.metadata.name r.spec.endpoints addressed.managed ips a,
      )
