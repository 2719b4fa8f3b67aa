-- ===== src/DnsService/Adding.antt =====
-- AddEndPoints: the endpoints of the record that it writes.
use multi_cluster_traffic_co.Prelude.{
  ℕ, suc, ◌+◌, ◌<◌, String, Bool, false, ◌&&◌, List, [], ◌∷◌, ◌++◌, ◌==◌, ◌≡◌, refl, arith, eq_iff,
  eq_refl, any, keep, map, length, All, if◌then◌else◌, ok, panic, zero, ap, ◌∙◌, ◌≡⟨◌⟩◌, ◌∎, some,
  Bool-cases, inl, inr,
}
use multi_cluster_traffic_co.Text.{itoa}
use multi_cluster_traffic_co.Api.Types.{Endpoint, DnsRecord}
use multi_cluster_traffic_co.Api.Endpoint.{set_provider_specific, get_provider_specific}
use multi_cluster_traffic_co.Api.Endpoint.Properties.{set_provider_specific_present}
use multi_cluster_traffic_co.DnsService.Endpoints.{
  aws_endpoint_weight, set_weights, missing_addresses, new_addresses, address_endpoint, total_ips,
  with_addresses, provider_specific_weight,
}
use multi_cluster_traffic_co.DnsService.Weight.{weight_of}

-- The endpoint with the weight for `n` addresses.
abbrev pub weighted : ℕ → Endpoint → Endpoint
weighted n e = set_provider_specific e provider_specific_weight (itoa (weight_of n))

set_weights-map :
    (n : ℕ) (es : List Endpoint) → set_weights (suc n) es ≡ ok (map (weighted (suc n)) es)
unfolding set_weights aws_endpoint_weight
set_weights-map n [] = refl
set_weights-map n (e ∷ es) = rw (set_weights-map n es)

-- The endpoints before the weights are set.
abbrev pub joined : List String → DnsRecord → List Endpoint
joined ips r =
    r.spec.endpoints
    ++ map (address_endpoint r.metadata.name) (new_addresses r.metadata.name r.spec.endpoints ips)

pub set_weights_pos :
    (n : ℕ) (es : List Endpoint) → 0 < n → set_weights n es ≡ ok (map (weighted n) es)
set_weights_pos zero es h = absurd (omega arith)
set_weights_pos (suc n) es h = set_weights-map n es

-- If an address is new or an endpoint has a target, AddEndPoints does not panic: the record keeps
-- its endpoints in order, then come those of the new addresses, and the weight is set on each.
pub with_addresses-joined :
    (ips : List String) (r : DnsRecord)
    → 0 < total_ips (joined ips r)
    → with_addresses ips r
      ≡ ok (record r {
        spec = record { endpoints = map (weighted (total_ips (joined ips r))) (joined ips r) };
      })
unfolding with_addresses
with_addresses-joined ips r h =
    ground (arith, set_weights_pos (total_ips (joined ips r)) (joined ips r) h)

set_weights_panic : (e : Endpoint) (es : List Endpoint) → set_weights 0 (e ∷ es) ≡ panic
unfolding set_weights aws_endpoint_weight
set_weights_panic e es = refl

-- A record that has an endpoint, but none with a target, the new ones included, makes
-- AddEndPoints panic, by a division by zero.
pub with_addresses_panic :
    (e : Endpoint) (es : List Endpoint) (ips : List String) (r : DnsRecord)
    → joined ips r ≡ e ∷ es
    → total_ips (joined ips r) ≡ 0
    → with_addresses ips r ≡ panic
unfolding with_addresses
with_addresses_panic e es ips r shape none_left = ground (arith, set_weights_panic e es)

-- There is an endpoint of the host and the address.
abbrev pub serves : String → String → Endpoint → Bool
serves host addr e = e.dns_name == host && e.set_identifier == addr

-- How many there are.
abbrev pub count_serving : String → String → List Endpoint → ℕ
count_serving host addr es = length (keep (serves host addr) es)

abbrev pub count_text : String → List String → ℕ
count_text t xs = length (keep (λ x. x == t) xs)

serves-weighted :
    (n : ℕ) (host addr : String) (e : Endpoint)
    → serves host addr (weighted n e) ≡ serves host addr e
unfolding set_provider_specific
serves-weighted n host addr e = ground arith

count_serving-weighted :
    (n : ℕ) (host addr : String) (es : List Endpoint)
    → count_serving host addr (map (weighted n) es) ≡ count_serving host addr es
count_serving-weighted n host addr [] = refl
count_serving-weighted n host addr (e ∷ es) =
    ground (arith, serves-weighted n host addr e, count_serving-weighted n host addr es)

count_serving-append :
    (host addr : String) (xs ys : List Endpoint)
    → count_serving host addr (xs ++ ys) ≡ count_serving host addr xs + count_serving host addr ys
count_serving-append host addr [] ys = omega arith
count_serving-append host addr (e ∷ xs) ys = ground (arith, count_serving-append host addr xs ys)

count_serving-addresses :
    (host addr : String) (ips : List String)
    → count_serving host addr (map (address_endpoint host) ips) ≡ count_text addr ips
count_serving-addresses host addr [] = refl
count_serving-addresses host addr (ip ∷ ips) =
    ground (arith, eq_refl host, count_serving-addresses host addr ips)

count_text-missing :
    (host addr : String) (es : List Endpoint) (ips : List String)
    → count_text addr (missing_addresses host es ips)
      ≡ (if any (serves host addr) es then 0 else count_text addr ips)
unfolding missing_addresses
count_text-missing host addr es [] = ground arith
count_text-missing host addr es (ip ∷ ips) = elim (Bool-cases (ip == addr)) [
  | inl e ↦
      let same : ip ≡ addr = (eq_iff ip addr).0 e in
      rw same (ground (arith, eq_refl addr, count_text-missing host addr es ips))
  | inr e ↦ ground (arith, count_text-missing host addr es ips)
]

count_text-new :
    (host addr : String) (es : List Endpoint) (ips : List String)
    → count_text addr (new_addresses host es ips)
      ≡ (if any (serves host addr) es then 0 else count_text addr ips)
unfolding new_addresses
count_text-new host addr [] ips = refl
count_text-new host addr (e ∷ es) ips = count_text-missing host addr (e ∷ es) ips

endpoints_of :
    (ips : List String) (r r' : DnsRecord)
    → 0 < total_ips (joined ips r)
    → with_addresses ips r ≡ ok r'
    → r'.spec.endpoints ≡ map (weighted (total_ips (joined ips r))) (joined ips r)
endpoints_of ips r r' h done = ground (arith, with_addresses-joined ips r h)

count_none : (p : Endpoint → Bool) (es : List Endpoint) → any p es ≡ false → length (keep p es) ≡ 0
count_none p [] h = refl
count_none p (e ∷ es) h = ground (arith, count_none p es)

count_or :
    (host addr : String) (es : List Endpoint) (k : ℕ)
    → count_serving host addr es + (if any (serves host addr) es then 0 else k)
      ≡ (if any (serves host addr) es then count_serving host addr es else k)
count_or host addr es k = elim (Bool-cases (any (serves host addr) es)) [
  | inl e ↦ rw e (omega arith)
  | inr e ↦ rw e (omega (arith, count_none (serves host addr) es e))
]

-- Where some endpoint, new ones included, has a target: in the record that AddEndPoints writes
-- there are as many endpoints of the host for an address as before if there was one, and else one
-- for each time that the address was resolved.
pub count_serving-with_addresses :
    (ips : List String) (r r' : DnsRecord) (addr : String)
    → 0 < total_ips (joined ips r)
    → with_addresses ips r ≡ ok r'
    → count_serving r.metadata.name addr r'.spec.endpoints ≡ (
        if any (serves r.metadata.name addr) r.spec.endpoints
        then count_serving r.metadata.name addr r.spec.endpoints
        else count_text addr ips)
count_serving-with_addresses ips r r' addr h done =
    let host : String = r.metadata.name in
    let n : ℕ = total_ips (joined ips r) in
    let new : List String = new_addresses host r.spec.endpoints ips in
    count_serving host addr r'.spec.endpoints
    ≡⟨ ap (count_serving host addr) (endpoints_of ips r r' h done) ⟩
      count_serving host addr (map (weighted n) (joined ips r))
    ≡⟨ count_serving-weighted n host addr (joined ips r) ⟩ count_serving host addr (joined ips r)
    ≡⟨ count_serving-append host addr r.spec.endpoints (map (address_endpoint host) new) ⟩
      count_serving host addr r.spec.endpoints
      + count_serving host addr (map (address_endpoint host) new)
    ≡⟨ ap (λ k. count_serving host addr r.spec.endpoints + k)
        (count_serving-addresses host addr new ∙ count_text-new host addr r.spec.endpoints ips) ⟩
      count_serving host addr r.spec.endpoints
      + (if any (serves host addr) r.spec.endpoints then 0 else count_text addr ips)
    ≡⟨ count_or host addr r.spec.endpoints (count_text addr ips) ⟩
      (if any (serves host addr) r.spec.endpoints
        then count_serving host addr r.spec.endpoints
        else count_text addr ips) ∎

-- An endpoint has a weight.
abbrev pub HasWeight : Endpoint → Type 0
HasWeight e = (w : String) × (get_provider_specific e provider_specific_weight ≡ some w)

pub weighted-All : (n : ℕ) (es : List Endpoint) → All HasWeight es → map (weighted n) es ≡ es
weighted-All n [] h = refl
weighted-All n (e ∷ es) ((w, p), h) = rw (
  set_provider_specific_present e provider_specific_weight (itoa (weight_of n)) w p,
  weighted-All n es h,
)

pub map_append {ℓ κ} :
    {A : Type ℓ} {B : Type κ} (f : A → B) (xs ys : List A) → map f (xs ++ ys) ≡ map f xs ++ map f ys
map_append f [] ys = refl
map_append f (x ∷ xs) ys = rw (map_append f xs ys)

-- AddEndPoints does not spread the weight anew: where some endpoint has a target, and every
-- endpoint of the record has a weight, these endpoints stay as they are, and only the new ones
-- get the weight for the new total.
pub with_addresses-weighted :
    (ips : List String) (r : DnsRecord)
    → 0 < total_ips (joined ips r)
    → All HasWeight r.spec.endpoints
    → with_addresses ips r
      ≡ ok (record r {
        spec = record {
          endpoints =
              r.spec.endpoints
              ++ map (weighted (total_ips (joined ips r))) (
                  map
                    (address_endpoint r.metadata.name)
                    (new_addresses r.metadata.name r.spec.endpoints ips));
        };
      })
with_addresses-weighted ips r h w =
    let n : ℕ = total_ips (joined ips r) in
    let new : List Endpoint =
      map (address_endpoint r.metadata.name) (new_addresses r.metadata.name r.spec.endpoints ips) in
    with_addresses-joined ips r h
    ∙ ap (λ es. ok (record r { spec = record { endpoints = es } }))
        (map_append (weighted n) r.spec.endpoints new
          ∙ ap (λ es. es ++ map (weighted n) new) (weighted-All n r.spec.endpoints w))
