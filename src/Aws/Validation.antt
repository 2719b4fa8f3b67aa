-- ===== src/Aws/Validation.antt =====
-- changeForEndpoint: which endpoints it takes.
use multi_cluster_traffic_co.Prelude.{
  String, Bool, true, false, not, ◌&&◌, ◌||◌, List, [], ◌∷◌, ◌==◌, ◌≡◌, refl, arith, ok, is_ok,
}
use multi_cluster_traffic_co.Api.Types.{Endpoint, a_record_type, cname_record_type}
use multi_cluster_traffic_co.Aws.{change_for_endpoint, record_set_of}

abbrev pub has_targets : List String → Bool
has_targets [] = false
has_targets (_ ∷ _) = true

-- What an endpoint must have.
abbrev pub is_publishable : Endpoint → Bool
is_publishable e =
    (e.record_type == a_record_type || e.record_type == cname_record_type)
    && not (e.dns_name == "")
    && has_targets e.targets

module _ (e : Endpoint) (action : String) where
  accepted :
      (ts : List String)
      → e.targets ≡ ts
      → is_publishable e ≡ true
      → change_for_endpoint e action
        ≡ ok (record { action = action; resource_record_set = record_set_of e })
  unfolding change_for_endpoint
  accepted [] s h = ground arith
  accepted (t ∷ ts) s h = ground arith

  refused :
      (ts : List String)
      → e.targets ≡ ts
      → is_publishable e ≡ false
      → is_ok (change_for_endpoint e action) ≡ false
  unfolding change_for_endpoint
  refused [] s h = ground arith
  refused (t ∷ ts) s h = ground arith

  pub change_for_endpoint-ok :
      is_publishable e ≡ true
      → change_for_endpoint e action
        ≡ ok (record { action = action; resource_record_set = record_set_of e })
  change_for_endpoint-ok h = accepted e.targets refl h

  pub change_for_endpoint-err :
      is_publishable e ≡ false → is_ok (change_for_endpoint e action) ≡ false
  change_for_endpoint-err h = refused e.targets refl h
