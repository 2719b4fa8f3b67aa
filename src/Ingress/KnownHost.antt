-- ===== src/Ingress/KnownHost.antt =====
-- AddManagedHost and AddTLS with a host that the ingress has already.
use multi_cluster_traffic_co.Prelude.{
  String, Bool, true, List, [], ◌∷◌, ◌++◌, ◌≡◌, refl, ◌∙◌, ap, if◌then◌else◌,
}
use multi_cluster_traffic_co.Slice.{contains_string}
use multi_cluster_traffic_co.Ingress.{
  Ingress, IngressRule, collect_hosts, get_hosts, add_managed_host,
}
use multi_cluster_traffic_co.Ingress.ManagedHost.{AreNew, rules-add_managed_host}

module _ {Http : Type 0} where
  collect_hosts-append :
      (xs ys : List (IngressRule Http)) (hosts : List String)
      → collect_hosts (xs ++ ys) hosts ≡ collect_hosts ys (collect_hosts xs hosts)
  unfolding collect_hosts
  collect_hosts-append [] ys hosts = refl
  collect_hosts-append (x ∷ xs) ys hosts =
      collect_hosts-append xs ys
        (if contains_string hosts x.host then hosts else hosts ++ x.host ∷ [])

  module _ (deep_equal : Http → Http → Bool) (h : String) where
    collect_hosts-AreNew :
        (covered : List Http) (rules : List (IngressRule Http)) (hosts : List String)
        → AreNew deep_equal h covered rules
        → contains_string hosts h ≡ true
        → collect_hosts rules hosts ≡ hosts
    unfolding collect_hosts
    collect_hosts-AreNew covered [] hosts new known = refl
    collect_hosts-AreNew covered (r ∷ rules) hosts (own, _, new) known =
        rw (own, known) (collect_hosts-AreNew (covered ++ r.http ∷ []) rules hosts new known)

    module _ (deep_equal_refl : (v : Http) → deep_equal v v ≡ true) (a : Ingress Http) where
      -- The hosts of an ingress stay when AddManagedHost is called with one of them.
      pub get_hosts-add_managed_host :
          contains_string (get_hosts a) h ≡ true
          → get_hosts (add_managed_host deep_equal a h) ≡ get_hosts a
      unfolding get_hosts
      get_hosts-add_managed_host known =
          let (extra, rules, new, _) = rules-add_managed_host deep_equal deep_equal_refl a h in
          ap (λ rs. collect_hosts rs []) rules
          ∙ collect_hosts-append a.rules extra []
          ∙ (collect_hosts-AreNew _ extra (collect_hosts a.rules []) new known)
