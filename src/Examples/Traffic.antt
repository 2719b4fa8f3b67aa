-- ===== src/Examples/Traffic.antt =====
-- The ingress accessor and the slices, on small inputs.
use multi_cluster_traffic_co.Prelude.{
  String, Bool, true, some, List, [], ◌∷◌, ◌++◌, ◌==◌, ◌≡◌, ◌⊎◌, refl, ok, eq_refl, All,
}
use multi_cluster_traffic_co.Prelude.StringMap.{lookup}
use multi_cluster_traffic_co.Text.{split}
use multi_cluster_traffic_co.Api.Types.{object_meta}
use multi_cluster_traffic_co.Ingress.{
  Ingress, IngressRule, covered_rules, additional_rules, add_managed_host, annotation_managed_hosts,
  tls_section, has_tls, get_tls, add_tls,
}
use multi_cluster_traffic_co.Ingress.ManagedHost.{Serves, AreNew, rules-add_managed_host}
use multi_cluster_traffic_co.Ingress.Annotation.{managed_hosts, managed_hosts-add_managed_host}
use multi_cluster_traffic_co.Ingress.RemoveTls.{remove_tls, remove_tls_one}
use multi_cluster_traffic_co.Ingress.Tls.{section_of, section_of-add_tls}
use multi_cluster_traffic_co.Examples.Server.{ingress}

abbrev same : String → String → Bool
same a b = a == b

abbrev rule : String → String → IngressRule String
rule host http = record { host = host; http = http }

-- Two hosts with the same backend, and one with its own.
abbrev shared : Ingress String
shared = record ingress {
  rules = rule "a.test" "x" ∷ rule "b.test" "x" ∷ rule "c.test" "y" ∷ [];
  tls = record { hosts = "a.test" ∷ "d.test" ∷ []; secret_name = "old" } ∷ [];
}

-- An ingress with the annotation.
abbrev annotated : String → Ingress String
annotated value = record ingress {
  metadata = record (object_meta "shop" "web") {
    annotations = some ((annotation_managed_hosts, value) ∷ []);
  };
}

-- One rule for each backend.
additional_rules_test :
    (add_managed_host same shared "new.test").rules
    ≡ shared.rules ++ rule "new.test" "x" ∷ rule "new.test" "y" ∷ []
unfolding add_managed_host additional_rules covered_rules
additional_rules_test = refl

rules-add_managed_host_example :
    (extra : List (IngressRule String)) × ((add_managed_host same shared "new.test").rules
      ≡ shared.rules ++ extra)
    × AreNew same "new.test" (covered_rules "new.test" shared.rules) extra
    × All
        (λ r.
          (r.host ≡ "new.test")
          ⊎ Serves same "new.test" (add_managed_host same shared "new.test").rules r.http)
        shared.rules
rules-add_managed_host_example = rules-add_managed_host same eq_refl shared "new.test"

managed_hosts-add_managed_host_example :
    (managed_hosts same
        (annotated "one.test,two.test")
        "new.test"
        (add_managed_host same (annotated "one.test,two.test") "new.test")
      ≡ "one.test" ∷ "two.test" ∷ "new.test" ∷ [])
    × ((add_managed_host same
          (add_managed_host same (annotated "one.test,two.test") "new.test")
          "new.test").metadata
        ≡ (add_managed_host same (annotated "one.test,two.test") "new.test").metadata)
unfolding split lookup
managed_hosts-add_managed_host_example =
    managed_hosts-add_managed_host same (annotated "one.test,two.test") "new.test"
      (refl, (refl, (refl, (refl, (refl, (refl, (refl, (refl, tt)))))))) (λ e. cc)

section_of-add_tls_example :
    (section_of "a.test" (get_tls (add_tls shared "a.test" "first"))
      ≡ some (tls_section "a.test" "first"))
    × (has_tls (add_tls shared "a.test" "first") ≡ true)
    × (add_tls (add_tls shared "a.test" "first") "a.test" "second"
        ≡ add_tls shared "a.test" "second")
section_of-add_tls_example = section_of-add_tls shared "a.test" "first" "second"

-- The section of `shared` has the host first, and another host behind it.
remove_tls_one_example : remove_tls shared ("a.test" ∷ []) ≡ ok (record shared { tls = [] })
remove_tls_one_example = remove_tls_one shared "a.test" ("a.test" ∷ "d.test" ∷ []) "old" refl
