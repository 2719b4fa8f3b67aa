-- ===== src/Ingress/Tls.antt =====
-- `AddTLS`: which secret serves a host.
use multi_cluster_traffic_co.Prelude.{
  String, true, false, ◌&&◌, List, [], ◌∷◌, ◌≡◌, ◌≢◌, refl, arith, eq_iff, Option, some, ap, All,
  eq_refl,
}
use multi_cluster_traffic_co.Slice.{contains_string, find}
use multi_cluster_traffic_co.Ingress.{
  Ingress, TlsConfig, put_tls, add_tls, has_tls, get_tls, tls_section,
}

-- The first section that holds the host, as the cluster reconciler looks it up.
abbrev pub section_of : String → List TlsConfig → Option TlsConfig
section_of host sections = find sections (λ t. contains_string t.hosts host)

section_of-put_tls :
    (host secret_name : String) (sections : List TlsConfig)
    → section_of host (put_tls host secret_name sections) ≡ some (tls_section host secret_name)
unfolding find put_tls contains_string
section_of-put_tls host secret_name [] = rw eq_refl
section_of-put_tls host secret_name (t ∷ sections) =
    ground (arith, eq_iff host host, section_of-put_tls host secret_name sections)

-- No section holds both hosts.
abbrev pub AreApart : String → String → List TlsConfig → Type 0
AreApart host other =
    All (λ t. (contains_string t.hosts host && contains_string t.hosts other) ≡ false)

section_of-put_tls_ne :
    (host other secret_name : String) (sections : List TlsConfig)
    → host ≢ other
    → AreApart host other sections
    → section_of other (put_tls host secret_name sections) ≡ section_of other sections
unfolding find put_tls contains_string
section_of-put_tls_ne host other secret_name [] n d = ground (arith, eq_iff host other)
section_of-put_tls_ne host other secret_name (t ∷ sections) n d =
    ground (arith, eq_iff host other, section_of-put_tls_ne host other secret_name sections)

put_tls-put_tls :
    (host first second : String) (sections : List TlsConfig)
    → put_tls host second (put_tls host first sections) ≡ put_tls host second sections
unfolding put_tls contains_string
put_tls-put_tls host first second [] = ground (arith, eq_iff host host)
put_tls-put_tls host first second (t ∷ sections) =
    ground (arith, eq_iff host host, put_tls-put_tls host first second sections)

has_tls-add_tls :
    {Http : Type 0} (host secret_name : String) (a : Ingress Http)
    → has_tls (add_tls a host secret_name) ≡ true
unfolding has_tls add_tls put_tls
has_tls-add_tls host secret_name a = has_sections host secret_name a.tls
  where
    has_sections :
        (host secret_name : String) (sections : List TlsConfig)
        → (elim (put_tls host secret_name sections) [ [] ↦ false | _ ∷ _ ↦ true ]) ≡ true
    has_sections host secret_name [] = refl
    has_sections host secret_name (t ∷ sections) = ground arith

module _ {Http : Type 0} (a : Ingress Http) (host : String) where
  -- After AddTLS the first section that holds the host names the given secret and no other host,
  -- the ingress has TLS, and a later AddTLS of the host replaces the section.
  pub section_of-add_tls :
      (first second : String)
      → (section_of host (get_tls (add_tls a host first)) ≡ some (tls_section host first))
        × (has_tls (add_tls a host first) ≡ true)
        × (add_tls (add_tls a host first) host second ≡ add_tls a host second)
  unfolding get_tls add_tls
  section_of-add_tls first second = (
    section_of-put_tls host first a.tls,
    has_tls-add_tls host first a,
    ap (λ l. record a { tls = l }) (put_tls-put_tls host first second a.tls),
  )

  -- AddTLS of one host keeps the section of another, if no section holds both.
  pub section_of-add_tls_ne :
      (other secret_name : String)
      → host ≢ other
      → AreApart host other a.tls
      → section_of other (get_tls (add_tls a host secret_name)) ≡ section_of other (get_tls a)
  unfolding get_tls add_tls
  section_of-add_tls_ne other secret_name n d =
      section_of-put_tls_ne host other secret_name a.tls n d
