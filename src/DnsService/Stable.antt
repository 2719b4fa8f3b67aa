-- ===== src/DnsService/Stable.antt =====
-- EnsureManagedHost (pkg/dns/service.go), called again after AddManagedHost (pkg/traffic/ingress.go).
use multi_cluster_traffic_co.Prelude.{
  String, Bool, true, List, [], ◌∷◌, ◌==◌, ◌≡◌, ◌≢◌, ◌⊎◌, inl, inr, refl, sym, ap, subst, subst₂,
  ◌∙◌, arith, eq_iff, any, All, map, Option, none, some, Result, ok,
}
use multi_cluster_traffic_co.Api.Types.{DnsRecord, NamespacedName}
use multi_cluster_traffic_co.Slice.{contains_string}
use multi_cluster_traffic_co.Ingress.{Ingress, IngressRule, get_hosts, add_managed_host}
use multi_cluster_traffic_co.Ingress.Hosts.{get_hosts-Distinct}
use multi_cluster_traffic_co.Ingress.ManagedHost.{Serves, rules-add_managed_host}
use multi_cluster_traffic_co.Client.{ClientLaws}
use multi_cluster_traffic_co.DnsService.Records.{Service}
use multi_cluster_traffic_co.DnsService.Lookup.{stored, host_key, get_dns_records-stored}
use multi_cluster_traffic_co.DnsService.Actions.{
  Managed, assign, ensure_managed_host, already_assigned_err,
}
use multi_cluster_traffic_co.DnsService.Managed.{Names, stored-Names, ensure_managed_host-Stored}

-- Some rule is of the host.
abbrev pub HasRule : {Http : Type 0} → String → List (IngressRule Http) → Type 0
HasRule h rules = any (λ r. r.host == h) rules ≡ true

module _ {Http : Type 0} (deep_equal : Http → Http → Bool) (h : String) where
  Serves-HasRule :
      (rules : List (IngressRule Http)) (v : Http) → Serves deep_equal h rules v → HasRule h rules
  Serves-HasRule [] v s = cc
  Serves-HasRule (r ∷ rules) v s = ground (arith, Serves-HasRule rules v)

  -- After AddManagedHost an ingress that has a rule has one of the host.
  pub HasRule-add_managed_host :
      (deep_equal_refl : (v : Http) → deep_equal v v ≡ true) (a : Ingress Http)
      (rule : IngressRule Http) (rules : List (IngressRule Http))
      → a.rules ≡ rule ∷ rules
      → HasRule h (add_managed_host deep_equal a h).rules
  HasRule-add_managed_host deep_equal_refl a rule rules shape =
      let (extra, whole, new, done) = rules-add_managed_host deep_equal deep_equal_refl a h in
      let first : (rule.host ≡ h)
          ⊎ Serves deep_equal h (add_managed_host deep_equal a h).rules rule.http =
        (subst
          (All (λ r.
            (r.host ≡ h) ⊎ Serves deep_equal h (add_managed_host deep_equal a h).rules r.http))
          shape done).0 in
      elim first [
        | inl own ↦ rw (whole, shape) (ground (arith, eq_iff rule.host h))
        | inr served ↦ Serves-HasRule (add_managed_host deep_equal a h).rules rule.http served
      ]

module _ {S Ip Http : Type 0} (service : Service S Ip)
    (view : S → NamespacedName → Option DnsRecord)
    (laws : ClientLaws (λ r. r.metadata) service.control_client view)
    (deep_equal : Http → Http → Bool) (deep_equal_refl : (v : Http) → deep_equal v v ≡ true) where
  -- What a call of EnsureManagedHost gives where the host is known: AlreadyAssignedErr, the host
  -- among the hosts, and the state as it was.
  abbrev pub FindsHost : String → S → Result Managed × S → Type 0
  FindsHost h s (ok m, s') =
      (m.error ≡ some already_assigned_err) × (contains_string m.hosts h ≡ true) × (s' ≡ s)
  FindsHost h s (_, s') = ⊥

  contains_string-Names :
      (h : String) (records : List DnsRecord)
      → Names service view h records
      → contains_string (map (λ r. r.metadata.name) records) h ≡ true
  unfolding contains_string
  contains_string-Names h [] n = cc
  contains_string-Names h (r ∷ records) n = ground (arith, contains_string-Names h records)

  pub assign_found :
      (t : Ingress Http) (h : String) (s : S) (records : List DnsRecord)
      → Names service view h records
      → FindsHost h s (assign service t (ok records) s)
  unfolding assign
  assign_found t h s [] n = cc
  assign_found t h s (r ∷ records) n = (refl, contains_string-Names h (r ∷ records) n, refl)

  -- The record of a host that was returned with a nil error is stored.
  stored_host :
      (a : Ingress Http) (h : String) (r : DnsRecord) (s s' : S)
      → ensure_managed_host service a s
        ≡ (ok (record { hosts = h ∷ []; records = r ∷ []; error = none }), s')
      → view s' (host_key service view h) ≡ some r
  stored_host a h r s s' first =
      let (h', r', host, record', there) =
        ensure_managed_host-Stored service view laws a s s' _ first refl in
      let same : h ≡ h' = ground arith in
      let same_record : r ≡ r' = ground arith in
      subst₂ (λ x y. view s' (host_key service view x) ≡ some y) (sym same) (sym same_record) there

  -- On a server that keeps the client's laws: where EnsureManagedHost returned a host, not the
  -- empty text, with a nil error for an ingress that has a rule, and AddManagedHost then put it
  -- into the ingress, a second EnsureManagedHost returns AlreadyAssignedErr and the host among
  -- the hosts, and changes nothing.
  pub ensure_managed_host_again :
      (a : Ingress Http) (rule : IngressRule Http) (rules : List (IngressRule Http))
      → a.rules ≡ rule ∷ rules
      → (h : String) (r : DnsRecord) (s s' : S) → h ≢ ""
      → ensure_managed_host service a s
        ≡ (ok (record { hosts = h ∷ []; records = r ∷ []; error = none }), s')
      → FindsHost h s' (ensure_managed_host service (add_managed_host deep_equal a h) s')
  unfolding ensure_managed_host
  ensure_managed_host_again a rule rules shape h r s s' n first =
      let t : Ingress Http = add_managed_host deep_equal a h in
      let there : view s' (host_key service view h) ≡ some r = stored_host a h r s s' first in
      let listed : contains_string (get_hosts t) h ≡ true =
        (get_hosts-Distinct t).1 h
        ∙ HasRule-add_managed_host deep_equal h deep_equal_refl a rule rules shape in
      rw (get_dns_records-stored service view laws t s') (
        assign_found t h s' (stored service view s' (get_hosts t)) (
          stored-Names service view h r s' n there
            (ap (λ k. k.name) (laws.view_key s' (host_key service view h) r there)) (get_hosts t)
            listed))
