-- ===== src/DnsService/Scope.antt =====
-- Which records AddEndPoints writes.
use multi_cluster_traffic_co.Prelude.{
  String, List, [], ◌∷◌, ◌==◌, ◌≡◌, ◌≢◌, refl, ◌∙◌, arith, Option, Result, ok, Bool-cases, inl, inr,
  proceed_keeps,
}
use multi_cluster_traffic_co.Api.Types.{
  DnsRecord, NamespacedName, object_key, Target, target_type_ip,
}
use multi_cluster_traffic_co.Ingress.{Ingress, get_hosts, get_dns_targets}
use multi_cluster_traffic_co.Client.{ClientLaws}
use multi_cluster_traffic_co.DnsService.Endpoints.{with_addresses}
use multi_cluster_traffic_co.DnsService.Records.{
  Service, resolve_targets, resolve_ips, lookup_error,
}
use multi_cluster_traffic_co.DnsService.Actions.{update_first, add_endpoints}
use multi_cluster_traffic_co.DnsService.Lookup.{host_key, stored, get_dns_records-stored}

metadata-with_addresses :
    (ips : List String) (r r' : DnsRecord) → with_addresses ips r ≡ ok r' → r'.metadata ≡ r.metadata
unfolding with_addresses
metadata-with_addresses ips r r' h = ground arith

module _ {S Ip : Type 0} (service : Service S Ip)
    (view : S → NamespacedName → Option DnsRecord) where
  -- A lookup of addresses stores nothing.
  abbrev pub LookupKeeps : Type 0
  LookupKeeps =
      (host : String) (s : S) (k : NamespacedName)
      → view (service.lookup_ip_addr host s).1 k ≡ view s k

  stored_congr :
      (s s' : S)
      → ((k : NamespacedName) → view s' k ≡ view s k)
      → (hosts : List String) → stored service view s' hosts ≡ stored service view s hosts
  stored_congr s s' same [] = refl
  stored_congr s s' same (host ∷ hosts) =
      rw (same (host_key service view host), stored_congr s s' same hosts)

  module _ (keeps : LookupKeeps) where
    resolve_targets_keeps :
        (targets : List Target) (s : S) (k : NamespacedName)
        → view (resolve_targets service targets s).1 k ≡ view s k
    unfolding resolve_targets
    resolve_targets_keeps [] s k = refl
    resolve_targets_keeps (t ∷ targets) s k = elim (Bool-cases (t.target_type == target_type_ip)) [
      | inl e ↦ rw e (
          proceed_keeps (λ x. view x k ≡ view s k) (resolve_targets service targets s).0 _ _
            (resolve_targets_keeps targets s k) (λ ips _. resolve_targets_keeps targets s k))
      | inr e ↦
          let after : S = (service.lookup_ip_addr t.value s).1 in
          let rest : view (resolve_targets service targets after).1 k ≡ view s k =
            resolve_targets_keeps targets after k ∙ keeps t.value s k in
          rw e (
            proceed_keeps (λ x. view x k ≡ view s k)
              (lookup_error service t.value (service.lookup_ip_addr t.value s).0) _ after
              (keeps t.value s k)
              (λ addr _.
                proceed_keeps (λ x. view x k ≡ view s k) (resolve_targets service targets after).0 _
                  _ rest (λ ips _. rest)))
    ]

    module _ (laws : ClientLaws (λ r. r.metadata) service.control_client view) where
      update_first_other :
          (ips : List String) (first : DnsRecord) (rest : List DnsRecord) (s : S)
          (k : NamespacedName)
          → k ≢ object_key first.metadata
          → view (update_first service ips (first ∷ rest) s).1 k ≡ view s k
      unfolding update_first
      update_first_other ips first rest s k other =
          proceed_keeps (λ x. view x k ≡ view s k) (with_addresses ips first) _ s refl
            (λ r' done.
              let other' : view (service.control_client.update r' s).1 k ≡ view s k =
                laws.update_other r' s k (rw (metadata-with_addresses ips first r' done) other) in
              proceed_keeps (λ x. view x k ≡ view s k) (service.control_client.update r' s).0 _ _
                other' (λ _ _. other'))

      -- On a server that keeps the client's laws, where a lookup of addresses stores nothing,
      -- AddEndPoints writes one record at most, that of the first host which has one: what is
      -- stored under every other key stays, the records of the other managed hosts included.
      pub add_endpoints_other :
          {Http : Type 0} (t : Ingress Http) (s : S) (first : DnsRecord) (rest : List DnsRecord)
          (k : NamespacedName)
          → stored service view s (get_hosts t) ≡ first ∷ rest
          → k ≢ object_key first.metadata
          → view (add_endpoints service t s).1 k ≡ view s k
      unfolding add_endpoints resolve_ips
      add_endpoints_other t s first rest k shape other =
          let resolved : Result (List String) × S = resolve_targets service (get_dns_targets t) s in
          let same : view resolved.1 k ≡ view s k = resolve_targets_keeps (get_dns_targets t) s k in
          proceed_keeps (λ x. view x k ≡ view s k) resolved.0 _ resolved.1 same
            (λ ips _.
              rw
                (
                  get_dns_records-stored service view laws t resolved.1,
                  stored_congr s resolved.1 (resolve_targets_keeps (get_dns_targets t) s)
                      (get_hosts t),
                  shape,
                )
                (update_first_other ips first rest resolved.1 k other ∙ same))
