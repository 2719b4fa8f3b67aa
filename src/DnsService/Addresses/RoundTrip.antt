-- ===== src/DnsService/Addresses/RoundTrip.antt =====
-- A traffic object that comes and goes again.
use multi_cluster_traffic_co.Prelude.{
  String, false, not, List, [], ◌∷◌, ◌++◌, ◌==◌, ◌≡◌, refl, ap, ◌∙◌, arith, eq_refl, keep, ok,
  Bool-cases, inl, inr, ℕ, any, append-nil, Option, length, nat_eq, Exec, pure, ◌>>=◌,
  if◌then◌else◌,
}
use multi_cluster_traffic_co.Slice.{contains_string}
use multi_cluster_traffic_co.Api.Types.{DnsRecord, DnsRecordSpec, Endpoint, NamespacedName}
use multi_cluster_traffic_co.DnsService.Endpoints.{remaining, new_addresses, total_ips}
use multi_cluster_traffic_co.DnsService.Adding.{joined, serves}
use multi_cluster_traffic_co.DnsService.Removing.{remaining_one}
use multi_cluster_traffic_co.DnsService.Addresses.{addresses, IsAddressed, weighted-fields}
use multi_cluster_traffic_co.DnsService.Addresses.Extended.{extended, made, new_addresses-keep}
use multi_cluster_traffic_co.DnsService.Addresses.Runs.{served}
use multi_cluster_traffic_co.DnsService.Addresses.Stored.{served-add_endpoints}
use multi_cluster_traffic_co.DnsService.Records.{Service, resolve_ips}
use multi_cluster_traffic_co.DnsService.Actions.{
  add_endpoints, remove_endpoints, remove_from_records, write_remaining,
}
use multi_cluster_traffic_co.DnsService.Lookup.{stored, get_dns_records-stored}
use multi_cluster_traffic_co.Client.{ClientLaws}
use multi_cluster_traffic_co.Ingress.{Ingress, get_hosts}

abbrev others : String → List Endpoint → List Endpoint
others ip es = keep (λ e. not (e.set_identifier == ip)) es

others-append :
    (ip : String) (xs ys : List Endpoint) → others ip (xs ++ ys) ≡ others ip xs ++ others ip ys
others-append ip [] ys = refl
others-append ip (x ∷ xs) ys = elim (Bool-cases (x.set_identifier == ip)) [
  | inl e ↦ rw e (others-append ip xs ys)
  | inr e ↦ rw (e, others-append ip xs ys) refl
]

others_all :
    (ip : String) (es : List Endpoint)
    → contains_string (addresses es) ip ≡ false
    → others ip es ≡ es
unfolding contains_string
others_all ip [] absent = refl
others_all ip (e ∷ es) absent = elim (Bool-cases (e.set_identifier == ip)) [
  | inl own ↦ ground arith
  | inr other ↦
      let later : contains_string (addresses es) ip ≡ false = ground arith in
      rw (other, others_all ip es later) refl
]

module _ (ip : String) (r : DnsRecord) (addressed : IsAddressed r) where
  others-made :
      (n : ℕ)
      → others ip
          (made n r.metadata.name (new_addresses r.metadata.name r.spec.endpoints (ip ∷ [])))
        ≡ []
  others-made n =
      ap (λ new. others ip (made n r.metadata.name new))
        (new_addresses-keep r.metadata.name r.spec.endpoints addressed.managed (ip ∷ []))
      ∙ elim (Bool-cases (any (serves r.metadata.name ip) r.spec.endpoints)) [
        | inl there ↦ rw there refl
        | inr absent ↦ rw (absent, (weighted-fields n r.metadata.name ip).1, eq_refl ip) refl
      ]

  remaining-extended :
      served r ip ≡ false
      → remaining (ip ∷ []) (extended (ip ∷ []) r).spec.endpoints [] ≡ r.spec.endpoints
  remaining-extended absent =
      remaining_one ip (extended (ip ∷ []) r).spec.endpoints
      ∙ others-append ip r.spec.endpoints _
      ∙ rw (others_all ip r.spec.endpoints absent, others-made (total_ips (joined (ip ∷ []) r)))
          (append-nil r.spec.endpoints)

module _ {S Ip Http : Type 0} (service : Service S Ip)
    (view : S → NamespacedName → Option DnsRecord)
    (laws : ClientLaws (λ r. r.metadata) service.control_client view) (t : Ingress Http) where
  open service use {control_client}

  -- The record is deleted where it has no endpoints, and written back otherwise.
  abbrev put_back : DnsRecord → Exec S (Unit {0})
  put_back r =
      if nat_eq (length r.spec.endpoints) 0
      then control_client.delete r
      else (control_client.update r >>= λ _. pure tt)

  write_remaining-put_back :
      (r : DnsRecord) (es : List Endpoint) (s : S)
      → write_remaining service r es (pure tt) s
        ≡ put_back (record r { spec = record { endpoints = es } }) s
  unfolding write_remaining
  write_remaining-put_back r [] s = refl
  write_remaining-put_back r (e ∷ es) s =
      let some_left : nat_eq (length (e ∷ es)) 0 ≡ false = ground arith in rw some_left refl

  -- Where the one record that is stored for the hosts of a traffic object has endpoints of its own host
  -- only, one for each address, and the object resolves to one address, which is not among them: once
  -- AddEndPoints has stored the record with that address, and the record is found again, RemoveEndpoints
  -- for the same object writes it back with the endpoints that it had before, or deletes it if it had
  -- none.
  pub remove_endpoints-add_endpoints :
      (ip : String) (r added : DnsRecord) (s s1 s2 s3 : S)
      → IsAddressed r
      → served r ip ≡ false
      → resolve_ips service t s ≡ (ok (ip ∷ []), s1)
      → stored service view s1 (get_hosts t) ≡ r ∷ []
      → control_client.update (extended (ip ∷ []) r) s1 ≡ (ok added, s2)
      → added.spec ≡ (extended (ip ∷ []) r).spec
      → stored service view s2 (get_hosts t) ≡ added ∷ []
      → resolve_ips service t s2 ≡ (ok (ip ∷ []), s3)
      → (add_endpoints service t s ≡ (ok tt, s2))
        × (remove_endpoints service t s2
            ≡ (if nat_eq (length r.spec.endpoints) 0
                  then control_client.delete (record added { spec = r.spec })
                  else (control_client.update (record added { spec = r.spec }) >>= λ _. pure tt))
                s3)
  unfolding remove_endpoints remove_from_records
  remove_endpoints-add_endpoints ip r added s s1 s2 s3 addressed absent resolved found accepted kept
        again resolved_again =
      let back : remaining (ip ∷ []) added.spec.endpoints [] ≡ r.spec.endpoints =
        ap (λ (x : DnsRecordSpec). remaining (ip ∷ []) x.endpoints []) kept
        ∙ remaining-extended ip r addressed absent in
      (
        (served-add_endpoints service view laws t (ip ∷ []) r added [] s s1 s2 resolved found
            addressed accepted kept).0,
        rw (get_dns_records-stored service view laws t s2, again, resolved_again)
            (ap (λ es. write_remaining service added es (pure tt) s3) back
              ∙ write_remaining-put_back added r.spec.endpoints s3),
      )
