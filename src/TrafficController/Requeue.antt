-- ===== src/TrafficController/Requeue.antt =====
-- Handle on a traffic object with a managed host, before and after its secret is there.
use multi_cluster_traffic_co.Prelude.{
  String, Bool, true, false, none, some, List, [], ◌∷◌, ◌≡◌, refl, arith, Error, is_ok,
  is_already_exists, is_not_found, is_already_assigned, Result, ok, err, panic, inl, inr,
  Option-cases,
}
use multi_cluster_traffic_co.Api.Types.{DnsRecord, object_meta}
use multi_cluster_traffic_co.Ingress.{Ingress, add_managed_host, add_tls, get_tls, tls_section}
use multi_cluster_traffic_co.Ingress.Tls.{section_of, section_of-add_tls}
use multi_cluster_traffic_co.DnsService.Actions.{Managed}
use multi_cluster_traffic_co.Certificates.{Secret}
use multi_cluster_traffic_co.TrafficController.{
  TrafficReconciler, traffic_finalizer, with_finalizers, returns, ignoring, publish, with_secret,
  assign_host, assign_hosts, with_managed, handle_live, is_being_deleted, handle,
  copy_secret_to_workload_cluster, update_if_exists,
}

-- The error beside the managed hosts, if any, is AlreadyAssignedErr.
abbrev pub is_assigned : Managed → Bool
is_assigned m = elim m.error [ none ↦ true | some e ↦ is_already_assigned e ]

-- The traffic object with the finalizer.
abbrev pub marked : {S Http : Type 0} → TrafficReconciler S Http → Ingress Http → Ingress Http
marked reconciler t =
    with_finalizers reconciler t (reconciler.add_finalizer t.metadata.finalizers traffic_finalizer)

module _ {S Http : Type 0} (reconciler : TrafficReconciler S Http) (t : Ingress Http) (h : String)
    (r : DnsRecord) where
  open reconciler use {workload_client, hosts, certificates, deep_equal}

  -- The same with the host.
  abbrev pub hosted : Ingress Http
  hosted = add_managed_host deep_equal (marked reconciler t) h

  ensured_ok :
      (ensured : Result (Unit {0}))
      → is_ok (ignoring is_already_exists ensured) ≡ true
      → ignoring is_already_exists ensured ≡ ok tt
  ensured_ok (ok done) fine = refl
  ensured_ok (err e) fine = ground arith
  ensured_ok panic fine = cc

  handle-assign_hosts :
      (m : Managed) (s s1 : S)
      → is_being_deleted t ≡ false
      → hosts.ensure_managed_host (marked reconciler t) s ≡ (ok m, s1)
      → is_assigned m ≡ true
      → handle reconciler t s ≡ assign_hosts reconciler m.hosts m.records (marked reconciler t) s1
  unfolding handle handle_live with_managed
  handle-assign_hosts m s s1 live managed assigned = elim (Option-cases m.error) [
    | inl fine ↦ rw (live, managed, fine) refl
    | inr (e, failed) ↦
        let known : is_already_assigned e ≡ true = rw failed at assigned in
        rw (live, managed, failed, known) refl
  ]

  -- Of an object that is not to be deleted, the first managed host, new or assigned before, has a
  -- certificate that is created or exists, and its secret is not there yet: Handle returns the
  -- object as AddManagedHost leaves it, to be queued again after 10 seconds, and makes no call
  -- behind the Get of the secret, so that no endpoint is published.
  pub handle_waits :
      (m : Managed) (hs : List String) (rs : List DnsRecord) (ensured : Result (Unit {0}))
      (e : Error) (s s1 s2 s3 : S)
      → is_being_deleted t ≡ false
      → hosts.ensure_managed_host (marked reconciler t) s ≡ (ok m, s1)
      → is_assigned m ≡ true
      → m.hosts ≡ h ∷ hs
      → m.records ≡ r ∷ rs
      → certificates.ensure_certificate h r s1 ≡ (ensured, s2)
      → is_ok (ignoring is_already_exists ensured) ≡ true
      → certificates.get_certificate_secret h s2 ≡ (err e, s3)
      → is_not_found e ≡ true
      → handle reconciler t s ≡ (ok (returns reconciler hosted (some 10) none), s3)
  unfolding assign_hosts assign_host
  handle_waits m hs rs ensured e s s1 s2 s3 live managed assigned some_host some_record cert fine
        secret missing =
      rw
        (
          handle-assign_hosts m s s1 live managed assigned,
          some_host,
          some_record,
          cert,
          ensured_ok ensured fine,
          secret,
          missing,
        )
        refl

  -- Where, for an object that is not to be deleted with one managed host, the secret is there and
  -- copied, and the endpoints are published, Handle returns the object with the rules that
  -- AddManagedHost gives it and a TLS section of the host for the secret, with no error, and not
  -- to be queued again.
  pub handle_completes :
      (m : Managed) (ensured : Result (Unit {0})) (secret : Secret) (s s1 s2 s3 s4 s5 : S)
      → is_being_deleted t ≡ false
      → hosts.ensure_managed_host (marked reconciler t) s ≡ (ok m, s1)
      → is_assigned m ≡ true
      → m.hosts ≡ h ∷ []
      → m.records ≡ r ∷ []
      → certificates.ensure_certificate h r s1 ≡ (ensured, s2)
      → is_ok (ignoring is_already_exists ensured) ≡ true
      → certificates.get_certificate_secret h s2 ≡ (ok (some secret), s3)
      → copy_secret_to_workload_cluster reconciler hosted secret h s3 ≡ (ok tt, s4)
      → hosts.add_endpoints (add_tls hosted h secret.metadata.name) s4 ≡ (ok tt, s5)
      → (t' : Ingress Http) × (handle reconciler t s ≡ (ok (returns reconciler t' none none), s5))
        × (t'.rules ≡ hosted.rules)
        × (section_of h (get_tls t') ≡ some (tls_section h secret.metadata.name))
  unfolding assign_hosts assign_host with_secret publish add_tls
  handle_completes m ensured secret s s1 s2 s3 s4 s5 live managed assigned one_host one_record cert
        fine found copied published =
      (
        add_tls hosted h secret.metadata.name,
        rw
            (
              handle-assign_hosts m s s1 live managed assigned,
              one_host,
              one_record,
              cert,
              ensured_ok ensured fine,
              found,
              copied,
              published,
            )
            refl,
        refl,
        (section_of-add_tls hosted h secret.metadata.name "").0,
      )

  -- Where, for an object that is not to be deleted with one managed host, the secret is there but the
  -- workload cluster refuses to create the copy, with an error other than AlreadyExists, and the
  -- endpoints are published, Handle returns the object with a TLS section for the secret that was not
  -- copied, with no error, and not to be queued again.
  pub handle_uncopied :
      (m : Managed) (ensured : Result (Unit {0})) (secret : Secret) (e : Error)
      (s s1 s2 s3 s4 s5 : S)
      → is_being_deleted t ≡ false
      → hosts.ensure_managed_host (marked reconciler t) s ≡ (ok m, s1)
      → is_assigned m ≡ true
      → m.hosts ≡ h ∷ []
      → m.records ≡ r ∷ []
      → certificates.ensure_certificate h r s1 ≡ (ensured, s2)
      → is_ok (ignoring is_already_exists ensured) ≡ true
      → certificates.get_certificate_secret h s2 ≡ (ok (some secret), s3)
      → workload_client.create
          (record secret { metadata = object_meta h hosted.metadata.namespace })
          s3
        ≡ (err e, s4)
      → is_already_exists e ≡ false
      → hosts.add_endpoints (add_tls hosted h secret.metadata.name) s4 ≡ (ok tt, s5)
      → (t' : Ingress Http) × (handle reconciler t s ≡ (ok (returns reconciler t' none none), s5))
        × (section_of h (get_tls t') ≡ some (tls_section h secret.metadata.name))
  unfolding copy_secret_to_workload_cluster update_if_exists
  handle_uncopied m ensured secret e s s1 s2 s3 s4 s5 live managed assigned one_host one_record cert
        fine found refused other published =
      let copied : copy_secret_to_workload_cluster reconciler hosted secret h s3 ≡ (ok tt, s4) =
        rw (refused, other) refl in
      let (t', returned, rules, section) =
        handle_completes m ensured secret s s1 s2 s3 s4 s5 live managed assigned one_host one_record
          cert fine found copied published in
      (t', returned, section)
