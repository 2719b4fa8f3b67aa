-- ===== src/Wiring/Exits.antt =====
-- How the process of `main` ends.
use multi_cluster_traffic_co.Prelude.{
  ◌≡◌, refl, Error, Result, ok, err, panic, Exec, pure, ◌>>=◌, proceed,
}
use multi_cluster_traffic_co.Aws.Session.{dns_provider, default_client, dns_provider-listing}
use multi_cluster_traffic_co.DnsRecord.Reconcile.{setup_with_manager as setup_dns_records}
use multi_cluster_traffic_co.SecretController.{setup_with_manager as setup_secrets}
use multi_cluster_traffic_co.Wiring.{
  Platform, Manager, Exit, returned, crashed, exited, or_exit, secret_reconciler,
  add_webhook_server, main,
}

-- The end of a process whose work came to this.
abbrev pub exit_of : Result (Unit {0}) → Exit
exit_of (ok done) = returned
exit_of (err e) = exited 1
exit_of panic = crashed

abbrev pub ended : {S : Type 0} → Result (Unit {0}) × S → Exit × S
ended (r, s) = (exit_of r, s)

or_exit-ended :
    {S A : Type 0} (m : Exec S A) (next : A → S → Exit × S) (work : A → Exec S (Unit {0}))
    → ((a : A) (s : S) → next a s ≡ ended (work a s))
    → (s : S) → or_exit m next s ≡ ended ((m >>= work) s)
unfolding or_exit
or_exit-ended {A = A} m next work same s = go (m s).0
  where
    go :
        (r : Result A)
        → elim r [
          | ok a ↦ next a (m s).1
          | err e ↦ (exited 1, (m s).1)
          | panic ↦ (crashed, (m s).1)
        ]
          ≡ ended (proceed r work (m s).1)
    go (ok a) = same a (m s).1
    go (err e) = refl
    go panic = refl

module _ {S Ip Http Client Session Aws : Type 0} (p : Platform S Ip Http Client Session Aws)
    (m : Manager S Http Client) where
  -- The work of `main` as one chain of calls, in which the first error ends the chain.
  abbrev pub work : Exec S (Unit {0})
  work = do
    _ ← m.new_manager
    provider ← dns_provider p.sdk p.aws_provider "aws"
    _ ←
        setup_dns_records m.complete_dns_records p.lookup_env
          (record p.dns_records { dns_provider = provider })
    _ ← setup_secrets m.complete_secrets (secret_reconciler p)
    _ ← m.add_healthz_check "healthz"
    _ ← m.add_readyz_check "readyz"
    _ ← add_webhook_server p m
    _ ← m.start
    pure tt

  -- `main` makes the calls of the chain, the start of the manager last, and none after the first that
  -- fails; the process exits with the status 1 if a call failed, and `main` returns if none did.
  pub main-work : (s : S) → main p m s ≡ ended (work s)
  unfolding main
  main-work s =
      or_exit-ended m.new_manager _ _
        (λ _. or_exit-ended (dns_provider p.sdk p.aws_provider "aws") _ _ (λ provider.
          or_exit-ended
            (setup_dns_records m.complete_dns_records p.lookup_env
              (record p.dns_records { dns_provider = provider }))
            _ _
            (λ _. or_exit-ended (setup_secrets m.complete_secrets (secret_reconciler p)) _ _ (λ _.
              or_exit-ended (m.add_healthz_check "healthz") _ _ (λ _.
                or_exit-ended (m.add_readyz_check "readyz") _ _ (λ _.
                  or_exit-ended (add_webhook_server p m) _ _ (λ _.
                    or_exit-ended m.start (λ _ s. (returned, s)) (λ _. pure tt) (λ _ s. refl))))))))
        s

  -- Where the client for Route 53 that is made for no region cannot list the hosted zones, `main` exits
  -- with the status 1, and makes no call behind the listing: no controller is set up, and the manager
  -- is not started.
  pub main_unlisted :
      (session : Session) (e : Error) (s s1 s2 s3 : S)
      → m.new_manager s ≡ (ok tt, s1)
      → p.sdk.new_session "" s1 ≡ (ok session, s2)
      → p.sdk.list_hosted_zones (default_client p.sdk session) s2 ≡ (err e, s3)
      → main p m s ≡ (exited 1, s3)
  main_unlisted session e s s1 s2 s3 made opened unlisted =
      rw
        (
          main-work s,
          made,
          dns_provider-listing p.sdk p.aws_provider session s1 s2 s3 (err e) opened unlisted,
        )
        refl
