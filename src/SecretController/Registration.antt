-- ===== src/SecretController/Registration.antt =====
-- What Reconcile of the secret controller does to the map of watchers, with the WatchController of
-- pkg/multiClusterWatch/watch.go as its interface of the watch.
use multi_cluster_traffic_co.Prelude.{
  ℕ, String, Option, some, ◌≡◌, refl, subst, sym, ap, ◌∙◌, Result, ok, err, panic, lift, proceed,
  proceed_keeps, ◌>>=◌,
}
use multi_cluster_traffic_co.Api.Types.{NamespacedName}
use multi_cluster_traffic_co.Client.{RestConfig}
use multi_cluster_traffic_co.Certificates.{Secret}
use multi_cluster_traffic_co.Cluster.{Object}
use multi_cluster_traffic_co.Watch.Clusters.{
  Watcher, Watchers, WatchController, watch_cluster, watcher_of,
}
use multi_cluster_traffic_co.Watch.Clusters.Once.{
  IsOnce, watch_cluster-IsOnce, watcher_of-watch_cluster,
}
use multi_cluster_traffic_co.SecretController.{
  SecretReconciler, ArgoClusterConfig, reconcile, register, register_secret, data_of,
  rest_config_of,
}

-- The reconciler watches with the controller `w`, and its other calls leave the map alone.
pub record SharesMap {S Client Handler : Type 0} (w : WatchController S Client Handler)
    (r : SecretReconciler (Watchers Client Handler × S) (Watcher Client Handler)) : Type 0 where
  pub watches :
      (config : RestConfig) (st : Watchers Client Handler × S)
      → r.watch_cluster config st ≡ watch_cluster w config st
  pub get_keeps :
      (k : NamespacedName) (st : Watchers Client Handler × S) → (r.secrets.get k st).1.0 ≡ st.0
  pub reconcile_keeps :
      (obj : Object) (st : Watchers Client Handler × S) → (r.reconcile_cluster obj st).1.0 ≡ st.0

module _ {S Client Handler : Type 0} (w : WatchController S Client Handler)
    (r : SecretReconciler (Watchers Client Handler × S) (Watcher Client Handler))
    (shares : SharesMap w r) where
  abbrev Holds : Watchers Client Handler × S → Type 0
  Holds st = IsOnce w st.0

  register-IsOnce :
      (obj : Object) (st : Watchers Client Handler × S)
      → IsOnce w st.0
      → IsOnce w (register r obj st).1.0
  unfolding register
  register-IsOnce obj (ws, s) once =
      let watched : IsOnce w (r.watch_cluster obj.rest_config (ws, s)).1.0 =
        subst (λ x. IsOnce w x.1.0) (sym (shares.watches obj.rest_config (ws, s)))
          (watch_cluster-IsOnce w obj.rest_config ws s once) in
      proceed_keeps Holds (r.watch_cluster obj.rest_config (ws, s)).0 (λ _. r.reconcile_cluster obj)
        (r.watch_cluster obj.rest_config (ws, s)).1 watched
        (λ x done.
          subst (λ m. IsOnce w m)
            (sym (shares.reconcile_keeps obj (r.watch_cluster obj.rest_config (ws, s)).1)) watched)

  register_secret-IsOnce :
      (secret : Secret) (st : Watchers Client Handler × S)
      → IsOnce w st.0
      → IsOnce w (register_secret r secret st).1.0
  unfolding register_secret
  register_secret-IsOnce secret st once =
      proceed_keeps Holds (r.unmarshal (data_of secret "config"))
        (λ config. lift (r.parse_url (data_of secret "server")) >>= λ host.
          register r
            (record { name = secret.metadata.name; rest_config = rest_config_of config host }))
        st once
        (λ config read.
          proceed_keeps Holds (r.parse_url (data_of secret "server"))
            (λ host.
              register r
                (record { name = secret.metadata.name; rest_config = rest_config_of config host }))
            st once
            (λ host parsed.
              register-IsOnce
                (record { name = secret.metadata.name; rest_config = rest_config_of config host })
                st once))

  -- With the watch by `w`, whose map no other call changes: Reconcile of any secret, whatever it
  -- returns, keeps it so that the map has one watcher at most for each host, that of the cluster with
  -- the host.
  pub reconcile-IsOnce :
      (req : NamespacedName) (st : Watchers Client Handler × S)
      → IsOnce w st.0
      → IsOnce w (reconcile r req st).1.0
  unfolding reconcile
  reconcile-IsOnce req st once =
      let kept : IsOnce w (r.secrets.get req st).1.0 =
        subst (λ x. IsOnce w x) (sym (shares.get_keeps req st)) once in
      proceed_keeps Holds (r.secrets.get req st).0 (register_secret r) (r.secrets.get req st).1 kept
        (λ secret got. register_secret-IsOnce secret (r.secrets.get req st).1 kept)

  register_watches :
      (obj : Object) (ws : Watchers Client Handler) (s : S) (st2 : Watchers Client Handler × S)
      (after : Option ℕ)
      → register r obj (ws, s) ≡ (ok after, st2)
      → (watcher : Watcher Client Handler) × (watcher_of obj.rest_config.host st2.0 ≡ some watcher)
  unfolding register
  register_watches obj ws s st2 after done =
      go (r.watch_cluster obj.rest_config (ws, s)).0 (r.watch_cluster obj.rest_config (ws, s)).1
        refl done
    where
      go :
          (result : Result (Watcher Client Handler)) (st' : Watchers Client Handler × S)
          → r.watch_cluster obj.rest_config (ws, s) ≡ (result, st')
          → proceed result (λ _. r.reconcile_cluster obj) st' ≡ (ok after, st2)
          → (watcher : Watcher Client Handler) × (watcher_of obj.rest_config.host st2.0
              ≡ some watcher)
      go (ok watcher) (ws', s') e last =
          let same : st2.0 ≡ ws' =
            sym (ap (λ x. x.1.0) last) ∙ shares.reconcile_keeps obj (ws', s') in
          (
            watcher,
            ap (λ x. watcher_of obj.rest_config.host x) same
                ∙ watcher_of-watch_cluster w obj.rest_config ws ws' s s' watcher
                    (sym (shares.watches obj.rest_config (ws, s)) ∙ e),
          )
      go (err x) st' e last = cc
      go panic st' e last = cc

  -- With the watch by `w`, whose map no other call changes, and a secret whose configuration and URL
  -- can be read: where Reconcile returns without an error, the map has a watcher under the host of the
  -- URL.
  pub reconcile_watches :
      (req : NamespacedName) (st st1 st2 : Watchers Client Handler × S) (secret : Secret)
      (config : ArgoClusterConfig) (host : String) (after : Option ℕ)
      → r.secrets.get req st ≡ (ok secret, st1)
      → r.unmarshal (data_of secret "config") ≡ ok config
      → r.parse_url (data_of secret "server") ≡ ok host
      → reconcile r req st ≡ (ok after, st2)
      → (watcher : Watcher Client Handler) × (watcher_of host st2.0 ≡ some watcher)
  unfolding reconcile register_secret rest_config_of
  reconcile_watches req st (ws, s) st2 secret config host after got read parsed done =
      register_watches
        (record { name = secret.metadata.name; rest_config = rest_config_of config host }) ws s st2
        after (rw (reconcile, got, register_secret, read, parsed) at done)
