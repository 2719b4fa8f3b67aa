-- ===== src/Watch/Clusters/Once.antt =====
-- One watcher for each cluster, whatever becomes of it.
use Prim.Native.String.{◌++◌ as ◌+++◌}
use multi_cluster_traffic_co.Prelude.{
  String, false, none, some, List, [], ◌∷◌, ◌≡◌, refl, arith, eq_refl, map, Result, ok, err, panic,
  Option-cases, inl, inr, All, ap, ◌∙◌, Error, Exec, ◌>>=◌, proceed,
}
use multi_cluster_traffic_co.Slice.{contains_string}
use multi_cluster_traffic_co.Ingress.Hosts.{Distinct}
use multi_cluster_traffic_co.Client.{RestConfig}
use multi_cluster_traffic_co.Watch.Clusters.{
  Watcher, Watchers, WatchController, watcher_of, watch_cluster, keep_watcher, new_cluster_watcher,
  add_watcher,
}

module _ {S Client Handler : Type 0} (w : WatchController S Client Handler) where
  keep_watcher-own :
      (host : String) (ws ws' : Watchers Client Handler)
      (made : Result (Watcher Client Handler) × S) (watcher : Watcher Client Handler) (s' : S)
      → keep_watcher w host ws made ≡ (ok watcher, (ws', s'))
      → watcher_of host ws' ≡ some watcher
  unfolding keep_watcher watcher_of
  keep_watcher-own host ws ws' (ok x, s) watcher s' done = ground (arith, eq_refl host)
  keep_watcher-own host ws ws' (err e, s) watcher s' done = cc
  keep_watcher-own host ws ws' (panic, s) watcher s' done = cc

  pub watcher_of-watch_cluster :
      (config : RestConfig) (ws ws' : Watchers Client Handler) (s s' : S)
      (watcher : Watcher Client Handler)
      → watch_cluster w config (ws, s) ≡ (ok watcher, (ws', s'))
      → watcher_of config.host ws' ≡ some watcher
  unfolding watch_cluster
  watcher_of-watch_cluster config ws ws' s s' watcher done =
      elim (Option-cases (watcher_of config.host ws)) [
        | inl e ↦
            keep_watcher-own config.host ws ws' (new_cluster_watcher w config s) watcher s'
              (rw (watch_cluster, e) at done)
        | inr (x, e) ↦ let done' = rw (watch_cluster, e) at done in ground arith
      ]

  -- Once WatchCluster returned a watcher, every later call for a cluster of the same host, whatever the
  -- credentials are, returns that watcher and calls nothing.
  pub watch_cluster_again :
      (config later : RestConfig) (ws ws' : Watchers Client Handler) (s s' t : S)
      (watcher : Watcher Client Handler)
      → watch_cluster w config (ws, s) ≡ (ok watcher, (ws', s'))
      → later.host ≡ config.host
      → watch_cluster w later (ws', t) ≡ (ok watcher, (ws', t))
  unfolding watch_cluster
  watch_cluster_again config later ws ws' s s' t watcher done same =
      let here : watcher_of later.host ws' ≡ some watcher =
        ap (λ h. watcher_of h ws') same
        ∙ watcher_of-watch_cluster config ws ws' s s' watcher done in
      rw (watch_cluster, here) refl

  -- The hosts under which the map keeps watchers.
  abbrev pub hosts : Watchers Client Handler → List String
  hosts ws = map (λ entry. entry.0) ws

  -- One watcher for each host, that of the cluster with this host.
  abbrev pub IsOnce : Watchers Client Handler → Type 0
  IsOnce ws = Distinct (hosts ws) × All (λ entry. entry.1.cluster_name ≡ entry.0) ws

  watcher_of-none :
      (host : String) (ws : Watchers Client Handler)
      → watcher_of host ws ≡ none
      → contains_string (hosts ws) host ≡ false
  unfolding watcher_of contains_string
  watcher_of-none host [] absent = refl
  watcher_of-none host (entry ∷ ws) absent = ground (arith, watcher_of-none host ws)

  -- A watcher that is given back is that of the host.
  abbrev Names : String → Result (Watcher Client Handler) → Type 0
  Names host (ok watcher) = watcher.cluster_name ≡ host
  Names host _ = Unit

  proceed-Names :
      {A : Type 0} (host : String) (r : Result A) (f : A → Exec S (Watcher Client Handler)) (s : S)
      → ((a : A) (s' : S) → Names host (f a s').0)
      → Names host (proceed r f s).0
  proceed-Names host (ok a) f s names = names a s
  proceed-Names host (err e) f s names = tt
  proceed-Names host panic f s names = tt

  add_watcher-Names :
      (watcher : Watcher Client Handler) (added : Result (Unit {0})) (s : S)
      → Names watcher.cluster_name (add_watcher w watcher added s).0
  unfolding add_watcher
  add_watcher-Names watcher (ok done) s = refl
  add_watcher-Names watcher (err e) s = refl
  add_watcher-Names watcher panic s = tt

  -- The watcher that NewClusterWatcher makes.
  abbrev pub watcher_for : RestConfig → Client → Handler → Watcher Client Handler
  watcher_for config client handler = record {
    client = client;
    cluster_name = config.host;
    handler = handler;
    queue_name = config.server_name +++ "/ingress";
  }

  -- `NewClusterWatcher` after its calls, in the order of the calls.
  abbrev with_handler : RestConfig → Client → Handler → Exec S (Watcher Client Handler)
  with_handler config client handler s =
      let (added, s') = w.add_to_manager (watcher_for config client handler) s in
      add_watcher w (watcher_for config client handler) added s'

  abbrev with_client : RestConfig → Client → Exec S (Watcher Client Handler)
  with_client config client = w.factory config >>= with_handler config client

  with_handler-Names :
      (config : RestConfig) (client : Client) (handler : Handler) (s : S)
      → Names config.host (with_handler config client handler s).0
  with_handler-Names config client handler s =
      add_watcher-Names (watcher_for config client handler)
        (w.add_to_manager (watcher_for config client handler) s).0
        (w.add_to_manager (watcher_for config client handler) s).1

  with_client-Names :
      (config : RestConfig) (client : Client) (s : S)
      → Names config.host (with_client config client s).0
  with_client-Names config client s =
      proceed-Names config.host (w.factory config s).0 (with_handler config client)
        (w.factory config s).1 (with_handler-Names config client)

  new_cluster_watcher-Names :
      (config : RestConfig) (s : S) → Names config.host (new_cluster_watcher w config s).0
  unfolding new_cluster_watcher
  new_cluster_watcher-Names config s =
      proceed-Names config.host (w.new_for_config config s).0 (with_client config)
        (w.new_for_config config s).1 (with_client-Names config)

  keep_watcher-IsOnce :
      (host : String) (ws : Watchers Client Handler) (made : Result (Watcher Client Handler) × S)
      → IsOnce ws
      → watcher_of host ws ≡ none
      → Names host made.0
      → IsOnce (keep_watcher w host ws made).1.0
  unfolding keep_watcher
  keep_watcher-IsOnce host ws (ok x, s) once absent name =
      ((watcher_of-none host ws absent, once.0), (name, once.1))
  keep_watcher-IsOnce host ws (err e, s) once absent name = once
  keep_watcher-IsOnce host ws (panic, s) once absent name = once

  -- WatchCluster keeps it so that the map has one watcher for each host.
  pub watch_cluster-IsOnce :
      (config : RestConfig) (ws : Watchers Client Handler) (s : S)
      → IsOnce ws
      → IsOnce (watch_cluster w config (ws, s)).1.0
  unfolding watch_cluster keep_watcher
  watch_cluster-IsOnce config ws s once = elim (Option-cases (watcher_of config.host ws)) [
    | inr (x, e) ↦ rw (watch_cluster, e) once
    | inl e ↦
        rw (watch_cluster, e)
          (keep_watcher-IsOnce config.host ws (new_cluster_watcher w config s) once e
            (new_cluster_watcher-Names config s))
  ]

  -- The map after WatchCluster was called for each of the clusters, whatever it returned.
  abbrev pub watched : List RestConfig → Watchers Client Handler × S → Watchers Client Handler × S
  watched [] state = state
  watched (config ∷ configs) state = watched configs (watch_cluster w config state).1

  -- However often WatchCluster is called, and for whatever clusters, with success or without, from the
  -- empty map on: the map has one watcher at most for each host, and that of the cluster with the host.
  pub watched-IsOnce : (configs : List RestConfig) (s : S) → IsOnce (watched configs ([], s)).0
  watched-IsOnce configs s = from configs [] s (tt, tt)
    where
      from :
          (configs : List RestConfig) (ws : Watchers Client Handler) (s : S)
          → IsOnce ws
          → IsOnce (watched configs (ws, s)).0
      from [] ws s once = once
      from (config ∷ configs) ws s once =
          from configs (watch_cluster w config (ws, s)).1.0 (watch_cluster w config (ws, s)).1.1
            (watch_cluster-IsOnce config ws s once)

  -- Where no watcher of the host is there and the manager refuses to add the new one, WatchCluster
  -- returns it all the same, without an error, and keeps it; every later call for the host returns it
  -- too and does not add it again.
  pub watch_cluster_unstarted :
      (config later : RestConfig) (ws : Watchers Client Handler) (s s1 s2 s3 t : S)
      (client : Client) (handler : Handler) (e : Error)
      → watcher_of config.host ws ≡ none
      → w.new_for_config config s ≡ (ok client, s1)
      → w.factory config s1 ≡ (ok handler, s2)
      → w.add_to_manager (watcher_for config client handler) s2 ≡ (err e, s3)
      → later.host ≡ config.host
      → (let kept : Watchers Client Handler =
            (config.host, watcher_for config client handler) ∷ ws in
          (watch_cluster w config (ws, s) ≡ (ok (watcher_for config client handler), (kept, s3)))
          × (watch_cluster w later (kept, t) ≡ (ok (watcher_for config client handler), (kept, t))))
  unfolding watch_cluster new_cluster_watcher keep_watcher add_watcher
  watch_cluster_unstarted config later ws s s1 s2 s3 t client handler e absent made handled refused
        same =
      let kept : Watchers Client Handler = (config.host, watcher_for config client handler) ∷ ws in
      let first : watch_cluster w config (ws, s)
          ≡ (ok (watcher_for config client handler), (kept, s3)) =
        rw (watch_cluster, absent, made, handled, refused) refl in
      (
        first,
        watch_cluster_again config later ws kept s s3 t (watcher_for config client handler) first
            same,
      )
