-- ===== src/Server/Mirror.antt =====
-- cmd/ngstratum/stratum.go, HandleCoinserverWatcherUpdates, on the updates of a service watcher: no
-- watcher is stopped twice, and those that run are of services that are there.
use ngpool.Prelude.{
  ◌≡◌, refl, sym, ap, ◌∙◌, Bool, true, false, Option, none, some, List, [], ◌∷◌, Bool-cases, inl,
  inr, All,
}
use mathlib.Core.Path.{subst}
use ngpool.Prelude.Map.{
  Map, lookup, insert, delete, lookup-insert, lookup-delete, bytes_eq, bytes_beq_iff, ◌==◌,
}
use ngpool.Prelude.Run.{ok}
use ngpool.Bytes.{Bytes}
use ngpool.Job.Build.{TemplateKey}
use ngpool.Service.{
  Action, added, updated, removed, ServiceStatusUpdate, EtcdAction, Directory, Watcher,
  find_service, service_watcher,
}
use ngpool.Service.Agree.{follow, follow_one, service_watcher-IsFollowed}
use ngpool.Service.Consistent.{IsFitting, IsConsistent, service_watcher-IsConsistent}
use ngpool.Server.{
  Labels, CoinserverWatcher, Watchers, has_key, stop_watcher, new_coinserver_watcher, replace,
  label, labels_key, add_watcher, remove_watcher, handle_update, handle_coinserver_watcher_updates,
}

-- Nothing is watched yet.
abbrev pub no_watchers : Watchers
no_watchers = record { coinserver_watchers = []; replaced = []; block_cast = [] }

-- A service that is wanted has a watcher that is open, and a watcher of one that is gone is closed.
abbrev pub IsAlike : Bool → Option CoinserverWatcher → Option Labels → Type 0
IsAlike wanted none none = Unit
IsAlike wanted none (some labels) = wanted ≡ false
IsAlike wanted (some cw) none = (wanted ≡ true) × (cw.is_closed ≡ true)
IsAlike wanted (some cw) (some labels) = (wanted ≡ true) × (cw.is_closed ≡ false)

abbrev pub IsClosed : CoinserverWatcher → Type 0
IsClosed cw = cw.is_closed ≡ true

module _ (tmpl_keys : List TemplateKey) (wanted : Bytes → Bool) where
  -- So it is for every id, and watchers that the map lost are closed.
  abbrev IsMirror : Watchers → Map Bytes Labels → Type 0
  IsMirror s services =
      ((id : Bytes) → IsAlike (wanted id) (lookup id s.coinserver_watchers) (lookup id services))
      × All IsClosed s.replaced

  -- Whether a service is wanted depends on its id only.
  abbrev IsSteady : ServiceStatusUpdate Labels → Type 0
  IsSteady u = has_key (labels_key tmpl_keys u.status) tmpl_keys ≡ wanted u.service_id

  replace-IsClosed :
      (w : Bool) (old : Option CoinserverWatcher) (rest : List CoinserverWatcher)
      → IsAlike w old none
      → All IsClosed rest
      → All IsClosed (replace old rest)
  replace-IsClosed w none rest a closed = closed
  replace-IsClosed w (some cw) rest a closed = (a.1, closed)

  unwanted-IsAlike :
      (w : Bool) (old : Option CoinserverWatcher) (labels : Labels)
      → w ≡ false
      → IsAlike w old none
      → IsAlike w old (some labels)
  unwanted-IsAlike w none labels not a = not
  unwanted-IsAlike w (some cw) labels not a = cc

  added-IsMirror :
      (id : Bytes) (labels : Labels) (s : Watchers) (services : Map Bytes Labels)
      → has_key (labels_key tmpl_keys labels) tmpl_keys ≡ wanted id
      → lookup id services ≡ none
      → IsMirror s services
      → IsMirror (add_watcher tmpl_keys id labels s) (insert id labels services)
  added-IsMirror id labels s services steady new (alike, closed) =
      let before : IsAlike (wanted id) (lookup id s.coinserver_watchers) none =
        subst (IsAlike (wanted id) (lookup id s.coinserver_watchers)) new (alike id) in
      elim (Bool-cases (has_key (labels_key tmpl_keys labels) tmpl_keys)) [
        | inr ignored ↦
            rw (ignored, add_watcher)
              (
                (λ k. rw (lookup-insert id k labels services) (elim (Bool-cases (id == k)) [
                  | inl same ↦
                      let e : id ≡ k = (bytes_beq_iff id k).0 same in
                      rw same (
                        subst
                          (λ i. IsAlike (wanted i) (lookup i s.coinserver_watchers) (some labels)) e
                          (unwanted-IsAlike (wanted id) (lookup id s.coinserver_watchers) labels
                            (sym steady ∙ ignored) before))
                  | inr apart ↦ rw apart (alike k)
                ])),
                closed,
              )
        | inl found ↦
            let cw =
              new_coinserver_watcher (label "endpoint" labels) id (labels_key tmpl_keys labels) in
            rw (found, add_watcher)
              (
                (λ k.
                    rw
                      (
                        lookup-insert id k labels services,
                        lookup-insert id k cw s.coinserver_watchers,
                      )
                      (elim (Bool-cases (id == k)) [
                        | inl same ↦
                            let e : id ≡ k = (bytes_beq_iff id k).0 same in
                            rw same (ap wanted (sym e) ∙ sym steady ∙ found, refl)
                        | inr apart ↦ rw apart (alike k)
                      ])),
                replace-IsClosed (wanted id) (lookup id s.coinserver_watchers) s.replaced before
                    closed,
              )
      ]

  known-IsAlike :
      (w : Bool) (cw : Option CoinserverWatcher) (labels labels' : Labels)
      → IsAlike w cw (some labels)
      → IsAlike w cw (some labels')
  known-IsAlike w none labels labels' a = a
  known-IsAlike w (some cw) labels labels' a = a

  updated-IsMirror :
      (id : Bytes) (labels old : Labels) (s : Watchers) (services : Map Bytes Labels)
      → lookup id services ≡ some old
      → IsMirror s services
      → IsMirror s (insert id labels services)
  updated-IsMirror id labels old s services present (alike, closed) = (
    (λ k. rw (lookup-insert id k labels services) (elim (Bool-cases (id == k)) [
      | inl same ↦
          let e : id ≡ k = (bytes_beq_iff id k).0 same in
          rw same (
            subst (λ i. IsAlike (wanted i) (lookup i s.coinserver_watchers) (some labels)) e
              (known-IsAlike (wanted id) (lookup id s.coinserver_watchers) old labels
                (subst (IsAlike (wanted id) (lookup id s.coinserver_watchers)) present (alike id))))
      | inr apart ↦ rw apart (alike k)
    ])),
    closed,
  )

  removed-IsMirror :
      (id : Bytes) (old : Labels) (s : Watchers) (services : Map Bytes Labels)
      (found : Option CoinserverWatcher)
      → lookup id s.coinserver_watchers ≡ found
      → lookup id services ≡ some old
      → IsMirror s services
      → (s' : Watchers) × (remove_watcher tmpl_keys id found s ≡ ok s')
        × IsMirror s' (delete id services)
  unfolding stop_watcher
  removed-IsMirror id old s services none e present (alike, closed) = (
    s,
    refl,
    (
      (λ k. rw (lookup-delete id k services) (elim (Bool-cases (id == k)) [
        | inl same ↦
            let e' : id ≡ k = (bytes_beq_iff id k).0 same in
            rw same (
              subst (λ i. IsAlike (wanted i) (lookup i s.coinserver_watchers) none) e'
                (subst (λ o. IsAlike (wanted id) o none) (sym e) tt))
        | inr apart ↦ rw apart (alike k)
      ])),
      closed,
    ),
  )
  removed-IsMirror id old s services (some cw) e present (alike, closed) =
      let (is_wanted, is_open) : IsAlike (wanted id) (some cw) (some old) =
        subst (λ o. IsAlike (wanted id) o (some old)) e
          (subst (IsAlike (wanted id) (lookup id s.coinserver_watchers)) present (alike id)) in
      let cw' : CoinserverWatcher = record cw { is_closed = true } in
      (
        record s { coinserver_watchers = insert id cw' s.coinserver_watchers },
        rw (is_open, stop_watcher) refl,
        (
          (λ k.
              rw (lookup-delete id k services, lookup-insert id k cw' s.coinserver_watchers)
                (elim (Bool-cases (id == k)) [
                  | inl same ↦
                      let e' : id ≡ k = (bytes_beq_iff id k).0 same in
                      rw same (ap wanted (sym e') ∙ is_wanted, refl)
                  | inr apart ↦ rw apart (alike k)
                ])),
          closed,
        ),
      )

  handle_update-IsMirror :
      (u : ServiceStatusUpdate Labels) (s : Watchers) (services : Map Bytes Labels)
      → IsSteady u
      → IsFitting u.action (lookup u.service_id services)
      → IsMirror s services
      → (s' : Watchers) × (handle_update tmpl_keys u.action u.service_id u.status s ≡ ok s')
        × IsMirror s' (follow_one u.action u.service_id u.status services)
  handle_update-IsMirror u s services steady fits mirror = by_action u.action fits
    where
      by_action :
          (action : Action)
          → IsFitting action (lookup u.service_id services)
          → (s' : Watchers) × (handle_update tmpl_keys action u.service_id u.status s ≡ ok s')
            × IsMirror s' (follow_one action u.service_id u.status services)
      by_action added new =
          (_, refl, added-IsMirror u.service_id u.status s services steady new mirror)
      by_action updated (old, present) =
          (_, refl, updated-IsMirror u.service_id u.status old s services present mirror)
      by_action removed (old, present) =
          removed-IsMirror u.service_id old s services _ refl present mirror

  handle_updates-IsMirror :
      (updates : List (ServiceStatusUpdate Labels)) (s : Watchers) (services : Map Bytes Labels)
      → All IsSteady updates
      → IsConsistent updates services
      → IsMirror s services
      → (s' : Watchers) × (handle_coinserver_watcher_updates tmpl_keys updates s ≡ ok s')
        × IsMirror s' (follow updates services)
  unfolding handle_coinserver_watcher_updates
  handle_updates-IsMirror [] s services steady c mirror = (s, refl, mirror)
  handle_updates-IsMirror (u ∷ updates) s services steady c mirror =
      let (s1, done, mirror1) = handle_update-IsMirror u s services steady.0 c.0 mirror in
      let (s2, rest, mirror2) = handle_updates-IsMirror updates s1 _ steady.1 c.1 mirror1 in
      (s2, rw (done, handle_coinserver_watcher_updates) rest, mirror2)

  -- On the updates of a service watcher, when it depends on the id of a service only whether its key
  -- is among the server's, the handler stops no watcher twice, which would panic: every wanted
  -- service that is there has an open watcher, a watcher whose service is gone is closed, and so is
  -- every watcher that the map lost.
  pub handle_updates-service_watcher :
      (unmarshal : Bytes → Labels) (directory : Directory)
      (events : List (EtcdAction × Bytes × Bytes)) (w : Watcher Labels)
      → service_watcher unmarshal directory events ≡ ok w
      → All IsSteady w.updates
      → (s : Watchers) × (handle_coinserver_watcher_updates tmpl_keys w.updates no_watchers ≡ ok s)
        × ((id : Bytes)
            → IsAlike
                (wanted id)
                (lookup id s.coinserver_watchers)
                (find_service unmarshal id w.services))
        × All IsClosed s.replaced
  unfolding lookup
  handle_updates-service_watcher unmarshal directory events w e steady =
      let (s, done, (alike, closed)) =
        handle_updates-IsMirror w.updates no_watchers [] steady
          (service_watcher-IsConsistent unmarshal directory events w e) ((λ id. tt), tt) in
      (
        s,
        done,
        (λ id.
            subst (IsAlike (wanted id) (lookup id s.coinserver_watchers))
              (service_watcher-IsFollowed unmarshal directory events w e id) (alike id)),
        closed,
      )
