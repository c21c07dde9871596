-- ===== src/Service/Consistent.antt =====
-- pkg/service/service.go, ServiceWatcher: a service is added when there was none, and removed when
-- there was one.
use ngpool.Prelude.{
  ◌≡◌, refl, sym, ap, ◌∙◌, true, false, Option, none, some, List, [], ◌∷◌, ◌++◌, map, Bool-cases,
  inl, inr,
}
use mathlib.Core.Path.{subst}
use ngpool.Prelude.Map.{Map, lookup, insert, lookup-insert, beq_refl, bytes_eq, bytes_beq_iff, ◌==◌}
use ngpool.Prelude.Run.{ok, >>=-eq-ok, ok-injective}
use ngpool.Bytes.{Bytes}
use ngpool.Service.{
  after_slash, Action, added, updated, removed, EtcdAction, expire, set, update, other, Directory,
  nodes, failed, not_found, ServiceStatusUpdate, Watcher, parse_nodes, load_services, as_added,
  first_updates, find_service, expired, added_or_updated, stored, watch_step, watch,
  service_watcher,
}
use ngpool.Service.Agree.{
  follow, follow_one, IsDistinct, parse_nodes-IsDistinct, IsFollowed, watch_step-IsFollowed,
  start-IsFollowed,
}

module _ {ℓ} {A : Type ℓ} where
  -- An action suits what a receiver has of the id.
  abbrev pub IsFitting : Action → Option A → Type ℓ
  IsFitting added old = old ≡ none
  IsFitting updated old = (status : A) × (old ≡ some status)
  IsFitting removed old = (status : A) × (old ≡ some status)

  abbrev pub IsConsistent : List (ServiceStatusUpdate A) → Map Bytes A → Type ℓ
  IsConsistent [] m = Unit
  IsConsistent (u ∷ updates) m =
      IsFitting u.action (lookup u.service_id m)
      × IsConsistent updates (follow_one u.action u.service_id u.status m)

  append-IsConsistent :
      (us : List (ServiceStatusUpdate A)) (u : ServiceStatusUpdate A) (m : Map Bytes A)
      → IsConsistent us m
      → IsFitting u.action (lookup u.service_id (follow us m))
      → IsConsistent (us ++ u ∷ []) m
  append-IsConsistent [] u m h fits = (fits, tt)
  append-IsConsistent (v ∷ us) u m h fits =
      (h.0, append-IsConsistent us u (follow_one v.action v.service_id v.status m) h.1 fits)

module _ {ℓ} {A : Type ℓ} (unmarshal : Bytes → A) where
  first-IsConsistent :
      (services m : Map Bytes A)
      → IsDistinct services
      → ((id : Bytes) (status : A) → lookup id services ≡ some status → lookup id m ≡ none)
      → IsConsistent (map (as_added unmarshal) services) m
  unfolding lookup
  first-IsConsistent [] m d new = tt
  first-IsConsistent (entry ∷ services) m d new = (
    new entry.0 entry.1 (rw (beq_refl entry.0) refl),
    first-IsConsistent services (insert entry.0 entry.1 m) d.1 (λ id status found.
        elim (Bool-cases (entry.0 == id)) [
          | inl same ↦
              let e : entry.0 ≡ id = (bytes_beq_iff entry.0 id).0 same in
              let gone : lookup id services ≡ none = subst (λ k. lookup k services ≡ none) e d.0 in
              absurd cc
          | inr apart ↦
              rw (lookup-insert entry.0 id entry.1 m, apart) (new id status (rw apart found))
        ]),
  )

  expired-IsConsistent :
      (id : Bytes) (w : Watcher A)
      → IsFollowed unmarshal w
      → IsConsistent w.updates []
      → (services : Option (Map Bytes A)) → w.services ≡ services
      → (found : Option A) → find_service unmarshal id services ≡ found
      → IsConsistent (expired unmarshal id services found w.updates).updates []
  expired-IsConsistent id w f c none e found e' = c
  expired-IsConsistent id w f c (some services) e none e' = c
  expired-IsConsistent id w f c (some services) e (some status) e' =
      append-IsConsistent w.updates _ [] c (status, f id ∙ ap (find_service unmarshal id) e ∙ e')

  added_or_updated-IsFitting : (old : Option A) → IsFitting (added_or_updated unmarshal old) old
  added_or_updated-IsFitting none = refl
  added_or_updated-IsFitting (some status) = (status, refl)

  stored-IsConsistent :
      (id : Bytes) (status : A) (w w' : Watcher A) (services : Option (Map Bytes A))
      → w.services ≡ services
      → stored unmarshal id status services w.updates ≡ ok w'
      → IsFollowed unmarshal w
      → IsConsistent w.updates []
      → IsConsistent w'.updates []
  stored-IsConsistent id status w w' none e done f c = cc
  stored-IsConsistent id status w w' (some services) e done f c =
      subst (λ (v : Watcher A). IsConsistent v.updates []) (ok-injective done)
        (append-IsConsistent w.updates _ [] c (
          subst (IsFitting (added_or_updated unmarshal (lookup id services)))
            (sym (f id ∙ ap (find_service unmarshal id) e))
            (added_or_updated-IsFitting (lookup id services))))

  watch_step-IsConsistent :
      (e : EtcdAction × Bytes × Bytes) (w w' : Watcher A)
      → watch_step unmarshal e w ≡ ok w'
      → IsFollowed unmarshal w
      → IsConsistent w.updates []
      → IsConsistent w'.updates []
  watch_step-IsConsistent (expire, key, value) w w' done f c =
      subst (λ (v : Watcher A). IsConsistent v.updates []) (ok-injective done)
        (expired-IsConsistent (after_slash [] key) w f c w.services refl _ refl)
  watch_step-IsConsistent (set, key, value) w w' done f c =
      stored-IsConsistent (after_slash [] key) (unmarshal value) w w' w.services refl done f c
  watch_step-IsConsistent (update, key, value) w w' done f c =
      stored-IsConsistent (after_slash [] key) (unmarshal value) w w' w.services refl done f c
  watch_step-IsConsistent (other, key, value) w w' done f c =
      subst (λ (v : Watcher A). IsConsistent v.updates []) (ok-injective done) c

  watch-IsConsistent :
      (events : List (EtcdAction × Bytes × Bytes)) (w w' : Watcher A)
      → watch unmarshal events w ≡ ok w'
      → IsFollowed unmarshal w
      → IsConsistent w.updates []
      → IsConsistent w'.updates []
  unfolding watch
  watch-IsConsistent [] w w' done f c =
      subst (λ (v : Watcher A). IsConsistent v.updates []) (ok-injective done) c
  watch-IsConsistent (e ∷ events) w w' done f c =
      let (w1, e1, e2) = >>=-eq-ok (watch_step unmarshal e w) _ done in
      watch-IsConsistent events w1 w' e2 (watch_step-IsFollowed unmarshal e w w1 e1 f)
        (watch_step-IsConsistent e w w1 e1 f c)

  start-IsConsistent :
      (directory : Directory) (services : Option (Map Bytes A))
      → load_services unmarshal directory ≡ ok services
      → IsConsistent (first_updates unmarshal services) []
  unfolding load_services lookup
  start-IsConsistent failed services e = cc
  start-IsConsistent (not_found false) services e = cc
  start-IsConsistent (not_found true) services e =
      subst (λ (s : Option (Map Bytes A)). IsConsistent (first_updates unmarshal s) [])
        (ok-injective e) tt
  start-IsConsistent (nodes list) services e =
      subst (λ (s : Option (Map Bytes A)). IsConsistent (first_updates unmarshal s) [])
        (ok-injective e)
        (first-IsConsistent (parse_nodes unmarshal list []) []
          (parse_nodes-IsDistinct unmarshal list [] tt) (λ id status found. refl))

  -- The updates of ServiceWatcher, to a receiver that starts with no service, add no service that it
  -- has and remove none that it has not.
  pub service_watcher-IsConsistent :
      (directory : Directory) (events : List (EtcdAction × Bytes × Bytes)) (w : Watcher A)
      → service_watcher unmarshal directory events ≡ ok w
      → IsConsistent w.updates []
  unfolding service_watcher
  service_watcher-IsConsistent directory events w e =
      let (services, e1, e2) = >>=-eq-ok (load_services unmarshal directory) _ e in
      watch-IsConsistent events
        (record { services = services; updates = first_updates unmarshal services }) w e2
        (start-IsFollowed unmarshal directory services e1)
        (start-IsConsistent directory services e1)
