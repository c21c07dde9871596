-- ===== src/Service/Agree.antt =====
-- pkg/service/service.go, ServiceWatcher: a receiver that follows the updates has the services.
use ngpool.Prelude.{
  ◌≡◌, refl, ap, ◌∙◌, true, false, Option, none, some, List, [], ◌∷◌, ◌++◌, map, Bool-cases, inl,
  inr, arith,
}
use mathlib.Core.Path.{subst}
use ngpool.Prelude.Map.{
  Map, lookup, insert, delete, lookup-insert, lookup-delete, bytes_eq, bytes_beq_iff, ◌==◌,
}
use ngpool.Prelude.Run.{ok, >>=-eq-ok, ok-injective}
use ngpool.Bytes.{Bytes}
use ngpool.Service.{
  after_slash, Action, added, updated, removed, EtcdAction, expire, set, update, other, Directory,
  nodes, failed, not_found, ServiceStatusUpdate, Watcher, parse_nodes, load_services, as_added,
  first_updates, find_service, expired, added_or_updated, stored, watch_step, watch,
  service_watcher,
}

module _ {ℓ} {A : Type ℓ} where
  -- What a receiver that keeps a map of the services makes of an update.
  abbrev pub follow_one : Action → Bytes → A → Map Bytes A → Map Bytes A
  follow_one added id status m = insert id status m
  follow_one updated id status m = insert id status m
  follow_one removed id status m = delete id m

  abbrev pub follow : List (ServiceStatusUpdate A) → Map Bytes A → Map Bytes A
  follow [] m = m
  follow (u ∷ updates) m = follow updates (follow_one u.action u.service_id u.status m)

  follow-append :
      (us vs : List (ServiceStatusUpdate A)) (m : Map Bytes A)
      → follow (us ++ vs) m ≡ follow vs (follow us m)
  follow-append [] vs m = refl
  follow-append (u ∷ us) vs m = follow-append us vs (follow_one u.action u.service_id u.status m)

  -- No key stands twice.
  abbrev pub IsDistinct : Map Bytes A → Type ℓ
  IsDistinct [] = Unit
  IsDistinct (entry ∷ m) = (lookup entry.0 m ≡ none) × IsDistinct m

  insert-IsDistinct :
      (id : Bytes) (status : A) (m : Map Bytes A) → IsDistinct m → IsDistinct (insert id status m)
  unfolding insert lookup
  insert-IsDistinct id status [] d = (refl, tt)
  insert-IsDistinct id status (entry ∷ m) d = elim (Bool-cases (entry.0 == id)) [
    | inl same ↦
        let e : entry.0 ≡ id = (bytes_beq_iff entry.0 id).0 same in
        rw same (subst (λ k. lookup k m ≡ none) e d.0, d.1)
    | inr apart ↦
        let flipped : (id == entry.0) ≡ false =
          ground (arith, (bytes_beq_iff id entry.0).0, (bytes_beq_iff entry.0 id).1) in
        rw apart
          (rw (lookup-insert id entry.0 status m, flipped) d.0, insert-IsDistinct id status m d.1)
  ]

  pub parse_nodes-IsDistinct :
      (unmarshal : Bytes → A) (list : List (Bytes × Bytes)) (m : Map Bytes A)
      → IsDistinct m
      → IsDistinct (parse_nodes unmarshal list m)
  unfolding parse_nodes
  parse_nodes-IsDistinct unmarshal [] m d = d
  parse_nodes-IsDistinct unmarshal ((key, value) ∷ rest) m d =
      parse_nodes-IsDistinct unmarshal rest _
        (insert-IsDistinct (after_slash [] key) (unmarshal value) m d)

  abbrev or_else : Option A → Option A → Option A
  or_else none b = b
  or_else (some a) b = some a

  or_else-none : (a : Option A) → or_else a none ≡ a
  or_else-none none = refl
  or_else-none (some a) = refl

  -- The first updates give the services that they were made from.
  follow-as_added :
      (unmarshal : Bytes → A) (services m : Map Bytes A) (id : Bytes)
      → IsDistinct services
      → lookup id (follow (map (as_added unmarshal) services) m)
        ≡ or_else (lookup id services) (lookup id m)
  unfolding lookup
  follow-as_added unmarshal [] m id d = refl
  follow-as_added unmarshal (entry ∷ services) m id d =
      follow-as_added unmarshal services (insert entry.0 entry.1 m) id d.1
      ∙ rw (lookup-insert entry.0 id entry.1 m) (elim (Bool-cases (entry.0 == id)) [
        | inl same ↦
            let e : entry.0 ≡ id = (bytes_beq_iff entry.0 id).0 same in
            let gone : lookup id services ≡ none = subst (λ k. lookup k services ≡ none) e d.0 in
            rw (same, gone) refl
        | inr apart ↦ rw apart refl
      ])

  -- A receiver of the updates has just the watcher's services.
  abbrev pub IsFollowed : (Bytes → A) → Watcher A → Type ℓ
  IsFollowed unmarshal w =
      (id : Bytes) → lookup id (follow w.updates []) ≡ find_service unmarshal id w.services

module _ {ℓ} {A : Type ℓ} (unmarshal : Bytes → A) where
  expired-IsFollowed :
      (id : Bytes) (w : Watcher A) (services : Option (Map Bytes A)) (found : Option A)
      → w.services ≡ services
      → IsFollowed unmarshal w
      → IsFollowed unmarshal (expired unmarshal id services found w.updates)
  expired-IsFollowed id w none found e f key = f key ∙ ap (find_service unmarshal key) e
  expired-IsFollowed id w (some services) none e f key = f key ∙ ap (find_service unmarshal key) e
  expired-IsFollowed id w (some services) (some status) e f key =
      let told : ServiceStatusUpdate A = record {
        service_id = id;
        status = status;
        action = removed;
      } in
      ap (lookup key) (follow-append w.updates (told ∷ []) [])
      ∙ rw
          (
            lookup-delete id key (follow w.updates []),
            lookup-delete id key services,
            f key ∙ ap (find_service unmarshal key) e,
          )
          refl

  follow-added_or_updated :
      (found : Option A) (id : Bytes) (status : A) (m : Map Bytes A)
      → follow_one (added_or_updated unmarshal found) id status m ≡ insert id status m
  follow-added_or_updated none id status m = refl
  follow-added_or_updated (some _) id status m = refl

  stored-IsFollowed :
      (id : Bytes) (status : A) (w w' : Watcher A) (services : Option (Map Bytes A))
      → w.services ≡ services
      → stored unmarshal id status services w.updates ≡ ok w'
      → IsFollowed unmarshal w
      → IsFollowed unmarshal w'
  stored-IsFollowed id status w w' none e done f = cc
  stored-IsFollowed id status w w' (some services) e done f =
      subst (IsFollowed unmarshal) (ok-injective done) (λ key.
        let told : ServiceStatusUpdate A = record {
          service_id = id;
          status = status;
          action = added_or_updated unmarshal (lookup id services);
        } in
        ap (lookup key) (follow-append w.updates (told ∷ []) [])
        ∙ rw
            (
              follow-added_or_updated (lookup id services) id status (follow w.updates []),
              lookup-insert id key status (follow w.updates []),
              lookup-insert id key status services,
              f key ∙ ap (find_service unmarshal key) e,
            )
            refl)

  pub watch_step-IsFollowed :
      (e : EtcdAction × Bytes × Bytes) (w w' : Watcher A)
      → watch_step unmarshal e w ≡ ok w'
      → IsFollowed unmarshal w
      → IsFollowed unmarshal w'
  watch_step-IsFollowed (expire, key, value) w w' done f =
      subst (IsFollowed unmarshal) (ok-injective done)
        (expired-IsFollowed (after_slash [] key) w w.services _ refl f)
  watch_step-IsFollowed (set, key, value) w w' done f =
      stored-IsFollowed (after_slash [] key) (unmarshal value) w w' w.services refl done f
  watch_step-IsFollowed (update, key, value) w w' done f =
      stored-IsFollowed (after_slash [] key) (unmarshal value) w w' w.services refl done f
  watch_step-IsFollowed (other, key, value) w w' done f =
      subst (IsFollowed unmarshal) (ok-injective done) f

  watch-IsFollowed :
      (events : List (EtcdAction × Bytes × Bytes)) (w w' : Watcher A)
      → watch unmarshal events w ≡ ok w'
      → IsFollowed unmarshal w
      → IsFollowed unmarshal w'
  unfolding watch
  watch-IsFollowed [] w w' done f = subst (IsFollowed unmarshal) (ok-injective done) f
  watch-IsFollowed (e ∷ events) w w' done f =
      let (w1, e1, e2) = >>=-eq-ok (watch_step unmarshal e w) _ done in
      watch-IsFollowed events w1 w' e2 (watch_step-IsFollowed e w w1 e1 f)

  pub start-IsFollowed :
      (directory : Directory) (services : Option (Map Bytes A))
      → load_services unmarshal directory ≡ ok services
      → IsFollowed unmarshal
          (record { services = services; updates = first_updates unmarshal services })
  unfolding load_services lookup
  start-IsFollowed failed services e = cc
  start-IsFollowed (not_found false) services e = cc
  start-IsFollowed (not_found true) services e =
      subst
        (λ (s : Option (Map Bytes A)).
          IsFollowed unmarshal (record { services = s; updates = first_updates unmarshal s }))
        (ok-injective e) (λ id. refl)
  start-IsFollowed (nodes list) services e =
      subst
        (λ (s : Option (Map Bytes A)).
          IsFollowed unmarshal (record { services = s; updates = first_updates unmarshal s }))
        (ok-injective e)
        (λ id.
          let m = parse_nodes unmarshal list [] in
          follow-as_added unmarshal m [] id (parse_nodes-IsDistinct unmarshal list [] tt)
          ∙ or_else-none (lookup id m))

  -- Whatever nodes the directory holds and whatever events follow, as long as ServiceWatcher's loop
  -- goes on, a receiver that follows its updates from an empty map has for every id the status that
  -- the watcher has, and none where the watcher has none.
  pub service_watcher-IsFollowed :
      (directory : Directory) (events : List (EtcdAction × Bytes × Bytes)) (w : Watcher A)
      → service_watcher unmarshal directory events ≡ ok w
      → (id : Bytes) → lookup id (follow w.updates []) ≡ find_service unmarshal id w.services
  unfolding service_watcher
  service_watcher-IsFollowed directory events w e =
      let (services, e1, e2) = >>=-eq-ok (load_services unmarshal directory) _ e in
      watch-IsFollowed events
        (record { services = services; updates = first_updates unmarshal services }) w e2
        (start-IsFollowed directory services e1)
