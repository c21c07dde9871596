-- ===== src/Service.antt =====
-- pkg/service/service.go: the services of a namespace in etcd, and the updates about them.
-- The status of a service is what json.Unmarshal makes of the node's value; etcd is a parameter.
pub mod Agree
pub mod Consistent
pub mod KeepAlive
use ngpool.Prelude.{
  ℕ, Bool, true, false, Option, none, some, List, [], ◌∷◌, ◌++◌, map, if◌then◌else◌, ◌==◌,
}
use ngpool.Prelude.Map.{Map, lookup, insert, delete, bytes_eq}
use ngpool.Prelude.Run.{Run, ok, err, panic, out_of_fuel, ◌>>=◌}
use ngpool.Bytes.{Bytes}

-- node.Key[LastIndexByte(node.Key, '/') + 1:]
unfoldable pub after_slash : Bytes → Bytes → Bytes
after_slash part [] = part
after_slash part (x ∷ key) =
    let rest = after_slash [] key in if x == b'/' then rest else after_slash (part ++ x ∷ []) key

pub data Action : Type 0 where
  added updated removed : Action

pub data EtcdAction : Type 0 where
  expire set update other : EtcdAction

-- etcd's answer to the request for a directory: its nodes, each with a key and a value, an error,
-- or that there is none, and then whether one could be made.
pub data Directory : Type 0 where
  nodes : List (Bytes × Bytes) → Directory
  failed : Directory
  not_found : Bool → Directory

module _ {ℓ} (A : Type ℓ) where
  pub record ServiceStatusUpdate : Type ℓ where
    pub service_id : Bytes
    pub status : A
    pub action : Action

  -- The map of the services, which may be nil, and the updates so far.
  pub record Watcher : Type ℓ where
    pub services : Option (Map Bytes A)
    pub updates : List ServiceStatusUpdate

module _ {ℓ} {A : Type ℓ} (unmarshal : Bytes → A) where
  unfoldable pub parse_nodes : List (Bytes × Bytes) → Map Bytes A → Map Bytes A
  parse_nodes [] services = services
  parse_nodes ((key, value) ∷ rest) services =
      parse_nodes rest (insert (after_slash [] key) (unmarshal value) services)

  -- loadServices: a directory that it had to make leaves the map nil.
  unfoldable pub load_services : Directory → Run (Option (Map Bytes A))
  unfolding parse_nodes
  load_services (nodes list) = ok (some (parse_nodes list []))
  load_services failed = err "etcd"
  load_services (not_found false) = err "etcd"
  load_services (not_found true) = ok none

  abbrev pub as_added : Bytes × A → ServiceStatusUpdate A
  as_added (id, status) = record { service_id = id; status = status; action = added }

  abbrev pub first_updates : Option (Map Bytes A) → List (ServiceStatusUpdate A)
  first_updates none = []
  first_updates (some services) = map as_added services

  abbrev pub find_service : Bytes → Option (Map Bytes A) → Option A
  find_service id none = none
  find_service id (some services) = lookup id services

  -- An expired service is told with the status that it had.
  abbrev pub expired :
      Bytes → Option (Map Bytes A) → Option A → List (ServiceStatusUpdate A) → Watcher A
  expired id (some services) (some status) updates = record {
    services = some (delete id services);
    updates = updates ++ record { service_id = id; status = status; action = removed } ∷ [];
  }
  expired id services _ updates = record { services = services; updates = updates }

  abbrev pub added_or_updated : Option A → Action
  added_or_updated none = added
  added_or_updated (some _) = updated

  -- Writing to a nil map panics.
  abbrev pub stored :
      Bytes → A → Option (Map Bytes A) → List (ServiceStatusUpdate A) → Run (Watcher A)
  stored id status none updates = panic
  stored id status (some services) updates =
      let told : ServiceStatusUpdate A = record {
        service_id = id;
        status = status;
        action = added_or_updated (lookup id services);
      } in
      ok (record { services = some (insert id status services); updates = updates ++ told ∷ [] })

  -- One event of the watch; a failed one is waited out.
  abbrev pub watch_step : EtcdAction × Bytes × Bytes → Watcher A → Run (Watcher A)
  watch_step (expire, key, value) w =
      let id = after_slash [] key in
      ok (expired id w.services (find_service id w.services) w.updates)
  watch_step (set, key, value) w =
      stored (after_slash [] key) (unmarshal value) w.services w.updates
  watch_step (update, key, value) w =
      stored (after_slash [] key) (unmarshal value) w.services w.updates
  watch_step (other, key, value) w = ok w

  unfoldable pub watch : List (EtcdAction × Bytes × Bytes) → Watcher A → Run (Watcher A)
  watch [] w = ok w
  watch (e ∷ events) w = watch_step e w >>= watch events

  -- ServiceWatcher.
  unfoldable pub service_watcher : Directory → List (EtcdAction × Bytes × Bytes) → Run (Watcher A)
  unfolding load_services watch
  service_watcher directory events = load_services directory >>= λ services.
      watch events (record { services = services; updates = first_updates services })
