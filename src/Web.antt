-- ===== src/Web.antt =====
-- cmd/ngweb/api.go and getWorkers of handler_user.go: the stratum and coin servers that the web API
-- follows, and the workers that it shows. A pointer to a client's status is the number of its cell.
pub mod Workers
use ngpool.Prelude.{
  ℕ, zero, suc, ◌+◌, Bool, true, false, String, Option, none, some, List, [], ◌∷◌, ◌++◌, ltb,
  get_elem?, set, if◌then◌else◌,
}
use Prim.Native.String.{len, slice, ◌++◌ as str_append}
use ngpool.Prelude.Map.{Map, lookup, insert, delete, string_eq, bytes_eq, ◌==◌}
use ngpool.Prelude.Run.{Run, ok, panic, or_panic, ◌>>=◌}
use ngpool.Bytes.{Bytes}
use ngpool.Service.{Action, added, updated, removed, ServiceStatusUpdate}

pub record StratumClientStatus : Type 0 where
  pub username : String
  pub hashrate : ℕ
  pub name : String
  pub difficulty : ℕ

-- The stratum servers, and of the last round of WatchStratum: the variable of each server's loop
-- over its clients, and the pointers of each user.
pub record Stratums (Raw : Type 0) : Type 0 where
  pub stratums : Map Bytes Raw
  pub heap : List (Option StratumClientStatus)
  pub stratum_clients : Map String (List ℕ)

abbrev pub or_nil : Option (List ℕ) → List ℕ
or_nil none = []
or_nil (some ps) = ps

-- clients[name] = append(clients[name], &client)
unfoldable pub push : String → ℕ → Map String (List ℕ) → Map String (List ℕ)
unfolding insert lookup
push name p clients = insert name (or_nil (lookup name clients) ++ p ∷ []) clients

-- The loop over one server's clients, whose variable is the cell `p`.
unfoldable pub list_clients :
    ℕ
    → List StratumClientStatus
    → Option StratumClientStatus
    → Map String (List ℕ)
    → Option StratumClientStatus × Map String (List ℕ)
unfolding push
list_clients p [] cell clients = (cell, clients)
list_clients p (client ∷ rest) cell clients =
    list_clients p rest (some client) (push client.username p clients)

module _ {Raw : Type 0} (decode : Raw → Option (List StratumClientStatus)) where
  abbrev pub clients_in : Option (List StratumClientStatus) → List StratumClientStatus
  clients_in none = []
  clients_in (some clients) = clients

  -- The loop over the servers, from the cell `p` on. One whose status does not decode is skipped.
  unfoldable pub list_stratums :
      ℕ
      → List (Bytes × Raw)
      → Map String (List ℕ)
      → List (Option StratumClientStatus) × Map String (List ℕ)
  unfolding list_clients
  list_stratums p [] clients = ([], clients)
  list_stratums p ((id, raw) ∷ rest) clients =
      let (cell, clients') = list_clients p (clients_in (decode raw)) none clients in
      let (heap, all) = list_stratums (suc p) rest clients' in (cell ∷ heap, all)

  abbrev follow_action : Action → Bytes → Raw → Map Bytes Raw → Map Bytes Raw
  follow_action removed id raw stratums = delete id stratums
  follow_action updated id raw stratums = insert id raw stratums
  follow_action added id raw stratums = insert id raw stratums

  -- A round of WatchStratum.
  unfoldable pub watch_stratum : ServiceStatusUpdate Raw → Stratums Raw → Stratums Raw
  unfolding insert delete list_stratums
  watch_stratum u s =
      let stratums = follow_action u.action u.service_id u.status s.stratums in
      let (heap, clients) = list_stratums 0 stratums [] in
      record { stratums = stratums; heap = heap; stratum_clients = clients }

-- The loop of getWorkers: a duplicate's name is changed in its cell.
unfoldable show_workers :
    List ℕ
    → List (Option StratumClientStatus)
    → Map String ℕ
    → Run (List (Option StratumClientStatus) × Map String ℕ)
unfolding lookup insert
show_workers [] heap workers = ok (heap, workers)
show_workers (p ∷ ps) heap workers = elim (get_elem? heap p) [
  | some (some worker) ↦ elim (lookup worker.name workers) [
    | none ↦ show_workers ps heap (insert worker.name p workers)
    | some _ ↦
        let name = str_append worker.name "*" in
        show_workers ps (set heap p (some (record worker { name = name }))) (insert name p workers)
  ]
  | _ ↦ panic
]

-- getWorkers
unfoldable get_workers :
    String
    → List (Option StratumClientStatus)
    → Map String (List ℕ)
    → Run (List (Option StratumClientStatus) × Map String ℕ)
unfolding lookup show_workers
get_workers username heap stratum_clients =
    show_workers (or_nil (lookup username stratum_clients)) heap []

abbrev pub Labels : Type 0
Labels = Map String String

-- A client of a currency is known by its host.
pub record Coinservers : Type 0 where
  pub currency_rpc : Map String String
  pub coinservers : Map Bytes Labels

abbrev label : String → Labels → String
label key labels = elim (lookup key labels) [ none ↦ "" | some value ↦ value ]

-- endpoint[7:] + "rpc"
abbrev pub rpc_host : String → Option String
rpc_host endpoint =
    if ltb (len endpoint) 7 then none else some (str_append (slice endpoint 7 (len endpoint)) "rpc")

module _ (new_client : String → Bool) where
  -- A round of WatchCoinservers; rpcclient.New may fail for a host.
  unfoldable watch_coinservers : ServiceStatusUpdate Labels → Coinservers → Run Coinservers
  unfolding lookup insert delete
  watch_coinservers u s =
      let currency = label "currency" u.status in
      elim u.action [
        | removed ↦ ok (record {
          currency_rpc = delete currency s.currency_rpc;
          coinservers = delete u.service_id s.coinservers;
        })
        | updated ↦ ok (record s { coinservers = insert u.service_id u.status s.coinservers })
        | added ↦ or_panic (rpc_host (label "endpoint" u.status)) >>= λ host. ok (record {
          currency_rpc =
              if new_client host then insert currency host s.currency_rpc else s.currency_rpc;
          coinservers = insert u.service_id u.status s.coinservers;
        })
      ]

unfoldable get_rpc : String → Coinservers → Option String
unfolding lookup
get_rpc currency s = lookup currency s.currency_rpc
