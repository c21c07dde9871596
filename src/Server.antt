-- ===== src/Server.antt =====
-- cmd/ngstratum/stratum.go: the coin servers that the stratum server follows. A broadcaster is
-- known by its currency; a status is its labels.
pub mod Mirror
pub mod Shares
pub mod Templates
pub mod Status
pub mod Miner
pub mod Casts
use ngpool.Prelude.{
  ℕ, Bool, true, false, ◌&&◌, String, Option, none, some, List, [], ◌∷◌, if◌then◌else◌,
}
use ngpool.Prelude.Map.{Map, lookup, insert, string_eq, bytes_eq, ◌==◌}
use ngpool.Prelude.Run.{Run, ok, panic, ◌>>=◌}
use ngpool.Bytes.{Bytes}
use ngpool.Job.Build.{TemplateKey}
use ngpool.Service.{Action, added, updated, removed, ServiceStatusUpdate}

abbrev pub Labels : Type 0
Labels = Map String String

-- Of a watcher, what HandleCoinserverWatcherUpdates sets, and whether its shutdown channel is closed.
pub record CoinserverWatcher : Type 0 where
  pub id : Bytes
  pub tmpl_key : TemplateKey
  pub endpoint : String
  pub block_cast : String
  pub is_closed : Bool

-- The map of the watchers, those that it no longer holds, and the broadcasters of blocks.
pub record Watchers : Type 0 where
  pub coinserver_watchers : Map Bytes CoinserverWatcher
  pub replaced : List CoinserverWatcher
  pub block_cast : List String

abbrev pub label : String → Labels → String
label key labels = elim (lookup key labels) [ none ↦ "" | some value ↦ value ]

abbrev pub key_eq : TemplateKey → TemplateKey → Bool
key_eq a b =
    (a.algo == b.algo) && (a.currency == b.currency) && (a.template_type == b.template_type)

abbrev pub has_key : TemplateKey → List TemplateKey → Bool
has_key key [] = false
has_key key (k ∷ keys) = if key_eq k key then true else has_key key keys

-- getBlockCast
abbrev get_block_cast : String → List String → List String
get_block_cast key [] = key ∷ []
get_block_cast key (c ∷ casts) = if c == key then c ∷ casts else c ∷ get_block_cast key casts

-- CoinserverWatcher.Stop: closing a closed channel panics.
unfoldable pub stop_watcher : CoinserverWatcher → Run CoinserverWatcher
stop_watcher cw = if cw.is_closed then panic else ok (record cw { is_closed = true })

-- NewCoinserverWatcher, and Start.
abbrev pub new_coinserver_watcher : String → Bytes → TemplateKey → CoinserverWatcher
new_coinserver_watcher endpoint name tmpl_key = record {
  id = name;
  tmpl_key = tmpl_key;
  endpoint = endpoint;
  block_cast = tmpl_key.currency;
  is_closed = false;
}

abbrev pub replace : Option CoinserverWatcher → List CoinserverWatcher → List CoinserverWatcher
replace none old = old
replace (some cw) old = cw ∷ old

module _ (tmpl_keys : List TemplateKey) where
  abbrev pub labels_key : Labels → TemplateKey
  labels_key labels = record {
    algo = label "algo" labels;
    currency = label "currency" labels;
    template_type = label "template_type" labels;
  }

  abbrev pub add_watcher : Bytes → Labels → Watchers → Watchers
  add_watcher id labels s =
      if has_key (labels_key labels) tmpl_keys
      then record {
        coinserver_watchers =
            insert id (new_coinserver_watcher (label "endpoint" labels) id (labels_key labels))
              s.coinserver_watchers;
        replaced = replace (lookup id s.coinserver_watchers) s.replaced;
        block_cast = get_block_cast (label "currency" labels) s.block_cast;
      }
      else s

  -- The watcher stays in the map after it was stopped.
  abbrev pub remove_watcher : Bytes → Option CoinserverWatcher → Watchers → Run Watchers
  remove_watcher id none s = ok s
  remove_watcher id (some cw) s = stop_watcher cw >>= λ stopped.
      ok (record s { coinserver_watchers = insert id stopped s.coinserver_watchers })

  abbrev pub handle_update : Action → Bytes → Labels → Watchers → Run Watchers
  handle_update removed id labels s = remove_watcher id (lookup id s.coinserver_watchers) s
  handle_update updated id labels s = ok s
  handle_update added id labels s = ok (add_watcher id labels s)

  -- HandleCoinserverWatcherUpdates, each Stop being done when the next update comes.
  unfoldable pub handle_coinserver_watcher_updates :
      List (ServiceStatusUpdate Labels) → Watchers → Run Watchers
  unfolding stop_watcher lookup insert
  handle_coinserver_watcher_updates [] s = ok s
  handle_coinserver_watcher_updates (u ∷ updates) s =
      handle_update u.action u.service_id u.status s >>= handle_coinserver_watcher_updates updates
