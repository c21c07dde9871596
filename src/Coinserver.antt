-- ===== src/Coinserver.antt =====
-- cmd/ngcoinserver/coinserver.go: the coin server's process, its configuration and its keys. The
-- operating system's answers are inputs; paths and JSON strings are parameters.
pub mod Wait
use ngpool.Prelude.{
  ℕ, zero, suc, Bool, true, false, String, Option, none, some, List, [], ◌∷◌, map, if◌then◌else◌,
}
use Prim.Native.String.{◌++◌ as str_append}
use ngpool.Prelude.Map.{Map, insert, lookup, string_eq, ◌==◌}
use ngpool.Prelude.Run.{Run, ok, err, panic, or_err, ◌>>=◌}
use ngpool.Bytes.{Bytes}
use ngpool.CoinBuddy.{Answer, result, rpc_error, other_error}

pub record Paths : Type 0 where
  pub expand : String → Option String
  pub abs : String → Option String
  pub join : String → String → String
  pub to_lower : String → String

-- The process of a pid file: whether the file could be read, its text be parsed, and the process
-- be found; whether it takes the interrupt, exits in time, and can be killed.
pub record Process : Type 0 where
  pub pidfile : Option Bytes
  pub parse_pid : Bytes → Option ℕ
  pub find_process : ℕ → Bool
  pub takes_interrupt : Bool
  pub exits_in_time : Bool
  pub can_kill : Bool

-- A value of the configuration: a text, or what is none.
pub data Value : Type 0 where
  text : String → Value
  other : Value

-- getProcess
unfoldable get_process : Process → Run ℕ
get_process p = or_err "Can't load coinserver pidfile" p.pidfile >>= λ content.
    or_err "Can't parse coinserver pidfile" (p.parse_pid content) >>= λ pid.
    if p.find_process pid then ok pid else err "Failed to find process from pidfile"

unfoldable signal_exit : Process → Run {0} Unit
signal_exit p =
    if p.takes_interrupt
    then (if p.exits_in_time then ok tt else err "SIGINT timeout reached")
    else err "Failed to signal exit to coinserver"

unfoldable kill : Process → Run {0} Unit
kill p = if p.can_kill then ok tt else err "Error exiting process"

-- Stop: whether it thinks that a process was stopped.
unfoldable pub stop : Process → Bool
unfolding get_process signal_exit kill
stop p = elim (get_process p) [
  | ok pid ↦ elim (signal_exit p) [ ok _ ↦ true | _ ↦ elim (kill p) [ ok _ ↦ true | _ ↦ false ] ]
  | _ ↦ false
]

module _ (paths : Paths) where
  abbrev override : Map String String → Map String String → Map String String
  override [] config = config
  override ((key, val) ∷ rest) config = override rest (insert key val config)

  abbrev or_empty : Option String → String
  or_empty none = ""
  or_empty (some s) = s

  -- NewCoinserver's configuration; an error of os.Exit.
  unfoldable new_config : Map String String → String → Run (Map String String)
  unfolding insert lookup
  new_config overrides blocknotify =
      let config = override overrides (("blocknotify", blocknotify) ∷ []) in
      or_err "Failed to parse datadir" (paths.expand (or_empty (lookup "datadir" config)))
      >>= λ dir. or_err "Failed to parse datadir" (paths.abs dir) >>= λ full.
          ok (insert "pid" (paths.join full "coinserver.pid") (insert "datadir" full config))

  -- The arguments of the command, in the order in which the map happens to be read.
  unfoldable args : Map String String → List String
  args config =
      map
        (λ (entry : String × String). str_append "-" (str_append entry.0 (str_append "=" entry.1)))
        config

  -- RunCoinserver's conversion of NodeConfig. A value that is no text panics.
  unfoldable node_config : List (String × Value) → Map String String → Run (Map String String)
  unfolding insert
  node_config [] config = ok config
  node_config ((key, text val) ∷ rest) config =
      node_config rest (insert (paths.to_lower key) val config)
  node_config ((key, other) ∷ rest) config = panic

-- The loop of WaitUntilUp: the i-th answer of GetInfo is its error, if any. The loop's `err` is a
-- new variable, which hides the one that is returned.
module _ (get_info : ℕ → Option String) where
  abbrev pub wait_loop : ℕ → ℕ → Option String → ℕ × Option String
  wait_loop zero i returned = (i, returned)
  wait_loop (suc left) i returned =
      let rest = wait_loop left (suc i) returned in
      elim (get_info i) [ none ↦ (i, returned) | some e ↦ rest ]

  unfoldable pub wait_until_up : ℕ × Option String
  wait_until_up = wait_loop 900 0 none

-- GenerateKeypair: the address and its key.
module _ (unmarshal : Bytes → Option String) (marshal : String → Option Bytes) where
  abbrev answered : Answer → Run Bytes
  answered (result raw) = ok raw
  answered (rpc_error code message) = err message
  answered other_error = err "request"

  unfoldable generate_keypair : Answer → (Bytes → Answer) → Run (String × String)
  generate_keypair get_new_address dump_priv_key = answered get_new_address >>= λ resp.
      or_err "unmarshal" (unmarshal resp) >>= λ pubkey. or_err "marshal" (marshal pubkey) >>= λ res.
      answered (dump_priv_key res) >>= λ dumped.
      or_err "unmarshal" (unmarshal dumped) >>= λ privkey. ok (pubkey, privkey)
