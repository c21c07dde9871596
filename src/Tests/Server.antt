-- ===== src/Tests/Server.antt =====
-- Runs of the stratum server's listeners and of the coin server's templates.
use ngpool.Prelude.{
  ℕ, ◌≡◌, refl, Bool, String, Option, none, some, List, [], ◌∷◌, ◌++◌, arith, All, inr, replicate,
  if◌then◌else◌,
}
use ngpool.Prelude.Int.{pos}
use ngpool.Prelude.Map.{lookup, insert, delete, bytes_eq, string_eq, nat_eq, ◌==◌}
use ngpool.Prelude.Run.{ok}
use ngpool.Bytes.{Bytes}
use ngpool.Job.{BlockSolve}
use ngpool.Job.Build.{TemplateKey}
use ngpool.Client.{Share}
use ngpool.Service.{
  EtcdAction, set, expire, nodes, Watcher, service_watcher, find_service, after_slash,
}
use ngpool.Server.{Labels, Watchers, handle_coinserver_watcher_updates}
use ngpool.Server.Mirror.{no_watchers, IsAlike, IsClosed, handle_updates-service_watcher}
use ngpool.Server.Shares.{MinuteKey, Tables, Server}
use ngpool.Server.Shares.Listen.{listen_shares}
use ngpool.Server.Shares.Keys.{shares_of}
use ngpool.Server.Shares.Count.{row_count, no_tables, listen_shares-row_count}
use ngpool.Server.Templates.{
  Input, message, Stream, listening, up, no_event, run_template_broadcaster, payloads,
  run_template_broadcaster-listening,
}
use ngpool.CoinBuddy.{result, Json, update_block}
use ngpool.CoinBuddy.Updates.{
  System, ◌⟶*◌, update, submit, here, more, count, is_template, IsCurrent, start,
  update_block-IsCurrent, update_block-drains,
}
use ngpool.Coinserver.{wait_until_up}
use ngpool.Coinserver.Wait.{wait_until_up_lem}

abbrev key : TemplateKey
key = record { algo = "scrypt"; currency = "LTC"; template_type = "getblocktemplate" }

-- A service's node says 1 when it is of the key.
abbrev labels_of : Bytes → Labels
labels_of value =
    if value == (1 ∷ [])
    then ("algo", "scrypt") ∷ ("currency", "LTC") ∷ ("template_type", "getblocktemplate") ∷ []
    else ("currency", "BTC") ∷ []

abbrev node_of : ℕ → Bytes
node_of id = b'/' ∷ id ∷ []

abbrev events : List (EtcdAction × Bytes × Bytes)
events =
    (set, node_of 2, 0 ∷ [])
    ∷ (expire, node_of 1, [])
    ∷ (set, node_of 1, 1 ∷ [])
    ∷ (expire, node_of 2, [])
    ∷ []

abbrev wanted : Bytes → Bool
wanted id = id == (1 ∷ [])

watched :
    (w : Watcher Labels) × (service_watcher labels_of (nodes ((node_of 1, 1 ∷ []) ∷ [])) events
      ≡ ok w)
unfolding service_watcher lookup insert after_slash
watched = (_, refl)

handle_updates-service_watcher_example :
    (s : Watchers) × (handle_coinserver_watcher_updates (key ∷ []) watched.0.updates no_watchers
      ≡ ok s)
    × ((id : Bytes)
        → IsAlike
            (wanted id)
            (lookup id s.coinserver_watchers)
            (find_service labels_of id watched.0.services))
    × All IsClosed s.replaced
unfolding watched delete
handle_updates-service_watcher_example =
    handle_updates-service_watcher (key ∷ []) wanted labels_of (nodes ((node_of 1, 1 ∷ []) ∷ []))
      events watched.0 watched.1 (refl, (refl, (refl, (refl, (refl, tt)))))

abbrev solve : BlockSolve
solve = record {
  powhash = 5;
  target = pos 9;
  coinbase_hash = 7 ∷ [];
  height = 3;
  subsidy = 50;
  powalgo = "scrypt";
  solved = replicate 80 0;
  subsidy_address = "addr";
}

abbrev share : Share
share = record {
  username = b'a' ∷ [];
  worker = b'w' ∷ [];
  time = 90000000000;
  difficulty = 4;
  currencies = "LTC" ∷ [];
  blocks = ("LTC", solve) ∷ [];
}

abbrev later_share : Share
later_share = record share { time = 100000000000; worker = b'v' ∷ []; blocks = [] }

abbrev server : Server
server = record {
  chain_name = b'L' ∷ [];
  stratum_name = b's' ∷ [];
  currencies = (b'L' ∷ []) ∷ (b'D' ∷ []) ∷ [];
}

listen_shares-row_count_example :
    (t : Tables) × (listen_shares (λ x. x) server ("LTC" ∷ []) (share ∷ later_share ∷ []) no_tables
      ≡ ok t)
    × ((k : MinuteKey)
        → row_count k t.minute_shares ≡ shares_of server k (share ∷ later_share ∷ []))
listen_shares-row_count_example =
    listen_shares-row_count (λ x. x) server ("LTC" ∷ []) (share ∷ later_share ∷ [])
      (refl, (refl, tt)) (((refl, refl), ((refl, refl), tt)), (((refl, refl), tt), tt))
      (omega arith)

abbrev stream : Stream
stream = record { phase = listening; status = up; last_event = no_event; new_templates = [] }

abbrev broken : List Input
broken =
    message (some (record { event = some (1 ∷ []); payload = some (8 ∷ []) }))
    ∷ message none
    ∷ message (some (record { event = none; payload = some (9 ∷ []) }))
    ∷ []

run_template_broadcaster-listening_example :
    ((run_template_broadcaster (λ x. x) broken stream).phase ≡ listening)
    × ((run_template_broadcaster (λ x. x) broken stream).new_templates
        ≡ [] ++ payloads (λ x. x) broken)
run_template_broadcaster-listening_example =
    run_template_broadcaster-listening (λ x. x) broken stream refl (tt, (tt, (tt, tt)))

-- A template's height is its first byte.
abbrev json : Json
json = record {
  unmarshal_height = λ raw. elim raw [ [] ↦ none | height ∷ rest ↦ some height ];
  unmarshal_object = λ raw. none;
  marshal = λ extras. none;
  null = [];
}

-- The second template is submitted before the first.
abbrev crossing : System
crossing = record {
  buddy = record {
    last_block = some (2 ∷ 9 ∷ []);
    last_block_height = 2;
    template_extras = 9 ∷ [];
  };
  pending = (1, 1 ∷ 9 ∷ []) ∷ [];
  submitted = (2, 2 ∷ 9 ∷ []) ∷ [];
}

crossed : ◌⟶*◌ json (start (9 ∷ [])) crossing
unfolding update_block
crossed =
    more
      (update (result (1 ∷ 0 ∷ []))
        (record { last_block = some (1 ∷ 9 ∷ []); last_block_height = 1; template_extras = 9 ∷ [] })
        (some (1, 1 ∷ 9 ∷ [])) refl)
      (more
        (update (result (2 ∷ 0 ∷ []))
          (record {
            last_block = some (2 ∷ 9 ∷ []);
            last_block_height = 2;
            template_extras = 9 ∷ [];
          })
          (some (2, 2 ∷ 9 ∷ [])) refl)
        (more (submit [] ((1, 1 ∷ 9 ∷ []) ∷ []) (2, 2 ∷ 9 ∷ []) refl) here))

update_block-IsCurrent_example : IsCurrent crossing
update_block-IsCurrent_example = update_block-IsCurrent json (9 ∷ []) crossing crossed

update_block-drains_example :
    (t : System) × ◌⟶*◌ json crossing t
    × (t.buddy ≡ crossing.buddy)
    × (t.pending ≡ [])
    × (count (is_template 2 (2 ∷ 9 ∷ [])) t.submitted ≡ 1)
update_block-drains_example = update_block-drains json (9 ∷ []) (2 ∷ 9 ∷ []) crossing crossed refl

-- The node answers at the third call.
abbrev third_up : ℕ → Option String
third_up i = if i == 2 then none else some "down"

wait_until_up_lem_example : wait_until_up third_up ≡ (2, none)
wait_until_up_lem_example =
    wait_until_up_lem third_up 2 (omega arith) (λ j before. ("down", ground (arith, before)))
      (inr refl)
