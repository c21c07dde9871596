-- ===== src/Tests/Services.antt =====
-- Runs of the service watcher, the broadcaster and the read loop.
use ngpool.Prelude.{
  map, ◌^◌, ◌/◌, true, false, ℕ, ◌+◌, All, ◌≡◌, refl, Bool, String, none, some, List, [], ◌∷◌, ◌++◌,
}
use ngpool.Prelude.Int.{pos}
use ngpool.Prelude.Map.{Map, lookup, bytes_eq, string_eq}
use ngpool.Prelude.Run.{Run, ok}
use ngpool.Bytes.{Bytes}
use ngpool.Config.{Algo, ChainConfig}
use ngpool.Config.Algos.{algo_config}
use ngpool.Config.Currencies.{ChainConfigDecoder, Networks, setup_currencies}
use ngpool.Config.Currencies.Checked.{IsConfigured, setup_currencies-IsConfigured}
use ngpool.Broadcast.{Request, submit, register, Broadcaster, run}
use ngpool.Broadcast.Order.{received, submitted, run-register}
use ngpool.Service.{EtcdAction, set, expire, nodes, Watcher, service_watcher, find_service}
use ngpool.Service.Agree.{follow, service_watcher-IsFollowed}
use ngpool.Vardiff.{Tuner}
use ngpool.Tests.Numbers.{whole_ops}
use ngpool.Client.{Client, new_client}
use ngpool.Client.Messages.{no_array}
use ngpool.Client.Read.{Decoders, Moment, Line, message, read_loop, mining_submit}
use ngpool.Client.Read.Order.{IsOutside, read_loop-IsOutside}

abbrev early : Broadcaster String
early = record { last_send = none; outputs = 3 ∷ []; log = [] }

abbrev two_items : List (Request String)
two_items = submit "a" ∷ register 5 ∷ submit "b" ∷ []

run-register_example :
    received 4 (run (register 4 ∷ two_items) early).log
    ≡ received 4 early.log ++ (early.last_send ∷ submitted two_items)
run-register_example = run-register 4 two_items early refl (tt, (refl, (tt, tt)))

-- A status is the node's value.
abbrev as_is : Bytes → Bytes
as_is value = value

abbrev key_of : ℕ → Bytes
key_of id = b'/' ∷ 115 ∷ b'/' ∷ id ∷ []

abbrev events : List (EtcdAction × Bytes × Bytes)
events = (set, key_of 2, 8 ∷ []) ∷ (expire, key_of 1, []) ∷ []

watched :
    (w : Watcher Bytes) × (service_watcher as_is (nodes ((key_of 1, 7 ∷ []) ∷ [])) events ≡ ok w)
unfolding service_watcher
watched = (_, refl)

service_watcher-IsFollowed_example :
    lookup (2 ∷ []) (follow watched.0.updates []) ≡ find_service as_is (2 ∷ []) watched.0.services
service_watcher-IsFollowed_example =
    service_watcher-IsFollowed as_is (nodes ((key_of 1, 7 ∷ []) ∷ [])) events watched.0 watched.1
      (2 ∷ [])

abbrev no_decoders : Decoders
no_decoders = record { submit2 = λ p. none; login = λ p. none }

abbrev one_tier : Tuner
one_tier = record {
  vardiff = record { target_submission_rate = 6; tiers = 1 ∷ [] };
  ops = whole_ops;
}

abbrev early_submit : List (Moment × Line)
early_submit =
    (
      record { diff_sub = []; notify_sub = []; rate = 0; now = 0 },
      message (record { id = some (pos 1); method = "mining.submit"; params = no_array }),
    )
    ∷ []

refused : (r : Client × Bool) × (read_loop no_decoders one_tier early_submit (new_client []) ≡ ok r)
unfolding read_loop mining_submit
refused = (_, refl)

read_loop-IsOutside_example : IsOutside refused.0.0
read_loop-IsOutside_example =
    read_loop-IsOutside no_decoders one_tier early_submit (new_client []) refused.0.0 refused.0.1
      ((refl, refl, refl), tt) refused.1 (refl, refl, refl)

abbrev section : ChainConfigDecoder
section = record {
  code = "ltc";
  pow_algorithm = "scrypt";
  subsidy_address = "addr";
  pub_key_addr_id = "30";
  priv_key_addr_id = "b0";
  net_magic = 7;
  block_mature_confirms = 100;
  payout_transaction_fee = 5;
  flush_aux = true;
  multi_algo = false;
  multi_algo_map = [];
  multi_algo_bit_shift = 0;
  multi_algo_bit_width = 0;
}

abbrev networks : Networks ℕ
networks = record {
  to_upper = λ name. "LTC";
  hex_decode = λ text. some (48 ∷ []);
  register = λ params n. some (n + 1);
  decode_address = λ text params. some text;
}

configured :
    (after : Map String ChainConfig) × (setup_currencies networks []
        (("ltc", some section) ∷ [])
        0
        []
      ≡ ok (1, after))
unfolding setup_currencies
configured = (_, refl)

setup_currencies-IsConfigured_example : All IsConfigured configured.0
setup_currencies-IsConfigured_example =
    setup_currencies-IsConfigured networks [] (("ltc", some section) ∷ []) 0 1 [] configured.0 tt
      configured.1

-- A hash below a share target is found in about 2^256 by the target hashes, which is what
-- HashesPerShare says of each algorithm but one.
abbrev per_share : ℕ → ℕ
per_share target = 2 ^ 256 / target

abbrev algo_row : String × Algo → String × ℕ × ℕ
algo_row (name, algo) = (name, algo.hashes_per_share, per_share algo.share_diff1)

abbrev rows_of : Run (Map String Algo) → List (String × ℕ × ℕ)
rows_of (ok algos) = map algo_row algos
rows_of _ = []

algo_config_rows :
    rows_of (algo_config (λ name header. none))
    ≡ ("scrypt", 65535, 65537)
      ∷ ("sha256d", 4294967295, 4295032833)
      ∷ ("lyra2rev2", 4294967295, 65537)
      ∷ ("x17", 65535, 65537)
      ∷ ("argon2", 65535, 65537)
      ∷ ("cryptonight", 65535, 65537)
      ∷ []
unfolding algo_config
algo_config_rows = refl
