-- ===== src/Tests/Payouts.antt =====
-- Runs of the payouts' and the block confirmation's code.
use ngpool.Payout.Post.Spend.{spend_inputs-pick_utxos}
use ngpool.Prelude.{ℕ, ◌≡◌, ◌≢◌, refl, true, false, String, none, some, List, [], ◌∷◌, All, arith}
use ngpool.Prelude.Int.{ℤ, pos, sumℤ, ◌+ℤ◌}
use ngpool.Prelude.Map.{Map, lookup}
use ngpool.Prelude.Run.{ok}
use ngpool.Bytes.{Bytes, reverse_bytes}
use ngpool.Config.{ChainConfig}
use ngpool.Credits.{BlockRow, immature, select}
use ngpool.Payout.{
  pick_utxos, Utxo, Credit, PayoutAddress, Due, Rpc, Draft, due_credits, group_credits, fund_payout,
  create_payout, is_spendable,
}
use ngpool.Payout.Create.{
  map_amounts, map_fees, due_amounts, input_amounts, output_amounts, create_payout-balance,
}
use ngpool.Payout.Pick.{IsNeeded, pick_utxos-IsNeeded}
use ngpool.Payout.Post.{Tables, PayoutRequest, PayoutTransaction, Wire, post_payout, spend_inputs}
use ngpool.Payout.Post.Once.{post_payout-once}
use ngpool.Payout.Post.Gone.{in_maps, post_payout-due}
use ngpool.Payout.Send.{resend, abort, Wallet, missing, turn}
use ngpool.Payout.Send.Resend.{turn-fresh}
use ngpool.Blocks.{CoinServer, Ledger, confirm_loop}
use ngpool.Blocks.Status.{find_block, can_spend, confirm_loop-others}
use ngpool.Tests.Money.{thousandths}

abbrev pub bitcoin : ChainConfig
bitcoin = record {
  code = "BTC";
  block_mature_confirms = 100;
  flush_aux = false;
  payout_transaction_fee = 1;
  multi_algo = false;
  multi_algo_map = [];
  multi_algo_bit_shift = 0;
  multi_algo_bit_width = 0;
  algo = none;
  block_subsidy_address = "pool";
}

-- A coin server that makes a transaction of one byte, which counts 200.
abbrev server : Rpc
server = record {
  decode_address = λ a. true;
  create_raw = λ inputs outputs. some (1 ∷ []);
  serialize_size = λ tx. 200;
  serialize_no_witness = λ tx. some tx;
}

abbrev addresses : List PayoutAddress
addresses =
    record { user_id = 2; currency = "BTC"; address = "amy" }
    ∷ record { user_id = 3; currency = "BTC"; address = "bob" }
    ∷ []

abbrev credit_of : ℕ → ℕ → ℕ → Credit
credit_of id user amount = record {
  id = id;
  user_id = user;
  amount = pos amount;
  currency = "BTC";
  payout_transaction = none;
}

abbrev credits : List Credit
credits = credit_of 11 2 3000 ∷ credit_of 12 3 1000 ∷ credit_of 13 2 500 ∷ []

abbrev utxos : List Utxo
utxos =
    record {
      hash = 5 ∷ 6 ∷ [];
      vout = 0;
      currency = "BTC";
      address = "pool";
      amount = pos 9000;
      spent = false;
      spendable = true;
    }
    ∷ []

made :
    (draft : Draft) × (create_payout thousandths
        (some bitcoin)
        (some server)
        "BTC"
        addresses
        credits
        utxos
      ≡ ok (some draft))
unfolding create_payout group_credits fund_payout select ◌+ℤ◌
made = (_, refl)

create_payout-balance_example :
    (sumℤ (map_amounts made.0.meta.payout_maps)
      ≡ sumℤ (due_amounts (due_credits addresses "BTC" credits)))
    × ((outputs : List (String × ℤ)) × (raw : Bytes) × (server.create_raw made.0.meta.inputs outputs
          ≡ some raw)
        × (server.serialize_no_witness raw ≡ some made.0.tx)
        × (sumℤ (output_amounts outputs) +ℤ sumℤ (map_fees made.0.meta.payout_maps)
            ≡ sumℤ (input_amounts made.0.meta.inputs)))
create_payout-balance_example =
    create_payout-balance thousandths bitcoin server "BTC" addresses credits utxos made.0 made.1

abbrev address_of : Bytes → String
address_of [] = "pool"
address_of (_ ∷ _) = "amy"

-- A request that pays amy, with its change.
abbrev wire : Wire
wire = record {
  parse_tx = λ tx. some (
    8 ∷ 8 ∷ [],
    record { value = pos 2900; pk_script = 1 ∷ [] }
        ∷ record { value = pos 6000; pk_script = [] }
        ∷ [],
  );
  script_address = λ script. some (address_of script);
}

abbrev request : PayoutRequest
request = record {
  payout_meta = record {
    payout_maps =
        record {
          user_id = 2;
          address = "amy";
          amount = pos 3000;
          miner_fee = pos 100;
          credit_ids = 11 ∷ [];
        }
        ∷ [];
    change_address = "pool";
    inputs = record { hash = 6 ∷ 5 ∷ []; vout = 0; amount = pos 9000; address = "pool" } ∷ [];
  };
  tx = 1 ∷ [];
  currency = "BTC";
}

abbrev tables : Tables
tables = record { utxos = utxos; credits = credits; payout_transactions = []; payouts = [] }

abbrev configs : Map String ChainConfig
configs = ("BTC", bitcoin) ∷ []

posted : (db : Tables) × (post_payout wire configs request tables ≡ ok db)
unfolding post_payout lookup reverse_bytes
posted = (_, refl)

post_payout-once_example :
    ¬ ((last : Tables) × (post_payout wire configs request posted.0 ≡ ok last))
post_payout-once_example =
    post_payout-once wire configs request tables posted.0 posted.0 posted.1 (λ hash there. there)

post_payout-due_example :
    All
      (λ (d : Due). in_maps d.id request.payout_meta.payout_maps ≡ false)
      (due_credits addresses "BTC" posted.0.credits)
post_payout-due_example =
    post_payout-due wire configs request tables posted.0 addresses "BTC" posted.1

abbrev lost_wallet : Wallet
lost_wallet = record { get_tx_out = λ hash. missing; send_raw_transaction = λ tx. some [] }

abbrev sent_tx : PayoutTransaction
sent_tx = record {
  hash = 8 ∷ 8 ∷ [];
  signed_tx = 1 ∷ [];
  currency = "BTC";
  sent = some 1000;
  confirmed = false;
}

turn-fresh_example :
    (turn 5000 (some lost_wallet) sent_tx ≢ resend) × (turn 5000 (some lost_wallet) sent_tx ≢ abort)
turn-fresh_example = turn-fresh 5000 1000 (some lost_wallet) sent_tx (omega arith) refl

abbrev young_block : BlockRow
young_block = record {
  currency = "BTC";
  height = 7;
  hash = "aa";
  coinbase_hash = "bb";
  powalgo = "sha256d";
  subsidy = pos 5000;
  mined_at = 30;
  target = 50000;
  status = immature;
  credited = false;
}

abbrev ledger : Ledger
ledger = record {
  blocks = young_block ∷ record young_block { hash = "cc"; coinbase_hash = "dd" } ∷ [];
  utxos =
      record { hash = "bb"; spendable = false } ∷ record { hash = "dd"; spendable = false } ∷ [];
}

abbrev coin_servers : Map String CoinServer
coin_servers =
    (
      "BTC",
      record {
        get_block_verbose = λ hash. some (pos 120, pos 7);
        get_block_count = some (pos 127);
      },
    )
    ∷ []

confirm_loop-others_example :
    (find_block "cc" (confirm_loop configs coin_servers (young_block ∷ []) [] ledger).blocks
      ≡ find_block "cc" ledger.blocks)
    × (can_spend "dd" (confirm_loop configs coin_servers (young_block ∷ []) [] ledger).utxos
        ≡ can_spend "dd" ledger.utxos)
confirm_loop-others_example =
    confirm_loop-others configs coin_servers (young_block ∷ []) [] "cc" "dd" ledger refl refl

abbrev two_utxos : List Utxo
two_utxos =
    record {
      hash = 5 ∷ 6 ∷ [];
      vout = 0;
      currency = "BTC";
      address = "pool";
      amount = pos 3000;
      spent = false;
      spendable = true;
    }
    ∷ utxos

pick_utxos-IsNeeded_example :
    IsNeeded (pos 4500) (pos 0) two_utxos (pick_utxos (pos 4500) (pos 0) two_utxos).0
pick_utxos-IsNeeded_example =
    pick_utxos-IsNeeded (pos 4500) (pos 0)
      (record {
        hash = 5 ∷ 6 ∷ [];
        vout = 0;
        currency = "BTC";
        address = "pool";
        amount = pos 3000;
        spent = false;
        spendable = true;
      })
      utxos

abbrev coin : ℕ → Utxo
coin n = record {
  hash = n ∷ 2 ∷ [];
  vout = 0;
  currency = "LTC";
  address = "pool";
  amount = pos 40;
  spent = false;
  spendable = true;
}

spend_inputs-pick_utxos_example :
    (utxos' : List Utxo) × (spend_inputs
        (pick_utxos
          (pos 60)
          (pos 0)
          (select (is_spendable "LTC") (coin 1 ∷ coin 3 ∷ coin 5 ∷ []))).0
        (coin 1 ∷ coin 3 ∷ coin 5 ∷ [])
      ≡ ok utxos')
spend_inputs-pick_utxos_example =
    spend_inputs-pick_utxos "LTC" (pos 60) (coin 1 ∷ coin 3 ∷ coin 5 ∷ [])
      ((refl, (refl, (refl, tt))))
