-- ===== src/Payout.antt =====
-- cmd/ngweb/handler_user.go: the tables that payouts read and write, and getCreatePayout.
-- A transaction hash is its bytes: the handlers' `_` for the error of hex.DecodeString never drops
-- one, since the tables hold hex that the programs wrote. Amounts are integers (int64).
pub mod Create
pub mod Pick
pub mod Post
pub mod Send
use ngpool.Prelude.{
  ℕ, zero, suc, ◌+◌, ◌*◌, ◌/◌, ◌≡◌, Bool, true, false, ◌&&◌, not, String, Option, none, some, List,
  [], ◌∷◌, ◌++◌, if◌then◌else◌, map, length,
}
use ngpool.Prelude.Int.{ℤ, pos, ◌+ℤ◌, ◌-ℤ◌, ltb_ℤ, sumℤ}
use ngpool.Prelude.Map.{Map, lookup, insert, Eq, nat_eq, string_eq, bytes_eq, ◌==◌}
use ngpool.Prelude.Run.{Run, ok, err, panic, out_of_fuel, ◌>>=◌, or_err}
use ngpool.Bytes.{Bytes, reverse_bytes}
use ngpool.Config.{Float, ChainConfig}
use ngpool.Credits.{FloatOps, select}

pub record Utxo : Type 0 where
  pub hash : Bytes
  pub vout : ℕ
  pub currency : String
  pub address : String
  pub amount : ℤ
  pub spent : Bool
  pub spendable : Bool

pub record Credit : Type 0 where
  pub id : ℕ
  pub user_id : ℕ
  pub amount : ℤ
  pub currency : String
  pub payout_transaction : Option Bytes

pub record PayoutAddress : Type 0 where
  pub user_id : ℕ
  pub currency : String
  pub address : String

-- A row of the query: a credit with its user's address.
pub record Due : Type 0 where
  pub id : ℕ
  pub user_id : ℕ
  pub amount : ℤ
  pub address : String

-- common.PayoutMap, with the address that was decoded.
pub record PayoutMap : Type 0 where
  pub user_id : ℕ
  pub address : String
  pub amount : ℤ
  pub miner_fee : ℤ
  pub credit_ids : List ℕ

-- common.UTXO and btcjson.TransactionInput.
pub record Input : Type 0 where
  pub hash : Bytes
  pub vout : ℕ
  pub amount : ℤ
  pub address : String

-- common.PayoutMeta.
pub record PayoutMeta : Type 0 where
  pub payout_maps : List PayoutMap
  pub change_address : String
  pub inputs : List Input

-- Addresses decoded, the coin server's CreateRawTransaction (once with no locktime and once with
-- 0, which is the same), and the size and the bytes of what it
-- makes. The outputs are a map with pointers as keys, so that no two of them are the same.
pub record Rpc : Type 0 where
  pub decode_address : String → Bool
  pub create_raw : List Input → List (String × ℤ) → Option Bytes
  pub serialize_size : Bytes → ℕ
  pub serialize_no_witness : Bytes → Option Bytes

abbrev find_address : ℕ → String → List PayoutAddress → Option String
find_address user currency [] = none
find_address user currency (a ∷ rest) =
    if (a.user_id == user) && (a.currency == currency)
    then some a.address
    else find_address user currency rest

abbrev is_unpaid : Option Bytes → Bool
is_unpaid none = true
is_unpaid (some _) = false

abbrev with_address : Credit → Option String → List Due → List Due
with_address c none rest = rest
with_address c (some a) rest =
    record { id = c.id; user_id = c.user_id; amount = c.amount; address = a } ∷ rest

-- The credits of a currency that no transaction pays yet and whose user has an address.
unfoldable pub due_credits : List PayoutAddress → String → List Credit → List Due
due_credits addresses currency [] = []
due_credits addresses currency (c ∷ credits) =
    let rest = due_credits addresses currency credits in
    if (c.currency == currency) && is_unpaid c.payout_transaction
    then with_address c (find_address c.user_id currency addresses) rest
    else rest

-- A credit joins its user's map, or starts one when its address decodes.
abbrev pub add_credit : Rpc → Due → List PayoutMap → Run (List PayoutMap)
add_credit rpc d [] =
    if rpc.decode_address d.address
    then ok (
        record {
          user_id = d.user_id;
          address = d.address;
          amount = d.amount;
          miner_fee = pos 0;
          credit_ids = d.id ∷ [];
        }
        ∷ [])
    else err "invalid_address"
add_credit rpc d (pm ∷ maps) =
    let rest = add_credit rpc d maps in
    if pm.user_id == d.user_id
    then ok (
        record pm { amount = pm.amount +ℤ d.amount; credit_ids = pm.credit_ids ++ (d.id ∷ []) }
        ∷ maps)
    else rest >>= λ maps'. ok (pm ∷ maps')

unfoldable pub group_credits : Rpc → List Due → List PayoutMap → ℤ → Run (List PayoutMap × ℤ)
group_credits rpc [] maps total = ok (maps, total)
group_credits rpc (d ∷ credits) maps total =
    add_credit rpc d maps >>= λ maps'. group_credits rpc credits maps' (total +ℤ d.amount)

-- The hash goes to the signer, and into the transaction, in the RPC's byte order.
abbrev pub as_input : Utxo → Input
as_input u = record {
  hash = reverse_bytes u.hash;
  vout = u.vout;
  amount = u.amount;
  address = u.address;
}

-- UTXOs in turn until they cover the payout, and their sum.
unfoldable pub pick_utxos : ℤ → ℤ → List Utxo → List Input × ℤ
pick_utxos total paid [] = ([], paid)
pick_utxos total paid (u ∷ utxos) =
    let paid' = paid +ℤ u.amount in
    let rest = pick_utxos total paid' utxos in
    if ltb_ℤ paid' total then (as_input u ∷ rest.0, rest.1) else (as_input u ∷ [], paid')

abbrev pub is_spendable : String → Utxo → Bool
is_spendable currency u = (u.currency == currency) && u.spendable && not u.spent

-- The change, where there is some.
abbrev pub change_output : String → ℤ → List (String × ℤ)
change_output address change = if ltb_ℤ (pos 0) change then (address, change) ∷ [] else []

abbrev pub plain_outputs : List PayoutMap → List (String × ℤ)
plain_outputs maps = map (λ (pm : PayoutMap). (pm.address, pm.amount)) maps

-- Each payee's portion of the fee, and the outputs without it.
abbrev fee_portion : FloatOps → ℤ → ℤ → PayoutMap → ℤ
fee_portion f paid fee pm =
    f.to_int (f.times (f.over (f.of_int pm.amount) (f.of_int paid)) (f.of_int fee))

abbrev pub set_fees : FloatOps → ℤ → ℤ → List PayoutMap → List PayoutMap
set_fees f paid fee maps =
    map (λ (pm : PayoutMap). record pm { miner_fee = fee_portion f paid fee pm }) maps

abbrev pub net_outputs : List PayoutMap → List (String × ℤ)
net_outputs maps = map (λ (pm : PayoutMap). (pm.address, pm.amount -ℤ pm.miner_fee)) maps

-- The size of the unsigned transaction with 106.5 bytes for each input, which float32 gives exactly
-- for fewer than 78,000 inputs.
abbrev pub fee_for : Rpc → ChainConfig → Bytes → List Input → ℤ
fee_for rpc config tx inputs =
    pos ((rpc.serialize_size tx + 213 * length inputs / 2) * config.payout_transaction_fee)

-- What the handler makes of the credits and the picked UTXOs.
pub record Draft : Type 0 where
  pub meta : PayoutMeta
  pub tx : Bytes

unfoldable pub draft_payout :
    FloatOps → Rpc → ChainConfig → List PayoutMap → ℤ → List Input → ℤ → Run Draft
draft_payout f rpc config maps total inputs paid =
    let change = change_output config.block_subsidy_address (paid -ℤ total) in
    or_err "rpc_failure" (rpc.create_raw inputs (plain_outputs maps ++ change)) >>= λ plain.
    let maps' = set_fees f paid (fee_for rpc config plain inputs) maps in
    or_err "rpc_failure" (rpc.create_raw inputs (net_outputs maps' ++ change)) >>= λ tx.
    or_err "tx_serialize_err" (rpc.serialize_no_witness tx) >>= λ raw. ok (record {
      meta = record {
        payout_maps = maps';
        change_address = config.block_subsidy_address;
        inputs = inputs;
      };
      tx = raw;
    })

-- The picked UTXOs cover the payout, or there is no draft.
unfoldable pub fund_payout :
    FloatOps → Rpc → ChainConfig → List Utxo → List PayoutMap × ℤ → Run Draft
unfolding draft_payout pick_utxos
fund_payout f rpc config utxos (maps, total) =
    let picked = pick_utxos total (pos 0) utxos in
    if ltb_ℤ picked.1 total
    then err "insufficient_funds"
    else draft_payout f rpc config maps total picked.0 picked.1

abbrev pub create_for :
    FloatOps → ChainConfig → Rpc → String → List Due → List Utxo → Run (Option Draft)
create_for f config rpc currency [] utxos = ok none
create_for f config rpc currency (d ∷ due) utxos =
    group_credits rpc (d ∷ due) [] (pos 0) >>= λ grouped.
    fund_payout f rpc config (select (is_spendable currency) utxos) grouped >>= λ draft.
    ok (some draft)

-- getCreatePayout, from the configuration and the coin server that it looks up first. With no
-- credits due it answers with nothing.
unfoldable pub create_payout :
    FloatOps
    → Option ChainConfig
    → Option Rpc
    → String
    → List PayoutAddress
    → List Credit
    → List Utxo
    → Run (Option Draft)
unfolding due_credits
create_payout f config rpc currency addresses credits utxos =
    or_err "unrecognized_currency" config >>= λ config'. or_err "rpc_failure" rpc >>= λ rpc'.
    create_for f config' rpc' currency (due_credits addresses currency credits) utxos
