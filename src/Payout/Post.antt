-- ===== src/Payout/Post.antt =====
-- cmd/ngweb/handler_user.go, postPayout: a signed transaction is stored, in one database
-- transaction. A failure leaves the tables as they were, also where the source leaves it open.
pub mod Once
pub mod Spend
pub mod Gone
use ngpool.Prelude.{
  ℕ, zero, suc, ◌+◌, ◌≡◌, Bool, true, false, ◌&&◌, ◌||◌, not, String, Option, none, some, List, [],
  ◌∷◌, if◌then◌else◌, length,
}
use ngpool.Prelude.Int.{ℤ, pos}
use ngpool.Prelude.Map.{Map, lookup, Eq, nat_eq, string_eq, bytes_eq, ◌==◌}
use ngpool.Prelude.Run.{Run, ok, err, panic, out_of_fuel, ◌>>=◌, or_err}
use ngpool.Bytes.{Bytes, reverse_bytes}
use ngpool.Config.{ChainConfig}
use ngpool.Payout.{Utxo, Credit, PayoutMap, PayoutMeta, Input}

-- The outputs of wire.MsgTx.
pub record TxOut : Type 0 where
  pub value : ℤ
  pub pk_script : Bytes

pub record PayoutTransaction : Type 0 where
  pub hash : Bytes
  pub signed_tx : Bytes
  pub currency : String
  pub sent : Option ℕ
  pub confirmed : Bool

pub record Payout : Type 0 where
  pub user_id : ℕ
  pub amount : ℤ
  pub payout_transaction : Bytes
  pub fee : ℤ
  pub address : String

pub record Tables : Type 0 where
  pub utxos : List Utxo
  pub credits : List Credit
  pub payout_transactions : List PayoutTransaction
  pub payouts : List Payout

-- The body of the request.
pub record PayoutRequest : Type 0 where
  pub payout_meta : PayoutMeta
  pub tx : Bytes
  pub currency : String

-- The wire library: a transaction's hash and outputs, and the one address of an output's script.
pub record Wire : Type 0 where
  pub parse_tx : Bytes → Option (Bytes × List TxOut)
  pub script_address : Bytes → Option String

-- UPDATE utxo SET spent = true WHERE hash = ... AND vout = ... AND spent = false, and whether it
-- affects a row.
abbrev pub is_unspent : Bytes → ℕ → Utxo → Bool
is_unspent hash vout u = (u.hash == hash) && (u.vout == vout) && not u.spent

unfoldable pub spend : Bytes → ℕ → List Utxo → List Utxo × Bool
spend hash vout [] = ([], false)
spend hash vout (u ∷ utxos) =
    let rest = spend hash vout utxos in
    if is_unspent hash vout u
    then (record u { spent = true } ∷ rest.0, true)
    else (u ∷ rest.0, rest.1)

unfoldable pub spend_inputs : List Input → List Utxo → Run (List Utxo)
unfolding spend
spend_inputs [] utxos = ok utxos
spend_inputs (i ∷ inputs) utxos =
    let spent = spend (reverse_bytes i.hash) i.vout utxos in
    let rest = spend_inputs inputs spent.0 in if spent.1 then rest else err "utxo_spent"

-- CONSTRAINT utxo_pkey PRIMARY KEY (hash)
abbrev pub has_utxo : Bytes → List Utxo → Bool
has_utxo hash [] = false
has_utxo hash (u ∷ utxos) = (u.hash == hash) || has_utxo hash utxos

abbrev pub insert_utxo : Utxo → List Utxo → Run (List Utxo)
insert_utxo u utxos = if has_utxo u.hash utxos then err "sql" else ok (u ∷ utxos)

-- A new UTXO is neither spent nor spendable.
abbrev change_utxo : Bytes → ℕ → TxOut → String → String → Utxo
change_utxo hash idx out currency address = record {
  hash = hash;
  vout = idx;
  currency = currency;
  address = address;
  amount = out.value;
  spent = false;
  spendable = false;
}

-- The outputs to the change address become UTXOs; `inserted` says that one did.
unfoldable pub insert_change :
    Wire → String → PayoutRequest → Bytes → List TxOut → ℕ → Bool → List Utxo → Run (List Utxo)
insert_change wire code req hash [] idx inserted utxos =
    if inserted then ok utxos else err "no_change"
insert_change wire code req hash (out ∷ outs) idx inserted utxos =
    or_err "invalid_output" (wire.script_address out.pk_script) >>= λ address.
    if address == req.payout_meta.change_address
    then (insert_utxo (change_utxo hash idx out code address) utxos >>= λ utxos'.
        insert_change wire code req hash outs (idx + 1) true utxos')
    else insert_change wire code req hash outs (idx + 1) inserted utxos

-- CONSTRAINT payout_transaction_pkey PRIMARY KEY (hash)
unfoldable pub has_transaction : Bytes → List PayoutTransaction → Bool
has_transaction hash [] = false
has_transaction hash (t ∷ txs) = (t.hash == hash) || has_transaction hash txs

abbrev pub insert_transaction :
    String → PayoutRequest → Bytes → List PayoutTransaction → Run (List PayoutTransaction)
insert_transaction code req hash txs =
    if has_transaction hash txs
    then err "sql"
    else ok (
        record { hash = hash; signed_tx = req.tx; currency = code; sent = none; confirmed = false }
        ∷ txs)

abbrev pub is_in : ℕ → List ℕ → Bool
is_in id [] = false
is_in id (i ∷ ids) = (i == id) || is_in id ids

-- UPDATE credit SET payout_transaction = ... WHERE id IN ...
unfoldable pub set_paid : Bytes → List ℕ → List Credit → List Credit
set_paid hash ids [] = []
set_paid hash ids (c ∷ credits) =
    (if is_in c.id ids then record c { payout_transaction = some hash } else c)
    ∷ set_paid hash ids credits

-- One payout and its credits for each map. The users are those of the credits.
unfoldable pub store_maps :
    Bytes → List PayoutMap → List Payout → List Credit → List Payout × List Credit
unfolding set_paid
store_maps hash [] payouts credits = (payouts, credits)
store_maps hash (pm ∷ maps) payouts credits =
    store_maps hash maps
      (record {
        user_id = pm.user_id;
        amount = pm.amount;
        payout_transaction = hash;
        fee = pm.miner_fee;
        address = pm.address;
      }
        ∷ payouts)
      (set_paid hash pm.credit_ids credits)

abbrev pub stored : Bytes → PayoutRequest → Tables → List Utxo → List PayoutTransaction → Tables
stored hash req db utxos txs =
    let r = store_maps hash req.payout_meta.payout_maps db.payouts db.credits in
    record { utxos = utxos; credits = r.1; payout_transactions = txs; payouts = r.0 }

-- The number of outputs is checked first: one for each map, and the change.
unfoldable pub store_payout :
    Wire → String → PayoutRequest → Tables → Bytes × List TxOut → Run Tables
unfolding spend_inputs insert_change has_transaction store_maps
store_payout wire code req db (hash, outs) =
    if not (length outs == length req.payout_meta.payout_maps + 1)
    then err "output_mismatch"
    else spend_inputs req.payout_meta.inputs db.utxos >>= λ utxos.
        insert_change wire code req hash outs 0 false utxos >>= λ utxos'.
        insert_transaction code req hash db.payout_transactions >>= λ txs.
        ok (stored hash req db utxos' txs)

-- postPayout, up to its commit.
unfoldable pub post_payout : Wire → Map String ChainConfig → PayoutRequest → Tables → Run Tables
unfolding store_payout
post_payout wire configs req db =
    or_err "invalid_currency" (lookup req.currency configs) >>= λ config.
    or_err "invalid_tx" (wire.parse_tx req.tx) >>= λ tx. store_payout wire config.code req db tx
