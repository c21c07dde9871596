-- ===== src/Payout/Send.antt =====
-- cmd/ngweb/updatepayouts.go: stored payouts are sent, sent again, and confirmed.
-- Times are nanoseconds. A statement of this run that fails is only logged, so it changes no row.
pub mod Resend
use ngpool.Prelude.{
  ℕ, zero, suc, ◌+◌, ◌-◌, ◌*◌, ◌≡◌, Bool, true, false, ◌&&◌, ◌||◌, not, String, Option, none, some,
  List, [], ◌∷◌, if◌then◌else◌, ltb,
}
use ngpool.Prelude.Map.{Map, Eq, bytes_eq, ◌==◌}
use ngpool.Prelude.Run.{Run, ok, err, panic, out_of_fuel, ◌>>=◌}
use ngpool.Bytes.{Bytes}
use ngpool.Payout.Post.{PayoutTransaction}

-- What GetTxOut answers: a failure, no such output, or its confirmations.
pub data TxInfo : Type 0 where
  failed missing : TxInfo
  confirmations : ℕ → TxInfo

-- The coin server of a currency, where there is one: it looks an output up, and takes a transaction,
-- whose hash it answers.
pub record Wallet : Type 0 where
  pub get_tx_out : Bytes → TxInfo
  pub send_raw_transaction : Bytes → Option Bytes

-- What one row's turn does to the database.
pub data Turn : Type 0 where
  keep confirm resend abort : Turn

-- The row is sent when it never was, or not within 24 hours.
abbrev is_stale : ℕ → Option ℕ → Bool
is_stale now none = true
is_stale now (some sent) = ltb (24 * 3600 * 1000000000) (now - sent)

abbrev push : ℕ → Wallet → PayoutTransaction → Turn
push now w t =
    if is_stale now t.sent
    then elim (w.send_raw_transaction t.signed_tx) [
      | none ↦ keep
      | some hash ↦ if hash == t.hash then resend else abort
    ]
    else keep

-- Only a row that was sent is looked up.
abbrev look_up : ℕ → Wallet → PayoutTransaction → TxInfo → Turn
look_up now w t failed = keep
look_up now w t missing = push now w t
look_up now w t (confirmations n) =
    if ltb 6 n then confirm else if ltb 0 n then keep else push now w t

abbrev pub once_sent : ℕ → Wallet → PayoutTransaction → Option ℕ → Turn
once_sent now w t none = push now w t
once_sent now w t (some sent) = look_up now w t (w.get_tx_out t.hash)

unfoldable pub turn : ℕ → Option Wallet → PayoutTransaction → Turn
turn now none t = keep
turn now (some w) t = once_sent now w t t.sent

-- updatePayoutTransactions, over the rows of the table, of which the query leaves out the confirmed
-- ones. The primary key makes an update of a hash that of one row. An inconsistent answer ends the
-- run, and the rows before it stay updated.
unfoldable update_payout_transactions :
    ℕ → (String → Option Wallet) → List PayoutTransaction → List PayoutTransaction × Run {0} Unit
unfolding turn
update_payout_transactions now wallets [] = ([], ok tt)
update_payout_transactions now wallets (t ∷ txs) =
    let rest = update_payout_transactions now wallets txs in
    if t.confirmed then (t ∷ rest.0, rest.1) else elim (turn now (wallets t.currency) t) [
      | keep ↦ (t ∷ rest.0, rest.1)
      | confirm ↦ (record t { confirmed = true } ∷ rest.0, rest.1)
      | resend ↦ (record t { sent = some now } ∷ rest.0, rest.1)
      | abort ↦ (t ∷ txs, err "Invalid state")
    ]
