-- ===== src/Payout/Post/Once.antt =====
-- cmd/ngweb/handler_user.go, postPayout: no payout is stored twice.
use ngpool.Prelude.{
  ◌≡◌, refl, sym, ap, ◌∙◌, true, false, String, inl, inr, List, Bool-cases, length, ◌==◌, ◌+◌,
  arith,
}
use ngpool.Prelude.Map.{Map, lookup, string_eq, bytes_eq, beq_refl}
use ngpool.Prelude.Run.{Run, ok, err, >>=-eq-ok, ok-injective, or_err}
use ngpool.Bytes.{Bytes}
use ngpool.Config.{ChainConfig}
use ngpool.Payout.Post.{
  TxOut, PayoutTransaction, Tables, PayoutRequest, Wire, spend_inputs, insert_change,
  has_transaction, insert_transaction, store_payout, post_payout,
}

insert_transaction-there :
    (code : String) (req : PayoutRequest) (hash : Bytes) (txs txs' : List PayoutTransaction)
    → insert_transaction code req hash txs ≡ ok txs'
    → (has_transaction hash txs ≡ false) × (has_transaction hash txs' ≡ true)
unfolding has_transaction
insert_transaction-there code req hash txs txs' e = elim (Bool-cases (has_transaction hash txs)) [
  | inl there ↦ let refused : err "sql" ≡ ok txs' = rw there at e in cc
  | inr new ↦ (
    new,
    ap (has_transaction hash) (sym (ok-injective (rw new at e)))
        ∙ rw (beq_refl ⦃e = bytes_eq⦄ hash) refl,
  )
]

-- What a stored payout shows: the tables before lack its hash, and the tables after have it.
store_payout-transaction :
    (wire : Wire) (code : String) (req : PayoutRequest) (db db' : Tables) (hash : Bytes)
    (outs : List TxOut)
    → store_payout wire code req db (hash, outs) ≡ ok db'
    → (has_transaction hash db.payout_transactions ≡ false)
      × (has_transaction hash db'.payout_transactions ≡ true)
unfolding store_payout
store_payout-transaction wire code req db db' hash outs e =
    elim (Bool-cases (length outs == length req.payout_meta.payout_maps + 1)) [
      | inr wrong ↦
          let refused : ◌≡◌ {A = Run Tables} (err "output_mismatch") (ok db') = rw wrong at e in cc
      | inl fits ↦
          let (utxos, _, e1) =
            >>=-eq-ok (spend_inputs req.payout_meta.inputs db.utxos) _ (rw fits at e) in
          let (utxos', _, e2) =
            >>=-eq-ok (insert_change wire code req hash outs 0 false utxos) _ e1 in
          let (txs, e3, e4) =
            >>=-eq-ok (insert_transaction code req hash db.payout_transactions) _ e2 in
          let there = insert_transaction-there code req hash db.payout_transactions txs e3 in
          (
            there.0,
            ap (λ d. has_transaction hash d.payout_transactions) (sym (ok-injective e4)) ∙ there.1,
          )
    ]

-- A payout that was stored is never stored again: after it, in whatever state has the row of every
-- transaction that was stored then, the same request ends without a commit.
pub post_payout-once :
    (wire : Wire) (configs : Map String ChainConfig) (req : PayoutRequest) (db db' db'' : Tables)
    → post_payout wire configs req db ≡ ok db'
    → ((hash : Bytes)
        → has_transaction hash db'.payout_transactions ≡ true
        → has_transaction hash db''.payout_transactions ≡ true)
    → ¬ ((last : Tables) × (post_payout wire configs req db'' ≡ ok last))
unfolding post_payout
post_payout-once wire configs req db db' db'' e kept (last, e') =
    let (config, found, e1) =
      >>=-eq-ok (or_err "invalid_currency" (lookup req.currency configs)) _ e in
    let ((hash, outs), parsed, e2) = >>=-eq-ok (or_err "invalid_tx" (wire.parse_tx req.tx)) _ e1 in
    let again : store_payout wire config.code req db'' (hash, outs) ≡ ok last =
      rw (found, parsed) at e' in
    let first = store_payout-transaction wire config.code req db db' hash outs e2 in
    let second = store_payout-transaction wire config.code req db'' last hash outs again in
    ground (arith, kept hash first.1, second.0)
