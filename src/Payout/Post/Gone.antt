-- ===== src/Payout/Post/Gone.antt =====
-- cmd/ngweb/handler_user.go: what a stored payout pays is due no more.
use ngpool.Prelude.{
  ℕ, ◌≡◌, refl, Bool, true, false, ◌||◌, ◌&&◌, String, inl, inr, Option, none, some, List, [], ◌∷◌,
  Bool-cases, length, ◌+◌, arith, All,
}
use mathlib.Core.Path.{subst}
use ngpool.Prelude.Map.{Map, lookup, nat_eq, string_eq, ◌==◌}
use ngpool.Prelude.Run.{Run, ok, err, >>=-eq-ok, ok-injective, or_err}
use ngpool.Bytes.{Bytes}
use ngpool.Config.{ChainConfig}
use ngpool.Payout.{
  Credit, Due, PayoutAddress, PayoutMap, due_credits, is_unpaid, with_address, find_address,
}
use ngpool.Payout.Post.{
  TxOut, Payout, Tables, PayoutRequest, Wire, is_in, set_paid, store_maps, spend_inputs,
  insert_change, insert_transaction, store_payout, post_payout,
}

-- Whether one of the maps lists a credit.
abbrev pub in_maps : ℕ → List PayoutMap → Bool
in_maps id [] = false
in_maps id (pm ∷ maps) = is_in id pm.credit_ids || in_maps id maps

-- The credits with a given mark have a transaction.
abbrev ArePaid : (ℕ → Bool) → List Credit → Type 0
ArePaid mark credits =
    All (λ (c : Credit). mark c.id ≡ true → is_unpaid c.payout_transaction ≡ false) credits

ArePaid-fewer :
    (p q : ℕ → Bool) (credits : List Credit)
    → ((id : ℕ) → q id ≡ true → p id ≡ true)
    → ArePaid p credits
    → ArePaid q credits
ArePaid-fewer p q [] h paid = tt
ArePaid-fewer p q (c ∷ credits) h paid =
    ((λ m. paid.0 (h c.id m)), ArePaid-fewer p q credits h paid.1)

ArePaid-none : (credits : List Credit) → ArePaid (λ id. false) credits
ArePaid-none [] = tt
ArePaid-none (c ∷ credits) = ((λ m. cc), ArePaid-none credits)

set_paid-ArePaid :
    (mark : ℕ → Bool) (hash : Bytes) (ids : List ℕ) (credits : List Credit)
    → ArePaid mark credits
    → ArePaid (λ id. mark id || is_in id ids) (set_paid hash ids credits)
unfolding set_paid
set_paid-ArePaid mark hash ids [] paid = tt
set_paid-ArePaid mark hash ids (c ∷ credits) paid =
    let rest = set_paid-ArePaid mark hash ids credits paid.1 in
    elim (Bool-cases (is_in c.id ids)) [
      | inl listed ↦ ((rw listed (λ m. refl)), rest)
      | inr other ↦ ((rw other (λ m. paid.0 (ground (arith, m)))), rest)
    ]

store_maps-ArePaid :
    (mark : ℕ → Bool) (hash : Bytes) (maps : List PayoutMap) (payouts : List Payout)
    (credits : List Credit)
    → ArePaid mark credits
    → ArePaid (λ id. mark id || in_maps id maps) (store_maps hash maps payouts credits).1
unfolding store_maps
store_maps-ArePaid mark hash [] payouts credits paid =
    ArePaid-fewer mark (λ id. mark id || false) credits (λ id m. ground (arith, m)) paid
store_maps-ArePaid mark hash (pm ∷ maps) payouts credits paid =
    ArePaid-fewer (λ id. (mark id || is_in id pm.credit_ids) || in_maps id maps)
      (λ id. mark id || (is_in id pm.credit_ids || in_maps id maps))
      (store_maps hash (pm ∷ maps) payouts credits).1 (λ id m. ground (arith, m))
      (store_maps-ArePaid (λ id. mark id || is_in id pm.credit_ids) hash maps _
        (set_paid hash pm.credit_ids credits)
        (set_paid-ArePaid mark hash pm.credit_ids credits paid))

store_payout-ArePaid :
    (wire : Wire) (code : String) (req : PayoutRequest) (db db' : Tables) (hash : Bytes)
    (outs : List TxOut)
    → store_payout wire code req db (hash, outs) ≡ ok db'
    → ArePaid (λ id. in_maps id req.payout_meta.payout_maps) db'.credits
unfolding store_payout
store_payout-ArePaid wire code req db db' hash outs e =
    let maps = req.payout_meta.payout_maps in
    elim (Bool-cases (length outs == length maps + 1)) [
      | inr wrong ↦
          let refused : ◌≡◌ {A = Run Tables} (err "output_mismatch") (ok db') = rw wrong at e in cc
      | inl fits ↦
          let (utxos, _, e1) =
            >>=-eq-ok (spend_inputs req.payout_meta.inputs db.utxos) _ (rw fits at e) in
          let (utxos', _, e2) =
            >>=-eq-ok (insert_change wire code req hash outs 0 false utxos) _ e1 in
          let (txs, _, e3) =
            >>=-eq-ok (insert_transaction code req hash db.payout_transactions) _ e2 in
          subst (λ (d : Tables). ArePaid (λ id. in_maps id maps) d.credits) (ok-injective e3)
            (store_maps-ArePaid (λ id. false) hash maps db.payouts db.credits
              (ArePaid-none db.credits))
    ]

with_address-All :
    (mark : ℕ → Bool) (c : Credit) (address : Option String) (rest : List Due)
    → mark c.id ≡ false
    → All (λ (d : Due). mark d.id ≡ false) rest
    → All (λ (d : Due). mark d.id ≡ false) (with_address c address rest)
with_address-All mark c none rest m all = all
with_address-All mark c (some a) rest m all = (m, all)

-- A due credit has no transaction, so none of the paid ones.
ArePaid-due :
    (mark : ℕ → Bool) (addresses : List PayoutAddress) (currency : String) (credits : List Credit)
    → ArePaid mark credits
    → All (λ (d : Due). mark d.id ≡ false) (due_credits addresses currency credits)
unfolding due_credits
ArePaid-due mark addresses currency [] paid = tt
ArePaid-due mark addresses currency (c ∷ credits) paid =
    let rest = ArePaid-due mark addresses currency credits paid.1 in
    let unpaid = (c.currency == currency) && is_unpaid c.payout_transaction in
    elim (Bool-cases unpaid) [
      | inl due ↦ rw due (
          with_address-All mark c (find_address c.user_id currency addresses)
            (due_credits addresses currency credits) (ground (arith, due, paid.0)) rest)
      | inr skipped ↦ rw skipped rest
    ]

-- Once a payout is stored, none of the credits that its maps list is due any more: no later
-- getCreatePayout, of any currency and with any addresses, puts one of them into a payout.
pub post_payout-due :
    (wire : Wire) (configs : Map String ChainConfig) (req : PayoutRequest) (db db' : Tables)
    (addresses : List PayoutAddress) (currency : String)
    → post_payout wire configs req db ≡ ok db'
    → All
        (λ (d : Due). in_maps d.id req.payout_meta.payout_maps ≡ false)
        (due_credits addresses currency db'.credits)
unfolding post_payout store_payout
post_payout-due wire configs req db db' addresses currency e =
    let maps = req.payout_meta.payout_maps in
    let (config, _, e1) = >>=-eq-ok (or_err "invalid_currency" (lookup req.currency configs)) _ e in
    let ((hash, outs), _, e2) = >>=-eq-ok (or_err "invalid_tx" (wire.parse_tx req.tx)) _ e1 in
    let paid = store_payout-ArePaid wire config.code req db db' hash outs e2 in
    ArePaid-due (λ id. in_maps id maps) addresses currency db'.credits paid
