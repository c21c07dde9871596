-- ===== src/Queries/User.antt =====
-- cmd/ngweb/handler_user.go: getUnpaid, getPayout, getPayouts and getMe.
use ngpool.Prelude.{
  ℕ, ◌≡◌, refl, leb, Bool, true, false, ◌&&◌, String, Option, none, some, List, [], ◌∷◌,
  if◌then◌else◌, Option-cases, inl, inr,
}
use ngpool.Prelude.Int.{ℤ}
use ngpool.Prelude.Map.{Map, insert, nat_eq, string_eq, ◌==◌}
use ngpool.Accounts.{User, Reply, api_error, api_success, by_id}
use ngpool.Payout.{PayoutAddress}
use ngpool.Queries.{
  Block, Credit, Payout, PayoutTransaction, rows, order_by, first_row, block_of, limit_offset,
  page_of,
}

-- A credit as it is shown, with the time of its block.
pub record CreditRes : Type 0 where
  pub amount : ℕ
  pub sharechain : String
  pub blockhash : String
  pub mined_at : ℕ

pub record PayoutRes : Type 0 where
  pub address : String
  pub amount : ℕ
  pub miner_fee : ℕ
  pub currency : String
  pub txid : String
  pub sent : Option ℕ
  pub confirmed : Bool

-- The join of credits and blocks.
abbrev with_block : List Block → List Credit → List CreditRes
with_block blocks [] = []
with_block blocks (c ∷ credits) = elim (block_of c.blockhash blocks) [
  | none ↦ with_block blocks credits
  | some b ↦
      record {
        amount = c.amount;
        sharechain = c.sharechain;
        blockhash = c.blockhash;
        mined_at = b.mined_at;
      }
      ∷ with_block blocks credits
]

abbrev by_time : List CreditRes → List CreditRes
by_time = order_by (λ (a b : CreditRes). leb a.mined_at b.mined_at)

abbrev is_unpaid : ℕ → Credit → Bool
is_unpaid user_id c = elim c.payout_transaction [ none ↦ c.user_id == user_id | some _ ↦ false ]

abbrev is_paid_by : String → Credit → Bool
is_paid_by hash c = elim c.payout_transaction [ none ↦ false | some h ↦ h == hash ]

-- getUnpaid
unfoldable get_unpaid : ℕ → List Block → List Credit → Reply (List CreditRes)
unfolding rows order_by
get_unpaid user_id blocks credits =
    api_success 200 (by_time (with_block blocks (rows (is_unpaid user_id) credits)))

abbrev transaction_of : String → List PayoutTransaction → Option PayoutTransaction
transaction_of hash [] = none
transaction_of hash (t ∷ txs) = if t.hash == hash then some t else transaction_of hash txs

-- The join of payouts and their transactions.
abbrev with_transaction : List PayoutTransaction → List Payout → List PayoutRes
with_transaction txs [] = []
with_transaction txs (p ∷ payouts) = elim (transaction_of p.payout_transaction txs) [
  | none ↦ with_transaction txs payouts
  | some t ↦
      record {
        address = p.address;
        amount = p.amount;
        miner_fee = p.fee;
        currency = t.currency;
        txid = t.hash;
        sent = t.sent;
        confirmed = t.confirmed;
      }
      ∷ with_transaction txs payouts
]

-- ORDER BY pt.sent DESC, which puts what was not sent first.
abbrev sent_before : PayoutRes → PayoutRes → Bool
sent_before a b = elim a.sent [
  | none ↦ true
  | some s ↦ elim b.sent [ none ↦ false | some t ↦ leb t s ]
]

abbrev no_payout : PayoutRes
no_payout = record {
  address = "";
  amount = 0;
  miner_fee = 0;
  currency = "";
  txid = "";
  sent = none;
  confirmed = false;
}

abbrev or_zero : Option PayoutRes → PayoutRes
or_zero none = no_payout
or_zero (some p) = p

-- getPayout, for the page and its size. No row leaves the payout zero, and the credits are those of
-- the transaction.
unfoldable get_payout :
    ℕ
    → String
    → ℤ
    → ℤ
    → List Payout
    → List PayoutTransaction
    → List Block
    → List Credit
    → Reply (PayoutRes × List CreditRes)
unfolding rows order_by limit_offset
get_payout user_id hash page page_size payouts txs blocks credits =
    elim (limit_offset page page_size) [
      | none ↦ api_error 500 "database_error"
      | some range ↦
          let own =
            rows (λ (p : Payout). (p.user_id == user_id) && (p.payout_transaction == hash))
              payouts in
          let found = page_of range (order_by sent_before (with_transaction txs own)) in
          api_success 200 (
            or_zero (first_row found),
            by_time (with_block blocks (rows (is_paid_by hash) credits)),
          )
    ]

-- getPayouts
unfoldable get_payouts : ℕ → ℤ → ℤ → List Payout → List PayoutTransaction → Reply (List PayoutRes)
unfolding rows order_by limit_offset
get_payouts user_id page page_size payouts txs = elim (limit_offset page page_size) [
  | none ↦ api_error 500 "database_error"
  | some range ↦
      let own = rows (λ (p : Payout). p.user_id == user_id) payouts in
      api_success 200 (page_of range (order_by sent_before (with_transaction txs own)))
]

abbrev blank : List String → Map String String → Map String String
blank [] m = m
blank (code ∷ codes) m = blank codes (insert code "" m)

abbrev fill : ℕ → List PayoutAddress → Map String String → Map String String
fill id [] m = m
fill id (a ∷ addresses) m =
    let m' = if a.user_id == id then insert a.currency a.address m else m in fill id addresses m'

-- getMe: the user, and an address for each currency.
unfoldable get_me :
    ℕ
    → List String
    → List User
    → List PayoutAddress
    → Reply ((ℕ × Option String × String) × Map String String)
unfolding insert
get_me id codes users addresses = elim (by_id id users) [
  | none ↦ api_error 500 "database_error"
  | some user ↦
      api_success 200 ((user.id, user.email, user.username), fill id addresses (blank codes []))
]

abbrev credits_of : Reply (PayoutRes × List CreditRes) → Option (List CreditRes)
credits_of (api_error status code) = none
credits_of (api_success status (payout, credits)) = some credits

-- Whoever asks for a payout's transaction is shown all credits that it pays: they do not depend on
-- the user.
get_payout-anyone :
    (a b : ℕ) (hash : String) (page page_size : ℤ) (payouts : List Payout)
    (txs : List PayoutTransaction) (blocks : List Block) (credits : List Credit)
    → credits_of (get_payout a hash page page_size payouts txs blocks credits)
      ≡ credits_of (get_payout b hash page page_size payouts txs blocks credits)
unfolding get_payout
get_payout-anyone a b hash page page_size payouts txs blocks credits =
    elim (Option-cases (limit_offset page page_size)) [
      | inl bad ↦ rw (bad, get_payout) refl
      | inr (range, good) ↦ rw (good, get_payout) refl
    ]
