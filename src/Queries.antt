-- ===== src/Queries.antt =====
-- cmd/ngweb: what the read-only handlers answer with, and the parts of their SQL that they share.
-- Amounts and times are whole numbers, and hashes texts.
pub mod Public
pub mod User
use ngpool.Prelude.{
  ℕ, suc, ◌+◌, ◌-◌, ◌*◌, ◌%◌, ◌^◌, ltb, Bool, true, false, String, Option, none, some, List, [],
  ◌∷◌, take, drop, if◌then◌else◌, ◌||◌,
}
use ngpool.Prelude.Int.{ℤ, pos, negsuc}
use ngpool.Prelude.Map.{string_eq, ◌==◌}

pub record Block : Type 0 where
  pub currency : String
  pub height : ℕ
  pub hash : String
  pub status : String
  pub powalgo : String
  pub subsidy : ℕ
  pub mined_at : ℕ
  pub target : ℕ
  pub powhash : String
  pub credited : Bool
  pub payout_data : String

pub record Credit : Type 0 where
  pub blockhash : String
  pub currency : String
  pub user_id : ℕ
  pub amount : ℕ
  pub sharechain : String
  pub payout_transaction : Option String

pub record Payout : Type 0 where
  pub user_id : ℕ
  pub amount : ℕ
  pub fee : ℕ
  pub address : String
  pub payout_transaction : String

pub record PayoutTransaction : Type 0 where
  pub hash : String
  pub currency : String
  pub sent : Option ℕ
  pub confirmed : Bool

module _ {ℓ} {A : Type ℓ} where
  -- WHERE
  unfoldable pub rows : (A → Bool) → List A → List A
  rows test [] = []
  rows test (x ∷ xs) = let rest = rows test xs in if test x then x ∷ rest else rest

  abbrev pub place : (A → A → Bool) → A → List A → List A
  place before x [] = x ∷ []
  place before x (y ∷ ys) = if before y x then y ∷ place before x ys else x ∷ y ∷ ys

  -- ORDER BY, where a later row of the table comes first of two that are equal: SQL leaves that open.
  unfoldable pub order_by : (A → A → Bool) → List A → List A
  order_by before [] = []
  order_by before (x ∷ xs) = place before x (order_by before xs)

  abbrev pub first_row : List A → Option A
  first_row [] = none
  first_row (x ∷ xs) = some x

abbrev first_with : (Block → Bool) → List Block → Option Block
first_with test [] = none
first_with test (b ∷ blocks) = if test b then some b else first_with test blocks

abbrev pub block_of : String → List Block → Option Block
block_of hash blocks = first_with (λ (b : Block). b.hash == hash) blocks

-- uint64(pageSize) and uint64(page * pageSize), which must fit PostgreSQL's bigint.
abbrev fitting : ℕ → ℕ → Option (ℕ × ℕ)
fitting limit offset = if ltb offset 9223372036854775808 then some (limit, offset) else none

unfoldable pub limit_offset : ℤ → ℤ → Option (ℕ × ℕ)
limit_offset page (negsuc n) = none
limit_offset (pos p) (pos n) = fitting n ((p * n) % 18446744073709551616)
limit_offset (negsuc p) (pos n) =
    fitting n ((18446744073709551616 - (suc p * n) % 18446744073709551616) % 18446744073709551616)

abbrev pub page_of {ℓ} : {A : Type ℓ} → ℕ × ℕ → List A → List A
page_of (limit, offset) xs = take limit (drop offset xs)

abbrev pub one_of : String → List String → Bool
one_of name [] = false
one_of name (n ∷ names) = (n == name) || one_of name names
