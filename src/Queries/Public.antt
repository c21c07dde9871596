-- ===== src/Queries/Public.antt =====
-- cmd/ngweb/handler_public.go. Texts are split and read by parameters, and so are the float64
-- quotients.
use ngpool.Prelude.{
  ℕ, ◌+◌, leb, Bool, true, ◌&&◌, String, Option, none, some, List, [], ◌∷◌, ◌++◌, map,
  if◌then◌else◌,
}
use ngpool.Prelude.Int.{ℤ, pos_part, neg_part}
use ngpool.Prelude.Map.{Map, lookup, insert, nat_eq, string_eq, ◌==◌}
use ngpool.Accounts.{User, Reply, api_error, api_success, by_id}
use ngpool.Queries.{Block, Credit, rows, order_by, block_of, limit_offset, page_of, one_of}

-- `difficulty` is NetDiff1 of the algorithm by the target, for an algorithm that there is, and
-- `hashrate` is of the chain's hashes per share and the difficulty.
pub record Text : Type 0 where
  pub split : String → List String
  pub atoi : String → Option ℤ
  pub difficulty : String → ℕ → Option ℕ
  pub hashrate : String → ℕ → Option ℤ

-- The parameters of getBlocks' query, where they are given.
pub record BlockQuery : Type 0 where
  pub page : ℤ
  pub page_size : ℤ
  pub maturity : Option String
  pub powalgo : Option String
  pub currency : Option String

pub record MinuteShare : Type 0 where
  pub cat : String
  pub key : String
  pub minute : ℤ
  pub difficulty : ℕ
  pub shares : ℕ
  pub sharechain : String
  pub stratum : String

-- A credit of a block as it is shown; its user may be missing.
pub record BlockCredit : Type 0 where
  pub username : Option String
  pub user_id : ℕ
  pub amount : ℕ
  pub sharechain : String

abbrev is_status : String → Bool
is_status name = one_of name ("immature" ∷ "orphan" ∷ "mature" ∷ [])

abbrev all_statuses : List String → Bool
all_statuses [] = true
all_statuses (name ∷ names) = is_status name && all_statuses names

abbrev name_of : Option User → Option String
name_of none = none
name_of (some user) = some user.username

-- LEFT JOIN users
abbrev with_user : List User → List Credit → List BlockCredit
with_user users [] = []
with_user users (c ∷ credits) =
    record {
      username = name_of (by_id c.user_id users);
      user_id = c.user_id;
      amount = c.amount;
      sharechain = c.sharechain;
    }
    ∷ with_user users credits

abbrev ℤ_leb : ℤ → ℤ → Bool
ℤ_leb a b = leb (pos_part a + neg_part b) (pos_part b + neg_part a)

module _ (text : Text) where
  -- A filter that is not given, or empty, lets everything through.
  abbrev names : Option String → Option (List String)
  names none = none
  names (some list) = if list == "" then none else some (text.split list)

  abbrev passes : Option (List String) → String → Bool
  passes none value = true
  passes (some list) value = one_of value list

  -- A word that is no block_status is an error of the statement.
  abbrev is_valid : Option (List String) → Bool
  is_valid none = true
  is_valid (some list) = all_statuses list

  abbrev with_difficulty : Block → Block × Option ℕ
  with_difficulty b = (b, text.difficulty b.powalgo b.target)

  -- getBlocks
  unfoldable get_blocks : BlockQuery → List Block → Reply (List (Block × Option ℕ))
  unfolding rows order_by limit_offset
  get_blocks query blocks =
      let maturity = names query.maturity in
      let powalgo = names query.powalgo in
      let currency = names query.currency in
      let found =
        rows
          (λ (b : Block).
            passes maturity b.status && passes powalgo b.powalgo && passes currency b.currency)
          blocks in
      if is_valid maturity
      then elim (limit_offset query.page query.page_size) [
        | none ↦ api_error 500 "database_error"
        | some range ↦ api_success 200 (
            map with_difficulty
              (page_of range (order_by (λ (a b : Block). leb b.mined_at a.mined_at) found)))
      ]
      else api_error 500 "database_error"

  -- getBlock
  unfoldable get_block :
      String → List Block → List Credit → List User → Reply (Block × List BlockCredit)
  unfolding rows
  get_block hash blocks credits users = elim (block_of hash blocks) [
    | none ↦ api_error 404 "invalid_block"
    | some b ↦
        api_success 200 (b, with_user users (rows (λ (c : Credit). c.blockhash == hash) credits))
  ]

  -- A bound: none, one, or what does not read as a number.
  abbrev bound : Option String → Option (Option ℤ)
  bound none = some none
  bound (some raw) =
      if raw == "" then some none else elim (text.atoi raw) [ none ↦ none | some n ↦ some (some n) ]

  abbrev not_before : Option ℤ → MinuteShare → Bool
  not_before none m = true
  not_before (some start) m = ℤ_leb start m.minute

  abbrev not_after : Option ℤ → MinuteShare → Bool
  not_after none m = true
  not_after (some end) m = ℤ_leb m.minute end

  abbrev has_key : String → MinuteShare → Bool
  has_key key m = if key == "" then true else m.key == key

  abbrev or_nil : Option (List (MinuteShare × ℤ)) → List (MinuteShare × ℤ)
  or_nil none = []
  or_nil (some list) = list

  -- By their keys; those of a share chain that is not configured are left out.
  abbrev by_key :
      List MinuteShare → Map String (List (MinuteShare × ℤ)) → Map String (List (MinuteShare × ℤ))
  by_key [] keys = keys
  by_key (m ∷ ms) keys = elim (text.hashrate m.sharechain m.difficulty) [
    | none ↦ by_key ms keys
    | some rate ↦ by_key ms (insert m.key (or_nil (lookup m.key keys) ++ (m, rate) ∷ []) keys)
  ]

  -- getMinuteShares, for the category and key of the path and the query's start and end.
  unfoldable get_minute_shares :
      String
      → String
      → Option String
      → Option String
      → List MinuteShare
      → Reply (Map String (List (MinuteShare × ℤ)))
  unfolding rows order_by lookup insert
  get_minute_shares cat key start end ms = elim (bound start) [
    | none ↦ api_error 404 "invalid_start"
    | some from ↦ elim (bound end) [
      | none ↦ api_error 404 "invalid_end"
      | some until ↦
          let found =
            rows
              (λ (m : MinuteShare).
                (m.cat == cat) && has_key key m && not_before from m && not_after until m)
              ms in
          api_success 200
            (by_key (order_by (λ (a b : MinuteShare). ℤ_leb a.minute b.minute) found) [])
    ]
  ]
