-- ===== src/Credits.antt =====
-- cmd/ngweb/generatecredits.go: matured blocks become credits of the users.
-- The database is a record of its tables. `shares` stands in the order of the queries' ORDER BY,
-- newest first. Float64 arithmetic is a parameter, and int64 amounts are integers: no sum of
-- subsidies comes near 2 ^ 63. Beside the unique constraint on credits no statement fails.
pub mod Collect
pub mod Split
pub mod Pay
use ngpool.Prelude.{
  ℕ, zero, suc, ◌+◌, ◌≡◌, Bool, true, false, ◌&&◌, ◌||◌, not, String, Option, none, some, List, [],
  ◌∷◌, ◌++◌, if◌then◌else◌, leb, take, drop, map, length, ◌==◌,
}
use ngpool.Prelude.Int.{ℤ, pos, ◌+ℤ◌, ◌-ℤ◌, ltb_ℤ}
use ngpool.Prelude.Map.{Map, lookup, insert, nat_eq, string_eq}
use ngpool.Prelude.Map.{◌==◌ as same}
use ngpool.Prelude.Run.{Run, ok, err, panic, out_of_fuel, ◌>>=◌, or_err, or_panic}
use ngpool.Config.{Float, Algo, ShareChainConfig}

-- Go's arithmetic on float64, the conversions from and to int64, and the quotient of a big.Float by
-- a float64.
pub record FloatOps : Type 0 where
  pub zero_float : Float
  pub two : Float
  pub plus : Float → Float → Float
  pub times : Float → Float → Float
  pub over : Float → Float → Float
  pub at_least : Float → Float → Bool
  pub of_int : ℤ → Float
  pub to_int : Float → ℤ
  pub big_quotient : ℕ → Float → Float

pub record ShareRow : Type 0 where
  pub username : String
  pub difficulty : Float
  pub mined_at : ℕ
  pub sharechain : String
  pub currencies : List String

pub data BlockStatus : Type 0 where
  immature orphan mature : BlockStatus

pub record BlockRow : Type 0 where
  pub currency : String
  pub height : ℕ
  pub hash : String
  pub coinbase_hash : String
  pub powalgo : String
  pub subsidy : ℤ
  pub mined_at : ℕ
  pub target : Float
  pub status : BlockStatus
  pub credited : Bool

pub record CreditRow : Type 0 where
  pub user_id : ℕ
  pub amount : ℤ
  pub currency : String
  pub blockhash : String
  pub sharechain : String

pub record Db : Type 0 where
  pub shares : List ShareRow
  pub users : Map String ℕ
  pub blocks : List BlockRow
  pub credits : List CreditRow

abbrev pub is_mature : BlockStatus → Bool
is_mature mature = true
is_mature _ = false

-- The rows that a test keeps.
unfoldable pub select {ℓ} : {A : Type ℓ} → (A → Bool) → List A → List A
select p [] = []
select p (x ∷ xs) = let rest = select p xs in if p x then x ∷ rest else rest

abbrev contains : String → List String → Bool
contains c [] = false
contains c (x ∷ xs) = same x c || contains c xs

-- A share as collectShares reads it: its difficulty, and its user's id if there is one.
abbrev pub Row : Type 0
Row = Float × Option ℕ

-- A missing key of the map reads as the zero float.
abbrev or_float : Float → Option Float → Float
or_float z none = z
or_float z (some f) = f

-- `userShares`, and `accumulatedShares`.
pub record Found : Type 0 where
  pub user_shares : Map ℕ Float
  pub accumulated : Float

-- A share without a user goes to the fee user.
abbrev owner : Option ℕ → ℕ
owner none = 1
owner (some id) = id

module _ (f : FloatOps) where
  abbrev pub count_share : Row → Found → Found
  count_share r s = record {
    user_shares =
        insert (owner r.1) (f.plus (or_float f.zero_float (lookup (owner r.1) s.user_shares)) r.0)
          s.user_shares;
    accumulated = f.plus s.accumulated r.0;
  }

  -- The loop over one page: whether enough shares were found, and what was found.
  unfoldable pub page_loop : Float → List Row → Found → Bool × Found
  page_loop share_count [] s = (false, s)
  page_loop share_count (r ∷ rows) s =
      let s' = count_share r s in
      let rest = page_loop share_count rows s' in
      if f.at_least s'.accumulated share_count then (true, s') else rest

  -- The loop over the pages of 100 rows, from an offset.
  unfoldable pub collect_loop : ℕ → Float → List Row → ℕ → Found → Run Found
  unfolding page_loop
  collect_loop zero share_count rows offset s = out_of_fuel
  collect_loop (suc fuel) share_count rows offset s =
      let page = take 100 (drop offset rows) in
      let r = page_loop share_count page s in
      let rest = collect_loop fuel share_count rows (offset + 100) r.1 in
      if length page == 0 then ok s else if r.0 then ok r.1 else rest

  -- The fee user always has an entry.
  abbrev pub no_shares : Found
  no_shares = record { user_shares = (1, f.zero_float) ∷ []; accumulated = f.zero_float }

  -- The query's rows: shares before `start` of one chain, joined with the users.
  unfoldable pub share_rows : Db → String → ℕ → List Row
  unfolding select
  share_rows db chain start =
      map (λ (s : ShareRow). (s.difficulty, lookup s.username db.users))
        (select (λ (s : ShareRow). not (leb start s.mined_at) && same s.sharechain chain) db.shares)

  unfoldable pub collect_shares : Db → Float → String → ℕ → Run Found
  unfolding collect_loop share_rows
  collect_shares db share_count chain start =
      let rows = share_rows db chain start in
      collect_loop (length rows + 1) share_count rows 0 no_shares

  -- SELECT sharechain, SUM(difficulty) ... GROUP BY sharechain.
  add_group : String → Float → Map String Float → Map String Float
  add_group chain d groups =
      insert chain (f.plus (or_float f.zero_float (lookup chain groups)) d) groups

  unfoldable group_shares : List ShareRow → Map String Float → Map String Float
  unfolding add_group
  group_shares [] groups = groups
  group_shares (s ∷ shares) groups =
      group_shares shares (add_group s.sharechain s.difficulty groups)

  unfoldable pub chain_sums : Db → ℕ → BlockRow → Map String Float
  unfolding select group_shares
  chain_sums db last_block_time b =
      group_shares
        (select
          (λ (s : ShareRow).
            leb last_block_time s.mined_at
            && leb s.mined_at b.mined_at
            && contains b.currency s.currencies)
          db.shares)
        []

  -- The blocks below this one, of which the query takes the highest; no row leaves the zero time.
  abbrev highest : List BlockRow → ℕ → ℕ → ℕ
  highest [] h t = t
  highest (b ∷ bs) h t = if leb h b.height then highest bs b.height b.mined_at else highest bs h t

  unfoldable pub last_block_time : Db → BlockRow → ℕ
  unfolding select
  last_block_time db b =
      highest
        (select (λ (o : BlockRow). not (leb b.height o.height) && same o.currency b.currency)
          db.blocks)
        0 0
