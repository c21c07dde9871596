-- ===== src/Credits/Pay.antt =====
-- cmd/ngweb/generatecredits.go, payoutPPLNS, processBlock and GenerateCredits: the credits of each
-- share chain, in one transaction for each block. The credits of a map stand in its
-- order, and the payout data that is kept for display is left out, as is its serialisation.
pub mod Twice
use ngpool.Prelude.{
  ℕ, ◌+◌, ◌*◌, ◌≡◌, refl, Bool, true, false, ◌&&◌, ◌||◌, not, String, Option, none, some, List, [],
  ◌∷◌, map, if◌then◌else◌, leb,
}
use ngpool.Prelude.Int.{ℤ, pos, ◌+ℤ◌, ◌-ℤ◌, ltb_ℤ}
use ngpool.Prelude.Map.{Map, lookup, Eq, nat_eq, string_eq, ◌==◌}
use ngpool.Prelude.Run.{Run, ok, err, panic, out_of_fuel, ◌>>=◌, or_err}
use ngpool.Config.{Float, Algo, ShareChainConfig}
use ngpool.Credits.{
  FloatOps, Db, BlockRow, CreditRow, Found, collect_shares, chain_sums, last_block_time, select,
  is_mature,
}
use ngpool.Credits.Split.{ShareChainPayout, load_chains, split_subsidy}

-- CreditMap.
pub record CreditMap : Type 0 where
  pub difficulty : Float
  pub amount : ℤ
  pub fee : Float
  pub user_id : ℕ

-- CONSTRAINT unique_credit UNIQUE (user_id, blockhash, sharechain)
abbrev is_taken : CreditRow → List CreditRow → Bool
is_taken c [] = false
is_taken c (o ∷ rows) =
    ((o.user_id == c.user_id) && (o.blockhash == c.blockhash) && (o.sharechain == c.sharechain))
    || is_taken c rows

abbrev credit_row : BlockRow → String → CreditMap → CreditRow
credit_row block chain c = record {
  user_id = c.user_id;
  amount = c.amount;
  currency = block.currency;
  blockhash = block.hash;
  sharechain = chain;
}

unfoldable insert_credits :
    BlockRow → String → List CreditMap → List CreditRow → Run (List CreditRow)
insert_credits block chain [] rows = ok rows
insert_credits block chain (c ∷ credits) rows =
    let row = credit_row block chain c in
    if is_taken row rows
    then err "duplicate key value violates unique constraint"
    else insert_credits block chain credits (row ∷ rows)

-- UPDATE block SET credited = true WHERE hash = ...
unfoldable pub mark_credited : String → List BlockRow → List BlockRow
mark_credited hash [] = []
mark_credited hash (b ∷ blocks) =
    (if b.hash == hash then record b { credited = true } else b) ∷ mark_credited hash blocks

abbrev pub has_hash : String → List BlockRow → Bool
has_hash hash [] = false
has_hash hash (b ∷ blocks) = (b.hash == hash) || has_hash hash blocks

-- The transaction's rows: the new credits, and the block that they are for.
unfoldable pub commit : BlockRow → Db → List CreditRow → Run Db
unfolding mark_credited
commit block db rows =
    if has_hash block.hash db.blocks
    then ok (record db { credits = rows; blocks = mark_credited block.hash db.blocks })
    else err "Failed to update block information"

abbrev pub is_due : BlockRow → Bool
is_due b = is_mature b.status && not b.credited

module _ (f : FloatOps) where
  -- What one user gets: a fraction of the payable part, and the fee user the fee.
  abbrev user_amount : ShareChainPayout → Float → ℕ → ℤ
  user_amount sc fract id =
      let amount = f.to_int (f.times (f.of_int sc.subsidy_payable) fract) in
      if id == 1 then amount +ℤ sc.subsidy_fee else amount

  -- The loop over the users: amounts of 0 or less give no credit.
  unfoldable user_credits : ShareChainPayout → Float → Map ℕ Float → List CreditMap
  user_credits sc total [] = []
  user_credits sc total ((id, shares) ∷ users) =
      let rest = user_credits sc total users in
      let fract = f.over shares total in
      let amount = user_amount sc fract id in
      if ltb_ℤ (pos 0) amount
      then record {
        difficulty = shares;
        amount = amount;
        fee = f.times (f.of_int sc.subsidy_fee) fract;
        user_id = id;
      }
        ∷ rest
      else rest

  -- Twice the expected shares of the block's target, newest first.
  unfoldable pub payout_pplns : Db → ShareChainPayout → BlockRow → Algo → Run (List CreditMap)
  unfolding collect_shares user_credits
  payout_pplns db sc block algo =
      collect_shares f db (f.times (f.big_quotient algo.share_diff1 block.target) f.two) sc.name
        block.mined_at
      >>= λ found. ok (user_credits sc found.accumulated found.user_shares)

  abbrev with_fee : ShareChainPayout → ShareChainPayout
  with_fee sc =
      let fee = f.to_int (f.times sc.config.fee (f.of_int sc.subsidy)) in
      record sc { subsidy_fee = fee; subsidy_payable = sc.subsidy -ℤ fee }

  abbrev pub payout_method : Db → ShareChainPayout → BlockRow → Algo → Run (List CreditMap)
  payout_method db sc block algo =
      if sc.config.payout_method == "pplns"
      then payout_pplns db sc block algo
      else err "Invalid payout method during payout!"

  unfoldable pub pay_chains :
      Db → BlockRow → Algo → List ShareChainPayout → List CreditRow → Run (List CreditRow)
  unfolding insert_credits payout_pplns
  pay_chains db block algo [] rows = ok rows
  pay_chains db block algo (sc ∷ chains) rows =
      payout_method db (with_fee sc) block algo >>= λ credits.
      insert_credits block sc.name credits rows >>= λ rows'. pay_chains db block algo chains rows'

  -- The database that the commit leaves. Without a commit it stays the same.
  unfoldable pub process_block : Map String ShareChainConfig → BlockRow → Algo → Db → Run Db
  unfolding pay_chains commit load_chains split_subsidy chain_sums last_block_time
  process_block configs block algo db =
      load_chains configs (chain_sums f db (last_block_time f db block) block) >>= λ loaded.
      split_subsidy f block.subsidy loaded >>= λ chains.
      pay_chains db block algo chains db.credits >>= λ rows. commit block db rows

  -- The blocks in turn: the first failure ends the run, and the blocks before it stay committed.
  unfoldable pub credit_blocks :
      Map String ShareChainConfig → Map String Algo → List BlockRow → Db → Db × Run {0} Unit
  unfolding process_block
  credit_blocks configs algos [] db = (db, ok tt)
  credit_blocks configs algos (b ∷ blocks) db =
      elim (or_err "Couldn't locate pow alogo" (lookup b.powalgo algos) >>= λ algo.
      process_block configs b algo db) [
        | ok db' ↦ credit_blocks configs algos blocks db'
        | err e ↦ (db, err e)
        | panic ↦ (db, panic)
        | out_of_fuel ↦ (db, out_of_fuel)
      ]

  unfoldable pub generate_credits :
      Map String ShareChainConfig → Map String Algo → Db → Db × Run {0} Unit
  unfolding credit_blocks select
  generate_credits configs algos db = credit_blocks configs algos (select is_due db.blocks) db
