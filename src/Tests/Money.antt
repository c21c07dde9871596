-- ===== src/Tests/Money.antt =====
-- Runs of the credits' code, on whole numbers for floats.
use ngpool.Prelude.{ℕ, ◌+◌, ◌*◌, ◌/◌, ◌≡◌, refl, Bool, String, some, List, [], ◌∷◌, leb}
use ngpool.Prelude.Int.{ℤ, pos, negsuc, sumℤ, ◌+ℤ◌, ◌-ℤ◌}
use ngpool.Prelude.Map.{Map, lookup, insert}
use ngpool.Prelude.Run.{ok}
use ngpool.Config.{Algo, ShareChainConfig}
use ngpool.Credits.{
  FloatOps, ShareRow, BlockRow, Db, mature, collect_shares, page_loop, share_rows, no_shares,
}
use ngpool.Credits.Collect.{collect_shares-pass}
use ngpool.Credits.Split.{ShareChainPayout, split_subsidy}
use ngpool.Credits.Split.Total.{subsidies, split_subsidy-sum}
use ngpool.Credits.Pay.{generate_credits}
use ngpool.Credits.Pay.Twice.{generate_credits-twice}

abbrev or_zero : ℤ → ℕ
or_zero (pos n) = n
or_zero (negsuc n) = 0

-- A float is a number of thousandths.
abbrev pub thousandths : FloatOps
thousandths = record {
  zero_float = 0;
  two = 2000;
  plus = λ a b. a + b;
  times = λ a b. a * b / 1000;
  over = λ a b. a * 1000 / b;
  at_least = λ a b. leb b a;
  of_int = λ n. or_zero n * 1000;
  to_int = λ a. pos (a / 1000);
  big_quotient = λ n a. n * 1000000 / a;
}

abbrev pub sha : Algo
sha = record { name = "sha256d"; pow_hash = λ b. some b; share_diff1 = 100; hashes_per_share = 1 }

abbrev main_chain : ShareChainConfig
main_chain = record {
  name = "MAIN";
  payout_method = "pplns";
  fee = 10;
  algo_name = "sha256d";
  algo = sha;
}

abbrev two_chains : List ShareChainPayout
two_chains =
    record {
      difficulty = 1000;
      name = "MAIN";
      config = main_chain;
      subsidy = pos 0;
      subsidy_payable = pos 0;
      subsidy_fee = pos 0;
    }
    ∷ record {
      difficulty = 2000;
      name = "SIDE";
      config = main_chain;
      subsidy = pos 0;
      subsidy_payable = pos 0;
      subsidy_fee = pos 0;
    }
    ∷ []

two_chains-split :
    (out : List ShareChainPayout) × (split_subsidy thousandths (pos 100) two_chains ≡ ok out)
unfolding split_subsidy ◌+ℤ◌
two_chains-split = (_, refl)

split_subsidy-sum_example : sumℤ (subsidies two_chains-split.0) ≡ pos 100
split_subsidy-sum_example =
    split_subsidy-sum thousandths (pos 100) two_chains two_chains-split.0 two_chains-split.1

abbrev share_by : String → ℕ → ShareRow
share_by user time = record {
  username = user;
  difficulty = 1000;
  mined_at = time;
  sharechain = "MAIN";
  currencies = "BTC" ∷ [];
}

abbrev won_block : BlockRow
won_block = record {
  currency = "BTC";
  height = 7;
  hash = "aa";
  coinbase_hash = "bb";
  powalgo = "sha256d";
  subsidy = pos 5000;
  mined_at = 30;
  target = 50000;
  status = mature;
  credited = Bool.false;
}

abbrev one_block : Db
one_block = record {
  shares = share_by "amy" 20 ∷ share_by "bob" 10 ∷ [];
  users = ("amy", 2) ∷ ("bob", 3) ∷ [];
  blocks = won_block ∷ [];
  credits = [];
}

collect_shares-pass_example :
    collect_shares thousandths one_block 4000 "MAIN" 30
    ≡ ok
        (page_loop thousandths 4000
          (share_rows thousandths one_block "MAIN" 30)
          (no_shares thousandths)).1
collect_shares-pass_example = collect_shares-pass thousandths one_block 4000 "MAIN" 30

abbrev chain_configs : Map String ShareChainConfig
chain_configs = ("MAIN", main_chain) ∷ []

abbrev algos : Map String Algo
algos = ("sha256d", sha) ∷ []

one_block-credited : (generate_credits thousandths chain_configs algos one_block).1 ≡ ok tt
unfolding generate_credits lookup insert ◌+ℤ◌ ◌-ℤ◌
one_block-credited = refl

generate_credits-twice_example :
    generate_credits thousandths chain_configs algos
      (generate_credits thousandths chain_configs algos one_block).0
    ≡ ((generate_credits thousandths chain_configs algos one_block).0, ok tt)
generate_credits-twice_example =
    generate_credits-twice thousandths chain_configs algos one_block one_block-credited
