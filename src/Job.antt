-- ===== src/Job.antt =====
-- cmd/ngstratum/job.go: jobs, block headers, blocks and the check of a solution.
pub mod Slots
pub mod Solve
pub mod Build
pub mod Flush
use Prim.Native.Nat.{bit_and, bit_or}
use ngpool.Prelude.{
  ℕ, ◌+◌, ◌-◌, ◌*◌, ◌^◌, ◌%◌, ◌≡◌, Bool, true, false, String, Option, none, some, List, [], ◌∷◌,
  ◌++◌, leb, ltb, take, if◌then◌else◌, length,
}
use mathlib.Core.List.{flatten}
use ngpool.Prelude.Map.{Map, insert, lookup, string_eq}
use ngpool.Prelude.Int.{ℤ, pos, leb_ℤ}
use ngpool.Prelude.Run.{Run, ok, err, panic, ◌>>=◌, or_err}
use ngpool.Bytes.{Bytes, le32}
use ngpool.Config.{ChainConfig, Algo}
use ngpool.Merkle.{walk_branch}
use ngpool.Template.{Deps}

pub record MainChainJob : Type 0 where
  pub currency_config : ChainConfig
  pub subsidy : ℕ
  pub height : ℕ
  pub bits : Bytes
  pub time : Bytes
  pub version : Bytes
  pub prev_block_hash : Bytes
  pub coinbase1 : Bytes
  pub coinbase2 : Bytes
  pub merkle_branch : List Bytes
  pub target : ℤ
  pub transactions : List Bytes
  pub clean_jobs : Bool

pub record AuxChainJob : Type 0 where
  pub currency_config : ChainConfig
  pub subsidy : ℕ
  pub height : ℕ
  pub header_hash : Bytes
  pub block_header : Bytes
  pub chain_id : ℕ
  pub blockchain_merkle_branch : List Bytes
  pub blockchain_merkle_mask : ℕ
  pub transactions : List Bytes
  pub coinbase : Bytes
  pub coinbase_hash : Bytes
  pub target : ℤ

pub record Job : Type 0 where
  pub main : MainChainJob
  pub heights : Map String ℕ
  pub aux_chains : List AuxChainJob
  pub algo : Algo

-- cmd/ngstratum/stratum.go
pub record BlockSolve : Type 0 where
  pub powhash : ℕ
  pub target : ℤ
  pub coinbase_hash : Bytes
  pub height : ℕ
  pub subsidy : ℕ
  pub powalgo : String
  pub solved : Bytes
  pub subsidy_address : String

-- GetStratumParams, with the byte fields not yet in hexadecimal.
pub record StratumParams : Type 0 where
  pub prev_block_hash : Bytes
  pub coinbase1 : Bytes
  pub coinbase2 : Bytes
  pub merkle_branch : List Bytes
  pub version : Bytes
  pub bits : Bytes
  pub time : Bytes
  pub clean_jobs : Bool

unfoldable pub stratum_params : MainChainJob → StratumParams
stratum_params j = record {
  prev_block_hash = j.prev_block_hash;
  coinbase1 = j.coinbase1;
  coinbase2 = j.coinbase2;
  merkle_branch = j.merkle_branch;
  version = j.version;
  bits = j.bits;
  time = j.time;
  clean_jobs = j.clean_jobs;
}

-- What CheckSolves returns, when it returns no error.
pub record Checked : Type 0 where
  pub solves : Map String BlockSolve
  pub valid_share : Bool
  pub currencies : List String

-- `bigHsh.Cmp(shareTarget) >= 0`, behind the test for nil.
abbrev pub share_ok : Option ℕ → ℕ → Bool
share_ok none big_hsh = false
share_ok (some share_target) big_hsh = leb share_target big_hsh

module _ (deps : Deps) where
  -- GetBlockHeader
  unfoldable pub block_header : MainChainJob → Bytes → Bytes → Bytes
  block_header j nonce coinbase_hash =
      j.version
      ++ (j.prev_block_hash
          ++ (walk_branch deps.sha256d coinbase_hash j.merkle_branch
              ++ (j.time ++ (j.bits ++ nonce))))

  -- MainChainJob.GetBlock
  unfoldable pub main_block : MainChainJob → Bytes → Bytes → Bytes
  main_block j header coinbase =
      header
      ++ (deps.write_var_int (length j.transactions + 1) ++ (coinbase ++ flatten j.transactions))

  -- AuxChainJob.GetBlock
  unfoldable pub aux_block : AuxChainJob → Bytes → Bytes → List Bytes → Bytes → Bytes
  aux_block j coinbase parent_hash coinbase_branch parent_header =
      j.block_header
      ++ (coinbase
          ++ (parent_hash
              ++ (deps.write_var_int (length coinbase_branch)
                  ++ (flatten coinbase_branch
                      ++ (0 ∷ 0 ∷ 0 ∷ 0 ∷ []
                          ++ (deps.write_var_int (length j.blockchain_merkle_branch)
                              ++ (flatten j.blockchain_merkle_branch
                                  ++ (le32 j.blockchain_merkle_mask
                                      ++ (parent_header
                                          ++ (deps.write_var_int (length j.transactions + 1)
                                              ++ (j.coinbase ++ flatten j.transactions)))))))))))

  abbrev pub main_solve : Job → Bytes → Bytes → Bytes → ℕ → BlockSolve
  main_solve j header coinbase coinbase_hash big_hsh = record {
    powhash = big_hsh;
    target = j.main.target;
    coinbase_hash = coinbase_hash;
    height = j.main.height;
    subsidy = j.main.subsidy;
    powalgo = j.algo.name;
    solved = main_block j.main header coinbase;
    subsidy_address = j.main.currency_config.block_subsidy_address;
  }

  -- A merged-mined chain's solve is built with no `powalgo`.
  abbrev aux_solve : Job → AuxChainJob → Bytes → Bytes → Bytes → ℕ → BlockSolve
  aux_solve j mj header header_hsh coinbase big_hsh = record {
    powhash = big_hsh;
    target = mj.target;
    coinbase_hash = mj.coinbase_hash;
    height = mj.height;
    subsidy = mj.subsidy;
    powalgo = "";
    solved = aux_block mj coinbase header_hsh j.main.merkle_branch header;
    subsidy_address = mj.currency_config.block_subsidy_address;
  }

  -- GetStratum2Params: the first 76 bytes of a header with zeros for the miner's choices. `header[:76]`
  -- reads on behind a shorter header, up to the slice's capacity.
  unfoldable pub stratum2_blob : MainChainJob → Bytes → Run Bytes
  stratum2_blob j extranonce1 =
      let coinbase = j.coinbase1 ++ (extranonce1 ++ (0 ∷ 0 ∷ 0 ∷ 0 ∷ [] ++ j.coinbase2)) in
      let header = block_header j (0 ∷ 0 ∷ 0 ∷ 0 ∷ []) (deps.sha256d coinbase) in
      let room = header ++ deps.spare header in
      if ltb (length room) 76 then panic else ok (take 76 room)

  -- The loop over the merged-mined chains.
  unfoldable pub check_aux : Job → Bytes → Bytes → Bytes → ℕ → List AuxChainJob → Checked → Checked
  check_aux j header header_hsh coinbase big_hsh [] c = c
  check_aux j header header_hsh coinbase big_hsh (mj ∷ chains) c =
      check_aux j header header_hsh coinbase big_hsh chains (record {
        solves =
            if leb_ℤ (pos big_hsh) mj.target
            then insert mj.currency_config.code (aux_solve j mj header header_hsh coinbase big_hsh)
                c.solves
            else c.solves;
        valid_share = c.valid_share;
        currencies = c.currencies ++ mj.currency_config.code ∷ [];
      })

  -- CheckSolves. `none` for the share target is the CPU miner's nil.
  unfoldable pub check_solves : Job → Bytes → Bytes → Option ℕ → Run Checked
  unfolding check_aux
  check_solves j nonce extra_nonce share_target = do
    let coinbase = j.main.coinbase1 ++ (extra_nonce ++ j.main.coinbase2)
    let coinbase_hash = deps.sha256d coinbase
    let header = block_header j.main nonce coinbase_hash
    header_hsh ← or_err "PoWHash" (j.algo.pow_hash header)
    hash_obj ← or_err "NewHash" (deps.new_hash header_hsh)
    let big_hsh = deps.hash_to_big hash_obj
    ok (
        check_aux j header header_hsh coinbase big_hsh j.aux_chains (record {
          solves =
              if leb_ℤ (pos big_hsh) j.main.target
              then insert j.main.currency_config.code
                  (main_solve j header coinbase coinbase_hash big_hsh) []
              else [];
          valid_share = share_ok share_target big_hsh;
          currencies = j.main.currency_config.code ∷ [];
        }))
