-- ===== src/Config.antt =====
-- pkg/service/algos.go, chain.go and currency.go: what the programs know of algorithms, share
-- chains and currencies.
pub mod Algos
pub mod Currencies
use ngpool.Prelude.{ℕ, Bool, String, Option, none, some, List, [], ◌∷◌}
use ngpool.Prelude.Map.{Map, lookup, insert, string_eq}
use ngpool.Prelude.Run.{Run, ok, ◌>>=◌, or_panic}
use ngpool.Bytes.{Bytes}

-- A float64 is its bit pattern. Go's arithmetic on it is a parameter wherever it is used.
abbrev pub Float : Type 0
Float = ℕ

-- ShareDiff1 is a whole number that the program never changes.
pub record Algo : Type 0 where
  pub name : String
  pub pow_hash : Bytes → Option Bytes
  pub share_diff1 : ℕ
  pub hashes_per_share : ℕ

-- The subsidy address is kept as the text that its String method gives.
pub record ChainConfig : Type 0 where
  pub code : String
  pub block_mature_confirms : ℕ
  pub flush_aux : Bool
  pub payout_transaction_fee : ℕ
  pub multi_algo : Bool
  pub multi_algo_map : Map String ℕ
  pub multi_algo_bit_shift : ℕ
  pub multi_algo_bit_width : ℕ
  pub algo : Option Algo
  pub block_subsidy_address : String

pub record ShareChainConfig : Type 0 where
  pub name : String
  pub payout_method : String
  pub fee : Float
  pub algo_name : String
  pub algo : Algo

-- What mapstructure makes of one chain's section: the fields that the section names.
pub record RawShareChain : Type 0 where
  pub name : Option String
  pub payout_method : String
  pub fee : Float
  pub algo_name : String

abbrev pub named : String → Option String → String
named upper none = upper
named upper (some name) = name

-- SetupShareChains, over the sections in the order in which the map yields them. `to_upper` is
-- strings.ToUpper, and a section that mapstructure refuses is `none`.
unfoldable setup_share_chains :
    (String → String)
    → Map String Algo
    → List (String × Option RawShareChain)
    → Map String ShareChainConfig
    → Run (Map String ShareChainConfig)
setup_share_chains to_upper algos [] chains = ok chains
setup_share_chains to_upper algos ((name, raw) ∷ rest) chains = or_panic raw >>= λ section.
    or_panic (lookup section.algo_name algos) >>= λ algo. setup_share_chains to_upper algos rest (
      insert (named (to_upper name) section.name)
        (record {
          name = named (to_upper name) section.name;
          payout_method = section.payout_method;
          fee = section.fee;
          algo_name = section.algo_name;
          algo = algo;
        })
        chains)
