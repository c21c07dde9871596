-- ===== src/Config/Currencies.antt =====
-- pkg/service/currency.go: SetupCurrencies and MarshalJSON. Networks and addresses of btcd, upper
-- case and hexadecimal are parameters.
pub mod Checked
use ngpool.Prelude.{ℕ, Bool, true, false, String, Option, none, some, List, [], ◌∷◌, if◌then◌else◌}
use ngpool.Prelude.Map.{Map, lookup, insert, nat_eq, string_eq, ◌==◌}
use ngpool.Prelude.Run.{Run, ok, err, panic, or_panic, or_err, ◌>>=◌}
use ngpool.Bytes.{Bytes}
use ngpool.Config.{Algo, ChainConfig}

-- A currency's section, as mapstructure decodes it.
pub record ChainConfigDecoder : Type 0 where
  pub code : String
  pub pow_algorithm : String
  pub subsidy_address : String
  pub pub_key_addr_id : String
  pub priv_key_addr_id : String
  pub net_magic : ℕ
  pub block_mature_confirms : ℕ
  pub payout_transaction_fee : ℕ
  pub flush_aux : Bool
  pub multi_algo : Bool
  pub multi_algo_map : Map String ℕ
  pub multi_algo_bit_shift : ℕ
  pub multi_algo_bit_width : ℕ

pub record Params : Type 0 where
  pub name : String
  pub net : ℕ
  pub private_key_id : ℕ
  pub pub_key_hash_addr_id : ℕ

-- `register` is chaincfg.Register on the networks so far, and `decode_address` gives the text of the
-- address that it decodes.
pub record Networks (S : Type 0) : Type 0 where
  pub to_upper : String → String
  pub hex_decode : String → Option Bytes
  pub register : Params → S → Option S
  pub decode_address : String → Params → Option String

-- decoded[0]
abbrev first_byte : Bytes → Option ℕ
first_byte [] = none
first_byte (b ∷ rest) = some b

module _ {S : Type 0} (networks : Networks S) (algos : Map String Algo) where
  abbrev address_id : String → Run ℕ
  address_id text = or_panic (networks.hex_decode text) >>= λ decoded. or_panic (first_byte decoded)

  abbrev pub to_params : String → ChainConfigDecoder → Run Params
  to_params code config = address_id config.priv_key_addr_id >>= λ private_key_id.
      address_id config.pub_key_addr_id >>= λ pub_key_id. ok (record {
        name = code;
        net = config.net_magic;
        private_key_id = private_key_id;
        pub_key_hash_addr_id = pub_key_id;
      })

  -- FlushAux is not copied, and an algorithm that is not there is a nil pointer.
  abbrev pub to_config : String → String → ChainConfigDecoder → ChainConfig
  to_config code address config = record {
    code = code;
    block_mature_confirms = config.block_mature_confirms;
    flush_aux = false;
    payout_transaction_fee = config.payout_transaction_fee;
    multi_algo = config.multi_algo;
    multi_algo_map = config.multi_algo_map;
    multi_algo_bit_shift = config.multi_algo_bit_shift;
    multi_algo_bit_width = config.multi_algo_bit_width;
    algo = lookup config.pow_algorithm algos;
    block_subsidy_address = address;
  }

  abbrev pub checked : String → String → ChainConfigDecoder → Run ChainConfig
  checked code address config =
      if config.block_mature_confirms == 0
      then panic
      else if config.payout_transaction_fee == 0
      then panic
      else ok (to_config code address config)

  -- SetupCurrencies, over the sections in the order in which the map yields them; a section that
  -- mapstructure refuses is `none`, and an error stands for os.Exit.
  unfoldable pub setup_currencies :
      List (String × Option ChainConfigDecoder)
      → S
      → Map String ChainConfig
      → Run (S × Map String ChainConfig)
  unfolding lookup insert
  setup_currencies [] nets currencies = ok (nets, currencies)
  setup_currencies ((name, raw) ∷ rest) nets currencies = or_panic raw >>= λ config.
      let code = networks.to_upper name in
      to_params code config >>= λ params. or_panic (networks.register params nets) >>= λ nets'.
      or_err "Error decoding SubsidyAddress" (networks.decode_address config.subsidy_address params)
      >>= λ address. checked code address config >>= λ currency.
          setup_currencies rest nets' (insert code currency currencies)

-- The fields that MarshalJSON writes.
pub record ChainJson : Type 0 where
  pub code : String
  pub block_mature_confirms : ℕ
  pub flush_aux : Bool
  pub payout_transaction_fee : ℕ
  pub multi_algo : Bool
  pub multi_algo_map : Map String ℕ
  pub multi_algo_bit_shift : ℕ
  pub multi_algo_bit_width : ℕ
  pub algo : String
  pub block_subsidy_address : String

-- The name of a nil algorithm panics.
unfoldable marshal_json : ChainConfig → Run ChainJson
marshal_json u = or_panic u.algo >>= λ (algo : Algo). ok (record {
  code = u.code;
  block_mature_confirms = u.block_mature_confirms;
  flush_aux = u.flush_aux;
  payout_transaction_fee = u.payout_transaction_fee;
  multi_algo = u.multi_algo;
  multi_algo_map = u.multi_algo_map;
  multi_algo_bit_shift = u.multi_algo_bit_shift;
  multi_algo_bit_width = u.multi_algo_bit_width;
  algo = algo.name;
  block_subsidy_address = u.block_subsidy_address;
})
