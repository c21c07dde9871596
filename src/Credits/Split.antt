-- ===== src/Credits/Split.antt =====
-- cmd/ngweb/generatecredits.go, processBlock: the block's subsidy is split among the share chains,
-- and what the rounding leaves goes to the first of them.
pub mod Total
use ngpool.Prelude.{String, Bool, true, false, Option, List, [], ◌∷◌, if◌then◌else◌}
use ngpool.Prelude.Int.{ℤ, pos, ◌+ℤ◌, ◌-ℤ◌, ltb_ℤ}
use ngpool.Prelude.Map.{Map, lookup, string_eq}
use ngpool.Prelude.Run.{Run, ok, err, panic, out_of_fuel, ◌>>=◌, or_err}
use ngpool.Config.{Float, ShareChainConfig}
use ngpool.Credits.{FloatOps}

-- ShareChainPayout. The fee and the payable part are set for each chain in turn.
pub record ShareChainPayout : Type 0 where
  pub difficulty : Float
  pub name : String
  pub config : ShareChainConfig
  pub subsidy : ℤ
  pub subsidy_payable : ℤ
  pub subsidy_fee : ℤ

-- The config of each chain.
unfoldable pub load_chains :
    Map String ShareChainConfig → Map String Float → Run (List ShareChainPayout)
load_chains configs [] = ok []
load_chains configs ((name, difficulty) ∷ groups) =
    or_err "Unknown ShareChain" (lookup name configs) >>= λ config.
    load_chains configs groups >>= λ chains. ok (
      record {
        difficulty = difficulty;
        name = name;
        config = config;
        subsidy = pos 0;
        subsidy_payable = pos 0;
        subsidy_fee = pos 0;
      }
      ∷ chains)

module _ (f : FloatOps) where
  unfoldable pub share_chains_total : Float → List ShareChainPayout → Float
  share_chains_total total [] = total
  share_chains_total total (sc ∷ chains) = share_chains_total (f.plus total sc.difficulty) chains

  abbrev pub portion : Float → ℤ → ShareChainPayout → ℤ
  portion total subsidy sc = f.to_int (f.times (f.over sc.difficulty total) (f.of_int subsidy))

  -- Each chain's portion, and the sum of the portions.
  unfoldable pub set_subsidies : Float → ℤ → ℤ → List ShareChainPayout → List ShareChainPayout × ℤ
  set_subsidies total subsidy credited [] = ([], credited)
  set_subsidies total subsidy credited (sc ∷ chains) =
      let amount = portion total subsidy sc in
      let rest = set_subsidies total subsidy (credited +ℤ amount) chains in
      (record sc { subsidy = amount } ∷ rest.0, rest.1)

  -- sharechains[0].Subsidy += rounded
  unfoldable pub give_rounded : ℤ → List ShareChainPayout → Run (List ShareChainPayout)
  give_rounded rounded [] = panic
  give_rounded rounded (sc ∷ chains) = ok (record sc { subsidy = sc.subsidy +ℤ rounded } ∷ chains)

  unfoldable pub split_subsidy : ℤ → List ShareChainPayout → Run (List ShareChainPayout)
  unfolding set_subsidies give_rounded share_chains_total
  split_subsidy subsidy chains =
      let total = share_chains_total f.zero_float chains in
      let r = set_subsidies total subsidy (pos 0) chains in
      if ltb_ℤ subsidy r.1
      then err "Float math rounding overflow"
      else give_rounded (subsidy -ℤ r.1) r.0
