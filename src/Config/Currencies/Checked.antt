-- ===== src/Config/Currencies/Checked.antt =====
-- pkg/service/currency.go, SetupCurrencies: what every configured currency has.
use ngpool.Prelude.{◌≡◌, refl, ap, false, String, Option, List, [], ◌∷◌, All, Bool-cases, inl, inr}
use mathlib.Core.Path.{subst}
use ngpool.Prelude.Map.{Map, insert, nat_eq, string_eq, ◌==◌}
use ngpool.Prelude.Run.{Run, ok, panic, or_panic, or_err, >>=-eq-ok, ok-injective}
use ngpool.Config.{Algo, ChainConfig}
use ngpool.Config.Currencies.{
  ChainConfigDecoder, Networks, to_params, to_config, checked, setup_currencies,
}

-- Confirmations and a fee are given, and a merged-mined block does not flush the jobs.
abbrev pub IsConfigured : String × ChainConfig → Type 0
IsConfigured entry =
    ((entry.1.block_mature_confirms == 0) ≡ false)
    × ((entry.1.payout_transaction_fee == 0) ≡ false)
    × (entry.1.flush_aux ≡ false)

insert-All :
    (P : String × ChainConfig → Type 0) (code : String) (c : ChainConfig)
    (m : Map String ChainConfig)
    → P (code, c)
    → All P m
    → All P (insert code c m)
unfolding insert
insert-All P code c [] p h = (p, tt)
insert-All P code c (entry ∷ m) p h = elim (Bool-cases (entry.0 == code)) [
  | inl same ↦ rw same (p, h.1)
  | inr apart ↦ rw apart (h.0, insert-All P code c m p h.1)
]

module _ {S : Type 0} (networks : Networks S) (algos : Map String Algo) where
  checked-IsConfigured :
      (code address : String) (config : ChainConfigDecoder) (c : ChainConfig)
      → checked networks algos code address config ≡ ok c
      → IsConfigured (code, c)
  checked-IsConfigured code address config c e =
      elim (Bool-cases (config.block_mature_confirms == 0)) [
        | inl zero_confirms ↦
            let stopped : ◌≡◌ {A = Run ChainConfig} panic (ok c) =
              rw (zero_confirms, checked) at e in
            absurd cc
        | inr confirms ↦ elim (Bool-cases (config.payout_transaction_fee == 0)) [
          | inl zero_fee ↦
              let stopped : ◌≡◌ {A = Run ChainConfig} panic (ok c) =
                rw (confirms, zero_fee, checked) at e in
              absurd cc
          | inr fee ↦
              let done : ok (to_config networks algos code address config) ≡ ok c =
                rw (confirms, fee, checked) at e in
              subst (λ v. IsConfigured (code, v)) (ok-injective done) (confirms, fee, refl)
        ]
      ]

  -- When SetupCurrencies ends, every currency has confirmations and a fee that are not zero, and
  -- none flushes the jobs for its merged-mined blocks, whatever its section says.
  pub setup_currencies-IsConfigured :
      (sections : List (String × Option ChainConfigDecoder)) (nets nets' : S)
      (before after : Map String ChainConfig)
      → All IsConfigured before
      → setup_currencies networks algos sections nets before ≡ ok (nets', after)
      → All IsConfigured after
  unfolding setup_currencies
  setup_currencies-IsConfigured [] nets nets' before after h e =
      let same : ◌≡◌ {A = S × Map String ChainConfig} (nets, before) (nets', after) =
        ok-injective e in
      subst (All IsConfigured) (ap (λ (p : S × Map String ChainConfig). p.1) same) h
  setup_currencies-IsConfigured ((name, raw) ∷ rest) nets nets' before after h e =
      let code = networks.to_upper name in
      let (config, _, e1) = >>=-eq-ok (or_panic raw) _ e in
      let (params, _, e2) = >>=-eq-ok (to_params networks algos code config) _ e1 in
      let (nets1, _, e3) = >>=-eq-ok (or_panic (networks.register params nets)) _ e2 in
      let (address, _, e4) =
        >>=-eq-ok
          (or_err "Error decoding SubsidyAddress"
            (networks.decode_address config.subsidy_address params))
          _ e3 in
      let (currency, good, e5) = >>=-eq-ok (checked networks algos code address config) _ e4 in
      setup_currencies-IsConfigured rest nets1 nets' (insert code currency before) after
        (insert-All IsConfigured code currency before
          (checked-IsConfigured code address config currency good) h)
        e5
