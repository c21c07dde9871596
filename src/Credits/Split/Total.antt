-- ===== src/Credits/Split/Total.antt =====
-- cmd/ngweb/generatecredits.go, processBlock: what the share chains get adds up to the subsidy.
use ngpool.Prelude.{◌≡◌, sym, ap, ◌∙◌, inl, inr, List, [], ◌∷◌, map, Bool-cases}
use ngpool.Prelude.Int.{ℤ, pos, ◌+ℤ◌, ◌-ℤ◌, ltb_ℤ, sumℤ, int_laws}
use ngpool.Prelude.Run.{ok, err, ok-injective}
use ngpool.Config.{Float}
use ngpool.Credits.{FloatOps}
use ngpool.Credits.Split.{
  ShareChainPayout, portion, set_subsidies, give_rounded, split_subsidy, share_chains_total,
}

abbrev pub subsidies : List ShareChainPayout → List ℤ
subsidies chains = map (λ (sc : ShareChainPayout). sc.subsidy) chains

set_subsidies-sum :
    (f : FloatOps) (total : Float) (s c : ℤ) (chains : List ShareChainPayout)
    → (set_subsidies f total s c chains).1
      ≡ c +ℤ sumℤ (subsidies (set_subsidies f total s c chains).0)
unfolding set_subsidies sumℤ
set_subsidies-sum f total s c [] = omega int_laws
set_subsidies-sum f total s c (sc ∷ chains) =
    set_subsidies-sum f total s (c +ℤ portion f total s sc) chains ∙ omega int_laws

give_rounded-sum :
    (f : FloatOps) (rounded : ℤ) (chains out : List ShareChainPayout)
    → give_rounded f rounded chains ≡ ok out
    → sumℤ (subsidies out) ≡ sumℤ (subsidies chains) +ℤ rounded
unfolding give_rounded sumℤ
give_rounded-sum f rounded [] out e = cc
give_rounded-sum f rounded (sc ∷ chains) out e =
    ap (λ o. sumℤ (subsidies o)) (sym (ok-injective e)) ∙ omega int_laws

-- The subsidies that the share chains get add up to the block's subsidy exactly, whatever the
-- float arithmetic rounds.
pub split_subsidy-sum :
    (f : FloatOps) (subsidy : ℤ) (chains out : List ShareChainPayout)
    → split_subsidy f subsidy chains ≡ ok out
    → sumℤ (subsidies out) ≡ subsidy
unfolding split_subsidy
split_subsidy-sum f subsidy chains out e =
    let total = share_chains_total f f.zero_float chains in
    let r = set_subsidies f total subsidy (pos 0) chains in
    elim (Bool-cases (ltb_ℤ subsidy r.1)) [
      | inl over ↦ let refused : err "Float math rounding overflow" ≡ ok out = rw over at e in cc
      | inr fits ↦
          give_rounded-sum f (subsidy -ℤ r.1) r.0 out (rw fits at e)
          ∙ rw (set_subsidies-sum f total subsidy (pos 0) chains) (omega int_laws)
    ]
