-- ===== src/Vardiff.antt =====
-- cmd/ngstratum/vardiff.go: difficulty tiers, and the tier for a client's share rate.
-- Difficulties are whole multiples of one unit, a power of two that divides every tier, so that
-- doubling is exact. The quotient of the rates and what is made of it are Go's, and rounded.
pub mod Tiers
pub mod Nearest
use ngpool.Prelude.{
  ℕ, zero, suc, ◌+◌, ◌*◌, Bool, List, [], ◌∷◌, ◌++◌, ltb, leb, ◌==◌, if◌then◌else◌, length,
}
use ngpool.Prelude.Run.{Run, ok, panic, out_of_fuel, ◌>>=◌}
use ngpool.Config.{Float}

pub record VarDiff : Type 0 where
  pub target_submission_rate : ℕ
  pub tiers : List ℕ

-- NewVarDiff's loop, with the tiers that are there already.
unfoldable pub tiers_loop : ℕ → ℕ → ℕ → List ℕ → Run (List ℕ)
tiers_loop zero min max tiers = out_of_fuel
tiers_loop (suc fuel) min max tiers =
    let rest = tiers_loop fuel (min * 2) max (tiers ++ min ∷ []) in
    if leb max (min * 2) then ok ((tiers ++ min ∷ []) ++ max ∷ []) else rest

unfoldable pub new_vardiff : ℕ → ℕ → ℕ → Run VarDiff
unfolding tiers_loop
new_vardiff min max target =
    if ltb max min
    then panic
    else tiers_loop (max + 1) min max [] >>= λ tiers.
        ok (record { target_submission_rate = target; tiers = tiers })

-- Go's float64 behind ComputeNew: the quotient `shareRate / targetSubmissionRate`, infinite or not a
-- number for a target of 0; `math.Abs(tier - idealNew)`; the comparison; and `math.Inf(1)`.
pub record GapOps : Type 0 where
  pub quotient : ℕ → ℕ → Float
  pub abs_gap : ℕ → Float → Float
  pub less : Float → Float → Bool
  pub infinity : Float

-- What a client's difficulty is computed with.
pub record Tuner : Type 0 where
  pub vardiff : VarDiff
  pub ops : GapOps

-- The loop of ComputeNew. The break test reads the smallest gap after its update. A gap that is not a
-- number is neither less nor more than another.
unfoldable pub nearest_loop : GapOps → Float → List ℕ → Float → ℕ → ℕ
nearest_loop ops ideal [] smallest new_diff = new_diff
nearest_loop ops ideal (tier ∷ tiers) smallest new_diff =
    let g = ops.abs_gap tier ideal in
    let smallest' = if ops.less g smallest then g else smallest in
    let new_diff' = if ops.less g smallest then tier else new_diff in
    let rest = nearest_loop ops ideal tiers smallest' new_diff' in
    if ops.less smallest' g then new_diff' else rest

-- With one tier the source reads `v.tiers[1]`, which is out of range.
unfoldable pub compute_new : Tuner → ℕ → Run ℕ
unfolding nearest_loop
compute_new t share_rate =
    let v = t.vardiff in
    if length v.tiers == 1
    then panic
    else ok (
        nearest_loop t.ops (t.ops.quotient share_rate v.target_submission_rate) v.tiers
          t.ops.infinity 0)
