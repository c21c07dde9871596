-- ===== src/Vardiff/Tiers.antt =====
-- cmd/ngstratum/vardiff.go: what NewVarDiff makes.
use ngpool.Prelude.{
  ℕ, zero, suc, ◌+◌, ◌*◌, ◌≤◌, ◌<◌, ◌≡◌, refl, ◌∙◌, ap, false, List, [], ◌∷◌, ◌++◌, ltb, leb,
  length, arith, Bool-cases, inl, inr, leb→le,
}
use ngpool.Prelude.Run.{ok, out_of_fuel}
use mathlib.Core.List.{append_assoc}
use ngpool.Vardiff.{tiers_loop, new_vardiff}

-- From `min` on each tier doubles the one before it and stays below `max`, which is the last.
pub data Doubling (max : ℕ) : ℕ → List ℕ → Type 0 where
  last : {min : ℕ} → min ≤ max → max ≤ min * 2 → Doubling max min (min ∷ max ∷ [])
  double :
      {min : ℕ} {tiers : List ℕ}
      → min * 2 < max
      → Doubling max (min * 2) tiers
      → Doubling max min (min ∷ tiers)

tiers_loop-Doubling :
    (fuel min max : ℕ) (tiers : List ℕ)
    → 0 < min
    → min ≤ max
    → max < min + fuel
    → (new : List ℕ) × (tiers_loop fuel min max tiers ≡ ok (tiers ++ new)) × Doubling max min new
unfolding tiers_loop
tiers_loop-Doubling zero min max tiers pos le f = absurd (omega arith)
tiers_loop-Doubling (suc fuel) min max tiers pos le f = elim (Bool-cases (leb max (min * 2))) [
  | inl stop ↦ (
    min ∷ max ∷ [],
    rw stop (ap ok (append_assoc tiers (min ∷ []) (max ∷ []))),
    last le (leb→le _ _ stop),
  )
  | inr more ↦
      let below : min * 2 < max = ground arith in
      let (new, made, d) =
        tiers_loop-Doubling fuel (min * 2) max (tiers ++ min ∷ []) (omega arith) (omega arith)
          (omega arith) in
      (min ∷ new, rw more (made ∙ ap ok (append_assoc tiers (min ∷ []) new)), double below d)
]

-- With a positive minimum that is not above the maximum, NewVarDiff returns: its tiers start at the
-- minimum, each doubles the one before, and the maximum, at most twice the last of them, ends them.
pub new_vardiff-Doubling :
    (min max target : ℕ)
    → 0 < min
    → min ≤ max
    → (tiers : List ℕ) × (new_vardiff min max target
        ≡ ok (record { target_submission_rate = target; tiers = tiers }))
      × Doubling max min tiers
unfolding new_vardiff
new_vardiff-Doubling min max target pos le =
    let (new, made, d) = tiers_loop-Doubling (max + 1) min max [] pos le (omega arith) in
    let ordered : ltb max min ≡ false = ground arith in (new, rw (ordered, made), d)

tiers_loop-zero :
    (fuel max : ℕ) (tiers : List ℕ) → 0 < max → tiers_loop fuel 0 max tiers ≡ out_of_fuel
unfolding tiers_loop
tiers_loop-zero zero max tiers h = refl
tiers_loop-zero (suc fuel) max tiers h =
    let more : leb max (0 * 2) ≡ false = ground arith in
    rw more (tiers_loop-zero fuel max (tiers ++ 0 ∷ []) h)

pub Doubling-length : {max min : ℕ} {tiers : List ℕ} → Doubling max min tiers → 1 < length tiers
Doubling-length (last le up) = omega arith
Doubling-length (double lt d) = omega (arith, Doubling-length d)
