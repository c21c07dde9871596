-- ===== src/Vardiff/Nearest.antt =====
-- cmd/ngstratum/vardiff.go: ComputeNew picks a tier with the least gap.
use ngpool.Prelude.{
  ℕ, suc, ◌≤◌, ◌<◌, ◌≡◌, refl, ◌⊎◌, true, false, List, [], ◌∷◌, ◌==◌, length, All, arith,
  Bool-cases, ap, inl, inr,
}
use ngpool.Prelude.Run.{ok}
use ngpool.Config.{Float}
use ngpool.Vardiff.{VarDiff, GapOps, nearest_loop, new_vardiff, compute_new}
use ngpool.Vardiff.Tiers.{Doubling, last, double, Doubling-length, new_vardiff-Doubling}

abbrev pub IsIn : ℕ → List ℕ → Type 0
IsIn t [] = ⊥
IsIn t (x ∷ xs) = (t ≡ x) ⊎ IsIn t xs

-- From `lo` on, the tiers ascend to `max` at most.
abbrev Ascending : ℕ → ℕ → List ℕ → Type 0
Ascending max lo [] = Unit
Ascending max lo (t ∷ tiers) = (lo ≤ t) × (t ≤ max) × Ascending max t tiers

Ascending-lower :
    (max l m : ℕ) (tiers : List ℕ) → l ≤ m → Ascending max m tiers → Ascending max l tiers
Ascending-lower max l m [] le a = tt
Ascending-lower max l m (t ∷ tiers) le (p, top, a) = (omega (arith, le, p), top, a)

-- The float gaps of the difficulties up to `max` are numbers less than infinity, so that `less` orders
-- them, and where a gap is more than that of a smaller difficulty, the gaps of larger ones are not
-- less. This is so of gaps rounded from their values wherever the ideal is finite.
pub record IsRounded (ops : GapOps) (ideal : Float) (max : ℕ) : Type 0 where
  pub finite : (t : ℕ) → t ≤ max → ops.less (ops.abs_gap t ideal) ops.infinity ≡ true
  pub asym :
      (a b : ℕ)
      → a ≤ max
      → b ≤ max
      → ops.less (ops.abs_gap a ideal) (ops.abs_gap b ideal) ≡ true
      → ops.less (ops.abs_gap b ideal) (ops.abs_gap a ideal) ≡ false
  pub trans :
      (a b c : ℕ)
      → a ≤ max
      → b ≤ max
      → c ≤ max
      → ops.less (ops.abs_gap b ideal) (ops.abs_gap a ideal) ≡ false
      → ops.less (ops.abs_gap c ideal) (ops.abs_gap b ideal) ≡ false
      → ops.less (ops.abs_gap c ideal) (ops.abs_gap a ideal) ≡ false
  pub grows :
      (low mid high : ℕ)
      → low ≤ mid
      → mid ≤ high
      → high ≤ max
      → ops.less (ops.abs_gap low ideal) (ops.abs_gap mid ideal) ≡ true
      → ops.less (ops.abs_gap high ideal) (ops.abs_gap mid ideal) ≡ false

-- No tier has a gap that is less.
abbrev pub IsLeast : GapOps → Float → ℕ → List ℕ → Type 0
IsLeast ops ideal best = All (λ t. ops.less (ops.abs_gap t ideal) (ops.abs_gap best ideal) ≡ false)

module _ (ops : GapOps) (ideal : Float) (max : ℕ) (rounded : IsRounded ops ideal max) where
  irreflexive : (a : ℕ) → a ≤ max → ops.less (ops.abs_gap a ideal) (ops.abs_gap a ideal) ≡ false
  irreflexive a le = elim (Bool-cases (ops.less (ops.abs_gap a ideal) (ops.abs_gap a ideal))) [
    | inl less ↦ rounded.asym a a le le less
    | inr same ↦ same
  ]

  -- Past a tier whose gap has grown, no gap is less.
  IsLeast-grown :
      (d t : ℕ) (tiers : List ℕ)
      → d ≤ t
      → t ≤ max
      → ops.less (ops.abs_gap d ideal) (ops.abs_gap t ideal) ≡ true
      → Ascending max t tiers
      → IsLeast ops ideal d tiers
  IsLeast-grown d t [] p q less a = tt
  IsLeast-grown d t (h ∷ tiers) p q less (le, top, a) =
      let below : d ≤ max = omega arith in
      let up = rounded.grows d t h p le top less in
      let not_less = rounded.asym d t below q less in
      let further = rounded.trans d t h below q top not_less up in
      (further, IsLeast-grown d t tiers p q less (Ascending-lower max t h tiers le a))

  IsLeast-loop :
      (tiers : List ℕ) (d : ℕ)
      → d ≤ max
      → Ascending max d tiers
      → (best : ℕ) × (nearest_loop ops ideal tiers (ops.abs_gap d ideal) d ≡ best)
        × (best ≤ max)
        × IsLeast ops ideal best (d ∷ tiers)
        × IsIn best (d ∷ tiers)
  unfolding nearest_loop
  IsLeast-loop [] d top a = (d, refl, top, (irreflexive d top, tt), inl refl)
  IsLeast-loop (t ∷ tiers) d top (le, top', a) =
      elim (Bool-cases (ops.less (ops.abs_gap t ideal) (ops.abs_gap d ideal))) [
        | inl less ↦
            let (best, e, high, least, isin) = IsLeast-loop tiers t top' a in
            let still = irreflexive t top' in
            let first =
              rounded.trans best t d high top' top least.0 (rounded.asym t d top' top less) in
            (best, rw (less, still) e, high, (first, least), inr isin)
        | inr same ↦ elim (Bool-cases (ops.less (ops.abs_gap d ideal) (ops.abs_gap t ideal))) [
          | inl more ↦ (
            d,
            rw (same, more),
            top,
            (irreflexive d top, (same, IsLeast-grown d t tiers le top' more a)),
            inl refl,
          )
          | inr equal ↦
              let (best, e, high, least, isin) =
                IsLeast-loop tiers d top (Ascending-lower max d t tiers le a) in
              let next = rounded.trans best d t high top top' least.0 same in
              (best, rw (same, equal) e, high, (least.0, (next, least.1)), skip best isin)
        ]
      ]
    where
      skip : (best : ℕ) → IsIn best (d ∷ tiers) → IsIn best (d ∷ t ∷ tiers)
      skip best (inl e) = inl e
      skip best (inr i) = inr (inr i)

Doubling-Ascending :
    {max min : ℕ} {tiers : List ℕ} (lo : ℕ)
    → 0 < min
    → lo ≤ min
    → Doubling max min tiers
    → Ascending max lo tiers
Doubling-Ascending lo pos p (last le up) = (p, le, (le, omega arith, tt))
Doubling-Ascending lo pos p (double {min = min} lt d) =
    (p, omega arith, Doubling-Ascending min (omega arith) (omega arith) d)

compute_new-nearest :
    (ops : GapOps) (max min target rate : ℕ) (tiers : List ℕ)
    → IsRounded ops (ops.quotient rate target) max
    → 0 < min
    → Doubling max min tiers
    → (best : ℕ) × (compute_new
          (record {
            vardiff = record { target_submission_rate = target; tiers = tiers };
            ops = ops;
          })
          rate
        ≡ ok best)
      × IsLeast ops (ops.quotient rate target) best tiers
      × IsIn best tiers
unfolding compute_new nearest_loop
compute_new-nearest ops max min target rate (t ∷ tiers) rounded pos d =
    let ideal = ops.quotient rate target in
    let (_, top, a) = Doubling-Ascending 0 pos (omega arith) d in
    let (best, e, _, least, isin) = IsLeast-loop ops ideal max rounded tiers t top a in
    let long : (suc (length tiers) == 1) ≡ false = ground (arith, Doubling-length d) in
    let first = rounded.finite t top in
    let still = irreflexive ops ideal max rounded t top in
    (best, rw (long, first, still) (ap ok e), least, isin)
compute_new-nearest ops max min target rate [] rounded pos d =
    absurd (omega (arith, Doubling-length d))

-- With the tiers that NewVarDiff makes from a positive minimum not above the maximum, and where the
-- float gaps of the difficulties up to the maximum are ordered, finite, and do not fall again past one
-- that has risen, which a target rate of 0 does not give: ComputeNew never panics, and returns one of
-- the tiers, such that no tier has a gap that is less.
pub compute_new-new_vardiff :
    (ops : GapOps) (min max target rate : ℕ)
    → IsRounded ops (ops.quotient rate target) max
    → 0 < min
    → min ≤ max
    → (v : VarDiff) × (best : ℕ) × (new_vardiff min max target ≡ ok v)
      × (compute_new (record { vardiff = v; ops = ops }) rate ≡ ok best)
      × IsLeast ops (ops.quotient rate target) best v.tiers
      × IsIn best v.tiers
compute_new-new_vardiff ops min max target rate rounded pos le =
    let (tiers, made, d) = new_vardiff-Doubling min max target pos le in
    let (best, e, least, isin) = compute_new-nearest ops max min target rate tiers rounded pos d in
    (record { target_submission_rate = target; tiers = tiers }, best, made, e, least, isin)
