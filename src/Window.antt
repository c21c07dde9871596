-- ===== src/Window.antt =====
-- pkg/common/window.go: a ring of the last samples, and their rate.
-- Times and intervals are whole nanoseconds, and amounts whole multiples of one unit.
pub mod Ring
use ngpool.Prelude.{
  ℕ, zero, suc, ◌+◌, ◌-◌, ◌*◌, ◌<◌, ◌≡◌, refl, ap, arith, true, Option, none, some, List, [], ◌∷◌,
  ltb, leb, if◌then◌else◌, length, set, replicate,
}
use ngpool.Prelude.Run.{Run, ok, panic}

pub record Sample : Type 0 where
  pub time : ℕ
  pub amount : ℕ

pub record Window : Type 0 where
  pub samples : List (Option Sample)
  pub head : ℕ

pub length-set {ℓ} : {A : Type ℓ} (xs : List A) (i : ℕ) (v : A) → length (set xs i v) ≡ length xs
length-set [] i v = refl
length-set (x ∷ xs) zero v = refl
length-set (x ∷ xs) (suc i) v = ap suc (length-set xs i v)

unfoldable pub new_window : ℕ → Window
new_window size = record { samples = replicate size none; head = 0 }

-- Writing at the head panics where the ring has no room at all.
unfoldable pub add : ℕ → ℕ → Window → Run Window
add now val w =
    if ltb w.head (length w.samples)
    then ok (record {
      samples = set w.samples w.head (some (record { time = now; amount = val }));
      head = if leb (length w.samples) (w.head + 1) then 0 else w.head + 1;
    })
    else panic

-- With the head inside the ring a sample is added, and the head stays inside.
pub add-room :
    (now val : ℕ) (w : Window)
    → w.head < length w.samples
    → (w' : Window) × (add now val w ≡ ok w') × (w'.head < length w'.samples)
unfolding add
add-room now val w h =
    let room : ltb w.head (length w.samples) ≡ true = ground arith in
    (
      record {
        samples = set w.samples w.head (some (record { time = now; amount = val }));
        head = if leb (length w.samples) (w.head + 1) then 0 else w.head + 1;
      },
      rw room refl,
      ground (arith, length-set w.samples w.head (some (record { time = now; amount = val }))),
    )

-- The sum of the amounts, and the time that the source calls `newest`.
unfoldable pub total : List (Option Sample) → ℕ
total [] = 0
total (none ∷ samples) = total samples
total (some s ∷ samples) = s.amount + total samples

abbrev earlier : Option ℕ → ℕ → Option ℕ
earlier none t = some t
earlier (some u) t = if ltb t u then some t else some u

unfoldable first_time : Option ℕ → List (Option Sample) → Option ℕ
first_time newest [] = newest
first_time newest (none ∷ samples) = first_time newest samples
first_time newest (some s ∷ samples) = first_time (earlier newest s.time) samples

-- Rate: a fraction, the total over the intervals since that time; 0 with no samples.
unfoldable pub rate : ℕ → ℕ → Window → ℕ × ℕ
unfolding total first_time
rate interval now w = elim (first_time none w.samples) [
  | none ↦ (0, 1)
  | some newest ↦ (total w.samples * interval, now - newest)
]
