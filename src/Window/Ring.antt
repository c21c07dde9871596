-- ===== src/Window/Ring.antt =====
-- pkg/common/window.go, Add: the ring holds the last samples.
use ngpool.Prelude.{
  ℕ, zero, suc, ◌+◌, ◌<◌, ◌≡◌, refl, sym, ap, ◌∙◌, arith, true, Option, none, some, List, [], ◌∷◌,
  ◌++◌, map, ltb, leb, length, length-append, set, take, drop, replicate, Bool-cases, inl, inr,
}
use mathlib.Core.List.{append-nil, append_assoc}
use mathlib.Core.Path.{subst}
use ngpool.Prelude.Run.{Run, ok, ◌>>=◌}
use ngpool.Window.{Sample, Window, new_window, add, length-set, total}

-- The slots from the oldest to the newest: those from the head on, and then those before it.
abbrev pub slots : Window → List (Option Sample)
slots w = drop w.head w.samples ++ take w.head w.samples

abbrev pub as_sample : ℕ × ℕ → Option Sample
as_sample (now, val) = some (record { time = now; amount = val })

-- Samples added one after another, each at its time.
abbrev pub add_all : List (ℕ × ℕ) → Window → Run Window
add_all [] w = ok w
add_all ((now, val) ∷ adds) w = add now val w >>= add_all adds

module _ {ℓ} {A : Type ℓ} where
  set-take-drop :
      (xs : List A) (h : ℕ) (v : A) → h < length xs → set xs h v ≡ take h xs ++ v ∷ drop (suc h) xs
  set-take-drop [] h v below = absurd (omega (arith, below))
  set-take-drop (x ∷ xs) zero v below = refl
  set-take-drop (x ∷ xs) (suc h) v below =
      ap (λ ys. x ∷ ys) (set-take-drop xs h v (omega (arith, below)))

  drop-set : (xs : List A) (h : ℕ) (v : A) → drop (suc h) (set xs h v) ≡ drop (suc h) xs
  drop-set [] h v = refl
  drop-set (x ∷ xs) zero v = refl
  drop-set (x ∷ xs) (suc h) v = drop-set xs h v

  take-set :
      (xs : List A) (h : ℕ) (v : A)
      → h < length xs
      → take (suc h) (set xs h v) ≡ take h xs ++ v ∷ []
  take-set [] h v below = absurd (omega (arith, below))
  take-set (x ∷ xs) zero v below = refl
  take-set (x ∷ xs) (suc h) v below = ap (λ ys. x ∷ ys) (take-set xs h v (omega (arith, below)))

  drop-one :
      (xs ys : List A) (h : ℕ) → h < length xs → drop 1 (drop h xs ++ ys) ≡ drop (suc h) xs ++ ys
  drop-one [] ys h below = absurd (omega (arith, below))
  drop-one (x ∷ xs) ys zero below = refl
  drop-one (x ∷ xs) ys (suc h) below = drop-one xs ys h (omega (arith, below))

  drop-length : (xs : List A) → drop (length xs) xs ≡ []
  drop-length [] = refl
  drop-length (x ∷ xs) = drop-length xs

  drop-next :
      (k : ℕ) (q xs : List A) (x : A)
      → 0 < length q
      → drop k ((drop 1 q ++ x ∷ []) ++ xs) ≡ drop (suc k) (q ++ x ∷ xs)
  drop-next k [] xs x some_slot = absurd (omega (arith, some_slot))
  drop-next k (a ∷ q) xs x some_slot = ap (drop k) (append_assoc q (x ∷ []) xs)

  length-take-drop : (h : ℕ) (xs : List A) → length (drop h xs) + length (take h xs) ≡ length xs
  length-take-drop zero xs = omega arith
  length-take-drop (suc h) [] = refl
  length-take-drop (suc h) (x ∷ xs) = omega (arith, length-take-drop h xs)

  length-replicate : (n : ℕ) (a : A) → length (replicate n a) ≡ n
  length-replicate zero a = refl
  length-replicate (suc n) a = ap suc (length-replicate n a)

-- Adding a sample drops the oldest slot and puts the sample behind the newest.
add-slots :
    (now val : ℕ) (w : Window)
    → w.head < length w.samples
    → (w' : Window) × (add now val w ≡ ok w')
      × (w'.head < length w'.samples)
      × (slots w' ≡ drop 1 (slots w) ++ as_sample (now, val) ∷ [])
unfolding add
add-slots now val w below =
    let s = w.samples in
    let v = as_sample (now, val) in
    let room : ltb w.head (length s) ≡ true = ground (arith, below) in
    let after : drop 1 (slots w) ++ v ∷ [] ≡ drop (suc w.head) s ++ (take w.head s ++ v ∷ []) =
      ap (λ q. q ++ v ∷ []) (drop-one s (take w.head s) w.head below)
      ∙ append_assoc (drop (suc w.head) s) (take w.head s) (v ∷ []) in
    elim (Bool-cases (leb (length s) (w.head + 1))) [
      | inl last ↦
          let full : length s ≡ suc w.head = ground (arith, last, below) in
          let none_behind : drop (suc w.head) s ≡ [] =
            ap (λ k. drop k s) (sym full) ∙ drop-length s in
          (
            record { samples = set s w.head v; head = 0 },
            rw (room, last) refl,
            omega (arith, below, length-set s w.head v),
            append-nil (set s w.head v)
                ∙ set-take-drop s w.head v below
                ∙ ap (λ ys. take w.head s ++ v ∷ ys) none_behind
                ∙ ap (λ ys. ys ++ (take w.head s ++ v ∷ [])) (sym none_behind)
                ∙ sym after,
          )
      | inr inner ↦
          let one_more : w.head + 1 ≡ suc w.head = omega arith in
          let next : suc w.head < length s = ground (arith, inner) in
          (
            record { samples = set s w.head v; head = w.head + 1 },
            rw (room, inner) refl,
            omega (arith, next, length-set s w.head v),
            ap (λ k. drop k (set s w.head v) ++ take k (set s w.head v)) one_more
                ∙ ap (λ ys. ys ++ take (suc w.head) (set s w.head v)) (drop-set s w.head v)
                ∙ ap (λ ys. drop (suc w.head) s ++ ys) (take-set s w.head v below)
                ∙ sym after,
          )
    ]

length-slots : (w : Window) → length (slots w) ≡ length w.samples
length-slots w =
    length-append (drop w.head w.samples) (take w.head w.samples)
    ∙ length-take-drop w.head w.samples

add_all-slots :
    (adds : List (ℕ × ℕ)) (w : Window)
    → w.head < length w.samples
    → (w' : Window) × (add_all adds w ≡ ok w')
      × (slots w' ≡ drop (length adds) (slots w ++ map as_sample adds))
add_all-slots [] w below = (w, refl, sym (append-nil (slots w)))
add_all-slots ((now, val) ∷ adds) w below =
    let (w1, done, below1, pushed) = add-slots now val w below in
    let (w2, rest, kept) = add_all-slots adds w1 below1 in
    let some_slot : 0 < length (slots w) = omega (arith, below, length-slots w) in
    (
      w2,
      rw done rest,
      kept
          ∙ ap (λ q. drop (length adds) (q ++ map as_sample adds)) pushed
          ∙ drop-next (length adds) (slots w) (map as_sample adds) (as_sample (now, val)) some_slot,
    )

total-append : (xs ys : List (Option Sample)) → total (xs ++ ys) ≡ total xs + total ys
unfolding total
total-append [] ys = omega arith
total-append (none ∷ xs) ys = total-append xs ys
total-append (some s ∷ xs) ys = omega (arith, total-append xs ys)

total-take-drop :
    (h : ℕ) (xs : List (Option Sample)) → total (drop h xs) + total (take h xs) ≡ total xs
unfolding total
total-take-drop zero xs = omega arith
total-take-drop (suc h) [] = refl
total-take-drop (suc h) (none ∷ xs) = total-take-drop h xs
total-take-drop (suc h) (some s ∷ xs) = omega (arith, total-take-drop h xs)

-- In a new window with room, samples can always be added, and then its slots hold, from the oldest
-- to the newest, the last of them, behind empty slots while they are fewer than the slots; and the
-- total of the rate is the sum of just these.
pub add_all-last :
    (size : ℕ) (adds : List (ℕ × ℕ))
    → 0 < size
    → (w : Window) × (add_all adds (new_window size) ≡ ok w)
      × (slots w ≡ drop (length adds) (replicate size none ++ map as_sample adds))
      × (total w.samples ≡ total (drop (length adds) (replicate size none ++ map as_sample adds)))
unfolding new_window
add_all-last size adds room =
    let inside : 0 < length (replicate size none) =
      subst (λ n. 0 < n) (sym (length-replicate size none)) room in
    let (w, done, kept) = add_all-slots adds (new_window size) inside in
    let start : slots (new_window size) ≡ replicate size none = append-nil (replicate size none) in
    let kept' = kept ∙ ap (λ q. drop (length adds) (q ++ map as_sample adds)) start in
    (
      w,
      done,
      kept',
      sym (total-take-drop w.head w.samples)
          ∙ sym (total-append (drop w.head w.samples) (take w.head w.samples))
          ∙ ap total kept',
    )
