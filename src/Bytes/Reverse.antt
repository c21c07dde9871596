-- ===== src/Bytes/Reverse.antt =====
-- pkg/common/common.go: ReverseBytes reverses.
use ngpool.Prelude.{
  ℕ, zero, suc, ◌+◌, ◌-◌, ◌*◌, ◌≤◌, ◌<◌, ◌≡◌, refl, ap, ◌∙◌, [], ◌∷◌, ltb, leb, ◌==◌, ◌&&◌,
  if◌then◌else◌, length, set, arith, Bool-cases, inl, inr, ltb→lt,
}
use ngpool.Bytes.{Bytes, get_or, reverse_loop, reverse_bytes}

length-set : (s : Bytes) (i v : ℕ) → length (set s i v) ≡ length s
length-set [] i v = refl
length-set (x ∷ s) zero v = refl
length-set (x ∷ s) (suc i) v = ap suc (length-set s i v)

get_or-set :
    (s : Bytes) (i k v : ℕ)
    → i < length s
    → get_or (set s i v) k ≡ (if i == k then v else get_or s k)
get_or-set [] i k v h = absurd (omega arith)
get_or-set (x ∷ s) zero zero v h = refl
get_or-set (x ∷ s) zero (suc k) v h = ground arith
get_or-set (x ∷ s) (suc i) zero v h = ground arith
get_or-set (x ∷ s) (suc i) (suc k) v h = ground (arith, get_or-set s i k v)

get_or-ext :
    (s t : Bytes) → length s ≡ length t → ((k : ℕ) → k < length s → get_or s k ≡ get_or t k) → s ≡ t
get_or-ext [] [] e h = refl
get_or-ext [] (y ∷ t) e h = absurd (omega arith)
get_or-ext (x ∷ s) [] e h = absurd (omega arith)
get_or-ext (x ∷ s) (y ∷ t) e h =
    let head : x ≡ y = h 0 (omega arith) in
    let tail = get_or-ext s t (omega arith) (λ k lt. h (suc k) (omega arith)) in rw (head, tail)

swapped :
    (s : Bytes) (i j k : ℕ)
    → i < length s
    → j < length s
    → i < j
    → get_or (set (set s i (get_or s j)) j (get_or s i)) k
      ≡ (if j == k then get_or s i else if i == k then get_or s j else get_or s k)
swapped s i j k hi hj lt = ground (
  arith,
  get_or-set (set s i (get_or s j)) j k (get_or s i),
  get_or-set s i k (get_or s j),
  length-set s i (get_or s j),
)

length-reverse_loop : (r i j : ℕ) (s : Bytes) → length (reverse_loop r i j s) ≡ length s
unfolding reverse_loop
length-reverse_loop zero i j s = refl
length-reverse_loop (suc r) i j s = ground (
  arith,
  length-reverse_loop r (i + 1) (j - 1) (set (set s i (get_or s j)) j (get_or s i)),
  length-set (set s i (get_or s j)) j (get_or s i),
  length-set s i (get_or s j),
)

-- A loop from `i` and `j` mirrors the part between them.
mirrors :
    (r i j k : ℕ) (s : Bytes)
    → j < length s
    → j ≤ i + 2 * r
    → get_or (reverse_loop r i j s) k
      ≡ (if leb i k && leb k j then get_or s (i + j - k) else get_or s k)
unfolding reverse_loop
mirrors zero i j k s h f = ground arith
mirrors (suc r) i j k s h f = elim (Bool-cases (ltb i j)) [
  | inr stop ↦ rw stop (ground arith)
  | inl go ↦
      let lt : i < j = ltb→lt i j go in
      let s' : Bytes = set (set s i (get_or s j)) j (get_or s i) in
      let same : length s' ≡ length s =
        length-set (set s i (get_or s j)) j (get_or s i) ∙ length-set s i (get_or s j) in
      let sum : i + 1 + (j - 1) ≡ i + j = omega arith in
      rw go (
        ground (
          arith,
          sum,
          mirrors r (i + 1) (j - 1) k s' (omega arith) (omega arith),
          swapped s i j k (omega arith) h lt,
          swapped s i j (i + 1 + (j - 1) - k) (omega arith) h lt,
        ))
]

get_or-reverse_bytes :
    (s : Bytes) (k : ℕ) → k < length s → get_or (reverse_bytes s) k ≡ get_or s (length s - 1 - k)
unfolding reverse_bytes
get_or-reverse_bytes s k h =
    ground (arith, mirrors (length s) 0 (length s - 1) k s (omega arith) (omega arith))

length-reverse_bytes : (s : Bytes) → length (reverse_bytes s) ≡ length s
unfolding reverse_bytes
length-reverse_bytes s = length-reverse_loop (length s) 0 (length s - 1) s

-- Reversing twice gives any byte string back, as the payout page and the payout's post rely on for
-- a transaction hash.
pub reverse_bytes-reverse_bytes : (s : Bytes) → reverse_bytes (reverse_bytes s) ≡ s
reverse_bytes-reverse_bytes s =
    let same = length-reverse_bytes s in
    get_or-ext (reverse_bytes (reverse_bytes s)) s (length-reverse_bytes (reverse_bytes s) ∙ same)
      λ k lt.
        let inner : k < length (reverse_bytes s) =
          omega (arith, length-reverse_bytes s, length-reverse_bytes (reverse_bytes s)) in
        get_or-reverse_bytes (reverse_bytes s) k inner
        ∙ get_or-reverse_bytes s (length (reverse_bytes s) - 1 - k)
            (omega (arith, length-reverse_bytes s))
        ∙ ap (get_or s) (omega (arith, length-reverse_bytes s))
