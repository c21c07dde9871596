-- ===== src/Job/Slots/Table.antt =====
-- cmd/ngstratum/job.go: MerkleLoop ends, and each chain has a slot of its own in the table.
use ngpool.Prelude.{
  ℕ, zero, suc, ◌*◌, ◌%◌, ◌^◌, ◌≡◌, ◌≢◌, refl, ◌∙◌, Option, none, some, List, [], ◌∷◌, get_elem?,
  set, replicate, arith, Option-cases, ap, inl, inr, ◌⊎◌, All, ◌++◌,
}
use ngpool.Prelude.Run.{ok, panic, >>=-eq-ok}
use ngpool.Merkle.{Bytes}
use ngpool.Job.Slots.{AuxChain, Slots, u32, slot, place, slots_loop, merkle_slots}
use native.Mathlib.Nat.{pow-suc}

-- What stands in a table at an index.
abbrev At : Slots → ℕ → Bytes → Type 0
At base i h = get_elem? base i ≡ some (some h)

At-set_free :
    (base : Slots) (i j : ℕ) (g h : Bytes)
    → get_elem? base j ≡ some none
    → At base i h
    → At (set base j (some g)) i h
At-set_free [] i j g h free p = cc
At-set_free (x ∷ base) zero zero g h free p = cc
At-set_free (x ∷ base) zero (suc j) g h free p = p
At-set_free (x ∷ base) (suc i) zero g h free p = p
At-set_free (x ∷ base) (suc i) (suc j) g h free p = At-set_free base i j g h free p

At-set_self :
    (base : Slots) (j : ℕ) (g : Bytes) → get_elem? base j ≡ some none → At (set base j (some g)) j g
At-set_self [] j g free = cc
At-set_self (x ∷ base) zero g free = refl
At-set_self (x ∷ base) (suc j) g free = At-set_self base j g free

-- What a successful round did: its first chain's slot was free.
place_cases :
    (size : ℕ) (mj : AuxChain) (chains : List AuxChain) (base out : Slots)
    → place size (mj ∷ chains) base ≡ ok (some out)
    → (get_elem? base (slot mj.chain_id % (size % u32)) ≡ some none)
      × (place size chains (set base (slot mj.chain_id % (size % u32)) (some mj.header_hash))
          ≡ ok (some out))
unfolding place
place_cases size mj chains base out e = ground arith

place-keeps :
    (size : ℕ) (chains : List AuxChain) (base out : Slots) (i : ℕ) (h : Bytes)
    → place size chains base ≡ ok (some out)
    → At base i h
    → At out i h
unfolding place
place-keeps size [] base out i h e p = ground arith
place-keeps size (mj ∷ chains) base out i h e p =
    let (free, next) = place_cases size mj chains base out e in
    place-keeps size chains _ out i h next (At-set_free base i _ _ h free p)

-- The chain's header hash stands in the slot that its id gives at this size.
abbrev pub IsPlaced : ℕ → Slots → AuxChain → Type 0
IsPlaced size out mj = At out (slot mj.chain_id % (size % u32)) mj.header_hash

place-IsPlaced :
    (size : ℕ) (chains : List AuxChain) (base out : Slots)
    → place size chains base ≡ ok (some out)
    → All (IsPlaced size out) chains
place-IsPlaced size [] base out e = tt
place-IsPlaced size (mj ∷ chains) base out e =
    let (free, next) = place_cases size mj chains base out e in
    (
      place-keeps size chains _ out _ _ next (At-set_self base _ _ free),
      place-IsPlaced size chains _ out next,
    )

slots_loop-IsPlaced :
    (fuel size end : ℕ) (chains : List AuxChain) (out : Slots)
    → slots_loop fuel size chains ≡ ok (end, out)
    → All (IsPlaced end out) chains
unfolding slots_loop
slots_loop-IsPlaced zero size end chains out e = cc
slots_loop-IsPlaced (suc fuel) size end chains out e =
    let (placed, p, q) = >>=-eq-ok (place size chains (replicate size none)) _ e in
    elim (Option-cases placed) [
      | inl z ↦ slots_loop-IsPlaced fuel (size * 2) end chains out (rw z at q)
      | inr (base, z) ↦
          let same : (size ≡ end) × (base ≡ out) = ground arith in
          rw (← same.0) (place-IsPlaced size chains _ out (p ∙ ap ok (z ∙ ap some same.1)))
    ]

-- Two chains with one id never have slots of their own: a round that places both does not succeed.
place-clash :
    (size : ℕ) (mid : List AuxChain) (b : AuxChain) (post : List AuxChain) (base out : Slots)
    (h : Bytes)
    → At base (slot b.chain_id % (size % u32)) h
    → place size (mid ++ b ∷ post) base ≢ ok (some out)
place-clash size [] b post base out h p e =
    let (free, next) = place_cases size b post base out e in cc
place-clash size (mj ∷ mid) b post base out h p e =
    let (free, next) = place_cases size mj (mid ++ b ∷ post) base out e in
    place-clash size mid b post _ out h (At-set_free base _ _ _ h free p) next

place-twins :
    (size : ℕ) (pre mid post : List AuxChain) (a b : AuxChain) (base out : Slots)
    → a.chain_id ≡ b.chain_id
    → place size (pre ++ a ∷ mid ++ b ∷ post) base ≢ ok (some out)
place-twins size [] mid post a b base out same e =
    let (free, next) = place_cases size a (mid ++ b ∷ post) base out e in
    place-clash size mid b post _ out a.header_hash
      (rw (← same) (At-set_self base (slot a.chain_id % (size % u32)) a.header_hash free)) next
place-twins size (x ∷ pre) mid post a b base out same e =
    let (free, next) = place_cases size x (pre ++ a ∷ mid ++ b ∷ post) base out e in
    place-twins size pre mid post a b _ out same next

slots_loop-twins :
    (fuel size : ℕ) (pre mid post : List AuxChain) (a b : AuxChain) (r : ℕ × Slots)
    → a.chain_id ≡ b.chain_id
    → slots_loop fuel size (pre ++ a ∷ mid ++ b ∷ post) ≢ ok r
unfolding slots_loop
slots_loop-twins zero size pre mid post a b r same e = cc
slots_loop-twins (suc fuel) size pre mid post a b r same e =
    let (placed, p, q) =
      >>=-eq-ok (place size (pre ++ a ∷ mid ++ b ∷ post) (replicate size none)) _ e in
    elim (Option-cases placed) [
      | inl z ↦ slots_loop-twins fuel (size * 2) pre mid post a b r same (rw z at q)
      | inr (base, z) ↦ absurd (place-twins size pre mid post a b _ base same (p ∙ ap ok z))
    ]

-- A round returns a verdict or panics.
place-ends :
    (size : ℕ) (chains : List AuxChain) (base : Slots)
    → (place size chains base ≡ panic) ⊎ ((o : Option Slots) × (place size chains base ≡ ok o))
unfolding place
place-ends size [] base = inr (some base, refl)
place-ends size (mj ∷ chains) base = ground (
  arith,
  place-ends size chains (set base (slot mj.chain_id % (size % u32)) (some mj.header_hash)),
)

place-full :
    (size : ℕ) (mj : AuxChain) (chains : List AuxChain) (base : Slots)
    → size ≡ u32
    → place size (mj ∷ chains) base ≡ panic
unfolding place
place-full size mj chains base e = rw e

slots_loop-ends :
    (fuel size : ℕ) (mj : AuxChain) (chains : List AuxChain)
    → size * 2 ^ fuel ≡ u32
    → (slots_loop (suc fuel) size (mj ∷ chains) ≡ panic)
      ⊎ ((r : ℕ × Slots) × (slots_loop (suc fuel) size (mj ∷ chains) ≡ ok r))
unfolding slots_loop
slots_loop-ends zero size mj chains e =
    inl (rw (place-full size mj chains (replicate size none) (omega (arith, e))))
slots_loop-ends (suc fuel) size mj chains e =
    elim (place-ends size (mj ∷ chains) (replicate size none)) [
      | inl p ↦ inl (rw p)
      | inr (o, p) ↦ elim (Option-cases o) [
        | inl z ↦
            rw (p, z)
              (slots_loop-ends fuel (size * 2) mj chains
                (omega (arith, e, ap (λ (t : ℕ). size * t) (pow-suc 2 fuel))))
        | inr (base, z) ↦ inr ((size, base), rw (p, z))
      ]
    ]

-- The loop over the candidate sizes always ends: it returns a table, or panics once the size has
-- grown to 2 ^ 32. Where it returns, each chain's header hash stands in the slot that its id gives.
pub merkle_slots-total :
    (chains : List AuxChain)
    → (merkle_slots chains ≡ panic)
      ⊎ ((r : ℕ × Slots) × (merkle_slots chains ≡ ok r) × All (IsPlaced r.0 r.1) chains)
unfolding merkle_slots
merkle_slots-total [] = inr ((1, none ∷ []), unfold place in refl, tt)
merkle_slots-total (mj ∷ chains) = elim (slots_loop-ends 32 1 mj chains refl) [
  | inl p ↦ inl p
  | inr (r, p) ↦ inr (r, p, slots_loop-IsPlaced 33 1 r.0 (mj ∷ chains) r.1 p)
]

-- Two chains with one id, wherever they stand among the templates, make the loop panic.
pub merkle_slots-twins :
    (pre mid post : List AuxChain) (a b : AuxChain)
    → a.chain_id ≡ b.chain_id
    → merkle_slots (pre ++ a ∷ mid ++ b ∷ post) ≡ panic
merkle_slots-twins pre mid post a b same = elim (merkle_slots-total (pre ++ a ∷ mid ++ b ∷ post)) [
  | inl p ↦ p
  | inr (r, p, _) ↦ absurd (unfold merkle_slots in slots_loop-twins 33 1 pre mid post a b r same p)
]
