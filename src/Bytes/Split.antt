-- ===== src/Bytes/Split.antt =====
-- Go's bytes.Split: the parts, joined by the separator, are the text.
use ngpool.Prelude.{
  ℕ, zero, suc, ◌-◌, ◌≡◌, refl, ap, ◌∙◌, sym, true, List, [], ◌∷◌, ◌++◌, length, arith, Bool-cases,
  inl, inr, drop,
}
use mathlib.Core.List.{append_assoc, append-nil}
use ngpool.Bytes.{Bytes, starts_with, split_from, split}

-- The parts with the separator between them.
abbrev pub join : Bytes → List Bytes → Bytes
join sep [] = []
join sep (p ∷ []) = p
join sep (p ∷ q ∷ parts) = p ++ (sep ++ join sep (q ∷ parts))

starts_with-drop : (sep s : Bytes) → starts_with sep s ≡ true → sep ++ drop (length sep) s ≡ s
starts_with-drop [] s h = refl
starts_with-drop (p ∷ sep) [] h = cc
starts_with-drop (p ∷ sep) (x ∷ s) h = ground (arith, starts_with-drop sep s)

-- What is skipped is dropped.
split_from-skip :
    (sep : Bytes) (skip : ℕ) (part s : Bytes)
    → split_from sep skip part s ≡ split_from sep 0 part (drop skip s)
unfolding split_from
split_from-skip sep zero part s = refl
split_from-skip sep (suc skip) part [] = refl
split_from-skip sep (suc skip) part (x ∷ s) = split_from-skip sep skip part s

join-nonempty :
    (sep part : Bytes) (skip : ℕ) (s acc : Bytes)
    → join sep (part ∷ split_from sep skip acc s)
      ≡ part ++ (sep ++ join sep (split_from sep skip acc s))
unfolding split_from
join-nonempty sep part skip [] acc = refl
join-nonempty sep part zero (x ∷ s) acc = elim (Bool-cases (starts_with sep (x ∷ s))) [
  | inl hit ↦ rw (hit, split_from) refl
  | inr miss ↦ rw (miss, split_from) (join-nonempty sep part zero s (acc ++ x ∷ []))
]
join-nonempty sep part (suc skip) (x ∷ s) acc = join-nonempty sep part skip s acc

join-split_from :
    (p : ℕ) (q : Bytes) (skip : ℕ) (part s : Bytes)
    → join (p ∷ q) (split_from (p ∷ q) skip part s) ≡ part ++ drop skip s
unfolding split_from
join-split_from p q zero part [] = sym (append-nil part)
join-split_from p q (suc skip) part [] = sym (append-nil part)
join-split_from p q (suc skip) part (x ∷ s) = join-split_from p q skip part s
join-split_from p q zero part (x ∷ s) = elim (Bool-cases (starts_with (p ∷ q) (x ∷ s))) [
  | inr miss ↦
      rw (miss, split_from)
        (join-split_from p q zero (part ++ x ∷ []) s ∙ append_assoc part (x ∷ []) s)
  | inl hit ↦
      let gap : suc (length q) - 1 ≡ length q = omega arith in
      rw (hit, split_from, gap)
        (join-nonempty (p ∷ q) part (length q) s []
          ∙ ap (λ t. part ++ (p ∷ q ++ t)) (join-split_from p q (length q) [] s)
          ∙ ap (◌++◌ part) (starts_with-drop (p ∷ q) (x ∷ s) hit))
]

-- Joining the parts with the separator, which is not empty, gives the text back.
pub join-split : (p : ℕ) (q s : Bytes) → join (p ∷ q) (split s (p ∷ q)) ≡ s
unfolding split
join-split p q s = join-split_from p q 0 [] s
