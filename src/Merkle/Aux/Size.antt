-- ===== src/Merkle/Aux/Size.antt =====
-- cmd/ngstratum/bt.go, auxMerkleBranch: the tables for which it returns.
use Prim.Native.Nat.{bit_or}
use ngpool.Prelude.{
  ℕ, zero, suc, ◌+◌, ◌^◌, ◌<◌, ◌≤◌, ◌≡◌, refl, ap, ◌∙◌, true, false, Option, none, some, List, [],
  ◌∷◌, ◌++◌, leb, length, length-append, arith, Bool-cases, inl, inr,
}
use native.Mathlib.Numerals.{unary_clauses}
use ngpool.Prelude.Map.{◌==◌, bytes_eq}
use ngpool.Prelude.Run.{ok}
use ngpool.Merkle.{Bytes}
use ngpool.Merkle.Aux.{fill_slots, Follow, aux_level, aux_loop, aux_merkle_branch}

length-fill_slots : (slots : List (Option Bytes)) → length (fill_slots slots) ≡ length slots
unfolding fill_slots
length-fill_slots [] = refl
length-fill_slots (none ∷ slots) = ap suc (length-fill_slots slots)
length-fill_slots (some h ∷ slots) = ap suc (length-fill_slots slots)

two_pow : (k : ℕ) → 2 ^ suc k ≡ 2 ^ k + 2 ^ k
two_pow k = simp unary_clauses (omega arith)

le-two_pow : (k : ℕ) → suc k ≤ 2 ^ k
le-two_pow zero = omega arith
le-two_pow (suc k) = omega (arith, le-two_pow k, two_pow k)

module _ (sha256d : Bytes → Bytes) where
  -- One level hashes all pairs of an even number of hashes.
  aux_level-even :
      (m : ℕ) (hashes : List Bytes) (s : Follow)
      → length hashes ≡ m + m
      → (s' : Follow) × (aux_level sha256d 0 hashes s ≡ ok s')
        × (length s'.new_hashes ≡ length s.new_hashes + m)
  unfolding aux_level
  aux_level-even zero [] s h = (s, refl, omega arith)
  aux_level-even (suc m) [] s h = ground arith
  aux_level-even zero (a ∷ hashes) s h = ground arith
  aux_level-even (suc m) (a ∷ []) s h = ground arith
  aux_level-even (suc m) (a ∷ b ∷ hashes) s h =
      let half : length hashes ≡ m + m = ground (arith, h) in
      let grown = s.new_hashes ++ sha256d (a ++ b) ∷ [] in
      let more = length-append s.new_hashes (sha256d (a ++ b) ∷ []) in
      let left : Follow = record {
        new_hashes = grown;
        branch = s.branch ++ b ∷ [];
        follow = sha256d (a ++ b);
        bit_mask = s.bit_mask;
      } in
      let right : Follow = record {
        new_hashes = grown;
        branch = s.branch ++ a ∷ [];
        follow = sha256d (a ++ b);
        bit_mask = bit_or s.bit_mask (2 ^ 0);
      } in
      elim (Bool-cases (a == s.follow)) [
        | inl first ↦
            let (s', e, l) = aux_level-even m hashes left half in
            (s', rw first e, omega (arith, l, more))
        | inr not_first ↦ elim (Bool-cases (b == s.follow)) [
          | inl second ↦
              let (s', e, l) = aux_level-even m hashes right half in
              (s', rw (not_first, second) e, omega (arith, l, more))
          | inr neither ↦
              let (s', e, l) = aux_level-even m hashes (record s { new_hashes = grown }) half in
              (s', rw (not_first, neither) e, omega (arith, l, more))
        ]
      ]

  aux_loop-power :
      (k fuel : ℕ) (hashes : List Bytes) (s : Follow)
      → length hashes ≡ 2 ^ k
      → k < fuel
      → (s' : Follow) × (aux_loop sha256d fuel 0 hashes s ≡ ok s')
  unfolding aux_loop
  aux_loop-power k zero hashes s h enough = ground arith
  aux_loop-power zero (suc fuel) hashes s h enough =
      let one : leb (length hashes) 1 ≡ true = ground (arith, h) in (s, rw one refl)
  aux_loop-power (suc k) (suc fuel) hashes s h enough =
      let double : length hashes ≡ 2 ^ k + 2 ^ k = h ∙ two_pow k in
      let many : leb (length hashes) 1 ≡ false = ground (arith, h, two_pow k, le-two_pow k) in
      let (mid, e, l) = aux_level-even (2 ^ k) hashes (record s { new_hashes = [] }) double in
      let (s', e') =
        aux_loop-power k fuel mid.new_hashes mid (l ∙ omega arith) (omega (arith, enough)) in
      (s', rw (many, e) e')

  -- On a table whose size is a power of two, as the slot table's always is, auxMerkleBranch returns,
  -- whatever hash it follows.
  pub aux_merkle_branch-total :
      (k : ℕ) (merkle_base : List (Option Bytes)) (follow_hash : Bytes)
      → length merkle_base ≡ 2 ^ k
      → (r : List Bytes × ℕ) × (aux_merkle_branch sha256d merkle_base follow_hash ≡ ok r)
  unfolding aux_merkle_branch
  aux_merkle_branch-total k merkle_base follow_hash h =
      let start : Follow = record {
        new_hashes = [];
        branch = [];
        follow = follow_hash;
        bit_mask = 0;
      } in
      let (s, e) =
        aux_loop-power k (length merkle_base + 1) (fill_slots merkle_base) start
          (length-fill_slots merkle_base ∙ h) (omega (arith, h, le-two_pow k)) in
      ((s.branch, s.bit_mask), rw e refl)
