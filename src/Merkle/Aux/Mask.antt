-- ===== src/Merkle/Aux/Mask.antt =====
-- cmd/ngstratum/bt.go: what auxMerkleBranch's mask can be.
use Prim.Native.Nat.{bit_or}
use ngpool.Prelude.{
  ℕ, zero, suc, ◌+◌, ◌^◌, ◌≡◌, ◌≤◌, inl, inr, Option, List, [], ◌∷◌, leb, length, arith, Bool-cases,
}
use ngpool.Prelude.Map.{◌==◌, bytes_eq}
use ngpool.Prelude.Run.{ok, >>=-eq-ok}
use ngpool.Merkle.{Bytes}
use ngpool.Merkle.Aux.{Follow, aux_level, aux_loop, aux_merkle_branch, fill_slots}

set_bit : (m : ℕ) → m ≤ 1 → bit_or m (2 ^ 0) ≤ 1
set_bit zero h = omega arith
set_bit (suc zero) h = omega arith
set_bit (suc (suc m)) h = absurd (omega arith)

module _ (sha256d : Bytes → Bytes) where
  aux_level-mask :
      (hashes : List Bytes) (s s' : Follow)
      → s.bit_mask ≤ 1
      → aux_level sha256d 0 hashes s ≡ ok s'
      → s'.bit_mask ≤ 1
  unfolding aux_level
  aux_level-mask [] s s' h e = ground arith
  aux_level-mask (a ∷ []) s s' h e = cc
  aux_level-mask (a ∷ b ∷ hashes) s s' h e = elim (Bool-cases (a == s.follow)) [
    | inl l ↦ aux_level-mask hashes _ s' h (rw l at e)
    | inr l ↦ elim (Bool-cases (b == s.follow)) [
      | inl r ↦ aux_level-mask hashes _ s' (set_bit s.bit_mask h) (rw (l, r) at e)
      | inr r ↦ aux_level-mask hashes _ s' h (rw (l, r) at e)
    ]
  ]

  aux_loop-mask :
      (fuel : ℕ) (hashes : List Bytes) (s s' : Follow)
      → s.bit_mask ≤ 1
      → aux_loop sha256d fuel 0 hashes s ≡ ok s'
      → s'.bit_mask ≤ 1
  unfolding aux_loop
  aux_loop-mask zero hashes s s' h e = cc
  aux_loop-mask (suc fuel) hashes s s' h e = elim (Bool-cases (leb (length hashes) 1)) [
    | inl short ↦ ground arith
    | inr long ↦
        let (t, p, q) =
          >>=-eq-ok (aux_level sha256d 0 hashes (record s { new_hashes = [] })) _ (rw long at e) in
        aux_loop-mask fuel t.new_hashes t s'
          (aux_level-mask hashes (record s { new_hashes = [] }) t h p) q
  ]

  -- Whatever the table and the followed hash, a mask that auxMerkleBranch returns is 0 or 1: no bit
  -- above the lowest is ever set, at whatever depth the followed hash was a right child.
  pub aux_merkle_branch-mask-le :
      (merkle_base : List (Option Bytes)) (follow_hash : Bytes) (branch : List Bytes) (mask : ℕ)
      → aux_merkle_branch sha256d merkle_base follow_hash ≡ ok (branch, mask)
      → mask ≤ 1
  unfolding aux_merkle_branch
  aux_merkle_branch-mask-le merkle_base follow_hash branch mask e =
      let (t, p, q) =
        >>=-eq-ok
          (aux_loop sha256d (length merkle_base + 1) 0 (fill_slots merkle_base)
            (record { new_hashes = []; branch = []; follow = follow_hash; bit_mask = 0 }))
          _ e in
      let bound =
        aux_loop-mask (length merkle_base + 1) (fill_slots merkle_base) _ t (omega arith) p in
      ground (arith, bound)
