-- ===== src/Merkle/Branch.antt =====
-- cmd/ngstratum/bt.go: a template's branch leads from the coinbase to the root of the whole tree.
use ngpool.Prelude.{
  ℕ, zero, suc, ◌+◌, ◌/◌, ◌<◌, ◌≡◌, refl, ◌∙◌, ap, false, List, [], ◌∷◌, ◌++◌, leb, length, All,
  ◌⊎◌, inl, inr, arith,
}
use mathlib.Core.List.{append_assoc, append-nil}
use ngpool.Prelude.Run.{ok, panic}
use ngpool.Merkle.{
  Bytes, is_empty, root_level, root_loop, merkle_root, branch_level, branch_loop, merkle_branch,
  walk_branch,
}

module _ (sha256d : Bytes → Bytes) where
  length-root_level :
      (hashes : List Bytes) → length (root_level sha256d hashes) ≡ (length hashes + 1) / 2
  unfolding root_level
  length-root_level [] = omega arith
  length-root_level (a ∷ []) = omega arith
  length-root_level (a ∷ b ∷ hashes) = omega (arith, length-root_level hashes)

  long : (n : ℕ) → leb (suc (suc n)) 1 ≡ false
  long n = ground arith

  -- merkleRoot returns on every list that is not empty, with fuel for one round per hash.
  root_loop-total :
      (fuel : ℕ) (a : Bytes) (hashes : List Bytes)
      → length hashes < fuel
      → (r : Bytes) × (root_loop sha256d fuel (a ∷ hashes) ≡ ok r)
  unfolding root_loop root_level
  root_loop-total zero a hashes h = absurd (omega arith)
  root_loop-total (suc fuel) a [] h = (a, refl)
  root_loop-total (suc fuel) a (b ∷ hashes) h = rw (long (length hashes)) (
      root_loop-total fuel (sha256d (a ++ b)) (root_level sha256d hashes)
        (omega (arith, length-root_level hashes)))

  module _ (nonempty : (m : Bytes) → is_empty (sha256d m) ≡ false) where
    -- Where no hash is empty, a level of merkleBranch is a level of merkleRoot.
    branch_level-root_level :
        (hashes : List Bytes)
        → All (λ h. is_empty h ≡ false) hashes
        → branch_level sha256d hashes ≡ root_level sha256d hashes
    unfolding branch_level root_level
    branch_level-root_level [] p = refl
    branch_level-root_level (a ∷ []) p = rw p.0
    branch_level-root_level (a ∷ b ∷ hashes) p = rw (p.0, branch_level-root_level hashes p.1.1)

    root_level-nonempty :
        (hashes : List Bytes) → All (λ h. is_empty h ≡ false) (root_level sha256d hashes)
    unfolding root_level
    root_level-nonempty [] = tt
    root_level-nonempty (a ∷ []) = (nonempty _, tt)
    root_level-nonempty (a ∷ b ∷ hashes) = (nonempty _, root_level-nonempty hashes)

    branch_loop-walk :
        (fuel : ℕ) (coinbase : Bytes) (hashes branch : List Bytes)
        → length hashes < fuel
        → All (λ h. is_empty h ≡ false) hashes
        → (out : List Bytes) × (branch_loop sha256d fuel ([] ∷ hashes) branch ≡ ok (branch ++ out))
          × (root_loop sha256d fuel (coinbase ∷ hashes) ≡ ok (walk_branch sha256d coinbase out))
    unfolding branch_loop branch_level root_loop root_level walk_branch
    branch_loop-walk zero coinbase hashes branch h p = absurd (omega arith)
    branch_loop-walk (suc fuel) coinbase [] branch h p = ([], rw (append-nil branch), refl)
    branch_loop-walk (suc fuel) coinbase (x ∷ hashes) branch h p =
        let (out, b, r) =
          branch_loop-walk fuel (sha256d (coinbase ++ x)) (root_level sha256d hashes)
            (branch ++ x ∷ []) (omega (arith, length-root_level hashes))
            (root_level-nonempty hashes) in
        (
          x ∷ out,
          rw (long (length hashes), branch_level-root_level hashes p.1)
              (b ∙ ap ok (append_assoc branch (x ∷ []) out)),
          rw (long (length hashes)) r,
        )

    -- For any transaction ids, none of them empty, merkleBranch returns a branch, merkleRoot returns
    -- a root for the coinbase's hash in front of the ids, and walking from that hash along the
    -- branch, as GetBlockHeader does, gives this root. The hash function never returns nothing.
    pub merkle_branch-walk :
        (coinbase : Bytes) (tx_ids : List Bytes)
        → All (λ h. is_empty h ≡ false) tx_ids
        → (branch : List Bytes) × (merkle_branch sha256d tx_ids ≡ ok branch)
          × (merkle_root sha256d (coinbase ∷ tx_ids) ≡ ok (walk_branch sha256d coinbase branch))
    unfolding merkle_branch merkle_root
    merkle_branch-walk coinbase tx_ids p =
        let same : suc (length tx_ids) + 1 ≡ length tx_ids + 2 = omega arith in
        rw same (branch_loop-walk (length tx_ids + 2) coinbase tx_ids [] (omega arith) p)

  -- merkleRoot returns exactly on the lists that are not empty; on the empty one it panics.
  merkle_root-total :
      (hashes : List Bytes)
      → ((hashes ≡ []) × (merkle_root sha256d hashes ≡ panic))
        ⊎ ((r : Bytes) × (merkle_root sha256d hashes ≡ ok r))
  unfolding merkle_root
  merkle_root-total [] = inl (refl, refl)
  merkle_root-total (a ∷ hashes) =
      inr (root_loop-total (suc (length hashes) + 1) a hashes (omega arith))
