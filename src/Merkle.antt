-- ===== src/Merkle.antt =====
-- cmd/ngstratum/bt.go: the Merkle trees over transaction ids, and GetBlockHeader's walk down a
-- branch (cmd/ngstratum/job.go). The double SHA-256 of github.com/seehuhn/sha256d is the section's
-- parameter. A byte string is the list of its bytes; nil and an empty slice are both [].
pub mod Branch
pub mod Aux
pub use ngpool.Bytes.{Bytes}
use ngpool.Prelude.{
  ℕ, zero, suc, ◌+◌, Bool, true, false, List, [], ◌∷◌, ◌++◌, leb, if◌then◌else◌, length, get_elem?,
}
use ngpool.Prelude.Run.{Run, ok, panic, out_of_fuel, ◌>>=◌, or_panic}

abbrev pub is_empty : Bytes → Bool
is_empty [] = true
is_empty (x ∷ xs) = false

module _ (sha256d : Bytes → Bytes) where
  -- One round of merkleRoot's outer loop: pairs are hashed, an odd last hash with itself.
  unfoldable pub root_level : List Bytes → List Bytes
  root_level [] = []
  root_level (a ∷ []) = sha256d (a ++ a) ∷ []
  root_level (a ∷ b ∷ hashes) = sha256d (a ++ b) ∷ root_level hashes

  -- The outer loop; `hashes[0]` panics on an empty list.
  unfoldable pub root_loop : ℕ → List Bytes → Run Bytes
  root_loop zero hashes = out_of_fuel
  root_loop (suc fuel) hashes =
      let rest = root_loop fuel (root_level hashes) in
      if leb (length hashes) 1 then or_panic (get_elem? hashes 0) else rest

  unfoldable pub merkle_root : List Bytes → Run Bytes
  unfolding root_loop root_level
  merkle_root hashes = root_loop (length hashes + 1) hashes

  -- One round of merkleBranch's outer loop: an empty hash is the coinbase's placeholder and is kept.
  unfoldable pub branch_level : List Bytes → List Bytes
  branch_level [] = []
  branch_level (a ∷ []) = (if is_empty a then a else sha256d (a ++ a)) ∷ []
  branch_level (a ∷ b ∷ hashes) = (if is_empty a then a else sha256d (a ++ b)) ∷ branch_level hashes

  unfoldable pub branch_loop : ℕ → List Bytes → List Bytes → Run (List Bytes)
  branch_loop zero hashes branch = out_of_fuel
  branch_loop (suc fuel) hashes branch =
      let rest = or_panic (get_elem? hashes 1) >>= λ second.
      branch_loop fuel (branch_level hashes) (branch ++ second ∷ []) in
      if leb (length hashes) 1 then ok branch else rest

  -- From the transaction ids in hash byte order, behind the placeholder `{}`.
  unfoldable pub merkle_branch : List Bytes → Run (List Bytes)
  unfolding branch_loop branch_level
  merkle_branch tx_ids = branch_loop (length tx_ids + 2) ([] ∷ tx_ids) []

  -- GetBlockHeader: hash the coinbase's hash with each entry of the branch in turn.
  unfoldable pub walk_branch : Bytes → List Bytes → Bytes
  walk_branch root_hash [] = root_hash
  walk_branch root_hash (b ∷ branch) = walk_branch (sha256d (root_hash ++ b)) branch
