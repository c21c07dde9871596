-- ===== src/Merkle/Aux.antt =====
-- cmd/ngstratum/bt.go: auxMerkleBranch, the branch of one chain in the merged-mining tree.
pub mod Mask
pub mod Size
use Prim.Native.Nat.{bit_or}
use ngpool.Prelude.{
  ℕ, zero, suc, ◌+◌, ◌^◌, ◌≡◌, ◌≤◌, refl, Option, none, some, List, [], ◌∷◌, ◌++◌, leb,
  if◌then◌else◌, length, replicate, map, arith,
}
use ngpool.Prelude.Map.{◌==◌, bytes_eq}
use ngpool.Prelude.Run.{Run, ok, panic, out_of_fuel, ◌>>=◌}
use ngpool.Merkle.{Bytes}

-- A slot of the table that no chain took is nil, and is filled with 32 zero bytes.
unfoldable pub fill_slots : List (Option Bytes) → List Bytes
fill_slots [] = []
fill_slots (none ∷ slots) = replicate 32 0 ∷ fill_slots slots
fill_slots (some h ∷ slots) = h ∷ fill_slots slots

-- What the loops of auxMerkleBranch carry.
pub record Follow : Type 0 where
  pub new_hashes : List Bytes
  pub branch : List Bytes
  pub follow : Bytes
  pub bit_mask : ℕ

module _ (sha256d : Bytes → Bytes) where
  -- The inner loop over one level. `level` is the counter of the source, which nothing there
  -- advances. On an odd last hash both comparisons read `hashes[i+1]`, which panics.
  unfoldable pub aux_level : ℕ → List Bytes → Follow → Run Follow
  aux_level level [] s = ok s
  aux_level level (a ∷ []) s = panic
  aux_level level (a ∷ b ∷ hashes) s =
      let hsh = sha256d (a ++ b) in
      let new_hashes = s.new_hashes ++ hsh ∷ [] in
      aux_level level hashes (
        if a == s.follow
        then record {
          new_hashes = new_hashes;
          branch = s.branch ++ b ∷ [];
          follow = hsh;
          bit_mask = s.bit_mask;
        }
        else if b == s.follow
        then record {
          new_hashes = new_hashes;
          branch = s.branch ++ a ∷ [];
          follow = hsh;
          bit_mask = bit_or s.bit_mask (2 ^ level);
        }
        else record s { new_hashes = new_hashes })

  unfoldable pub aux_loop : ℕ → ℕ → List Bytes → Follow → Run Follow
  aux_loop zero level hashes s = out_of_fuel
  aux_loop (suc fuel) level hashes s =
      let rest = aux_level level hashes (record s { new_hashes = [] }) >>= λ s'.
      aux_loop fuel level s'.new_hashes s' in
      if leb (length hashes) 1 then ok s else rest

  unfoldable pub aux_merkle_branch : List (Option Bytes) → Bytes → Run (List Bytes × ℕ)
  unfolding fill_slots aux_loop aux_level
  aux_merkle_branch merkle_base follow_hash =
      aux_loop (length merkle_base + 1) 0 (fill_slots merkle_base)
        (record { new_hashes = []; branch = []; follow = follow_hash; bit_mask = 0 })
      >>= λ s. ok (s.branch, s.bit_mask)
