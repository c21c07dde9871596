-- ===== src/Job/Slots.antt =====
-- cmd/ngstratum/job.go: the table of the merged-mining tree, MerkleLoop of NewJobFromTemplates.
-- A chain is its id and its header's hash. Memory is unlimited, so the loop ends where
-- `uint32(merkleSize)` is 0 and the division by it panics.
pub mod Table
use ngpool.Prelude.{
  ℕ, zero, suc, ◌+◌, ◌*◌, ◌%◌, ◌^◌, ◌≡◌, ◌≢◌, refl, Option, none, some, List, [], ◌∷◌, ==_iff,
  if◌then◌else◌, get_elem?, set, replicate, arith, Bool-cases, inl, inr,
}
use ngpool.Prelude.{◌==◌}
use ngpool.Prelude.Run.{Run, ok, panic, out_of_fuel, ◌>>=◌}
use ngpool.Merkle.{Bytes}
use native.Mathlib.Nat.{pow-suc}

abbrev pub u32 : ℕ
u32 = 2 ^ 32

pub record AuxChain : Type 0 where
  pub chain_id : ℕ
  pub header_hash : Bytes

abbrev pub Slots : Type 0
Slots = List (Option Bytes)

-- The linear congruential steps on a uint32, from the constant nonce 0.
unfoldable pub slot : ℕ → ℕ
slot chain_id =
    let start = (0 * 1103515245 + 12345) % u32 in
    let added = (start + chain_id % u32) % u32 in (added * 1103515245 + 12345) % u32

-- The loop over the chains for one candidate size. `none` is a slot taken twice.
unfoldable pub place : ℕ → List AuxChain → Slots → Run (Option Slots)
unfolding slot
place size [] base = ok (some base)
place size (mj ∷ chains) base =
    let num = slot mj.chain_id % (size % u32) in
    let rest = place size chains (set base num (some mj.header_hash)) in
    if size % u32 == 0
    then panic
    else elim (get_elem? base num) [ none ↦ panic | some none ↦ rest | some (some h) ↦ ok none ]

unfoldable pub slots_loop : ℕ → ℕ → List AuxChain → Run (ℕ × Slots)
slots_loop zero size chains = out_of_fuel
slots_loop (suc fuel) size chains = place size chains (replicate size none) >>= λ placed.
    elim placed [ none ↦ slots_loop fuel (size * 2) chains | some base ↦ ok (size, base) ]

-- 32 doublings of 1 reach 2 ^ 32.
unfoldable pub merkle_slots : List AuxChain → Run (ℕ × Slots)
unfolding slots_loop place
merkle_slots chains = slots_loop 33 1 chains
