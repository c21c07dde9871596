-- ===== src/Tests/Numbers.antt =====
-- Runs of the byte, Merkle, slot, vardiff and window code.
use ngpool.Window.{Window, new_window, total}
use ngpool.Window.Ring.{slots, as_sample, add_all, add_all-last}
use ngpool.Vardiff.Nearest.{IsIn, IsLeast, IsRounded, compute_new-new_vardiff}
use ngpool.Prelude.{
  ltb, ◌+◌, ◌/◌, ◌-◌, ℕ, ◌≡◌, ◌≤◌, refl, ◌⊎◌, Option, none, some, List, [], ◌∷◌, arith, All, map,
  drop, replicate, ◌++◌,
}
use ngpool.Prelude.Run.{ok, panic}
use ngpool.Bytes.{Bytes, split}
use ngpool.Bytes.Split.{join, join-split}
use ngpool.Merkle.{merkle_root, merkle_branch, walk_branch}
use ngpool.Merkle.Branch.{merkle_branch-walk}
use ngpool.Merkle.Aux.{aux_merkle_branch}
use ngpool.Merkle.Aux.Size.{aux_merkle_branch-total}
use ngpool.Merkle.Aux.Mask.{aux_merkle_branch-mask-le}
use ngpool.Job.Slots.{AuxChain, Slots, merkle_slots}
use ngpool.Job.Slots.Table.{IsPlaced, merkle_slots-total, merkle_slots-twins}
use ngpool.Vardiff.{VarDiff, GapOps, new_vardiff, compute_new}
use ngpool.Vardiff.Tiers.{Doubling, new_vardiff-Doubling}

join-split_example : join (46 ∷ []) (split (97 ∷ 46 ∷ 98 ∷ []) (46 ∷ [])) ≡ 97 ∷ 46 ∷ 98 ∷ []
join-split_example = join-split 46 [] (97 ∷ 46 ∷ 98 ∷ [])

-- A stand-in for the hash function: it never returns nothing.
abbrev tagged : Bytes → Bytes
tagged b = 7 ∷ b

merkle_branch-walk_example :
    (branch : List Bytes) × (merkle_branch tagged ((1 ∷ []) ∷ (2 ∷ []) ∷ []) ≡ ok branch)
    × (merkle_root tagged ((9 ∷ []) ∷ (1 ∷ []) ∷ (2 ∷ []) ∷ [])
        ≡ ok (walk_branch tagged (9 ∷ []) branch))
merkle_branch-walk_example =
    merkle_branch-walk tagged (λ m. refl) (9 ∷ []) ((1 ∷ []) ∷ (2 ∷ []) ∷ []) (refl, (refl, tt))

abbrev two_hashes : List Bytes
two_hashes = (1 ∷ []) ∷ (2 ∷ []) ∷ []

-- The table has four slots, and the followed hash stands in the third.
abbrev four_slots : List (Option Bytes)
four_slots = none ∷ none ∷ some (5 ∷ []) ∷ none ∷ []

third_slot : (branch : List Bytes) × (aux_merkle_branch tagged four_slots (5 ∷ []) ≡ ok (branch, 1))
unfolding aux_merkle_branch
third_slot = (_, refl)

aux_merkle_branch-mask-le_example : 1 ≤ 1
aux_merkle_branch-mask-le_example =
    aux_merkle_branch-mask-le tagged four_slots (5 ∷ []) third_slot.0 1 third_slot.1

aux_merkle_branch-total_example :
    (r : List Bytes × ℕ) × (aux_merkle_branch tagged four_slots (5 ∷ []) ≡ ok r)
aux_merkle_branch-total_example = aux_merkle_branch-total tagged 2 four_slots (5 ∷ []) refl

abbrev one_chain : AuxChain
one_chain = record { chain_id = 1; header_hash = 5 ∷ [] }

abbrev other_chain : AuxChain
other_chain = record { chain_id = 2; header_hash = 6 ∷ [] }

merkle_slots-total_example :
    (merkle_slots (one_chain ∷ other_chain ∷ []) ≡ panic)
    ⊎ ((r : ℕ × Slots) × (merkle_slots (one_chain ∷ other_chain ∷ []) ≡ ok r)
        × All (IsPlaced r.0 r.1) (one_chain ∷ other_chain ∷ []))
merkle_slots-total_example = merkle_slots-total (one_chain ∷ other_chain ∷ [])

merkle_slots-twins_example : merkle_slots (one_chain ∷ other_chain ∷ one_chain ∷ []) ≡ panic
merkle_slots-twins_example = merkle_slots-twins [] (other_chain ∷ []) [] one_chain one_chain refl

new_vardiff-Doubling_example :
    (tiers : List ℕ) × (new_vardiff 1 10 6
      ≡ ok (record { target_submission_rate = 6; tiers = tiers }))
    × Doubling 10 1 tiers
new_vardiff-Doubling_example = new_vardiff-Doubling 1 10 6 (omega arith) (omega arith)

-- Gaps of whole numbers.
abbrev pub whole_ops : GapOps
whole_ops = record {
  quotient = λ rate target. rate / target;
  abs_gap = λ tier ideal. (tier - ideal) + (ideal - tier);
  less = ltb;
  infinity = 1000000;
}

whole-IsRounded : IsRounded whole_ops 3 10
whole-IsRounded = record {
  finite = λ t le. ground arith;
  asym = λ a b p q less. ground arith;
  trans = λ a b c p q r ab bc. ground arith;
  grows = λ low mid high p q r less. ground arith;
}

compute_new-new_vardiff_example :
    (v : VarDiff) × (best : ℕ) × (new_vardiff 1 10 6 ≡ ok v)
    × (compute_new (record { vardiff = v; ops = whole_ops }) 20 ≡ ok best)
    × IsLeast whole_ops 3 best v.tiers
    × IsIn best v.tiers
compute_new-new_vardiff_example =
    compute_new-new_vardiff whole_ops 1 10 6 20 whole-IsRounded (omega arith) (omega arith)

abbrev adds : List (ℕ × ℕ)
adds = (1, 10) ∷ (2, 20) ∷ (3, 30) ∷ []

add_all-last_example :
    (w : Window) × (add_all adds (new_window 2) ≡ ok w)
    × (slots w ≡ drop 3 (replicate 2 none ++ map as_sample adds))
    × (total w.samples ≡ total (drop 3 (replicate 2 none ++ map as_sample adds)))
add_all-last_example = add_all-last 2 adds (omega arith)
