-- ===== src/Payout/Pick.antt =====
-- cmd/ngweb/handler_user.go, getCreatePayout: no more UTXOs are picked than are needed.
use ngpool.Prelude.{◌≡◌, refl, ap, true, ◌⊎◌, List, [], ◌∷◌, ◌++◌, map, Bool-cases, inl, inr}
use ngpool.Prelude.Int.{ℤ, pos, ◌+ℤ◌, ltb_ℤ, sumℤ, int_laws}
use ngpool.Payout.{Utxo, Input, as_input, pick_utxos}

abbrev utxo_amounts : List Utxo → List ℤ
utxo_amounts utxos = map (λ (u : Utxo). u.amount) utxos

-- The picks are the first UTXOs up to one whose predecessors do not cover the payout.
abbrev pub IsNeeded : ℤ → ℤ → List Utxo → List Input → Type 0
IsNeeded total paid utxos picks =
    (front : List Utxo) × (last : Utxo) × (rest : List Utxo) × (utxos ≡ front ++ last ∷ rest)
    × (picks ≡ map as_input (front ++ last ∷ []))
    × ((front ≡ []) ⊎ (ltb_ℤ (paid +ℤ sumℤ (utxo_amounts front)) total ≡ true))

IsNeeded-cons :
    (total paid : ℤ) (u : Utxo) (utxos : List Utxo) (picks : List Input)
    → ltb_ℤ (paid +ℤ u.amount) total ≡ true
    → IsNeeded total (paid +ℤ u.amount) utxos picks
    → IsNeeded total paid (u ∷ utxos) (as_input u ∷ picks)
unfolding sumℤ
IsNeeded-cons total paid u utxos picks short (front, last, rest, split, picked, needed) =
    (u ∷ front, last, rest, ap (λ us. u ∷ us) split, ap (λ ps. as_input u ∷ ps) picked, inr still)
  where
    empty : paid +ℤ (u.amount +ℤ pos 0) ≡ paid +ℤ u.amount
    empty = omega int_laws

    shift : (s : ℤ) → paid +ℤ (u.amount +ℤ s) ≡ paid +ℤ u.amount +ℤ s
    shift s = omega int_laws

    still : ltb_ℤ (paid +ℤ sumℤ (utxo_amounts (u ∷ front))) total ≡ true
    still = elim needed [
      | inl none_before ↦ rw (none_before, empty) short
      | inr short_before ↦ rw (shift (sumℤ (utxo_amounts front))) short_before
    ]

-- From a list of UTXOs that is not empty the handler picks a first part, in order, whose last UTXO
-- is the only one or is needed: without it the picks would not cover the payout.
pub pick_utxos-IsNeeded :
    (total paid : ℤ) (u : Utxo) (utxos : List Utxo)
    → IsNeeded total paid (u ∷ utxos) (pick_utxos total paid (u ∷ utxos)).0
unfolding pick_utxos
pick_utxos-IsNeeded total paid u [] = elim (Bool-cases (ltb_ℤ (paid +ℤ u.amount) total)) [
  | inl short ↦ rw short ([], u, [], refl, refl, inl refl)
  | inr covered ↦ rw covered ([], u, [], refl, refl, inl refl)
]
pick_utxos-IsNeeded total paid u (v ∷ utxos) = elim (Bool-cases (ltb_ℤ (paid +ℤ u.amount) total)) [
  | inl short ↦ rw short (
      IsNeeded-cons total paid u (v ∷ utxos) _ short
        (pick_utxos-IsNeeded total (paid +ℤ u.amount) v utxos))
  | inr covered ↦ rw covered ([], u, v ∷ utxos, refl, refl, inl refl)
]
