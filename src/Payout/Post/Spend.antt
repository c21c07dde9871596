-- ===== src/Payout/Post/Spend.antt =====
-- cmd/ngweb/handler_user.go: what getCreatePayout picks can be spent by postPayout.
use ngpool.Prelude.{
  ◌≡◌, refl, sym, ◌∙◌, Bool, true, false, not, String, List, [], ◌∷◌, All, Bool-cases, inl, inr,
  arith,
}
use ngpool.Prelude.Int.{ℤ, pos, ◌+ℤ◌, ltb_ℤ}
use mathlib.Core.Path.{subst}
use ngpool.Prelude.Map.{nat_eq, bytes_eq, bytes_beq_iff, beq_refl, ◌==◌}
use ngpool.Prelude.Run.{ok}
use ngpool.Prelude.{ℕ}
use ngpool.Bytes.{Bytes}
use ngpool.Bytes.Reverse.{reverse_bytes-reverse_bytes}
use ngpool.Credits.{select}
use ngpool.Payout.{Utxo, pick_utxos, is_spendable}
use ngpool.Payout.Post.{is_unspent, spend, spend_inputs, has_utxo}

-- The update of a UTXO affects a row.
abbrev IsUnspent : List Utxo → Utxo → Type 0
IsUnspent utxos p = (spend p.hash p.vout utxos).1 ≡ true

-- No two UTXOs have one hash, as the primary key says.
abbrev pub IsKeyed : List Utxo → Type 0
IsKeyed [] = Unit
IsKeyed (u ∷ utxos) = (has_utxo u.hash utxos ≡ false) × IsKeyed utxos

spend-other :
    (a b : Bytes) (v w : ℕ) (utxos : List Utxo)
    → (a == b) ≡ false
    → (spend b w (spend a v utxos).0).1 ≡ (spend b w utxos).1
unfolding spend
spend-other a b v w [] apart = refl
spend-other a b v w (u ∷ utxos) apart =
    let rest = spend-other a b v w utxos apart in
    elim (Bool-cases (is_unspent a v u)) [
      | inl here ↦
          let e : u.hash ≡ a = (bytes_beq_iff u.hash a).0 (ground (arith, here)) in
          let new : (u.hash == b) ≡ false = subst (λ h. (h == b) ≡ false) (sym e) apart in
          let other : is_unspent b w u ≡ false = rw new refl in
          let marked : is_unspent b w (record u { spent = true }) ≡ false = rw new refl in
          rw (here, other, marked) rest
      | inr there ↦ elim (Bool-cases (is_unspent b w u)) [
        | inl found ↦ rw (there, found, spend) refl
        | inr missing ↦ rw (there, missing, spend) rest
      ]
    ]

spend-cons :
    (h : Bytes) (v : ℕ) (u : Utxo) (utxos : List Utxo)
    → (spend h v utxos).1 ≡ true
    → (spend h v (u ∷ utxos)).1 ≡ true
unfolding spend
spend-cons h v u utxos e = elim (Bool-cases (is_unspent h v u)) [
  | inl here ↦ rw here refl
  | inr there ↦ rw there e
]

has_utxo-apart :
    (p : Utxo) (utxos : List Utxo)
    → has_utxo p.hash utxos ≡ false
    → All (λ (q : Utxo). (p.hash == q.hash) ≡ false) utxos
has_utxo-apart p [] h = tt
has_utxo-apart p (q ∷ utxos) h = (
  ground (arith, h, (bytes_beq_iff p.hash q.hash).0, (bytes_beq_iff q.hash p.hash).1),
  has_utxo-apart p utxos (ground (arith, h)),
)

-- After another is spent, the rest can still be.
spend-rest :
    (p : Utxo) (rest utxos : List Utxo)
    → All (λ (q : Utxo). (p.hash == q.hash) ≡ false) rest
    → All (IsUnspent utxos) rest
    → All (IsUnspent (spend p.hash p.vout utxos).0) rest
spend-rest p [] utxos apart h = tt
spend-rest p (q ∷ rest) utxos apart h = (
  spend-other p.hash q.hash p.vout q.vout utxos apart.0 ∙ h.0,
  spend-rest p rest utxos apart.1 h.1,
)

spend_inputs-picked :
    (total paid : ℤ) (rows utxos : List Utxo)
    → IsKeyed rows
    → All (IsUnspent utxos) rows
    → (utxos' : List Utxo) × (spend_inputs (pick_utxos total paid rows).0 utxos ≡ ok utxos')
unfolding spend_inputs pick_utxos
spend_inputs-picked total paid [] utxos keyed h = (utxos, refl)
spend_inputs-picked total paid (p ∷ rows) utxos keyed h =
    let paid' = paid +ℤ p.amount in
    let back = reverse_bytes-reverse_bytes p.hash in
    let spent = (spend p.hash p.vout utxos).0 in
    elim (Bool-cases (ltb_ℤ paid' total)) [
      | inl more ↦
          let (utxos', e) =
            spend_inputs-picked total paid' rows spent keyed.1
              (spend-rest p rows utxos (has_utxo-apart p rows keyed.0) h.1) in
          (utxos', rw (more, back, h.0) e)
      | inr enough ↦ (spent, rw (enough, back, h.0) refl)
    ]

All-cons :
    (u : Utxo) (rows utxos : List Utxo)
    → All (IsUnspent utxos) rows
    → All (IsUnspent (u ∷ utxos)) rows
All-cons u [] utxos h = tt
All-cons u (p ∷ rows) utxos h = (spend-cons p.hash p.vout u utxos h.0, All-cons u rows utxos h.1)

select-IsUnspent :
    (currency : String) (utxos : List Utxo)
    → All (IsUnspent utxos) (select (is_spendable currency) utxos)
unfolding select spend
select-IsUnspent currency [] = tt
select-IsUnspent currency (u ∷ utxos) =
    let rest =
      All-cons u (select (is_spendable currency) utxos) utxos (select-IsUnspent currency utxos) in
    elim (Bool-cases (is_spendable currency u)) [
      | inl kept ↦
          let unspent : not u.spent ≡ true = ground (arith, kept) in
          let own : is_unspent u.hash u.vout u ≡ true =
            rw (beq_refl u.hash, beq_refl u.vout, unspent) refl in
          rw kept (rw own refl, rest)
      | inr left_out ↦ rw left_out rest
    ]

select-has_utxo :
    (hash : Bytes) (test : Utxo → Bool) (utxos : List Utxo)
    → has_utxo hash utxos ≡ false
    → has_utxo hash (select test utxos) ≡ false
unfolding select
select-has_utxo hash test [] h = refl
select-has_utxo hash test (u ∷ utxos) h =
    let rest = select-has_utxo hash test utxos (ground (arith, h)) in
    let first : (u.hash == hash) ≡ false = ground (arith, h) in
    elim (Bool-cases (test u)) [
      | inl kept ↦ rw (kept, first) rest
      | inr left_out ↦ rw left_out rest
    ]

select-IsKeyed :
    (test : Utxo → Bool) (utxos : List Utxo) → IsKeyed utxos → IsKeyed (select test utxos)
unfolding select
select-IsKeyed test [] keyed = tt
select-IsKeyed test (u ∷ utxos) keyed =
    let rest = select-IsKeyed test utxos keyed.1 in
    elim (Bool-cases (test u)) [
      | inl kept ↦ rw kept (select-has_utxo u.hash test utxos keyed.0, rest)
      | inr left_out ↦ rw left_out rest
    ]

-- When no two UTXOs have one hash, all inputs that getCreatePayout picks for a total from a
-- currency's spendable UTXOs can be spent by postPayout: none is refused as spent already.
pub spend_inputs-pick_utxos :
    (currency : String) (total : ℤ) (utxos : List Utxo)
    → IsKeyed utxos
    → (utxos' : List Utxo) × (spend_inputs
          (pick_utxos total (pos 0) (select (is_spendable currency) utxos)).0
          utxos
        ≡ ok utxos')
spend_inputs-pick_utxos currency total utxos keyed =
    spend_inputs-picked total (pos 0) (select (is_spendable currency) utxos) utxos
      (select-IsKeyed (is_spendable currency) utxos keyed) (select-IsUnspent currency utxos)
