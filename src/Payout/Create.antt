-- ===== src/Payout/Create.antt =====
-- cmd/ngweb/handler_user.go, getCreatePayout: the payout's inputs, outputs and fees balance.
use ngpool.Prelude.{
  ◌≡◌, refl, sym, ap, ◌∙◌, false, inl, inr, String, Option, none, some, List, [], ◌∷◌, ◌++◌, map,
  Bool-cases, ◌==◌, arith,
}
use mathlib.Core.Path.{subst}
use ngpool.Prelude.Int.{ℤ, pos, ◌+ℤ◌, ◌-ℤ◌, ◌≤ℤ◌, ltb_ℤ, sumℤ, sumℤ-append, int_laws}
use ngpool.Prelude.Run.{Run, ok, err, >>=-eq-ok, ok-injective, or_err, or_err-eq-ok}
use ngpool.Bytes.{Bytes}
use ngpool.Config.{ChainConfig}
use ngpool.Credits.{FloatOps, select}
use ngpool.Payout.{
  Utxo, Credit, PayoutAddress, Due, PayoutMap, Input, Rpc, Draft, due_credits, add_credit,
  group_credits, pick_utxos, is_spendable, change_output, plain_outputs, set_fees, net_outputs,
  fee_for, draft_payout, fund_payout, create_for, create_payout,
}

abbrev pub map_amounts : List PayoutMap → List ℤ
map_amounts maps = map (λ (pm : PayoutMap). pm.amount) maps

abbrev pub map_fees : List PayoutMap → List ℤ
map_fees maps = map (λ (pm : PayoutMap). pm.miner_fee) maps

abbrev pub due_amounts : List Due → List ℤ
due_amounts due = map (λ (d : Due). d.amount) due

abbrev pub input_amounts : List Input → List ℤ
input_amounts inputs = map (λ (i : Input). i.amount) inputs

abbrev pub output_amounts : List (String × ℤ) → List ℤ
output_amounts outputs = map (λ (o : String × ℤ). o.1) outputs

add_credit-sum :
    (rpc : Rpc) (d : Due) (maps maps' : List PayoutMap)
    → add_credit rpc d maps ≡ ok maps'
    → sumℤ (map_amounts maps') ≡ sumℤ (map_amounts maps) +ℤ d.amount
unfolding sumℤ
add_credit-sum rpc d [] maps' e = elim (Bool-cases (rpc.decode_address d.address)) [
  | inl good ↦ ap (λ m. sumℤ (map_amounts m)) (sym (ok-injective (rw good at e))) ∙ omega int_laws
  | inr bad ↦ let refused : err "invalid_address" ≡ ok maps' = rw bad at e in cc
]
add_credit-sum rpc d (pm ∷ maps) maps' e = elim (Bool-cases (pm.user_id == d.user_id)) [
  | inl same ↦ ap (λ m. sumℤ (map_amounts m)) (sym (ok-injective (rw same at e))) ∙ omega int_laws
  | inr other ↦
      let (rest, e1, e2) = >>=-eq-ok (add_credit rpc d maps) _ (rw other at e) in
      ap (λ m. sumℤ (map_amounts m)) (sym (ok-injective e2))
      ∙ rw (add_credit-sum rpc d maps rest e1) (omega int_laws)
]

group_credits-sum :
    (rpc : Rpc) (due : List Due) (maps out : List PayoutMap) (total total' : ℤ)
    → group_credits rpc due maps total ≡ ok (out, total')
    → (sumℤ (map_amounts out) ≡ sumℤ (map_amounts maps) +ℤ sumℤ (due_amounts due))
      × (total' ≡ total +ℤ sumℤ (due_amounts due))
unfolding group_credits sumℤ
group_credits-sum rpc [] maps out total total' e =
    let same = ok-injective e in
    (
      ap (λ r. sumℤ (map_amounts r.0)) (sym same) ∙ omega int_laws,
      ap (λ r. r.1) (sym same) ∙ omega int_laws,
    )
group_credits-sum rpc (d ∷ due) maps out total total' e =
    let (maps', e1, e2) = >>=-eq-ok (add_credit rpc d maps) _ e in
    let ih = group_credits-sum rpc due maps' out (total +ℤ d.amount) total' e2 in
    (ih.0 ∙ rw (add_credit-sum rpc d maps maps' e1) (omega int_laws), ih.1 ∙ omega int_laws)

pick_utxos-sum :
    (total paid : ℤ) (utxos : List Utxo)
    → (pick_utxos total paid utxos).1 ≡ paid +ℤ sumℤ (input_amounts (pick_utxos total paid utxos).0)
unfolding pick_utxos sumℤ
pick_utxos-sum total paid [] = omega int_laws
pick_utxos-sum total paid (u ∷ utxos) = elim (Bool-cases (ltb_ℤ (paid +ℤ u.amount) total)) [
  | inl short ↦ rw short (pick_utxos-sum total (paid +ℤ u.amount) utxos ∙ omega int_laws)
  | inr covered ↦ rw covered (omega int_laws)
]

net_outputs-sum :
    (maps : List PayoutMap)
    → sumℤ (output_amounts (net_outputs maps)) +ℤ sumℤ (map_fees maps) ≡ sumℤ (map_amounts maps)
unfolding sumℤ
net_outputs-sum [] = omega int_laws
net_outputs-sum (pm ∷ maps) = rw (sym (net_outputs-sum maps)) (omega int_laws)

set_fees-amounts :
    (f : FloatOps) (paid fee : ℤ) (maps : List PayoutMap)
    → map_amounts (set_fees f paid fee maps) ≡ map_amounts maps
set_fees-amounts f paid fee [] = refl
set_fees-amounts f paid fee (pm ∷ maps) =
    ap (λ rest. pm.amount ∷ rest) (set_fees-amounts f paid fee maps)

map-append {ℓ κ} :
    {A : Type ℓ} {B : Type κ} (f : A → B) (xs ys : List A) → map f (xs ++ ys) ≡ map f xs ++ map f ys
map-append f [] ys = refl
map-append f (x ∷ xs) ys = ap (λ rest. f x ∷ rest) (map-append f xs ys)

-- With the change the outputs and the fees are what the inputs hold.
outputs-sum :
    (address : String) (total paid : ℤ) (maps : List PayoutMap)
    → ltb_ℤ paid total ≡ false
    → sumℤ (map_amounts maps) ≡ total
    → sumℤ (output_amounts (net_outputs maps ++ change_output address (paid -ℤ total)))
        +ℤ sumℤ (map_fees maps)
      ≡ paid
unfolding sumℤ
outputs-sum address total paid maps covered sums =
    let enough : total ≤ℤ paid = ground arith in
    let outs = net_outputs maps in
    let change = change_output address (paid -ℤ total) in
    let nets = net_outputs-sum maps ∙ sums in
    let split : sumℤ (output_amounts (outs ++ change))
        ≡ sumℤ (output_amounts outs) +ℤ sumℤ (output_amounts change) =
      ap sumℤ (map-append (λ (o : String × ℤ). o.1) outs change)
      ∙ sumℤ-append (output_amounts outs) (output_amounts change) in
    let left : sumℤ (output_amounts change) ≡ paid -ℤ total =
      elim (Bool-cases (ltb_ℤ (pos 0) (paid -ℤ total))) [
        | inl some_left ↦ rw some_left (omega int_laws)
        | inr none_left ↦
            let ge : paid -ℤ total ≤ℤ pos 0 = ground arith in rw none_left (omega int_laws)
      ] in
    rw (split, left, sym nets) (omega int_laws)

-- What a draft's transaction was made from: the draft's inputs, and outputs that with the fees of
-- its maps are what those inputs hold.
abbrev Balances : Rpc → ℤ → Draft → Type 0
Balances rpc paid draft =
    (outputs : List (String × ℤ)) × (made : Bytes) × (rpc.create_raw draft.meta.inputs outputs
      ≡ some made)
    × (rpc.serialize_no_witness made ≡ some draft.tx)
    × (sumℤ (output_amounts outputs) +ℤ sumℤ (map_fees draft.meta.payout_maps) ≡ paid)

draft_payout-balance :
    (f : FloatOps) (rpc : Rpc) (config : ChainConfig) (maps : List PayoutMap) (total : ℤ)
    (inputs : List Input) (paid : ℤ) (draft : Draft)
    → ltb_ℤ paid total ≡ false
    → sumℤ (map_amounts maps) ≡ total
    → draft_payout f rpc config maps total inputs paid ≡ ok draft
    → (draft.meta.inputs ≡ inputs)
      × (map_amounts draft.meta.payout_maps ≡ map_amounts maps)
      × Balances rpc paid draft
unfolding draft_payout
draft_payout-balance f rpc config maps total inputs paid draft covered sums e =
    let change = change_output config.block_subsidy_address (paid -ℤ total) in
    let (plain, _, e1) =
      >>=-eq-ok (or_err "rpc_failure" (rpc.create_raw inputs (plain_outputs maps ++ change))) _ e in
    let maps' = set_fees f paid (fee_for rpc config plain inputs) maps in
    let (tx, created, e2) =
      >>=-eq-ok (or_err "rpc_failure" (rpc.create_raw inputs (net_outputs maps' ++ change))) _ e1 in
    let (raw, written, e3) =
      >>=-eq-ok (or_err "tx_serialize_err" (rpc.serialize_no_witness tx)) _ e2 in
    let kept = set_fees-amounts f paid (fee_for rpc config plain inputs) maps in
    let balance =
      outputs-sum config.block_subsidy_address total paid maps' covered (ap sumℤ kept ∙ sums) in
    subst
      (λ (d : Draft).
        (d.meta.inputs ≡ inputs)
        × (map_amounts d.meta.payout_maps ≡ map_amounts maps)
        × Balances rpc paid d)
      (ok-injective e3)
      (
        refl,
        kept,
        (
          net_outputs maps' ++ change,
          tx,
          or_err-eq-ok "rpc_failure" _ tx created,
          or_err-eq-ok "tx_serialize_err" _ raw written,
          balance,
        ),
      )

create_for-balance :
    (f : FloatOps) (config : ChainConfig) (rpc : Rpc) (currency : String) (due : List Due)
    (utxos : List Utxo) (draft : Draft)
    → create_for f config rpc currency due utxos ≡ ok (some draft)
    → (sumℤ (map_amounts draft.meta.payout_maps) ≡ sumℤ (due_amounts due))
      × Balances rpc (sumℤ (input_amounts draft.meta.inputs)) draft
unfolding fund_payout sumℤ
create_for-balance f config rpc currency [] utxos draft e =
    let never : ◌≡◌ {A = Run (Option Draft)} (ok none) (ok (some draft)) = e in cc
create_for-balance f config rpc currency (d ∷ due) utxos draft e =
    let ((maps, total), e1, e2) = >>=-eq-ok (group_credits rpc (d ∷ due) [] (pos 0)) _ e in
    let spendable = select (is_spendable currency) utxos in
    let (made, e3, e4) = >>=-eq-ok (fund_payout f rpc config spendable (maps, total)) _ e2 in
    let same : ◌≡◌ {A = Option Draft} (some made) (some draft) = ok-injective e4 in
    let same' : made ≡ draft = cc in
    let sums = group_credits-sum rpc (d ∷ due) [] maps (pos 0) total e1 in
    let picked = pick_utxos total (pos 0) spendable in
    elim (Bool-cases (ltb_ℤ picked.1 total)) [
      | inl short ↦
          let refused : ◌≡◌ {A = Run Draft} (err "insufficient_funds") (ok made) = rw short at e3 in
          cc
      | inr covered ↦
          let due_sum = sumℤ (due_amounts (d ∷ due)) in
          let shift : pos 0 +ℤ due_sum ≡ due_sum = omega int_laws in
          let made_sums = sums.0 ∙ sym sums.1 in
          let (ins, kept, balance) =
            draft_payout-balance f rpc config maps total picked.0 picked.1 made covered made_sums
              (rw covered at e3) in
          let held : picked.1 ≡ sumℤ (input_amounts made.meta.inputs) =
            pick_utxos-sum total (pos 0) spendable
            ∙ omega int_laws
            ∙ ap (λ i. sumℤ (input_amounts i)) (sym ins) in
          subst
            (λ (d' : Draft).
              (sumℤ (map_amounts d'.meta.payout_maps) ≡ due_sum)
              × Balances rpc (sumℤ (input_amounts d'.meta.inputs)) d')
            same'
            (ap sumℤ kept ∙ sums.0 ∙ shift, subst (λ paid. Balances rpc paid made) held balance)
    ]

-- When getCreatePayout answers with a payout, the amounts of its maps are together those of the due
-- credits, and its transaction is what CreateRawTransaction made of its inputs and of outputs that,
-- together with the miner fees of the maps, are exactly what those inputs hold.
pub create_payout-balance :
    (f : FloatOps) (config : ChainConfig) (rpc : Rpc) (currency : String)
    (addresses : List PayoutAddress) (credits : List Credit) (utxos : List Utxo) (draft : Draft)
    → create_payout f (some config) (some rpc) currency addresses credits utxos ≡ ok (some draft)
    → (sumℤ (map_amounts draft.meta.payout_maps)
        ≡ sumℤ (due_amounts (due_credits addresses currency credits)))
      × ((outputs : List (String × ℤ)) × (made : Bytes) × (rpc.create_raw draft.meta.inputs outputs
            ≡ some made)
          × (rpc.serialize_no_witness made ≡ some draft.tx)
          × (sumℤ (output_amounts outputs) +ℤ sumℤ (map_fees draft.meta.payout_maps)
              ≡ sumℤ (input_amounts draft.meta.inputs)))
unfolding create_payout
create_payout-balance f config rpc currency addresses credits utxos draft e =
    create_for-balance f config rpc currency (due_credits addresses currency credits) utxos draft e
