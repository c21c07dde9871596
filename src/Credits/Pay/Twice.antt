-- ===== src/Credits/Pay/Twice.antt =====
-- cmd/ngweb/generatecredits.go: a run that succeeds leaves no block to credit.
use ngpool.Prelude.{
  ◌≡◌, refl, sym, ap, ◌∙◌, true, false, String, List, [], ◌∷◌, if◌then◌else◌, inl, inr, Bool-cases,
  Option-cases, arith, All,
}
use mathlib.Core.Path.{subst}
use ngpool.Prelude.Map.{Map, lookup, string_eq, ◌==◌, beq_refl}
use ngpool.Prelude.Run.{Run, ok, err, panic, out_of_fuel, >>=-eq-ok, ok-injective, Run-cases}
use ngpool.Config.{Algo, ShareChainConfig}
use ngpool.Credits.{FloatOps, Db, BlockRow, CreditRow, select, chain_sums, last_block_time}
use ngpool.Credits.Split.{load_chains, split_subsidy}
use ngpool.Credits.Pay.{
  is_due, has_hash, mark_credited, process_block, credit_blocks, generate_credits, pay_chains,
  commit,
}

-- Every block that is due has its hash among these.
abbrev IsPending : List BlockRow → List BlockRow → Type 0
IsPending due blocks = All (λ (b : BlockRow). is_due b ≡ true → has_hash b.hash due ≡ true) blocks

abbrev mark_one : String → BlockRow → BlockRow
mark_one hash x = if x.hash == hash then record x { credited = true } else x

mark_credited-here :
    (b : BlockRow) (due : List BlockRow) (x : BlockRow)
    → (is_due x ≡ true → has_hash x.hash (b ∷ due) ≡ true)
    → is_due (mark_one b.hash x) ≡ true
    → has_hash (mark_one b.hash x).hash due ≡ true
mark_credited-here b due x p = elim (Bool-cases (x.hash == b.hash)) [
  | inl same ↦ rw same (λ d. ground arith)
  | inr other ↦
      let flipped : (b.hash == x.hash) ≡ false =
        ground (arith, (string_eq.beq_iff x.hash b.hash).1, (string_eq.beq_iff b.hash x.hash).0) in
      rw other (λ d. rw flipped at (p d))
]

mark_credited-IsPending :
    (b : BlockRow) (due blocks : List BlockRow)
    → IsPending (b ∷ due) blocks
    → IsPending due (mark_credited b.hash blocks)
unfolding mark_credited
mark_credited-IsPending b due [] p = tt
mark_credited-IsPending b due (x ∷ blocks) p =
    (mark_credited-here b due x p.0, mark_credited-IsPending b due blocks p.1)

-- What the query selects has its hash among what it selects.
IsPending-more :
    (b : BlockRow) (due blocks : List BlockRow) → IsPending due blocks → IsPending (b ∷ due) blocks
IsPending-more b due [] p = tt
IsPending-more b due (x ∷ blocks) p =
    ((λ d. ground (arith, p.0 d)), IsPending-more b due blocks p.1)

select-IsPending : (blocks : List BlockRow) → IsPending (select is_due blocks) blocks
unfolding select
select-IsPending [] = tt
select-IsPending (b ∷ blocks) =
    let ih = select-IsPending blocks in
    elim (Bool-cases (is_due b)) [
      | inl due ↦
          let found : select is_due (b ∷ blocks) ≡ b ∷ select is_due blocks = rw due refl in
          subst (λ due. IsPending due (b ∷ blocks)) (sym found)
            ((λ d. rw (beq_refl b.hash) refl), IsPending-more b (select is_due blocks) blocks ih)
      | inr skip ↦
          let found : select is_due (b ∷ blocks) ≡ select is_due blocks = rw skip refl in
          subst (λ due. IsPending due (b ∷ blocks)) (sym found) ((λ d. ground (arith, skip, d)), ih)
    ]

IsPending-nil : (blocks : List BlockRow) → IsPending [] blocks → select is_due blocks ≡ []
unfolding select
IsPending-nil [] p = refl
IsPending-nil (b ∷ blocks) p = elim (Bool-cases (is_due b)) [
  | inl due ↦ ground (arith, p.0 due)
  | inr skip ↦ rw skip (IsPending-nil blocks p.1)
]

commit-blocks :
    (b : BlockRow) (db db' : Db) (rows : List CreditRow)
    → commit b db rows ≡ ok db'
    → db'.blocks ≡ mark_credited b.hash db.blocks
unfolding commit
commit-blocks b db db' rows e = elim (Bool-cases (has_hash b.hash db.blocks)) [
  | inl there ↦ ap (λ d. d.blocks) (sym (ok-injective (rw there at e)))
  | inr missing ↦
      let refused : err "Failed to update block information" ≡ ok db' = rw missing at e in cc
]

module _ (f : FloatOps) (configs : Map String ShareChainConfig) where
  process_block-blocks :
      (b : BlockRow) (algo : Algo) (db db' : Db)
      → process_block f configs b algo db ≡ ok db'
      → db'.blocks ≡ mark_credited b.hash db.blocks
  unfolding process_block
  process_block-blocks b algo db db' e =
      let (loaded, _, e1) =
        >>=-eq-ok (load_chains configs (chain_sums f db (last_block_time f db b) b)) _ e in
      let (chains, _, e2) = >>=-eq-ok (split_subsidy f b.subsidy loaded) _ e1 in
      let (rows, _, e3) = >>=-eq-ok (pay_chains f db b algo chains db.credits) _ e2 in
      commit-blocks b db db' rows e3

  module _ (algos : Map String Algo) where
    credit_blocks-none_due :
        (due : List BlockRow) (db : Db)
        → IsPending due db.blocks
        → (credit_blocks f configs algos due db).1 ≡ ok tt
        → select is_due (credit_blocks f configs algos due db).0.blocks ≡ []
    unfolding credit_blocks
    credit_blocks-none_due [] db p e = IsPending-nil db.blocks p
    credit_blocks-none_due (b ∷ due) db p e = elim (Option-cases (lookup b.powalgo algos)) [
      | inl none_there ↦
          let never : ◌≡◌ {A = Run {0} Unit} (err "Couldn't locate pow alogo") (ok tt) =
            rw (none_there, credit_blocks) at e in
          cc
      | inr (algo, found) ↦ elim (Run-cases (process_block f configs b algo db)) [
        | inl (db', done) ↦
            let step : credit_blocks f configs algos (b ∷ due) db
                ≡ credit_blocks f configs algos due db' =
              rw (found, done, credit_blocks) refl in
            let pending =
              subst (IsPending due) (sym (process_block-blocks b algo db db' done))
                (mark_credited-IsPending b due db.blocks p) in
            subst (λ r. select is_due r.0.blocks ≡ []) (sym step)
              (credit_blocks-none_due due db' pending (ap (λ r. r.1) (sym step) ∙ e))
        | inr (inl (m, failed)) ↦
            let never : ◌≡◌ {A = Run {0} Unit} (err m) (ok tt) =
              rw (found, failed, credit_blocks) at e in
            cc
        | inr (inr (inl crashed)) ↦
            let never : ◌≡◌ {A = Run {0} Unit} (panic) (ok tt) =
              rw (found, crashed, credit_blocks) at e in
            cc
        | inr (inr (inr spent)) ↦
            let never : ◌≡◌ {A = Run {0} Unit} (out_of_fuel) (ok tt) =
              rw (found, spent, credit_blocks) at e in
            cc
      ]
    ]

    -- When a run ends without an error, the same run on the database that it leaves changes nothing
    -- and ends without an error: no mature block is left uncredited.
    pub generate_credits-twice :
        (db : Db)
        → (generate_credits f configs algos db).1 ≡ ok tt
        → generate_credits f configs algos (generate_credits f configs algos db).0
          ≡ ((generate_credits f configs algos db).0, ok tt)
    unfolding generate_credits
    generate_credits-twice db e =
        ap (λ due. credit_blocks f configs algos due (generate_credits f configs algos db).0)
          (credit_blocks-none_due (select is_due db.blocks) db (select-IsPending db.blocks) e)
