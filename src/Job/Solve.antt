-- ===== src/Job/Solve.antt =====
-- cmd/ngstratum/job.go: what CheckSolves finds.
use ngpool.Prelude.{
  ℕ, ◌≤◌, ◌≡◌, refl, sym, ap, ◌∙◌, Bool, true, false, String, Option, none, some, List, [], ◌∷◌,
  ◌++◌, map, leb, leb→le, All, arith, if◌then◌else◌,
}
use mathlib.Core.List.{append_assoc, append-nil}
use ngpool.Prelude.Int.{pos, leb_ℤ, ltb_ℤ}
use ngpool.Prelude.Map.{lookup, insert, lookup-insert, lookup-insert_self, ◌==◌, string_eq}
use ngpool.Prelude.Run.{ok, >>=-eq-ok, ok-injective, or_err}
use ngpool.Bytes.{Bytes}
use ngpool.Template.{Deps}
use ngpool.Job.{
  Job, AuxChainJob, BlockSolve, Checked, share_ok, aux_solve, main_solve, check_aux, check_solves,
  block_header,
}

abbrev aux_codes : List AuxChainJob → List String
aux_codes = map λ mj. mj.currency_config.code

-- What the loop does not touch: a code that no later chain has.
abbrev pub IsFree : String → List AuxChainJob → Type 0
IsFree code = All (λ (mj : AuxChainJob). (mj.currency_config.code == code) ≡ false)

module _ (deps : Deps) (j : Job) (header header_hsh coinbase : Bytes) (big_hsh : ℕ) where
  abbrev loop : List AuxChainJob → Checked → Checked
  loop = check_aux deps j header header_hsh coinbase big_hsh

  loop-currencies :
      (chains : List AuxChainJob) (c : Checked)
      → (loop chains c).currencies ≡ c.currencies ++ aux_codes chains
  unfolding check_aux
  loop-currencies [] c = sym (append-nil c.currencies)
  loop-currencies (mj ∷ chains) c =
      loop-currencies chains _
      ∙ append_assoc c.currencies (mj.currency_config.code ∷ []) (aux_codes chains)

  loop-valid_share :
      (chains : List AuxChainJob) (c : Checked) → (loop chains c).valid_share ≡ c.valid_share
  unfolding check_aux
  loop-valid_share [] c = refl
  loop-valid_share (mj ∷ chains) c = loop-valid_share chains _

  loop-free :
      (code : String) (chains : List AuxChainJob) (c : Checked)
      → IsFree code chains
      → lookup code (loop chains c).solves ≡ lookup code c.solves
  unfolding check_aux
  loop-free code [] c h = refl
  loop-free code (mj ∷ chains) c h =
      let ih =
        loop-free code chains
          (record {
            solves =
                if leb_ℤ (pos big_hsh) mj.target
                then insert mj.currency_config.code
                    (aux_solve deps j mj header header_hsh coinbase big_hsh) c.solves
                else c.solves;
            valid_share = c.valid_share;
            currencies = c.currencies ++ mj.currency_config.code ∷ [];
          })
          h.1 in
      ground (
        arith,
        ih,
        lookup-insert mj.currency_config.code code
            (aux_solve deps j mj header header_hsh coinbase big_hsh) c.solves,
      )

  loop-unsolved :
      (chains : List AuxChainJob) (c : Checked)
      → All (λ (mj : AuxChainJob). ltb_ℤ mj.target (pos big_hsh) ≡ true) chains
      → c.solves ≡ []
      → (loop chains c).solves ≡ []
  unfolding check_aux
  loop-unsolved [] c h e = e
  loop-unsolved (mj ∷ chains) c h e =
      let apart : leb_ℤ (pos big_hsh) mj.target ≡ false = ground (arith, h.0) in
      loop-unsolved chains _ h.1 (rw apart e)

-- The header that a nonce and an extranonce make, and the hash that it is judged by.
abbrev pub coinbase_of : Job → Bytes → Bytes
coinbase_of j extra_nonce = j.main.coinbase1 ++ (extra_nonce ++ j.main.coinbase2)

abbrev pub header_of : Deps → Job → Bytes → Bytes → Bytes
header_of deps j nonce extra_nonce =
    block_header deps j.main nonce (deps.sha256d (coinbase_of j extra_nonce))

abbrev pub HashesTo : Deps → Job → Bytes → Bytes → ℕ → Type 0
HashesTo deps j nonce extra_nonce big_hsh =
    (hsh : Bytes) × (obj : Bytes) × (j.algo.pow_hash (header_of deps j nonce extra_nonce)
      ≡ some hsh)
    × (deps.new_hash hsh ≡ some obj)
    × (deps.hash_to_big obj ≡ big_hsh)

share_ok_lem :
    (o : Option ℕ) (big_hsh : ℕ)
    → share_ok o big_hsh ≡ elim o [ none ↦ false | some t ↦ leb t big_hsh ]
share_ok_lem none big_hsh = refl
share_ok_lem (some t) big_hsh = refl

lookup-one :
    (code : String) (solve : BlockSolve) (b : Bool)
    → lookup code (if b then insert code solve [] else []) ≡ (if b then some solve else none)
lookup-one code solve true = lookup-insert_self code solve []
lookup-one code solve false = unfold lookup in refl

module _ (deps : Deps) (j : Job) (nonce extra_nonce : Bytes) (share_target : Option ℕ)
    (big_hsh : ℕ) where
  -- Where the header's hash can be computed and no merged-mined chain has the main chain's code,
  -- CheckSolves returns: the share is valid exactly when there is a share target and the hash is at
  -- least that, the currencies are all the chains' in order, and the main chain's solve is there
  -- exactly when the hash is at most the chain's target, as a block whose header is the one that was
  -- hashed.
  pub check_solves-main :
      HashesTo deps j nonce extra_nonce big_hsh
      → IsFree j.main.currency_config.code j.aux_chains
      → (c : Checked) × (check_solves deps j nonce extra_nonce share_target ≡ ok c)
        × (c.valid_share ≡ elim share_target [ none ↦ false | some t ↦ leb t big_hsh ])
        × (c.currencies ≡ j.main.currency_config.code ∷ aux_codes j.aux_chains)
        × (lookup j.main.currency_config.code c.solves ≡ (
            if leb_ℤ (pos big_hsh) j.main.target
            then some (
                main_solve deps j
                  (header_of deps j nonce extra_nonce)
                  (coinbase_of j extra_nonce)
                  (deps.sha256d (coinbase_of j extra_nonce))
                  big_hsh)
            else none))
  unfolding check_solves
  check_solves-main (hsh, obj, pow, hash, big) free =
      let coinbase = coinbase_of j extra_nonce in
      let header = header_of deps j nonce extra_nonce in
      let solve = main_solve deps j header coinbase (deps.sha256d coinbase) big_hsh in
      let start : Checked = record {
        solves =
            if leb_ℤ (pos big_hsh) j.main.target
            then insert j.main.currency_config.code solve []
            else [];
        valid_share = share_ok share_target big_hsh;
        currencies = j.main.currency_config.code ∷ [];
      } in
      (
        loop deps j header hsh coinbase big_hsh j.aux_chains start,
        rw (pow, hash, big),
        loop-valid_share deps j header hsh coinbase big_hsh j.aux_chains start
            ∙ share_ok_lem share_target big_hsh,
        loop-currencies deps j header hsh coinbase big_hsh j.aux_chains start,
        loop-free deps j header hsh coinbase big_hsh j.main.currency_config.code j.aux_chains start
              free
            ∙ lookup-one j.main.currency_config.code solve (leb_ℤ (pos big_hsh) j.main.target),
      )

below-All :
    (low high : ℕ) (chains : List AuxChainJob)
    → low ≤ high
    → All (λ (mj : AuxChainJob). ltb_ℤ mj.target (pos low) ≡ true) chains
    → All (λ (mj : AuxChainJob). ltb_ℤ mj.target (pos high) ≡ true) chains
below-All low high [] le h = tt
below-All low high (mj ∷ chains) le h = (ground (arith, le, h.0), below-All low high chains le h.1)

-- A valid share solves no chain whose target is below the share target.
pub check_solves-unsolved :
    (deps : Deps) (j : Job) (nonce extra_nonce : Bytes) (share_target : ℕ) (c : Checked)
    → check_solves deps j nonce extra_nonce (some share_target) ≡ ok c
    → c.valid_share ≡ true
    → ltb_ℤ j.main.target (pos share_target) ≡ true
    → All (λ (mj : AuxChainJob). ltb_ℤ mj.target (pos share_target) ≡ true) j.aux_chains
    → c.solves ≡ []
unfolding check_solves
check_solves-unsolved deps j nonce extra_nonce share_target c e valid below all_below =
    let header = header_of deps j nonce extra_nonce in
    let coinbase = coinbase_of j extra_nonce in
    let (hsh, _, e1) = >>=-eq-ok (or_err "PoWHash" (j.algo.pow_hash header)) _ e in
    let (obj, _, e2) = >>=-eq-ok (or_err "NewHash" (deps.new_hash hsh)) _ e1 in
    let big = deps.hash_to_big obj in
    let same = ok-injective e2 in
    let reached : leb share_target big ≡ true =
      sym (loop-valid_share deps j header hsh coinbase big j.aux_chains _)
      ∙ ap (λ (k : Checked). k.valid_share) same
      ∙ valid in
    let le : share_target ≤ big = leb→le _ _ reached in
    let main_above : leb_ℤ (pos big) j.main.target ≡ false = ground (arith, below, le) in
    ap (λ (k : Checked). k.solves) (sym same)
    ∙ loop-unsolved deps j header hsh coinbase big j.aux_chains _
        (below-All share_target big j.aux_chains le all_below) (rw main_above refl)
