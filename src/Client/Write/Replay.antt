-- ===== src/Client/Write/Replay.antt =====
-- cmd/ngstratum/client.go: what the key of a submission and the share target let through.
use ngpool.Prelude.{
  ℕ, ◌+◌, ◌<◌, ◌≤◌, ◌≡◌, ◌⊎◌, inl, inr, refl, sym, ap, ◌∙◌, Bool, true, false, Option, none, some,
  [], ◌∷◌, ◌++◌, if◌then◌else◌, leb, length, length-append, arith, All, Bool-cases, Option-cases,
}
use ngpool.Prelude.Int.{pos, ltb_ℤ}
use ngpool.Prelude.Map.{lookup, insert, lookup-insert, lookup-insert_self, ◌==◌, bytes_eq}
use ngpool.Prelude.Run.{Run, ok, err, panic, out_of_fuel, >>=-eq-ok, ok-injective}
use ngpool.Bytes.{Bytes}
use ngpool.Window
use ngpool.Window.{Window}
use ngpool.Template.{Deps}
use ngpool.Job.{AuxChainJob, Checked}
use ngpool.Job.Solve.{HashesTo, IsFree, check_solves-main, check_solves-unsolved}
use ngpool.Client.Messages.{MiningSubmit, get_key}
use ngpool.Client.{Client, ClientJob, Share}
use ngpool.Client.Write.{share_target, combined, credited, credit, check, submit}

-- What a round hands on: nothing, or one share that solved no block.
abbrev HandsNoBlock : Client → Client → Type 0
HandsNoBlock c c' =
    (c'.shares ≡ c.shares)
    ⊎ ((share : Share) × (c'.shares ≡ c.shares ++ share ∷ []) × (share.blocks ≡ []))

module _ (deps : Deps) (product : ℕ → ℕ → ℕ) where
  credit-no_blocks :
      (now : ℕ) (c c' : Client) (cj : ClientJob) (s : MiningSubmit) (checked : Checked) (go : Bool)
      → (checked.valid_share ≡ true → checked.solves ≡ [])
      → credit deps product now c cj s checked ≡ ok (c', go)
      → HandsNoBlock c c'
  unfolding credit
  credit-no_blocks now c c' cj s checked go none_solved e = elim (Bool-cases checked.valid_share) [
    | inr bad ↦ inl (ground arith)
    | inl good ↦
        let (w, _, q) = >>=-eq-ok (Window.add now cj.difficulty c.share_window) _ (rw good at e) in
        let made : ◌≡◌ {A = Run (Client × Bool)}
            (ok (credited deps product now c cj s checked w, true)) (ok (c', go)) =
          q in
        let same : credited deps product now c cj s checked w ≡ c' =
          ap (λ (r : Client × Bool). r.0) (ok-injective made) in
        inr (_, ap (λ (d : Client). d.shares) (sym same), none_solved good)
  ]

  check-no_blocks :
      (now : ℕ) (c c' : Client) (cj : ClientJob) (s : MiningSubmit) (r : Run Checked) (go : Bool)
      → ((checked : Checked) → r ≡ ok checked → checked.valid_share ≡ true → checked.solves ≡ [])
      → check deps product now c cj s r ≡ ok (c', go)
      → HandsNoBlock c c'
  unfolding check
  check-no_blocks now c c' cj s (ok checked) go none_solved e =
      credit-no_blocks now c c' cj s checked go (none_solved checked refl) e
  check-no_blocks now c c' cj s (err m) go none_solved e = inl (ground arith)
  check-no_blocks now c c' cj s panic go none_solved e = cc
  check-no_blocks now c c' cj s out_of_fuel go none_solved e = cc

  -- While the target of every chain of a job, the main one's and the merged-mined ones', is below the
  -- share target, no submission for the job ever hands on a share with a solved block: it hands on
  -- nothing, or one share with no block. A hash that solves a block is not above the chain's target, so
  -- that it does not reach the share target either.
  pub submit-no_blocks :
      (now : ℕ) (c c' : Client) (cj : ClientJob) (s : MiningSubmit) (go : Bool)
      → lookup s.job_id c.job_book ≡ some cj
      → ltb_ℤ cj.job.main.target (pos (share_target deps product cj)) ≡ true
      → All
          (λ (mj : AuxChainJob). ltb_ℤ mj.target (pos (share_target deps product cj)) ≡ true)
          cj.job.aux_chains
      → submit deps product now s c ≡ ok (c', go)
      → (c'.shares ≡ c.shares)
        ⊎ ((share : Share) × (c'.shares ≡ c.shares ++ share ∷ []) × (share.blocks ≡ []))
  unfolding submit
  submit-no_blocks now c c' cj s go known below all_below e =
      elim (Option-cases (lookup (get_key s) cj.submission_map)) [
        | inr (b, twice) ↦ inl (ground arith)
        | inl new ↦
            check-no_blocks now c c' cj s _ go
              (λ checked made valid.
                check_solves-unsolved deps cj.job s.nonce (combined deps product c s)
                  (share_target deps product cj) checked made valid below all_below)
              (rw (known, new, submit) at e)
      ]

  submit-credits :
      (now big_hsh : ℕ) (c : Client) (cj : ClientJob) (s : MiningSubmit)
      → lookup s.job_id c.job_book ≡ some cj
      → lookup (get_key s) cj.submission_map ≡ none
      → HashesTo deps cj.job s.nonce (combined deps product c s) big_hsh
      → IsFree cj.job.main.currency_config.code cj.job.aux_chains
      → share_target deps product cj ≤ big_hsh
      → c.share_window.head < length c.share_window.samples
      → (checked : Checked) × (w : Window) × (submit deps product now s c
          ≡ ok (credited deps product now c cj s checked w, true))
        × (w.head < length w.samples)
  unfolding submit credit
  submit-credits now big_hsh c cj s known new hash free reached room =
      let (checked, made, valid, _, _) =
        check_solves-main deps cj.job s.nonce (combined deps product c s)
          (some (share_target deps product cj)) big_hsh hash free in
      let high : leb (share_target deps product cj) big_hsh ≡ true = ground arith in
      let (w, added, more) = Window.add-room now cj.difficulty c.share_window room in
      (checked, w, rw (known, new, made, valid, high, added, submit) refl, more)

  -- For a known job none of whose merged-mined chains has the main chain's code, with a window that has
  -- a slot at its head: a submission under a new key, whose header can be hashed and reaches the share
  -- target, is credited, and credited again when the miner sends it with another time that makes
  -- another key, also new.
  pub submit-other_time :
      (now later big_hsh : ℕ) (c : Client) (cj : ClientJob) (s : MiningSubmit) (time : Bytes)
      → lookup s.job_id c.job_book ≡ some cj
      → lookup (get_key s) cj.submission_map ≡ none
      → lookup (get_key (record s { time = time })) cj.submission_map ≡ none
      → (get_key s == get_key (record s { time = time })) ≡ false
      → HashesTo deps cj.job s.nonce (combined deps product c s) big_hsh
      → IsFree cj.job.main.currency_config.code cj.job.aux_chains
      → share_target deps product cj ≤ big_hsh
      → c.share_window.head < length c.share_window.samples
      → (c₁ : Client) × (c₂ : Client) × (submit deps product now s c ≡ ok (c₁, true))
        × (submit deps product later (record s { time = time }) c₁ ≡ ok (c₂, true))
        × (length c₂.shares ≡ length c.shares + 2)
  submit-other_time now later big_hsh c cj s time known new new' apart hash free reached room =
      let (checked, w, first, more) =
        submit-credits now big_hsh c cj s known new hash free reached room in
      let c₁ = credited deps product now c cj s checked w in
      let cj' : ClientJob = record cj {
        submission_map = insert (get_key s) true cj.submission_map;
      } in
      let s' : MiningSubmit = record s { time = time } in
      let known' : lookup s.job_id c₁.job_book ≡ some cj' =
        lookup-insert_self s.job_id cj' c.job_book in
      let fresh : lookup (get_key s') cj'.submission_map ≡ none =
        lookup-insert (get_key s) (get_key s') true cj.submission_map
        ∙ unless (get_key s == get_key s') _ apart new' in
      let (checked', w', second, _) =
        submit-credits later big_hsh c₁ cj' s' known' fresh hash free reached more in
      (
        c₁,
        credited deps product later c₁ cj' s' checked' w',
        first,
        second,
        omega (arith, length-append c.shares (_ ∷ []), length-append c₁.shares (_ ∷ [])),
      )
    where
      unless :
          (b : Bool) (o : Option Bool) → b ≡ false → o ≡ none → (if b then some true else o) ≡ none
      unless b o p q = ground arith
