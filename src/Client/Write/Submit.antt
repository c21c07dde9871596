-- ===== src/Client/Write/Submit.antt =====
-- cmd/ngstratum/client.go: a share that was credited is a duplicate from then on.
use ngpool.Prelude.{
  ℕ, suc, ◌≡◌, ◌≢◌, ◌⊎◌, refl, sym, ◌∙◌, ap, Bool, true, false, Option, none, some, List, [], ◌∷◌,
  if◌then◌else◌, length, length-append, arith, Bool-cases, Option-cases, All, inl, inr,
}
use mathlib.Core.Path.{subst}
use ngpool.Prelude.Map.{
  lookup, insert, lookup-insert, lookup-insert_self, ◌==◌, bytes_eq, bytes_beq_iff,
}
use ngpool.Prelude.Run.{Run, ok, err, panic, out_of_fuel, >>=-eq-ok}
use ngpool.Bytes.{Bytes}
use ngpool.Window
use ngpool.Vardiff.{Tuner, compute_new}
use ngpool.Template.{Deps}
use ngpool.Job.{Job, Checked}
use ngpool.Client.Messages.{error, MiningSubmit, get_key, stratum_error_duplicate}
use ngpool.Client.{Client, ClientJob, send, update_diff}
use ngpool.Client.Write.{
  nil, other, job, WriteEvent, shutdown, wrote, tick, submitted, broadcast, credit, check, submit,
  push_job, write_step, write_loop,
}

-- The client's job of that id has the key among its submissions.
abbrev IsRecorded : Bytes → Bytes → Client → Type 0
IsRecorded jid key c =
    (cj : ClientJob) × (lookup jid c.job_book ≡ some cj)
    × (lookup key cj.submission_map ≡ some true)

-- A broadcast under another id than `jid`, or no broadcast.
abbrev Spares : Bytes → WriteEvent → Type 0
Spares jid (broadcast new cast) = (new == jid) ≡ false
Spares jid _ = Unit

insert-IsRecorded :
    (jid key new : Bytes) (cj : ClientJob) (c : Client)
    → (new == jid) ≡ false
    → IsRecorded jid key c
    → IsRecorded jid key (record c { job_book = insert new cj c.job_book })
insert-IsRecorded jid key new cj c h (old, p, q) =
    (old, rw (lookup-insert new jid cj c.job_book, h) p, q)

-- One more key among a job's submissions.
abbrev submit_key : Bytes → ClientJob → ClientJob
submit_key key cj = record cj { submission_map = insert key true cj.submission_map }

key-IsRecorded :
    (jid key new own : Bytes) (cj : ClientJob) (c : Client)
    → lookup own c.job_book ≡ some cj
    → IsRecorded jid key c
    → IsRecorded jid key (record c { job_book = insert own (submit_key new cj) c.job_book })
key-IsRecorded jid key new own cj c found (old, p, q) = elim (Bool-cases (own == jid)) [
  | inr apart ↦ insert-IsRecorded jid key own (submit_key new cj) c apart (old, p, q)
  | inl same ↦
      let eq : own ≡ jid = (bytes_beq_iff own jid).0 same in
      let one : cj ≡ old = some_eq (sym found ∙ ap (λ k. lookup k c.job_book) eq ∙ p) in
      (
        submit_key new cj,
        rw (lookup-insert own jid (submit_key new cj) c.job_book, same),
        rw (lookup-insert new key true cj.submission_map, one)
            (kept (new == key) (lookup key old.submission_map) q),
      )
]
  where
    some_eq : some cj ≡ some old → cj ≡ old
    some_eq e = cc

    kept : (b : Bool) (o : Option Bool) → o ≡ some true → (if b then some true else o) ≡ some true
    kept b o e = ground arith

left :
    (r : Client × Bool) (b : Client)
    → r.1 ≡ false
    → ◌≢◌ {A = Run (Client × Bool)} (ok r) (ok (b, true))
left r b h e = ground arith

module _ (deps : Deps) (product : ℕ → ℕ → ℕ) where
  -- How an accepted submission changed the state.
  credit_cases :
      (now : ℕ) (c c' : Client) (cj : ClientJob) (s : MiningSubmit) (checked : Checked) (go : Bool)
      → credit deps product now c cj s checked ≡ ok (c', go)
      → ((checked.valid_share ≡ false) × (c'.job_book ≡ c.job_book) × (c'.shares ≡ c.shares))
        ⊎ ((checked.valid_share ≡ true)
            × (c'.job_book ≡ insert s.job_id (submit_key (get_key s) cj) c.job_book)
            × (length c'.shares ≡ suc (length c.shares))
            × (c'.id ≡ c.id))
  unfolding credit
  credit_cases now c c' cj s checked go e = elim (Bool-cases checked.valid_share) [
    | inr bad ↦ inl (bad, ground arith, ground arith)
    | inl good ↦
        let (w, p, q) = >>=-eq-ok (Window.add now cj.difficulty c.share_window) _ (rw good at e) in
        let made = pair_eq q in
        inr (
          good,
          rw (sym made) refl,
          rw (sym made) (omega (arith, length-append c.shares (_ ∷ []))),
          rw (sym made) refl,
        )
  ]
    where
      pair_eq :
          {a b : Client} {x y : Bool}
          → ◌≡◌ {A = Run (Client × Bool)} (ok (a, x)) (ok (b, y))
          → a ≡ b
      pair_eq h = ground arith

  check-IsRecorded :
      (now : ℕ) (c c' : Client) (cj : ClientJob) (s : MiningSubmit) (r : Run Checked) (go : Bool)
      (jid key : Bytes)
      → lookup s.job_id c.job_book ≡ some cj
      → check deps product now c cj s r ≡ ok (c', go)
      → IsRecorded jid key c
      → IsRecorded jid key c'
  unfolding check
  check-IsRecorded now c c' cj s (ok checked) go jid key found e h =
      elim (credit_cases now c c' cj s checked go e) [
        | inl (_, same, _) ↦ rw same h
        | inr (_, grown, _, _) ↦ rw grown (key-IsRecorded jid key (get_key s) s.job_id cj c found h)
      ]
  check-IsRecorded now c c' cj s (err m) go jid key found e h =
      let same : c'.job_book ≡ c.job_book = ground arith in rw same h
  check-IsRecorded now c c' cj s panic go jid key found e h = cc
  check-IsRecorded now c c' cj s out_of_fuel go jid key found e h = cc

  submit-IsRecorded :
      (now : ℕ) (c c' : Client) (s : MiningSubmit) (go : Bool) (jid key : Bytes)
      → submit deps product now s c ≡ ok (c', go)
      → IsRecorded jid key c
      → IsRecorded jid key c'
  unfolding submit
  submit-IsRecorded now c c' s go jid key e h = elim (Option-cases (lookup s.job_id c.job_book)) [
    | inl stale ↦ let same : c'.job_book ≡ c.job_book = ground arith in rw same h
    | inr (cj, found) ↦ elim (Option-cases (lookup (get_key s) cj.submission_map)) [
      | inr (b, twice) ↦ let same : c'.job_book ≡ c.job_book = ground arith in rw same h
      | inl new ↦ check-IsRecorded now c c' cj s _ go jid key found (rw (found, new, submit) at e) h
    ]
  ]

  push_job-IsRecorded :
      (target_hex : ℕ → Bytes) (new : Bytes) (j : Job) (c c' : Client) (go : Bool) (jid key : Bytes)
      → (new == jid) ≡ false
      → push_job deps product target_hex new j c ≡ ok (c', go)
      → IsRecorded jid key c
      → IsRecorded jid key c'
  unfolding push_job
  push_job-IsRecorded target_hex new j c c' go jid key h e r =
      let cj : ClientJob = record { job = j; id = new; difficulty = c.diff; submission_map = [] } in
      let same : c'.job_book ≡ insert new cj c.job_book = ground arith in
      rw same (insert-IsRecorded jid key new cj c h r)

  update_diff-job_book :
      (tuner : Tuner) (rate : ℕ) (c c' : Client)
      → update_diff tuner rate c ≡ ok c'
      → c'.job_book ≡ c.job_book
  unfolding update_diff
  update_diff-job_book tuner rate c c' e =
      let (d, p, q) = >>=-eq-ok (compute_new tuner rate) _ e in ground arith

  write_step-IsRecorded :
      (target_hex : ℕ → Bytes) (tuner : Tuner) (ev : WriteEvent) (c c' : Client) (jid key : Bytes)
      → Spares jid ev
      → write_step deps product target_hex tuner ev c ≡ ok (c', true)
      → IsRecorded jid key c
      → IsRecorded jid key c'
  unfolding write_step
  write_step-IsRecorded target_hex tuner shutdown c c' jid key h e r = cc
  write_step-IsRecorded target_hex tuner (wrote true) c c' jid key h e r =
      let same : c ≡ c' = ground arith in rw (← same) r
  write_step-IsRecorded target_hex tuner (wrote false) c c' jid key h e r = cc
  write_step-IsRecorded target_hex tuner (tick rate) c c' jid key h e r =
      let (d, p, q) = >>=-eq-ok (update_diff tuner rate c) _ e in
      let same : d ≡ c' = ground arith in
      let book = update_diff-job_book tuner rate c d p in rw (← same, book) r
  write_step-IsRecorded target_hex tuner (submitted now none) c c' jid key h e r = cc
  write_step-IsRecorded target_hex tuner (submitted now (some s)) c c' jid key h e r =
      submit-IsRecorded now c c' s true jid key e r
  write_step-IsRecorded target_hex tuner (broadcast new nil) c c' jid key h e r = cc
  write_step-IsRecorded target_hex tuner (broadcast new other) c c' jid key h e r =
      let same : c ≡ c' = ground arith in rw (← same) r
  write_step-IsRecorded target_hex tuner (broadcast new (job j)) c c' jid key h e r =
      push_job-IsRecorded target_hex new j c c' true jid key h e r

  write_loop-IsRecorded :
      (target_hex : ℕ → Bytes) (tuner : Tuner) (evs : List WriteEvent) (c c' : Client)
      (jid key : Bytes)
      → All (Spares jid) evs
      → write_loop deps product target_hex tuner evs c ≡ ok (c', true)
      → IsRecorded jid key c
      → IsRecorded jid key c'
  unfolding write_loop
  write_loop-IsRecorded target_hex tuner [] c c' jid key h e r =
      let same : c ≡ c' = ground arith in rw (← same) r
  write_loop-IsRecorded target_hex tuner (ev ∷ evs) c c' jid key h e r =
      let ((mid, go), p, q) = >>=-eq-ok (write_step deps product target_hex tuner ev c) _ e in
      elim (Bool-cases go) [
        | inr quit ↦ absurd (left (mid, go) c' quit (rw quit at q))
        | inl on ↦ write_loop-IsRecorded target_hex tuner evs mid c' jid key h.1 (rw on at q) (
            write_step-IsRecorded target_hex tuner ev c mid jid key h.0
              (p ∙ ap {B = Run (Client × Bool)} (λ b. ok (mid, b)) on) r)
      ]

  check-credited :
      (now : ℕ) (c c' : Client) (cj : ClientJob) (s : MiningSubmit) (r : Run Checked) (go : Bool)
      → check deps product now c cj s r ≡ ok (c', go)
      → length c'.shares ≡ suc (length c.shares)
      → IsRecorded s.job_id (get_key s) c'
  unfolding check
  check-credited now c c' cj s (ok checked) go e grown =
      elim (credit_cases now c c' cj s checked go e) [
        | inl (_, _, same) ↦ absurd (omega (arith, ap length same))
        | inr (_, book, _, _) ↦ (
          submit_key (get_key s) cj,
          rw book (lookup-insert_self s.job_id (submit_key (get_key s) cj) c.job_book),
          lookup-insert_self (get_key s) true cj.submission_map,
        )
      ]
  check-credited now c c' cj s (err m) go e grown = absurd (ground arith)
  check-credited now c c' cj s panic go e grown = cc
  check-credited now c c' cj s out_of_fuel go e grown = cc

  -- A credited submission is recorded.
  submit-credited :
      (now : ℕ) (c c' : Client) (s : MiningSubmit) (go : Bool)
      → submit deps product now s c ≡ ok (c', go)
      → length c'.shares ≡ suc (length c.shares)
      → IsRecorded s.job_id (get_key s) c'
  unfolding submit
  submit-credited now c c' s go e grown = elim (Option-cases (lookup s.job_id c.job_book)) [
    | inl stale ↦ absurd (ground arith)
    | inr (cj, found) ↦ elim (Option-cases (lookup (get_key s) cj.submission_map)) [
      | inr (b, twice) ↦ absurd (ground arith)
      | inl new ↦ check-credited now c c' cj s _ go (rw (found, new, submit) at e) grown
    ]
  ]

  -- What is recorded is answered as a duplicate, and credits nothing.
  submit-recorded :
      (now : ℕ) (c : Client) (s : MiningSubmit)
      → IsRecorded s.job_id (get_key s) c
      → submit deps product now s c ≡ ok (send (error s.id stratum_error_duplicate) c, true)
  unfolding submit
  submit-recorded now c s (cj, p, q) = rw (p, q, submit) refl

  -- A submission that was credited is answered as a duplicate, with nothing credited, whenever the
  -- write loop takes it again for the same job and key, whatever it did in between, as long as no
  -- job was broadcast under the submission's job id.
  pub submit-once :
      (target_hex : ℕ → Bytes) (tuner : Tuner) (now later : ℕ) (evs : List WriteEvent)
      (c c₁ c₂ : Client) (s s' : MiningSubmit) (go : Bool)
      → submit deps product now s c ≡ ok (c₁, go)
      → length c₁.shares ≡ suc (length c.shares)
      → write_loop deps product target_hex tuner evs c₁ ≡ ok (c₂, true)
      → All (Spares s.job_id) evs
      → s'.job_id ≡ s.job_id
      → get_key s' ≡ get_key s
      → submit deps product later s' c₂ ≡ ok (send (error s'.id stratum_error_duplicate) c₂, true)
  submit-once target_hex tuner now later evs c c₁ c₂ s s' go e grown run spares jid key =
      submit-recorded later c₂ s' (
        subst (λ k. IsRecorded s'.job_id k c₂) (sym key)
          (subst (λ i. IsRecorded i (get_key s) c₂) (sym jid)
            (write_loop-IsRecorded target_hex tuner evs c₁ c₂ s.job_id (get_key s) spares run
              (submit-credited now c c₁ s go e grown))))
