-- ===== src/CoinBuddy/Updates.antt =====
-- cmd/ngcoinserver/coinbuddy.go, UpdateBlock: calls of it at the same time, each of which commits
-- its template under the lock and submits it later.
use ngpool.Prelude.{
  ℕ, ◌+◌, ◌≤◌, ◌<◌, ◌≡◌, refl, sym, ap, ◌∙◌, ltb, ◌==◌, Bool, true, false, ◌&&◌, ◌⊎◌, inl, inr,
  Option, none, some, List, [], ◌∷◌, ◌++◌, if◌then◌else◌, Bool-cases, arith, ltb→lt,
}
use mathlib.Core.Path.{subst}
use ngpool.Prelude.Map.{bytes_beq, bytes_beq_iff}
use ngpool.Prelude.Run.{ok, or_err, or_panic, >>=-eq-ok, ok-injective}
use ngpool.Bytes.{Bytes}
use ngpool.CoinBuddy.{
  Answer, result, rpc_error, other_error, Json, CoinBuddy, but_last, commit, update_block,
}

-- What is committed and not yet submitted, and what the broadcaster was given, the oldest first.
pub record System : Type 0 where
  pub buddy : CoinBuddy
  pub pending : List (ℕ × Bytes)
  pub submitted : List (ℕ × Bytes)

abbrev enlist : Option (ℕ × Bytes) → List (ℕ × Bytes) → List (ℕ × Bytes)
enlist none pending = pending
enlist (some entry) pending = entry ∷ pending

-- How many entries pass a test.
abbrev pub count : (ℕ × Bytes → Bool) → List (ℕ × Bytes) → ℕ
count test [] = 0
count test (x ∷ xs) = (if test x then 1 else 0) + count test xs

-- How many are of a height, and how many are one template.
abbrev of_height : ℕ → ℕ × Bytes → Bool
of_height h entry = entry.0 == h

abbrev pub is_template : ℕ → Bytes → ℕ × Bytes → Bool
is_template h raw entry = (entry.0 == h) && bytes_beq entry.1 raw

count-append :
    (test : ℕ × Bytes → Bool) (xs ys : List (ℕ × Bytes))
    → count test (xs ++ ys) ≡ count test xs + count test ys
count-append test [] ys = omega arith
count-append test (x ∷ xs) ys = omega (arith, count-append test xs ys)

-- An entry that moves is counted as before.
count-move :
    (test : ℕ × Bytes → Bool) (before after done : List (ℕ × Bytes)) (entry : ℕ × Bytes)
    → count test (before ++ after) + count test (done ++ entry ∷ [])
      ≡ count test (before ++ entry ∷ after) + count test done
count-move test before after done entry = omega (
  arith,
  count-append test before after,
  count-append test done (entry ∷ []),
  count-append test before (entry ∷ after),
)

-- How many of the templates on their way and of those submitted pass a test.
abbrev pub told : (ℕ × Bytes → Bool) → System → ℕ
told test s = count test s.pending + count test s.submitted

-- Each height is told of once at most, none above the last, and the last block's is.
abbrev pub IsCurrent : System → Type 0
IsCurrent s =
    ((h : ℕ) → told (of_height h) s ≤ 1)
    × ((h : ℕ) → s.buddy.last_block_height < h → told (of_height h) s ≡ 0)
    × ((raw : Bytes)
        → s.buddy.last_block ≡ some raw
        → 1 ≤ told (is_template s.buddy.last_block_height raw) s)

-- NewCoinBuddy, with the extras of its node.
abbrev pub start : Bytes → System
start extras = record {
  buddy = record { last_block = none; last_block_height = 0; template_extras = extras };
  pending = [];
  submitted = [];
}

module _ (json : Json) where
  infix 40 ◌⟶◌ ◌⟶*◌
  -- One call commits, or one that has committed submits.
  pub data ◌⟶◌ : System → System → Type 0 where
    update :
        {s : System} (answer : Answer) (c : CoinBuddy) (sent : Option (ℕ × Bytes))
        → update_block json answer s.buddy ≡ ok (c, sent)
        → s ⟶ record s { buddy = c; pending = enlist sent s.pending }
    submit :
        {s : System} (before after : List (ℕ × Bytes)) (entry : ℕ × Bytes)
        → s.pending ≡ before ++ entry ∷ after
        → s ⟶ record s { pending = before ++ after; submitted = s.submitted ++ entry ∷ [] }

  pub data ◌⟶*◌ : System → System → Type 0 where
    here : {s : System} → s ⟶* s
    more : {s t u : System} → s ⟶ t → t ⟶* u → s ⟶* u

  commit-cases :
      (height : ℕ) (raw : Bytes) (c c' : CoinBuddy) (sent : Option (ℕ × Bytes))
      → commit height raw c ≡ (c', sent)
      → ((c ≡ c') × (none ≡ sent))
        ⊎ ((c.last_block_height < height)
            × (record c { last_block = some raw; last_block_height = height } ≡ c')
            × (some (height, raw) ≡ sent))
  commit-cases height raw c c' sent e = elim (Bool-cases (ltb c.last_block_height height)) [
    | inl newer ↦
        let newer' = ltb→lt c.last_block_height height newer in
        let e' : ◌≡◌ {A = CoinBuddy × Option (ℕ × Bytes)}
            (record c { last_block = some raw; last_block_height = height }, some (height, raw))
            (c', sent) =
          rw newer at e in
        inr (
          newer',
          ap (λ (p : CoinBuddy × Option (ℕ × Bytes)). p.0) e',
          ap (λ (p : CoinBuddy × Option (ℕ × Bytes)). p.1) e',
        )
    | inr older ↦
        let e' : ◌≡◌ {A = CoinBuddy × Option (ℕ × Bytes)} (c, none) (c', sent) = rw older at e in
        inl (
          ap (λ (p : CoinBuddy × Option (ℕ × Bytes)). p.0) e',
          ap (λ (p : CoinBuddy × Option (ℕ × Bytes)). p.1) e',
        )
  ]

  -- A committed template is newer, and one that is not changes nothing.
  update_block-commit :
      (answer : Answer) (c c' : CoinBuddy) (sent : Option (ℕ × Bytes))
      → update_block json answer c ≡ ok (c', sent)
      → (height : ℕ) × (raw : Bytes) × (commit height raw c ≡ (c', sent))
  unfolding update_block
  update_block-commit other_error c c' sent e = cc
  update_block-commit (rpc_error code message) c c' sent e = cc
  update_block-commit (result raw) c c' sent e =
      let (height, _, e2) =
        >>=-eq-ok (or_err "Malformed template" (json.unmarshal_height raw)) _ e in
      let (front, _, e3) = >>=-eq-ok (or_panic (but_last raw)) _ e2 in
      (height, front ++ c.template_extras, ok-injective e3)

  newer-IsCurrent :
      (s : System) (height : ℕ) (raw : Bytes)
      → s.buddy.last_block_height < height
      → IsCurrent s
      → IsCurrent (record s {
        buddy = record s.buddy { last_block = some raw; last_block_height = height };
        pending = (height, raw) ∷ s.pending;
      })
  newer-IsCurrent s height raw newer (once, none_above, last) = (
    (λ h. elim (Bool-cases (height == h)) [
      | inl same ↦
          let same' : height ≡ h = ground (arith, same) in
          let none_yet : told (of_height h) s ≡ 0 =
            none_above h (subst (λ k. s.buddy.last_block_height < k) same' newer) in
          rw same (omega (arith, none_yet))
      | inr apart ↦ rw apart (omega (arith, once h))
    ]),
    (λ h above.
        let apart : (height == h) ≡ false = ground (arith, above) in
        let none_yet : told (of_height h) s ≡ 0 = none_above h (omega (arith, newer, above)) in
        rw apart (omega (arith, none_yet))),
    (λ raw' e.
        let same : raw ≡ raw' = cc in
        let found : bytes_beq raw raw' ≡ true = (bytes_beq_iff raw raw').1 same in
        let here : (height == height) ≡ true = ground arith in rw (here, found) (omega arith)),
  )

  step-IsCurrent : {s t : System} → s ⟶ t → IsCurrent s → IsCurrent t
  step-IsCurrent {s} (update answer c sent e) current =
      let (height, raw, e') = update_block-commit answer s.buddy c sent e in
      elim (commit-cases height raw s.buddy c sent e') [
        | inl (same, nothing) ↦
            subst (λ o. IsCurrent (record s { buddy = c; pending = enlist o s.pending })) nothing
              (subst (λ b. IsCurrent (record s { buddy = b })) same current)
        | inr (newer, same, something) ↦
            subst (λ o. IsCurrent (record s { buddy = c; pending = enlist o s.pending })) something
              (subst (λ b. IsCurrent (record s { buddy = b; pending = (height, raw) ∷ s.pending }))
                same (newer-IsCurrent s height raw newer current))
      ]
  step-IsCurrent {s} (submit before after entry e) (once, none_above, last) =
      let kept : (test : ℕ × Bytes → Bool)
          → told test s ≡ count test (before ++ after) + count test (s.submitted ++ entry ∷ []) =
        λ test. rw e (sym (count-move test before after s.submitted entry)) in
      (
        (λ h. omega (arith, once h, kept (of_height h))),
        (λ h above. sym (kept (of_height h)) ∙ none_above h above),
        (λ raw e'. omega (arith, last raw e', kept (is_template s.buddy.last_block_height raw))),
      )

  steps-IsCurrent : {s t : System} → s ⟶* t → IsCurrent s → IsCurrent t
  steps-IsCurrent here current = current
  steps-IsCurrent (more step steps) current = steps-IsCurrent steps (step-IsCurrent step current)

  start-IsCurrent : (extras : Bytes) → IsCurrent (start extras)
  start-IsCurrent extras = ((λ h. omega arith), (λ h above. refl), (λ raw e. cc))

  -- However calls of UpdateBlock commit and submit in between one another, no height is told of
  -- twice, none above the last one is, and the last block is submitted or still to be.
  pub update_block-IsCurrent : (extras : Bytes) (s : System) → start extras ⟶* s → IsCurrent s
  update_block-IsCurrent extras s steps = steps-IsCurrent steps (start-IsCurrent extras)

  drain :
      (pending : List (ℕ × Bytes)) (s : System)
      → s.pending ≡ pending
      → (t : System) × (s ⟶* t) × (t.buddy ≡ s.buddy) × (t.pending ≡ [])
  drain [] s e = (s, here, refl, e)
  drain (entry ∷ rest) s e =
      let next : System = record s { pending = rest; submitted = s.submitted ++ entry ∷ [] } in
      let (t, steps, same, none_left) = drain rest next refl in
      (t, more (submit [] rest entry e) steps, same, none_left)

  count-is_template :
      (h : ℕ) (raw : Bytes) (xs : List (ℕ × Bytes))
      → count (is_template h raw) xs ≤ count (of_height h) xs
  count-is_template h raw [] = omega arith
  count-is_template h raw (x ∷ xs) = let ih = count-is_template h raw xs in ground (arith, ih)

  -- From wherever calls of UpdateBlock have got to, those that have committed can all submit, and
  -- then the last block has been submitted, just once.
  pub update_block-drains :
      (extras raw : Bytes) (s : System)
      → start extras ⟶* s
      → s.buddy.last_block ≡ some raw
      → (t : System) × (s ⟶* t)
        × (t.buddy ≡ s.buddy)
        × (t.pending ≡ [])
        × (count (is_template s.buddy.last_block_height raw) t.submitted ≡ 1)
  update_block-drains extras raw s steps e =
      let (t, rest, same, none_left) = drain s.pending s refl in
      let (once, _, last) = steps-IsCurrent rest (update_block-IsCurrent extras s steps) in
      let height = s.buddy.last_block_height in
      let shown : 1 ≤ told (is_template height raw) t =
        subst (λ (b : CoinBuddy). 1 ≤ told (is_template b.last_block_height raw) t) same
          (last raw (ap (λ (b : CoinBuddy). b.last_block) same ∙ e)) in
      let none_of : (test : ℕ × Bytes → Bool) → count test t.pending ≡ 0 =
        λ test. ap (count test) none_left in
      (
        t,
        rest,
        same,
        none_left,
        omega (
          arith,
          shown,
          once height,
          none_of (is_template height raw),
          none_of (of_height height),
          count-is_template height raw t.submitted,
        ),
      )
