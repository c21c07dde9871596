-- ===== src/Broadcast/Order.antt =====
-- pkg/lbroadcast/last.go: what a listener receives, and in which order.
use ngpool.Prelude.{
  ℕ, suc, ◌≡◌, refl, sym, ap, ◌∙◌, true, false, Option, some, List, [], ◌∷◌, ◌++◌, map,
  if◌then◌else◌, ◌==◌, Bool-cases, inl, inr, All, arith,
}
use mathlib.Core.List.{append_assoc, append-nil}
use ngpool.Broadcast.{
  Request, submit, register, unregister, close, Broadcaster, has_output, add_output, remove_output,
  run,
}

-- How often a channel is among the outputs.
abbrev copies : ℕ → List ℕ → ℕ
copies ch [] = 0
copies ch (o ∷ outputs) = if o == ch then suc (copies ch outputs) else copies ch outputs

copies-none : (ch : ℕ) (outputs : List ℕ) → has_output ch outputs ≡ false → copies ch outputs ≡ 0
copies-none ch [] h = refl
copies-none ch (o ∷ outputs) h = ground (arith, copies-none ch outputs)

copies-add_output_other :
    (ch new : ℕ) (outputs : List ℕ)
    → (new == ch) ≡ false
    → copies ch (add_output new outputs) ≡ copies ch outputs
copies-add_output_other ch new outputs h = ground arith

copies-remove_output :
    (ch old : ℕ) (outputs : List ℕ)
    → (old == ch) ≡ false
    → copies ch (remove_output old outputs) ≡ copies ch outputs
copies-remove_output ch old [] h = refl
copies-remove_output ch old (o ∷ outputs) h = ground (arith, copies-remove_output ch old outputs h)

module _ {ℓ} {A : Type ℓ} where
  -- What was sent to a channel.
  abbrev pub received : ℕ → List (ℕ × Option A) → List (Option A)
  received ch [] = []
  received ch (s ∷ log) = if s.0 == ch then s.1 ∷ received ch log else received ch log

  -- The items of the requests.
  abbrev pub submitted : List (Request A) → List (Option A)
  submitted [] = []
  submitted (submit item ∷ requests) = some item ∷ submitted requests
  submitted (register ch ∷ requests) = submitted requests
  submitted (unregister ch ∷ requests) = submitted requests
  submitted (close ∷ requests) = submitted requests

  -- A request that neither is about the channel nor closes the broadcaster.
  abbrev pub IsOther : ℕ → Request A → Type 0
  IsOther ch (submit item) = Unit
  IsOther ch (register new) = (new == ch) ≡ false
  IsOther ch (unregister old) = (old == ch) ≡ false
  IsOther ch close = ⊥

  received-append :
      (ch : ℕ) (log more : List (ℕ × Option A))
      → received ch (log ++ more) ≡ received ch log ++ received ch more
  received-append ch [] more = refl
  received-append ch (s ∷ log) more = elim (Bool-cases (s.0 == ch)) [
    | inl mine ↦ rw mine (ap (λ r. s.1 ∷ r) (received-append ch log more))
    | inr others ↦ rw others (received-append ch log more)
  ]

  received-none :
      (ch : ℕ) (item : Option A) (outputs : List ℕ)
      → copies ch outputs ≡ 0
      → received ch (map (λ (o : ℕ). (o, item)) outputs) ≡ []
  received-none ch item [] h = refl
  received-none ch item (o ∷ outputs) h = elim (Bool-cases (o == ch)) [
    | inl mine ↦ ground (arith, mine, h)
    | inr others ↦ rw others (received-none ch item outputs (ground (arith, others, h)))
  ]

  received-one :
      (ch : ℕ) (item : Option A) (outputs : List ℕ)
      → copies ch outputs ≡ 1
      → received ch (map (λ (o : ℕ). (o, item)) outputs) ≡ item ∷ []
  received-one ch item [] h = ground arith
  received-one ch item (o ∷ outputs) h = elim (Bool-cases (o == ch)) [
    | inl mine ↦
        rw mine (ap (λ r. item ∷ r) (received-none ch item outputs (ground (arith, mine, h))))
    | inr others ↦ rw others (received-one ch item outputs (ground (arith, others, h)))
  ]

  run-received :
      (ch : ℕ) (requests : List (Request A)) (b : Broadcaster A)
      → copies ch b.outputs ≡ 1
      → All (IsOther ch) requests
      → received ch (run requests b).log ≡ received ch b.log ++ submitted requests
  unfolding run
  run-received ch [] b one h = sym (append-nil (received ch b.log))
  run-received ch (submit item ∷ requests) b one h =
      let sent = map (λ (o : ℕ). (o, some item)) b.outputs in
      run-received ch requests (record b { last_send = some item; log = b.log ++ sent }) one h.1
      ∙ ap (λ r. r ++ submitted requests)
          (received-append ch b.log sent
            ∙ ap (λ r. received ch b.log ++ r) (received-one ch (some item) b.outputs one))
      ∙ append_assoc (received ch b.log) (some item ∷ []) (submitted requests)
  run-received ch (register new ∷ requests) b one h =
      let sent = (new, b.last_send) ∷ [] in
      let nothing : received ch sent ≡ [] = rw h.0 refl in
      run-received ch requests
        (record b { outputs = add_output new b.outputs; log = b.log ++ sent })
        (copies-add_output_other ch new b.outputs h.0 ∙ one) h.1
      ∙ ap (λ r. r ++ submitted requests)
          (received-append ch b.log sent
            ∙ ap (λ r. received ch b.log ++ r) nothing
            ∙ append-nil (received ch b.log))
  run-received ch (unregister old ∷ requests) b one h =
      run-received ch requests (record b { outputs = remove_output old b.outputs })
        (copies-remove_output ch old b.outputs h.0 ∙ one) h.1
  run-received ch (close ∷ requests) b one h = elim h.0 [ ]

  -- A channel that was not an output receives, from its registration on and as long as no request
  -- unregisters or registers it again or closes the broadcaster, the last item that was sent before,
  -- nil if there was none, and then every submitted item once and in order.
  pub run-register :
      (ch : ℕ) (requests : List (Request A)) (b : Broadcaster A)
      → has_output ch b.outputs ≡ false
      → All (IsOther ch) requests
      → received ch (run (register ch ∷ requests) b).log
        ≡ received ch b.log ++ (b.last_send ∷ submitted requests)
  unfolding run
  run-register ch requests b new h =
      let sent : List (ℕ × Option A) = (ch, b.last_send) ∷ [] in
      let self : (ch == ch) ≡ true = ground arith in
      let mine : received ch sent ≡ b.last_send ∷ [] = rw self refl in
      let one : copies ch (add_output ch b.outputs) ≡ 1 =
        rw (new, self) (ap suc (copies-none ch b.outputs new)) in
      run-received ch requests (record b { outputs = add_output ch b.outputs; log = b.log ++ sent })
        one h
      ∙ ap (λ r. r ++ submitted requests)
          (received-append ch b.log sent ∙ ap (λ r. received ch b.log ++ r) mine)
      ∙ append_assoc (received ch b.log) (b.last_send ∷ []) (submitted requests)
