-- ===== src/Client/Read/Order.antt =====
-- cmd/ngstratum/client.go, readLoop: what a client can do before it has subscribed.
use ngpool.Prelude.{
  ◌≡◌, refl, sym, ◌∙◌, Bool, true, false, none, some, List, [], ◌∷◌, if◌then◌else◌, Bool-cases,
  Option-cases, inl, inr, All,
}
use text.Mathlib.Text.{◌==◌ as str_eq}
use mathlib.Core.Path.{subst}
use ngpool.Prelude.Run.{Run, ok, >>=-eq-ok, ok-injective}
use ngpool.Prelude.Int.{ℤ}
use ngpool.Vardiff.{Tuner}
use ngpool.Client.Messages.{error, StratumMessage, stratum_error_other, stratum_error_not_subbed}
use ngpool.Client.{Client, stop, send}
use ngpool.Client.Write.{next, leave}
use ngpool.Client.Read.{
  Line, eof, failed, garbage, message, Moment, Decoders, refuse, mining_authorize, mining_submit,
  dispatch, read_step, read_loop,
}

-- Not subscribed, nothing submitted, and not registered for jobs.
abbrev pub IsOutside : Client → Type 0
IsOutside c = (c.subscribed ≡ false) × (c.submits ≡ []) × (c.registered ≡ false)

-- No line with one of the methods that do not ask for a subscription first.
abbrev IsGated : Line → Type 0
IsGated (message msg) =
    (str_eq msg.method "mining.subscribe" ≡ false)
    × (str_eq msg.method "submit" ≡ false)
    × (str_eq msg.method "login" ≡ false)
IsGated _ = Unit

stop-IsOutside : (c : Client) → IsOutside c → IsOutside (stop c)
unfolding stop
stop-IsOutside c (s, n, r) = elim (Bool-cases c.has_shutdown) [
  | inl down ↦ rw down (s, n, r)
  | inr up ↦ rw up (s, n, refl)
]

if-false {ℓ} : {A : Type ℓ} (b : Bool) (x y : A) → b ≡ false → (if b then x else y) ≡ y
if-false true x y h = cc
if-false false x y h = refl

result-IsOutside :
    (c c' : Client) (on go : Bool)
    → ◌≡◌ {A = Run (Client × Bool)} (ok (c, on)) (ok (c', go))
    → IsOutside c
    → IsOutside c'
result-IsOutside c c' on go e o = subst (λ (r : Client × Bool). IsOutside r.0) (ok-injective e) o

leave_if-IsOutside :
    (b : Bool) (c c' : Client) (go : Bool)
    → (if b then leave c else next c) ≡ ok (c', go)
    → IsOutside c
    → IsOutside c'
leave_if-IsOutside true c c' go e o = result-IsOutside (stop c) c' false go e (stop-IsOutside c o)
leave_if-IsOutside false c c' go e o = result-IsOutside c c' true go e o

module _ (decoders : Decoders) (tuner : Tuner) where
  dispatch-IsOutside :
      (m : Moment) (id : ℤ) (msg : StratumMessage) (c c' : Client) (go : Bool)
      → IsGated (message msg)
      → dispatch decoders tuner m id msg.method msg.params c ≡ ok (c', go)
      → IsOutside c
      → IsOutside c'
  unfolding dispatch mining_authorize mining_submit send
  dispatch-IsOutside m id msg c c' go (no_sub, no_submit, no_login) e (s, n, r) =
      elim (Bool-cases (str_eq msg.method "mining.authorize")) [
        | inl hit ↦
            let gate = if-false c.subscribed _ (refuse (some id) stratum_error_not_subbed c) s in
            result-IsOutside _ c' true go (sym gate ∙ (rw (no_sub, hit) at e)) (s, n, r)
        | inr other ↦ elim (Bool-cases (str_eq msg.method "mining.submit")) [
          | inl hit ↦
              let gate = if-false c.subscribed _ (refuse (some id) stratum_error_not_subbed c) s in
              result-IsOutside _ c' true go (sym gate ∙ (rw (no_sub, other, hit) at e)) (s, n, r)
          | inr other' ↦ elim (Bool-cases (str_eq msg.method "mining.extranonce.subscribe")) [
            | inl hit ↦
                leave_if-IsOutside c.has_shutdown (send (error (some id) stratum_error_other) c) c'
                  go (rw (no_sub, other, other', no_submit, no_login, hit) at e) (s, n, r)
            | inr last ↦
                leave_if-IsOutside c.has_shutdown c c' go
                  (rw (no_sub, other, other', no_submit, no_login, last) at e) (s, n, r)
          ]
        ]
      ]

  read_step-IsOutside :
      (m : Moment) (l : Line) (c c' : Client) (go : Bool)
      → IsGated l
      → read_step decoders tuner m l c ≡ ok (c', go)
      → IsOutside c
      → IsOutside c'
  unfolding read_step send
  read_step-IsOutside m eof c c' go g e o =
      result-IsOutside (stop c) c' false go e (stop-IsOutside c o)
  read_step-IsOutside m failed c c' go g e o =
      let told = send (error none stratum_error_other) c in
      result-IsOutside (stop told) c' false go e (stop-IsOutside told o)
  read_step-IsOutside m (garbage true) c c' go g e o = result-IsOutside c c' true go e o
  read_step-IsOutside m (garbage false) c c' go g e o = result-IsOutside _ c' true go e o
  read_step-IsOutside m (message msg) c c' go g e o = elim (Option-cases msg.id) [
    | inl missing ↦
        result-IsOutside (send (error none stratum_error_other) c) c' true go
          (rw (missing, read_step) at e) o
    | inr (id, found) ↦ dispatch-IsOutside m id msg c c' go g (rw (found, read_step) at e) o
  ]

  -- As long as a client sends only lines whose methods ask for a subscription first, and none that
  -- subscribes, the read loop hands no submission on and does not register the client for jobs.
  pub read_loop-IsOutside :
      (lines : List (Moment × Line)) (c c' : Client) (go : Bool)
      → All (λ (l : Moment × Line). IsGated l.1) lines
      → read_loop decoders tuner lines c ≡ ok (c', go)
      → IsOutside c
      → IsOutside c'
  unfolding read_loop
  read_loop-IsOutside [] c c' go g e o = result-IsOutside c c' true go e o
  read_loop-IsOutside ((m, l) ∷ lines) c c' go g e o =
      let ((c1, on), e1, e2) = >>=-eq-ok (read_step decoders tuner m l c) _ e in
      let o1 = read_step-IsOutside m l c c1 on g.0 e1 o in
      elim (Bool-cases on) [
        | inl on_yes ↦ read_loop-IsOutside lines c1 c' go g.1 (rw on_yes at e2) o1
        | inr on_no ↦ result-IsOutside c1 c' on go (rw on_no at e2) o1
      ]
