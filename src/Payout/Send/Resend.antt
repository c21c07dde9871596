-- ===== src/Payout/Send/Resend.antt =====
-- cmd/ngweb/updatepayouts.go: how often a payout is sent, and when it is confirmed.
use ngpool.Prelude.{
  ℕ, ◌+◌, ◌-◌, ◌*◌, ◌≤◌, ◌≡◌, ◌≢◌, refl, false, inl, inr, Option, none, some, Bool-cases, ltb,
  arith,
}
use ngpool.Prelude.Map.{bytes_eq}
use ngpool.Payout.Post.{PayoutTransaction}
use ngpool.Payout.Send.{
  TxInfo, failed, missing, confirmations, Wallet, keep, resend, abort, push, look_up, once_sent,
  turn,
}

push-fresh :
    (later now : ℕ) (w : Wallet) (t : PayoutTransaction)
    → later ≤ now + 24 * 3600 * 1000000000
    → t.sent ≡ some now
    → push later w t ≡ keep
push-fresh later now w t h e =
    let fresh : ltb (24 * 3600 * 1000000000) (later - now) ≡ false = ground arith in
    rw (e, fresh) refl

look_up-fresh :
    (later now : ℕ) (w : Wallet) (t : PayoutTransaction) (info : TxInfo)
    → later ≤ now + 24 * 3600 * 1000000000
    → t.sent ≡ some now
    → (look_up later w t info ≢ resend) × (look_up later w t info ≢ abort)
look_up-fresh later now w t failed h e = ((λ r. cc), (λ r. cc))
look_up-fresh later now w t missing h e = rw (push-fresh later now w t h e) ((λ r. cc), (λ r. cc))
look_up-fresh later now w t (confirmations n) h e =
    rw (push-fresh later now w t h e) (elim (Bool-cases (ltb 6 n)) [
      | inl deep ↦ rw deep ((λ r. cc), (λ r. cc))
      | inr shallow ↦ rw shallow (elim (Bool-cases (ltb 0 n)) [
        | inl mined ↦ rw mined ((λ r. cc), (λ r. cc))
        | inr unmined ↦ rw unmined ((λ r. cc), (λ r. cc))
      ])
    ])

once_sent-fresh :
    (later now : ℕ) (w : Wallet) (t : PayoutTransaction) (sent : Option ℕ)
    → later ≤ now + 24 * 3600 * 1000000000
    → t.sent ≡ some now
    → sent ≡ some now
    → (once_sent later w t sent ≢ resend) × (once_sent later w t sent ≢ abort)
once_sent-fresh later now w t none h e s = cc
once_sent-fresh later now w t (some _) h e s = look_up-fresh later now w t (w.get_tx_out t.hash) h e

-- A payout that was sent at `now` is not sent again, and cannot end a run as inconsistent, in the
-- 24 hours after, whatever the coin servers answer.
pub turn-fresh :
    (later now : ℕ) (wallet : Option Wallet) (t : PayoutTransaction)
    → later ≤ now + 24 * 3600 * 1000000000
    → t.sent ≡ some now
    → (turn later wallet t ≢ resend) × (turn later wallet t ≢ abort)
unfolding turn
turn-fresh later now none t h e = ((λ r. cc), (λ r. cc))
turn-fresh later now (some w) t h e = once_sent-fresh later now w t t.sent h e e
