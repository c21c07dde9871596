-- ===== src/Client/Write.antt =====
-- cmd/ngstratum/client.go: the rounds of writeLoop.
pub mod Submit
pub mod Replay
use ngpool.Prelude.{
  ℕ, ◌+◌, ◌*◌, ◌/◌, ◌≡◌, Bool, true, false, String, Option, none, some, List, [], ◌∷◌, ◌++◌,
  if◌then◌else◌,
}
use ngpool.Prelude.Map.{Map, lookup, insert, bytes_eq}
use ngpool.Prelude.Run.{Run, ok, err, panic, out_of_fuel, ◌>>=◌}
use ngpool.Bytes.{Bytes}
use ngpool.Window
use ngpool.Vardiff.{Tuner}
use ngpool.Template.{Deps}
use ngpool.Job.{Job, Checked, check_solves, stratum_params, stratum2_blob}
use ngpool.Client.Messages.{
  Reply, error, accepted, notify, login_job, next_job, MiningSubmit, get_key, stratum_error_other,
  stratum_error_stale, stratum_error_duplicate, stratum_error_low_diff,
}
use ngpool.Client.{Client, ClientJob, Share, stop, send, extranonce1, update_diff}

-- What a channel of interface values can hold for the write loop.
pub data Cast : Type 0 where
  nil other : Cast
  job : Job → Cast

pub data WriteEvent : Type 0 where
  shutdown : WriteEvent
  -- A reply was written to the connection, with or without a fault.
  wrote : Bool → WriteEvent
  -- The timer, with the rate per minute at this time.
  tick : ℕ → WriteEvent
  -- A submission or nil, with the time.
  submitted : ℕ → Option MiningSubmit → WriteEvent
  -- A broadcast, with a fresh random string.
  broadcast : Bytes → Cast → WriteEvent

-- A loop goes on, or returns and so stops the client.
abbrev pub next : Client → Run (Client × Bool)
next c = ok (c, true)

abbrev pub leave : Client → Run (Client × Bool)
leave c = ok (stop c, false)

module _ (deps : Deps) (product : ℕ → ℕ → ℕ) where
  -- `product` is the whole part of the big.Float product of a ShareDiff1 and a difficulty, which Go
  -- rounds.
  abbrev pub share_target : ClientJob → ℕ
  share_target cj = product cj.job.algo.share_diff1 cj.difficulty

  abbrev pub combined : Client → MiningSubmit → Bytes
  combined c s = extranonce1 c ++ s.extranonce2

  -- The accepted reply, the recorded key, the share and the window's new sample.
  abbrev pub credited : ℕ → Client → ClientJob → MiningSubmit → Checked → Window.Window → Client
  credited now c cj s checked w = record (send (accepted s.id) c) {
    job_book =
        insert s.job_id (record cj { submission_map = insert (get_key s) true cj.submission_map })
          c.job_book;
    shares =
        c.shares
        ++ record {
          username = c.username;
          worker = c.worker;
          time = now;
          difficulty = cj.difficulty;
          currencies = checked.currencies;
          blocks = checked.solves;
        }
          ∷ [];
    share_window = w;
  }

  -- What follows a check that returned.
  unfoldable pub credit : ℕ → Client → ClientJob → MiningSubmit → Checked → Run (Client × Bool)
  credit now c cj s checked =
      if checked.valid_share
      then (Window.add now cj.difficulty c.share_window >>= λ w.
          next (credited now c cj s checked w))
      else next (send (error s.id stratum_error_low_diff) c)

  check : ℕ → Client → ClientJob → MiningSubmit → Run Checked → Run (Client × Bool)
  unfolding credit
  check now c cj s (ok checked) = credit now c cj s checked
  check now c cj s (err e) = next (send (error s.id stratum_error_other) c)
  check now c cj s panic = panic
  check now c cj s out_of_fuel = out_of_fuel

  unfoldable pub submit : ℕ → MiningSubmit → Client → Run (Client × Bool)
  unfolding check
  submit now s c = elim (lookup s.job_id c.job_book) [
    | none ↦ next (send (error s.id stratum_error_stale) c)
    | some cj ↦ elim (lookup (get_key s) cj.submission_map) [
      | some b ↦ next (send (error s.id stratum_error_duplicate) c)
      | none ↦
          check now c cj s
            (check_solves deps cj.job s.nonce (combined c s) (some (share_target cj)))
    ]
  ]

  abbrev client_job : Job → Bytes → ℕ → ClientJob
  client_job j jid diff = record { job = j; id = jid; difficulty = diff; submission_map = [] }

  -- GetTargetHex is `target_hex`, a function of the difficulty.
  unfoldable pub push_job : (ℕ → Bytes) → Bytes → Job → Client → Run (Client × Bool)
  push_job target_hex jid j c =
      let c' = record c { job_book = insert jid (client_job j jid c.diff) c.job_book } in
      if c.rpc_version2
      then (stratum2_blob deps j.main (extranonce1 c) >>= λ blob. next (
          if c.subscribed
          then send (next_job blob c.diff jid) c'
          else send (login_job c.login_msg_id c.id blob c.diff jid)
              (record c' { subscribed = true })))
      else next (send (notify jid (stratum_params j.main)) c')

  unfoldable pub write_step : (ℕ → Bytes) → Tuner → WriteEvent → Client → Run (Client × Bool)
  unfolding submit push_job stop
  write_step target_hex tuner shutdown c = leave c
  write_step target_hex tuner (wrote true) c = next c
  write_step target_hex tuner (wrote false) c = leave c
  -- The loop ignores what updateDiff returns, and goes on.
  write_step target_hex tuner (tick rate) c = update_diff tuner rate c >>= next
  write_step target_hex tuner (submitted now none) c = leave c
  write_step target_hex tuner (submitted now (some s)) c = submit now s c
  write_step target_hex tuner (broadcast jid nil) c = leave c
  write_step target_hex tuner (broadcast jid other) c = next c
  write_step target_hex tuner (broadcast jid (job j)) c = push_job target_hex jid j c

  -- The loop over the events in the order in which its select takes them.
  unfoldable pub write_loop : (ℕ → Bytes) → Tuner → List WriteEvent → Client → Run (Client × Bool)
  unfolding write_step
  write_loop target_hex tuner [] c = next c
  write_loop target_hex tuner (e ∷ es) c = write_step target_hex tuner e c >>= λ r.
      let rest = write_loop target_hex tuner es r.0 in if r.1 then rest else ok r
