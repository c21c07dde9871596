-- ===== src/Client/Read.antt =====
-- cmd/ngstratum/client.go: the rounds of readLoop.
pub mod Order
use ngpool.Prelude.{
  ℕ, Bool, true, false, String, Option, none, some, List, [], ◌∷◌, ◌++◌, if◌then◌else◌,
}
use text.Mathlib.Text.{◌==◌ as str_eq}
use ngpool.Prelude.Int.{ℤ}
use ngpool.Prelude.Run.{Run, ok, panic, ◌>>=◌}
use ngpool.Bytes.{Bytes, hex_decode}
use ngpool.Vardiff.{Tuner}
use ngpool.Client.Messages.{
  error, accepted, subscription, Params, StratumMessage, decode_mining_subscribe,
  decode_mining_authorize, decode_mining_submit, stratum_error_other, stratum_error_not_subbed,
}
use ngpool.Client.{Client, stop, send, authorize, parse_user}
use ngpool.Client.Write.{next, leave}

-- What a read from the connection gives.
pub data Line : Type 0 where
  eof failed : Line
  -- No JSON message, and whether TrimSpace makes it nil.
  garbage : Bool → Line
  message : StratumMessage → Line

-- What mapstructure makes of the parameters of version 2; `none` is an error.
pub record Submit2 : Type 0 where
  pub job_id : Bytes
  pub nonce : Bytes

pub record Login : Type 0 where
  pub login : Bytes
  pub agent : Bytes

pub record Decoders : Type 0 where
  pub submit2 : Params → Option Submit2
  pub login : Params → Option Login

-- The two random strings, the rate per minute and the time of a round.
pub record Moment : Type 0 where
  pub diff_sub : Bytes
  pub notify_sub : Bytes
  pub rate : ℕ
  pub now : ℕ

-- A round's end: behind the switch the loop returns if the client has been stopped.
abbrev after_switch : Client → Run (Client × Bool)
after_switch c = if c.has_shutdown then leave c else next c

abbrev pub refuse : Option ℤ → ℕ → Client → Run (Client × Bool)
refuse id code c = next (send (error id code) c)

-- An empty user agent is not stored.
abbrev or_kept : Bytes → Bytes → Bytes
or_kept old [] = old
or_kept old (x ∷ xs) = x ∷ xs

module _ (decoders : Decoders) (tuner : Tuner) where
  unfoldable pub subscribe : Moment → Option ℤ → Params → Client → Run (Client × Bool)
  subscribe m id params c =
      if c.subscribed
      then refuse id stratum_error_other c
      else elim (decode_mining_subscribe params) [
        -- A nil pointer is read.
        | none ↦ panic
        | some agent ↦
            after_switch (record (send (subscription id m.diff_sub m.notify_sub c.id) c) {
              user_agent = or_kept c.user_agent agent;
              subscribed = true;
            })
      ]

  unfoldable pub mining_authorize : Moment → Option ℤ → Params → Client → Run (Client × Bool)
  mining_authorize m id params c =
      if c.subscribed
      then elim (decode_mining_authorize params) [
        | none ↦ refuse id stratum_error_other c
        | some user ↦
            authorize tuner m.rate m.now (record (send (accepted id) c) {
              username = (parse_user user).0;
              worker = (parse_user user).1;
            })
            >>= after_switch
      ]
      else refuse id stratum_error_not_subbed c

  unfoldable pub mining_submit : Option ℤ → Params → Client → Run (Client × Bool)
  mining_submit id params c =
      if c.subscribed
      then elim (decode_mining_submit params) [
        | none ↦ refuse id stratum_error_other c
        | some ms ↦ after_switch (record c { submits = c.submits ++ record ms { id = id } ∷ [] })
      ]
      else refuse id stratum_error_not_subbed c

  -- Version 2. The submission gets no message id, and its nonce is what was decoded of it.
  unfoldable pub submit2 : Option ℤ → Params → Client → Run (Client × Bool)
  submit2 id params c = elim (decoders.submit2 params) [
    | none ↦ refuse id stratum_error_other c
    | some ms2 ↦ after_switch (record c {
      submits =
          c.submits
          ++ record {
            username = [];
            job_id = ms2.job_id;
            extranonce2 = 0 ∷ 0 ∷ 0 ∷ 0 ∷ [];
            time = [];
            nonce = (hex_decode ms2.nonce).0;
            id = none;
          }
            ∷ [];
    })
  ]

  unfoldable pub login : Moment → ℤ → Params → Client → Run (Client × Bool)
  login m id params c =
      let c' = record c { rpc_version2 = true; login_msg_id = id } in
      elim (decoders.login params) [
        | none ↦ refuse (some id) stratum_error_other c'
        | some l ↦
            authorize tuner m.rate m.now (record c' {
              username = (parse_user l.login).0;
              worker = (parse_user l.login).1;
              user_agent = l.agent;
            })
            >>= after_switch
      ]

  -- The switch on the method of a message that has an id.
  unfoldable pub dispatch : Moment → ℤ → String → Params → Client → Run (Client × Bool)
  dispatch m id method params c =
      if str_eq method "mining.subscribe"
      then subscribe m (some id) params c
      else if str_eq method "mining.authorize"
      then mining_authorize m (some id) params c
      else if str_eq method "mining.submit"
      then mining_submit (some id) params c
      else if str_eq method "submit"
      then submit2 (some id) params c
      else if str_eq method "login"
      then login m id params c
      else if str_eq method "mining.extranonce.subscribe"
      then after_switch (send (error (some id) stratum_error_other) c)
      else after_switch c

  unfoldable pub read_step : Moment → Line → Client → Run (Client × Bool)
  unfolding dispatch stop
  read_step m eof c = leave c
  read_step m failed c = leave (send (error none stratum_error_other) c)
  read_step m (garbage true) c = next c
  read_step m (garbage false) c = refuse none stratum_error_other c
  read_step m (message msg) c = elim msg.id [
    | none ↦ refuse none stratum_error_other c
    | some id ↦ dispatch m id msg.method msg.params c
  ]

  -- The loop over the lines, up to the one at which it returns.
  unfoldable pub read_loop : List (Moment × Line) → Client → Run (Client × Bool)
  unfolding read_step
  read_loop [] c = next c
  read_loop ((m, l) ∷ lines) c =
      read_step m l c >>= λ r. let rest = read_loop lines r.0 in if r.1 then rest else ok r
