-- ===== src/Client/Messages.antt =====
-- cmd/ngstratum/stratum_json.go: messages, their decoding, and the errors.
use ngpool.Prelude.{ℕ, String, Option, none, some, List, [], ◌∷◌, ◌++◌}
use ngpool.Prelude.Int.{ℤ}
use ngpool.Bytes.{Bytes, hex_bytes}
use ngpool.Job.{StratumParams}

-- What the decoders ask of a JSON value: whether it is an array, and which entries are strings.
pub data Param : Type 0 where
  text : Bytes → Param
  other : Param

pub data Params : Type 0 where
  array : List Param → Params
  no_array : Params

pub record StratumMessage : Type 0 where
  pub id : Option ℤ
  pub method : String
  pub params : Params

abbrev pub stratum_error_other : ℕ
stratum_error_other = 20

abbrev pub stratum_error_stale : ℕ
stratum_error_stale = 21

abbrev pub stratum_error_duplicate : ℕ
stratum_error_duplicate = 22

abbrev pub stratum_error_low_diff : ℕ
stratum_error_low_diff = 23

abbrev pub stratum_error_not_subbed : ℕ
stratum_error_not_subbed = 25

-- What a client is sent.
pub data Reply : Type 0 where
  error : Option ℤ → ℕ → Reply
  accepted : Option ℤ → Reply
  subscription : Option ℤ → Bytes → Bytes → Bytes → Reply
  set_difficulty : ℕ → Reply
  notify : Bytes → StratumParams → Reply
  login_job : ℤ → Bytes → Bytes → ℕ → Bytes → Reply
  next_job : Bytes → ℕ → Bytes → Reply

pub record MiningSubmit : Type 0 where
  pub username : Bytes
  pub job_id : Bytes
  pub extranonce2 : Bytes
  pub time : Bytes
  pub nonce : Bytes
  pub id : Option ℤ

-- The string that identifies duplicates.
abbrev pub get_key : MiningSubmit → Bytes
get_key m = m.job_id ++ (m.extranonce2 ++ (m.time ++ m.nonce))

abbrev text_or_empty : Param → Bytes
text_or_empty (text s) = s
text_or_empty other = []

-- An entry that is no string leaves the field empty.
abbrev hex_param : Param → Option Bytes
hex_param (text s) = hex_bytes s
hex_param other = some []

-- `none` is the nil pointer that DecodeMiningSubscribe returns for what is no array.
unfoldable pub decode_mining_subscribe : Params → Option Bytes
decode_mining_subscribe no_array = none
decode_mining_subscribe (array []) = some []
decode_mining_subscribe (array (p ∷ ps)) = some (text_or_empty p)

-- The user name; `none` is an error.
unfoldable pub decode_mining_authorize : Params → Option Bytes
decode_mining_authorize (array (u ∷ p ∷ [])) = some (text_or_empty u)
decode_mining_authorize _ = none

abbrev or_none {ℓ κ} : {A : Type ℓ} {B : Type κ} → Option A → (A → Option B) → Option B
or_none none f = none
or_none (some a) f = f a

unfoldable pub decode_mining_submit : Params → Option MiningSubmit
decode_mining_submit (array (u ∷ j ∷ e ∷ t ∷ n ∷ [])) = or_none (hex_param e) λ extranonce2.
    or_none (hex_param t) λ time. or_none (hex_param n) λ nonce. some (record {
      username = text_or_empty u;
      job_id = text_or_empty j;
      extranonce2 = extranonce2;
      time = time;
      nonce = nonce;
      id = none;
    })
decode_mining_submit _ = none
