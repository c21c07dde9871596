-- ===== src/Accounts.antt =====
-- cmd/ngweb/handler_auth.go, middleware.go and the account handlers of handler_user.go.
-- The request of a handler is what BindJSON makes of the body, `none` where it cannot; BindValid's
-- tests of the `validate` tags stand in the handlers. Header and tokens are bytes. A statement fails
-- only on the constraints named here.
pub mod Handlers
pub mod Unique
pub mod Register
pub mod Login
use ngpool.Prelude.{
  ℕ, suc, ◌+◌, Bool, true, false, ◌&&◌, ◌||◌, String, Option, none, some, List, [], ◌∷◌, ◌++◌,
  if◌then◌else◌,
}
use ngpool.Prelude.Map.{Map, lookup, nat_eq, string_eq, bytes_eq, ◌==◌}
use ngpool.Prelude.Run.{Run, ok, panic}
use ngpool.Bytes.{Bytes}
use ngpool.Config.{ChainConfig}
use ngpool.Payout.{PayoutAddress}

pub record Claims : Type 0 where
  pub username : String
  pub user_id : ℕ
  pub expires_at : ℕ

-- bcrypt, with its salt; one-time codes; and tokens signed with the server's secret, which are
-- parsed at a time. Of the validator, its tests of the tags `alphanum` and `omitempty,email`, and its
-- count of the characters of a string.
pub record Auth : Type 0 where
  pub generate_from_password : ℕ → String → Option String
  pub compare_hash_and_password : String → String → Bool
  pub totp_validate : String → String → Bool
  pub totp_generate : String → Option (String × String)
  pub signed_string : Claims → Option Bytes
  pub parse_with_claims : Bytes → ℕ → Option Claims
  pub decode_address : ChainConfig → String → Bool
  pub is_alphanum : String → Bool
  pub is_email : Option String → Bool
  pub rune_count : String → ℕ

pub record User : Type 0 where
  pub id : ℕ
  pub username : String
  pub password : String
  pub email : Option String
  pub tfa_enabled : Bool
  pub tfa_code : Option String

-- The users, and the next number of the SERIAL id.
pub record Users : Type 0 where
  pub rows : List User
  pub next_id : ℕ

-- apiError and apiException with their status and code, or apiSuccess.
pub data Reply {ℓ} (A : Type ℓ) : Type ℓ where
  api_error : ℕ → String → Reply A
  api_success : ℕ → A → Reply A

pub record RegisterReq : Type 0 where
  pub username : String
  pub email : Option String
  pub password : String

pub record LoginReq : Type 0 where
  pub username : String
  pub password : String

pub record LoginRes : Type 0 where
  pub user_id : ℕ
  pub username : String
  pub token : Bytes
  pub tfa_enabled : Bool

pub record ChangePassword : Type 0 where
  pub new_password : String
  pub old_password : String

pub record SetPayout : Type 0 where
  pub address : String
  pub currency : String

abbrev pub has_email : Option String → List User → Bool
has_email none users = false
has_email (some e) [] = false
has_email (some e) (u ∷ users) = elim u.email [
  | none ↦ has_email (some e) users
  | some f ↦ (f == e) || has_email (some e) users
]

abbrev pub has_username : String → List User → Bool
has_username name [] = false
has_username name (u ∷ users) = (u.username == name) || has_username name users

abbrev pub by_username : String → List User → Option User
by_username name [] = none
by_username name (u ∷ users) = if u.username == name then some u else by_username name users

abbrev pub by_id : ℕ → List User → Option User
by_id id [] = none
by_id id (u ∷ users) = if u.id == id then some u else by_id id users

abbrev pub has_id : ℕ → List User → Bool
has_id id [] = false
has_id id (u ∷ users) = (u.id == id) || has_id id users

-- The insert: a failed one leaves a gap in the numbers. The indexes are users_pkey, unique_email and
-- unique_username, in the order of the table; a number that is taken is an error of the database.
unfoldable pub insert_user : RegisterReq → String → Users → Users × Reply ℕ
insert_user req hash users =
    let used = record users { next_id = suc users.next_id } in
    if has_id users.next_id users.rows
    then (used, api_error 500 "database_error")
    else if has_email req.email users.rows
    then (used, api_error 400 "email_taken")
    else if has_username req.username users.rows
    then (used, api_error 400 "username_taken")
    else (
      record {
        rows =
            record {
              id = users.next_id;
              username = req.username;
              password = hash;
              email = req.email;
              tfa_enabled = false;
              tfa_code = none;
            }
            ∷ users.rows;
        next_id = suc users.next_id;
      },
      api_success 201 users.next_id,
    )

abbrev set_password : ℕ → String → List User → List User
set_password id hash [] = []
set_password id hash (u ∷ users) =
    (if u.id == id then record u { password = hash } else u) ∷ set_password id hash users

abbrev set_tfa_code : ℕ → String → List User → List User
set_tfa_code id code [] = []
set_tfa_code id code (u ∷ users) =
    (if u.id == id then record u { tfa_code = some code } else u) ∷ set_tfa_code id code users

abbrev set_tfa_enabled : ℕ → List User → List User
set_tfa_enabled id [] = []
set_tfa_enabled id (u ∷ users) =
    (if u.id == id then record u { tfa_enabled = true } else u) ∷ set_tfa_enabled id users

-- strings.SplitN(header, " ", 2), where it has two parts.
unfoldable pub split_n : Bytes → Bytes → Option (Bytes × Bytes)
split_n part [] = none
split_n part (x ∷ header) =
    let rest = split_n (part ++ x ∷ []) header in if x == b' ' then some (part, header) else rest

abbrev pub bearer : Bytes
bearer = b'B' ∷ b'e' ∷ b'a' ∷ b'r' ∷ b'e' ∷ b'r' ∷ []
