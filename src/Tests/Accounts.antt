-- ===== src/Tests/Accounts.antt =====
-- Runs of the account handlers, with passwords as their own hashes and tokens for one name.
use ngpool.Prelude.{
  ℕ, ◌≡◌, refl, sym, ap, ◌∙◌, true, false, String, Option, none, some, List, [], ◌∷◌, ◌++◌, arith,
  Bool-cases, inl, inr, if◌then◌else◌, leb,
}
use ngpool.Prelude.Map.{string_eq, nat_eq, beq_refl, ◌==◌}
use Prim.Native.String.{len}
use ngpool.Bytes.{Bytes}
use ngpool.Accounts.{
  Claims, Auth, User, Users, api_error, has_id, api_success, LoginReq, LoginRes, RegisterReq,
  ChangePassword, by_id, by_username, bearer,
}
use ngpool.Accounts.Handlers.{post_register, post_login, post_change_password, auth_middleware}
use ngpool.Accounts.Register.{post_register-post_login}
use ngpool.Accounts.Login.{IsSigned, IsHashed, post_login-auth_middleware}
use ngpool.Accounts.Login.Password.{post_change_password-post_login}

abbrev parse : Bytes → ℕ → Option Claims
parse (e ∷ id ∷ []) now =
    if leb now e then some (record { username = "ann"; user_id = id; expires_at = e }) else none
parse _ now = none

abbrev auth : Auth
auth = record {
  generate_from_password = λ salt password. some password;
  compare_hash_and_password = λ hash password. hash == password;
  totp_validate = λ code secret. code == secret;
  totp_generate = λ email. none;
  signed_string =
      λ (c : Claims). if c.username == "ann" then some (c.expires_at ∷ c.user_id ∷ []) else none;
  parse_with_claims = parse;
  decode_address = λ config address. true;
  is_alphanum = λ name. true;
  is_email = λ email. true;
  rune_count = λ s. len s;
}

auth-IsSigned : IsSigned auth
auth-IsSigned c token now made soon = elim (Bool-cases (c.username == "ann")) [
  | inl here ↦
      let made' : ◌≡◌ {A = Option Bytes} (some (c.expires_at ∷ c.user_id ∷ [])) (some token) =
        rw here at made in
      let same : ◌≡◌ {A = Bytes} (c.expires_at ∷ c.user_id ∷ []) token = cc in
      let name : c.username ≡ "ann" = (string_eq.beq_iff c.username "ann").0 here in
      let before : leb now c.expires_at ≡ true = ground (arith, soon) in
      ap (λ t. parse t now) (sym same)
      ∙ rw before (
          ap (λ n. some (record { username = n; user_id = c.user_id; expires_at = c.expires_at }))
            (sym name))
  | inr there ↦ let made' : ◌≡◌ {A = Option Bytes} none (some token) = rw there at made in cc
]

auth-IsHashed : IsHashed auth
auth-IsHashed salt password hash made =
    let same : password ≡ hash = cc in ap (λ h. h == password) (sym same) ∙ beq_refl password

abbrev ann : User
ann = record {
  id = 1;
  username = "ann";
  password = "old";
  email = none;
  tfa_enabled = true;
  tfa_code = some "123";
}

abbrev users : Users
users = record { rows = ann ∷ []; next_id = 2 }

abbrev cat : RegisterReq
cat = record { username = "cat"; email = some "c@c"; password = "whiskered" }

-- The table as it is shipped: the first user has the number that the SERIAL gives next.
abbrev shipped : Users
shipped = record { rows = ann ∷ []; next_id = 1 }

first_registration : (post_register auth 5 (some cat) shipped).1 ≡ api_error 500 "database_error"
unfolding post_register
first_registration = refl

abbrev login : LoginReq
login = record { username = "ann"; password = "old" }

logged_in :
    (answer : LoginRes) × (post_login auth 10 (some login) users.rows ≡ api_success 200 answer)
unfolding post_login
logged_in = (_, refl)

post_login-auth_middleware_example :
    (user : User) × (by_username "ann" users.rows ≡ some user)
    × (logged_in.0.user_id ≡ user.id)
    × (auth.compare_hash_and_password user.password "old" ≡ true)
    × (auth_middleware auth 3610 (bearer ++ b' ' ∷ logged_in.0.token)
        ≡ api_success 200 (user.id, "ann"))
post_login-auth_middleware_example =
    post_login-auth_middleware auth auth-IsSigned 10 3610 login users.rows logged_in.0 logged_in.1
      (omega arith)

-- A server whose tokens are those of cat.
abbrev cat_auth : Auth
cat_auth = record auth { signed_string = λ (c : Claims). some (c.expires_at ∷ c.user_id ∷ []) }

joined :
    (users' : Users) × (post_register cat_auth 5 (some cat) users ≡ (users', api_success 201 2))
unfolding post_register
joined = (_, refl)

post_register-post_login_example :
    (answer : LoginRes) × (post_login cat_auth 40
        (some (record { username = "cat"; password = "whiskered" }))
        joined.0.rows
      ≡ api_success 200 answer)
    × (answer.user_id ≡ 2)
    × (has_id 2 (ann ∷ []) ≡ false)
    × (by_username "cat" (ann ∷ []) ≡ none)
    × ((other : String)
        → ("cat" == other) ≡ false
        → by_username other joined.0.rows ≡ by_username other (ann ∷ []))
post_register-post_login_example =
    post_register-post_login cat_auth auth-IsHashed 5 40 2 cat users joined.0 (λ e. (_, refl))
      joined.1

abbrev change : ChangePassword
change = record { new_password = "new"; old_password = "old" }

changed :
    (rows : List User) × (post_change_password auth 7 1 (some change) users.rows
      ≡ (rows, api_success 200 tt))
unfolding post_change_password
changed = (_, refl)

post_change_password-post_login_example :
    (user : User) × (answer : LoginRes) × (by_id 1 users.rows ≡ some user)
    × (post_login auth 20 (some (record { username = user.username; password = "new" })) changed.0
        ≡ api_success 200 answer)
    × (auth_middleware auth 30 (bearer ++ b' ' ∷ answer.token) ≡ api_success 200 (1, user.username))
post_change_password-post_login_example =
    post_change_password-post_login auth auth-IsHashed auth-IsSigned 7 1 20 30 change users.rows
      changed.0 ((λ e. (_, refl)), tt) (refl, tt) (tt, tt) refl changed.1 (omega arith)
