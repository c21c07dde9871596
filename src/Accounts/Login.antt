-- ===== src/Accounts/Login.antt =====
-- cmd/ngweb: the token of a login is what the handlers of a user ask for.
pub mod Password
use ngpool.Prelude.{
  ℕ, ◌+◌, ◌≤◌, ◌≡◌, refl, sym, ap, ◌∙◌, ◌||◌, true, false, String, Option, none, some, List, [],
  ◌∷◌, ◌++◌, Bool-cases, Option-cases, inl, inr, arith, All,
}
use mathlib.Core.Path.{subst}
use ngpool.Prelude.Map.{nat_eq, string_eq, bytes_eq, beq_refl, ◌==◌}
use ngpool.Bytes.{Bytes}
use ngpool.Accounts.{
  Claims, Auth, User, Reply, api_error, api_success, LoginReq, LoginRes, ChangePassword,
  by_username, by_id, bearer, set_password,
}
use ngpool.Accounts.Handlers.{
  create_token, log_in, post_login, auth_middleware, post_change_password,
}
use ngpool.Accounts.Unique.{IsOther, IsUnique}

-- A signed token parses as its claims until it expires.
abbrev pub IsSigned : Auth → Type 0
IsSigned auth =
    (c : Claims) (token : Bytes) (now : ℕ)
    → auth.signed_string c ≡ some token
    → now ≤ c.expires_at
    → auth.parse_with_claims token now ≡ some c

-- A hash is made of the password that it is compared with.
abbrev pub IsHashed : Auth → Type 0
IsHashed auth =
    (salt : ℕ) (password hash : String)
    → auth.generate_from_password salt password ≡ some hash
    → auth.compare_hash_and_password hash password ≡ true

-- The tokens of the user can be signed.
abbrev pub IsSigning : Auth → User → Type 0
IsSigning auth user =
    (expires_at : ℕ)
    → (token : Bytes) × (auth.signed_string
          (record { username = user.username; user_id = user.id; expires_at = expires_at })
        ≡ some token)

pub log_in-succeeds :
    (auth : Auth) (now : ℕ) (req : LoginReq) (user : User)
    → IsSigning auth user
    → auth.compare_hash_and_password user.password req.password ≡ true
    → (answer : LoginRes) × (log_in auth now req user ≡ api_success 200 answer)
      × (answer.user_id ≡ user.id)
unfolding create_token
log_in-succeeds auth now req user signing right =
    let (token, made) = signing (now + 3600) in
    (
      record {
        user_id = user.id;
        username = user.username;
        token = token;
        tfa_enabled = user.tfa_enabled;
      },
      rw (right, made, log_in) refl,
      refl,
    )

pub log_in-auth :
    (auth : Auth)
    → IsSigned auth
    → (now later : ℕ) (req : LoginReq) (user : User) (answer : LoginRes)
    → log_in auth now req user ≡ api_success 200 answer
    → later ≤ now + 3600
    → (answer.user_id ≡ user.id)
      × (auth.compare_hash_and_password user.password req.password ≡ true)
      × (auth_middleware auth later (bearer ++ b' ' ∷ answer.token)
          ≡ api_success 200 (user.id, user.username))
unfolding create_token auth_middleware
log_in-auth auth signed now later req user answer e soon =
    elim (Bool-cases (auth.compare_hash_and_password user.password req.password)) [
      | inr wrong ↦
          let refused : ◌≡◌ {A = Reply LoginRes} (api_error 403 "invalid_auth")
              (api_success 200 answer) =
            rw (wrong, log_in) at e in
          cc
      | inl right ↦ elim (Option-cases (auth.signed_string claims)) [
        | inl failed ↦
            let refused : ◌≡◌ {A = Reply LoginRes} (api_error 500 "tokengen_err")
                (api_success 200 answer) =
              rw (right, failed, log_in) at e in
            cc
        | inr (token, made) ↦
            let given : ◌≡◌ {A = Reply LoginRes} (api_success 200 (answer_of token))
                (api_success 200 answer) =
              rw (right, made, log_in) at e in
            let same : answer_of token ≡ answer = cc in
            let parsed = signed claims token later made soon in
            (
              ap (λ (a : LoginRes). a.user_id) (sym same),
              right,
              ap (λ (a : LoginRes). auth_middleware auth later (bearer ++ b' ' ∷ a.token))
                    (sym same)
                  ∙ rw (parsed, auth_middleware) refl,
            )
      ]
    ]
  where
    claims : Claims
    claims = record { username = user.username; user_id = user.id; expires_at = now + 3600 }

    answer_of : Bytes → LoginRes
    answer_of token = record {
      user_id = user.id;
      username = user.username;
      token = token;
      tfa_enabled = user.tfa_enabled;
    }

by_username-name :
    (name : String) (users : List User) (user : User)
    → by_username name users ≡ some user
    → user.username ≡ name
by_username-name name [] user e = cc
by_username-name name (u ∷ users) user e = elim (Bool-cases (u.username == name)) [
  | inl here ↦
      let same : ◌≡◌ {A = Option User} (some u) (some user) = rw here at e in
      let same' : u ≡ user = cc in
      ap (λ (v : User). v.username) (sym same') ∙ (string_eq.beq_iff u.username name).0 here
  | inr there ↦ by_username-name name users user (rw there at e)
]

-- A login that succeeds has a name and a password.
post_login-filled :
    (auth : Auth) (now : ℕ) (req : LoginReq) (users : List User) (answer : LoginRes)
    → post_login auth now (some req) users ≡ api_success 200 answer
    → elim (by_username req.username users) [
      | none ↦ api_error 403 "invalid_auth"
      | some user ↦ log_in auth now req user
    ]
      ≡ api_success 200 answer
unfolding post_login
post_login-filled auth now req users answer e =
    elim (Bool-cases ((req.username == "") || (req.password == ""))) [
      | inl empty ↦
          let refused : ◌≡◌ {A = Reply LoginRes} (api_error 400 "invalid_field")
              (api_success 200 answer) =
            rw empty at e in
          cc
      | inr filled ↦ rw filled at e
    ]

-- A request with a name and a password is answered from the user of that name.
pub post_login-named :
    (auth : Auth) (now : ℕ) (req : LoginReq) (users : List User) (user : User)
    → (req.username == "") ≡ false
    → (req.password == "") ≡ false
    → by_username req.username users ≡ some user
    → post_login auth now (some req) users ≡ log_in auth now req user
unfolding post_login
post_login-named auth now req users user named given found = rw (named, given, found) refl

-- When tokens parse as their claims until they expire, a login that succeeds answers with the id of
-- the user of that name, whose password it is, and for an hour the handlers behind authMiddleware
-- take its token as that user's. This is so also for a user with two factors, who gave only one.
pub post_login-auth_middleware :
    (auth : Auth)
    → IsSigned auth
    → (now later : ℕ) (req : LoginReq) (users : List User) (answer : LoginRes)
    → post_login auth now (some req) users ≡ api_success 200 answer
    → later ≤ now + 3600
    → (user : User) × (by_username req.username users ≡ some user)
      × (answer.user_id ≡ user.id)
      × (auth.compare_hash_and_password user.password req.password ≡ true)
      × (auth_middleware auth later (bearer ++ b' ' ∷ answer.token)
          ≡ api_success 200 (user.id, req.username))
unfolding post_login
post_login-auth_middleware auth signed now later req users answer e soon =
    let e' = post_login-filled auth now req users answer e in
    elim (Option-cases (by_username req.username users)) [
      | inl unknown ↦
          let refused : ◌≡◌ {A = Reply LoginRes} (api_error 403 "invalid_auth")
              (api_success 200 answer) =
            rw unknown at e' in
          cc
      | inr (user, found) ↦
          let (id, right, passed) =
            log_in-auth auth signed now later req user answer (rw found at e') soon in
          let name = by_username-name req.username users user found in
          (user, found, id, right, passed ∙ ap (λ n. api_success 200 (user.id, n)) name)
    ]
