-- ===== src/Accounts/Login/Password.antt =====
-- cmd/ngweb: a new password is the one to log in with.
use ngpool.Prelude.{
  ℕ, ◌+◌, ◌≤◌, ◌≡◌, refl, sym, ap, ◌∙◌, false, String, Option, some, List, [], ◌∷◌, ◌++◌,
  Bool-cases, Option-cases, inl, inr, arith, All,
}
use mathlib.Core.Path.{subst}
use ngpool.Prelude.Map.{nat_eq, string_eq, bytes_eq, beq_refl, ◌==◌}
use ngpool.Accounts.{
  Auth, User, Reply, api_error, api_success, LoginReq, LoginRes, ChangePassword, by_username, by_id,
  bearer, set_password,
}
use ngpool.Accounts.Handlers.{post_login, auth_middleware, post_change_password}
use ngpool.Accounts.Unique.{IsOther, IsUnique}
use ngpool.Accounts.Login.{
  IsSigned, IsHashed, IsSigning, log_in-auth, log_in-succeeds, post_login-named,
}

by_id-All :
    (P : User → Type 0) (id : ℕ) (users : List User) (user : User)
    → by_id id users ≡ some user
    → All P users
    → P user
by_id-All P id [] user e h = cc
by_id-All P id (u ∷ users) user e h = elim (Bool-cases (u.id == id)) [
  | inl here ↦
      let same : ◌≡◌ {A = Option User} (some u) (some user) = rw here at e in
      let same' : u ≡ user = cc in subst P same' h.0
  | inr there ↦ by_id-All P id users user (rw there at e) h.1
]

-- A new password is found under the name of the user whose id it is.
by_username-set_password :
    (id : ℕ) (hash : String) (users : List User) (user : User)
    → IsUnique users
    → by_id id users ≡ some user
    → by_username user.username (set_password id hash users)
      ≡ some (record user { password = hash })
by_username-set_password id hash [] user unique e = cc
by_username-set_password id hash (u ∷ users) user (others, unique) e =
    elim (Bool-cases (u.id == id)) [
      | inl here ↦
          let same : ◌≡◌ {A = Option User} (some u) (some user) = rw here at e in
          let same' : u ≡ user = cc in
          subst
            (λ v.
              by_username v.username (set_password id hash (u ∷ users))
              ≡ some (record v { password = hash }))
            same' (rw (here, beq_refl u.username) refl)
      | inr there ↦
          let e' : by_id id users ≡ some user = rw there at e in
          let other = by_id-All (IsOther u) id users user e' others in
          let apart : (u.username == user.username) ≡ false = ground (
            arith,
            other.0,
            (string_eq.beq_iff user.username u.username).1,
            (string_eq.beq_iff u.username user.username).0,
          ) in
          rw (there, apart) (by_username-set_password id hash users user unique e')
    ]

by_id-id : (id : ℕ) (users : List User) (user : User) → by_id id users ≡ some user → user.id ≡ id
by_id-id id [] user e = cc
by_id-id id (u ∷ users) user e = elim (Bool-cases (u.id == id)) [
  | inl here ↦
      let same : ◌≡◌ {A = Option User} (some u) (some user) = rw here at e in
      let same' : u ≡ user = cc in
      ap (λ (v : User). v.id) (sym same') ∙ (nat_eq.beq_iff u.id id).0 here
  | inr there ↦ by_id-id id users user (rw there at e)
]

-- What a successful change of the password did.
post_change_password-ok :
    (auth : Auth) (salt id : ℕ) (req : ChangePassword) (users users' : List User)
    → post_change_password auth salt id (some req) users ≡ (users', api_success 200 tt)
    → (user : User) × (hash : String) × (by_id id users ≡ some user)
      × (auth.generate_from_password salt req.new_password ≡ some hash)
      × (users' ≡ set_password id hash users)
unfolding post_change_password
post_change_password-ok auth salt id req users users' e = elim (Option-cases (by_id id users)) [
  | inl unknown ↦
      let refused : ◌≡◌ {A = List User × Reply {0} Unit} (users, api_error 500 "database_error")
          (users', api_success 200 tt) =
        rw (unknown, post_change_password) at e in
      cc
  | inr (user, found) ↦
      elim (Bool-cases (auth.compare_hash_and_password user.password req.old_password)) [
        | inr wrong ↦
            let refused : ◌≡◌ {A = List User × Reply {0} Unit} (users, api_error 403 "invalid_auth")
                (users', api_success 200 tt) =
              rw (found, wrong, post_change_password) at e in
            cc
        | inl right ↦ elim (Option-cases (auth.generate_from_password salt req.new_password)) [
          | inl failed ↦
              let refused : ◌≡◌ {A = List User × Reply {0} Unit}
                  (users, api_error 500 "bcrypt_error") (users', api_success 200 tt) =
                rw (found, right, failed, post_change_password) at e in
              cc
          | inr (hash, made) ↦
              let done : ◌≡◌ {A = List User × Reply {0} Unit}
                  (set_password id hash users, api_success 200 tt) (users', api_success 200 tt) =
                rw (found, right, made, post_change_password) at e in
              (user, hash, found, made, ap (λ (p : List User × Reply {0} Unit). p.0) (sym done))
        ]
      ]
]

-- When the users' names and ids are unique and no name is empty, hashes are those of their
-- passwords, and the users' tokens can be signed and parse until they expire: after a user changed
-- the password to one that is not empty, a login with its name and the new password succeeds at any
-- time, and the handlers take its token as the user's for an hour.
pub post_change_password-post_login :
    (auth : Auth)
    → IsHashed auth
    → IsSigned auth
    → (salt id now later : ℕ) (req : ChangePassword) (users users' : List User)
    → All (IsSigning auth) users
    → All (λ (u : User). (u.username == "") ≡ false) users
    → IsUnique users
    → (req.new_password == "") ≡ false
    → post_change_password auth salt id (some req) users ≡ (users', api_success 200 tt)
    → later ≤ now + 3600
    → (user : User) × (answer : LoginRes) × (by_id id users ≡ some user)
      × (post_login auth now
            (some (record { username = user.username; password = req.new_password }))
            users'
          ≡ api_success 200 answer)
      × (auth_middleware auth later (bearer ++ b' ' ∷ answer.token)
          ≡ api_success 200 (id, user.username))
post_change_password-post_login auth hashed signed salt id now later req users users' signing filled
      unique given e soon =
    let (user, hash, found, made, after) =
      post_change_password-ok auth salt id req users users' e in
    let named =
      ap (by_username user.username) after
      ∙ by_username-set_password id hash users user unique found in
    let user' : User = record user { password = hash } in
    let login : LoginReq = record { username = user.username; password = req.new_password } in
    let (answer, succeeds, _) =
      log_in-succeeds auth now login user' (by_id-All (IsSigning auth) id users user found signing)
        (hashed salt req.new_password hash made) in
    let (_, _, passed) = log_in-auth auth signed now later login user' answer succeeds soon in
    let name : (user.username == "") ≡ false =
      by_id-All (λ (u : User). (u.username == "") ≡ false) id users user found filled in
    (
      user,
      answer,
      found,
      post_login-named auth now login users' user' name given named ∙ succeeds,
      passed ∙ ap (λ i. api_success 200 (i, user.username)) (by_id-id id users user found),
    )
