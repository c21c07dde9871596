-- ===== src/Accounts/Register.antt =====
-- cmd/ngweb/handler_auth.go: who registered can log in.
use ngpool.Prelude.{
  ℕ, suc, ◌≡◌, refl, sym, ap, ◌∙◌, true, false, String, none, some, List, [], ◌∷◌, Bool-cases,
  Option-cases, inl, inr, arith,
}
use ngpool.Prelude.Map.{nat_eq, string_eq, beq_refl, ◌==◌}
use ngpool.Bytes.{Bytes}
use ngpool.Accounts.{
  Auth, User, Users, Reply, api_error, api_success, RegisterReq, LoginRes, has_email, has_id,
  has_username, by_username, insert_user,
}
use ngpool.Accounts.Handlers.{is_valid_register, post_register, post_login}
use ngpool.Accounts.Login.{IsHashed, log_in-succeeds, post_login-named}

-- The row of a user who registered with a hash.
abbrev registered : RegisterReq → String → ℕ → User
registered req hash id = record {
  id = id;
  username = req.username;
  password = hash;
  email = req.email;
  tfa_enabled = false;
  tfa_code = none;
}

by_username-none :
    (name : String) (users : List User)
    → has_username name users ≡ false
    → by_username name users ≡ none
by_username-none name [] h = refl
by_username-none name (u ∷ users) h =
    let apart : (u.username == name) ≡ false = ground (arith, h) in
    rw apart (by_username-none name users (ground (arith, h)))

insert_user-ok :
    (req : RegisterReq) (hash : String) (users users' : Users) (id : ℕ)
    → insert_user req hash users ≡ (users', api_success 201 id)
    → (id ≡ users.next_id)
      × (has_id users.next_id users.rows ≡ false)
      × (has_username req.username users.rows ≡ false)
      × (users'.rows ≡ registered req hash users.next_id ∷ users.rows)
unfolding insert_user
insert_user-ok req hash users users' id e = elim (Bool-cases (has_id users.next_id users.rows)) [
  | inl taken ↦
      let refused : ◌≡◌ {A = Users × Reply ℕ} (used, api_error 500 "database_error")
          (users', api_success 201 id) =
        rw taken at e in
      cc
  | inr free ↦ elim (Bool-cases (has_email req.email users.rows)) [
    | inl taken ↦
        let refused : ◌≡◌ {A = Users × Reply ℕ} (used, api_error 400 "email_taken")
            (users', api_success 201 id) =
          rw (free, taken) at e in
        cc
    | inr unused ↦ elim (Bool-cases (has_username req.username users.rows)) [
      | inl taken ↦
          let refused : ◌≡◌ {A = Users × Reply ℕ} (used, api_error 400 "username_taken")
              (users', api_success 201 id) =
            rw (free, unused, taken) at e in
          cc
      | inr new ↦
          let done : ◌≡◌ {A = Users × Reply ℕ}
              (
                record {
                  rows = registered req hash users.next_id ∷ users.rows;
                  next_id = suc users.next_id;
                },
                api_success 201 users.next_id,
              )
              (users', api_success 201 id) =
            rw (free, unused, new) at e in
          let same : ◌≡◌ {A = Reply ℕ} (api_success 201 users.next_id) (api_success 201 id) =
            ap (λ (p : Users × Reply ℕ). p.1) done in
          let numbered : id ≡ users.next_id = cc in
          (numbered, free, new, ap (λ (p : Users × Reply ℕ). p.0.rows) (sym done))
    ]
  ]
]
  where
    used : Users
    used = record users { next_id = suc users.next_id }

-- What a registration that succeeds shows of the request, and where the row came from.
post_register-ok :
    (auth : Auth) (salt : ℕ) (req : RegisterReq) (users users' : Users) (id : ℕ)
    → post_register auth salt (some req) users ≡ (users', api_success 201 id)
    → (hash : String) × (is_valid_register auth req ≡ true)
      × (auth.generate_from_password salt req.password ≡ some hash)
      × (insert_user req hash users ≡ (users', api_success 201 id))
unfolding post_register
post_register-ok auth salt req users users' id e = elim (Bool-cases (is_valid_register auth req)) [
  | inr wrong ↦
      let refused : ◌≡◌ {A = Users × Reply ℕ} (users, api_error 400 "invalid_field")
          (users', api_success 201 id) =
        rw wrong at e in
      cc
  | inl valid ↦ elim (Option-cases (auth.generate_from_password salt req.password)) [
    | inl failed ↦
        let refused : ◌≡◌ {A = Users × Reply ℕ} (users, api_error 500 "bcrypt_error")
            (users', api_success 201 id) =
          rw (valid, failed) at e in
        cc
    | inr (hash, made) ↦ (hash, valid, made, rw (valid, made) at e)
  ]
]

is_valid_register-filled :
    (auth : Auth) (req : RegisterReq)
    → is_valid_register auth req ≡ true
    → ((req.username == "") ≡ false) × ((req.password == "") ≡ false)
unfolding is_valid_register
is_valid_register-filled auth req valid = (ground (arith, valid), ground (arith, valid))

-- When hashes are those of their passwords, and tokens of the new user can be signed: after a
-- registration that succeeds, a login with its name and password succeeds at any time, as the user
-- whose id was answered. Neither that id nor the name was in use, and any other name is still that
-- of the same user, or of none.
pub post_register-post_login :
    (auth : Auth)
    → IsHashed auth
    → (salt now id : ℕ) (req : RegisterReq) (users users' : Users)
    → ((expires_at : ℕ)
        → (token : Bytes) × (auth.signed_string
              (record { username = req.username; user_id = id; expires_at = expires_at })
            ≡ some token))
    → post_register auth salt (some req) users ≡ (users', api_success 201 id)
    → (answer : LoginRes) × (post_login auth now
          (some (record { username = req.username; password = req.password }))
          users'.rows
        ≡ api_success 200 answer)
      × (answer.user_id ≡ id)
      × (has_id id users.rows ≡ false)
      × (by_username req.username users.rows ≡ none)
      × ((other : String)
          → (req.username == other) ≡ false
          → by_username other users'.rows ≡ by_username other users.rows)
post_register-post_login auth hashed salt now id req users users' signing e =
    let (hash, valid, made, inserted) = post_register-ok auth salt req users users' id e in
    let (numbered, free, new, rows) = insert_user-ok req hash users users' id inserted in
    let (named, given) = is_valid_register-filled auth req valid in
    let user = registered req hash users.next_id in
    let found : by_username req.username users'.rows ≡ some user =
      ap (by_username req.username) rows ∙ rw (beq_refl req.username) refl in
    let (answer, succeeds, answered) =
      log_in-succeeds auth now (record { username = req.username; password = req.password }) user
        (λ expires_at. let (token, signed) = signing expires_at in (token, rw numbered at signed))
        (hashed salt req.password hash made) in
    (
      answer,
      post_login-named auth now _ users'.rows user named given found ∙ succeeds,
      answered ∙ sym numbered,
      ap (λ n. has_id n users.rows) numbered ∙ free,
      by_username-none req.username users.rows new,
      λ other apart. ap (by_username other) rows ∙ rw apart refl,
    )
