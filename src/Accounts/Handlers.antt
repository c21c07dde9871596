-- ===== src/Accounts/Handlers.antt =====
-- cmd/ngweb/handler_auth.go, middleware.go and the account handlers of handler_user.go.
use ngpool.Prelude.{
  ℕ, ◌+◌, Bool, ◌&&◌, ◌||◌, not, ltb, String, Option, none, some, List, [], ◌∷◌, if◌then◌else◌,
}
use ngpool.Prelude.Map.{Map, lookup, nat_eq, string_eq, bytes_eq, ◌==◌}
use ngpool.Prelude.Run.{Run, ok, panic}
use ngpool.Bytes.{Bytes}
use ngpool.Config.{ChainConfig}
use ngpool.Payout.{PayoutAddress}
use ngpool.Accounts.{
  Auth, ChangePassword, LoginReq, LoginRes, RegisterReq, Reply, SetPayout, User, Users, api_error,
  api_success, bearer, by_id, by_username, insert_user, set_password, set_tfa_code, set_tfa_enabled,
  split_n,
}

module _ (auth : Auth) where
  -- The tags of RegisterReq.
  unfoldable pub is_valid_register : RegisterReq → Bool
  is_valid_register req =
      not (req.username == "")
      && auth.is_alphanum req.username
      && ltb (auth.rune_count req.username) 32
      && auth.is_email req.email
      && not (req.password == "")
      && ltb 8 (auth.rune_count req.password)
      && ltb (auth.rune_count req.password) 128

  unfoldable pub post_register : ℕ → Option RegisterReq → Users → Users × Reply ℕ
  unfolding insert_user is_valid_register
  post_register salt none users = (users, api_error 400 "invalid_format")
  post_register salt (some req) users =
      if is_valid_register req
      then elim (auth.generate_from_password salt req.password) [
        | none ↦ (users, api_error 500 "bcrypt_error")
        | some hash ↦ insert_user req hash users
      ]
      else (users, api_error 400 "invalid_field")

  -- createToken: an hour from now. What it is told of the realms goes into no claim.
  unfoldable pub create_token : ℕ → String → ℕ → List String → Option Bytes
  create_token now username id realms =
      auth.signed_string (record { username = username; user_id = id; expires_at = now + 3600 })

  abbrev jwt_realms : List String
  jwt_realms = "trade" ∷ "withdraw" ∷ "keygen" ∷ "tfa" ∷ []

  abbrev pub log_in : ℕ → LoginReq → User → Reply LoginRes
  log_in now req user =
      let realms = if user.tfa_enabled then "tfa" ∷ [] else jwt_realms in
      if auth.compare_hash_and_password user.password req.password
      then elim (create_token now user.username user.id realms) [
        | none ↦ api_error 500 "tokengen_err"
        | some token ↦ api_success 200 (record {
          user_id = user.id;
          username = user.username;
          token = token;
          tfa_enabled = user.tfa_enabled;
        })
      ]
      else api_error 403 "invalid_auth"

  unfoldable pub post_login : ℕ → Option LoginReq → List User → Reply LoginRes
  unfolding create_token
  post_login now none users = api_error 400 "invalid_format"
  post_login now (some req) users =
      if (req.username == "") || (req.password == "")
      then api_error 400 "invalid_field"
      else elim (by_username req.username users) [
        | none ↦ api_error 403 "invalid_auth"
        | some user ↦ log_in now req user
      ]

  -- authMiddleware: the user's id and name go on to the handler.
  unfoldable pub auth_middleware : ℕ → Bytes → Reply (ℕ × String)
  unfolding split_n
  auth_middleware now header = elim (split_n [] header) [
    | none ↦ api_error 403 "invalid_auth"
    | some (kind, token) ↦
        if kind == bearer
        then elim (auth.parse_with_claims token now) [
          | none ↦ api_error 403 "invalid_auth"
          | some claims ↦ api_success 200 (claims.user_id, claims.username)
        ]
        else api_error 403 "invalid_auth"
  ]

  -- The rest of postTFA behind the code's test. The query reads no username, so that the token's is
  -- empty, and a failed token is not told apart from an empty one.
  abbrev tfa_token : ℕ → ℕ → Option Bytes
  tfa_token now id = create_token now "" id jwt_realms

  abbrev or_empty : Option Bytes → Bytes
  or_empty none = []
  or_empty (some t) = t

  -- postTFA. A user without a secret fails to scan.
  unfoldable post_tfa : ℕ → ℕ → Option String → List User → List User × Reply Bytes
  unfolding create_token
  post_tfa now id none users = (users, api_error 400 "invalid_format")
  post_tfa now id (some code) users =
      if code == "" then (users, api_error 400 "invalid_field") else elim (by_id id users) [
        | none ↦ (users, api_error 500 "database_error")
        | some user ↦ elim user.tfa_code [
          | none ↦ (users, api_error 500 "database_error")
          | some secret ↦
              if auth.totp_validate code secret
              then (
                if user.tfa_enabled then users else set_tfa_enabled id users,
                api_success 200 (or_empty (tfa_token now id)),
              )
              else (users, api_error 400 "invalid_code")
        ]
      ]

  -- postTFASetup. Asserting that a missing email is a string panics.
  unfoldable post_tfa_setup : ℕ → List User → Run (List User × Reply String)
  post_tfa_setup id users = elim (by_id id users) [
    | none ↦ ok (users, api_error 500 "database_error")
    | some user ↦
        if user.tfa_enabled then ok (users, api_error 400 "already_setup") else elim user.email [
          | none ↦ panic
          | some email ↦ elim (auth.totp_generate email) [
            | none ↦ ok (users, api_error 500 "keygen_err")
            | some (secret, url) ↦ ok (set_tfa_code id secret users, api_success 200 url)
          ]
        ]
  ]

  unfoldable pub post_change_password :
      ℕ → ℕ → Option ChangePassword → List User → List User × Reply {0} Unit
  post_change_password salt id none users = (users, api_error 400 "invalid_format")
  post_change_password salt id (some req) users = elim (by_id id users) [
    | none ↦ (users, api_error 500 "database_error")
    | some user ↦
        if auth.compare_hash_and_password user.password req.old_password
        then elim (auth.generate_from_password salt req.new_password) [
          | none ↦ (users, api_error 500 "bcrypt_error")
          | some hash ↦ (set_password id hash users, api_success 200 tt)
        ]
        else (users, api_error 403 "invalid_auth")
  ]

  -- INSERT ... ON CONFLICT (user_id, currency) DO UPDATE SET address = ...
  abbrev set_address : ℕ → String → String → List PayoutAddress → List PayoutAddress
  set_address id currency address [] =
      record { user_id = id; currency = currency; address = address } ∷ []
  set_address id currency address (a ∷ rest) =
      if (a.user_id == id) && (a.currency == currency)
      then record a { address = address } ∷ rest
      else a ∷ set_address id currency address rest

  unfoldable post_set_payout :
      Map String ChainConfig
      → ℕ
      → Option SetPayout
      → List PayoutAddress
      → List PayoutAddress × Reply {0} Unit
  unfolding lookup
  post_set_payout configs id none addresses = (addresses, api_error 400 "invalid_format")
  post_set_payout configs id (some req) addresses =
      if (req.address == "") || (req.currency == "")
      then (addresses, api_error 400 "invalid_field")
      else elim (lookup req.currency configs) [
        | none ↦ (addresses, api_error 400 "invalid_currency")
        | some config ↦
            if auth.decode_address config req.address
            then (set_address id req.currency req.address addresses, api_success 200 tt)
            else (addresses, api_error 400 "invalid_address")
      ]
