-- ===== src/Auth/Routes/Laws.antt =====
-- A user's way through the routes of the auth service.
use text.Mathlib.TextPositions.{eq_refl}
use intelli_store.Prelude.{
  ℕ, ◌+◌, String, ◌<>◌, ◌≡◌, Option, refl, true, false, ◌&&◌, none, some, [], ◌∷◌, ◌++◌, All, arith,
  leb, ◌==◌,
}
use intelli_store.SharedTypes.{failure, success}
use intelli_store.Http.{get, json, post}
use intelli_store.Auth.Tokens.{
  IsLive, IsTokenLibrary, TokenType, issue_token_pair, refresh, verify_access_token,
  verify_refresh_token, verify_token,
}
use intelli_store.Auth.Tokens as Tokens
use intelli_store.Auth.Accounts.{
  AuthResult, RegisterInput, UserRecord, Users, auth_result, find_by_email, find_user_by_id,
  get_profile, login, register, seconds, user_row,
}
use intelli_store.Auth.Accounts.Laws.{find-last, find-none, issue_token_pair-types}
use intelli_store.Auth.Routes.{
  AuthApp, AuthBody, AuthRequest, Fields, account, auth_router, fields, handle_auth, pair, profile,
  within,
}

abbrev post_to : String → Fields → AuthRequest
post_to s f = record {
  method = post;
  path = "auth" ∷ s ∷ [];
  authorization = none;
  body = fields f;
}

abbrev pub register_request : RegisterInput → AuthRequest
register_request input = post_to "register" (record {
  email = some input.email;
  password = some input.password;
  display_name = some input.display_name;
  refresh_token = none;
})

abbrev pub login_request : String → String → AuthRequest
login_request email password = post_to "login" (record {
  email = some email;
  password = some password;
  display_name = none;
  refresh_token = none;
})

abbrev pub refresh_request : String → AuthRequest
refresh_request token =
    post_to "refresh"
      (record { email = none; password = none; display_name = none; refresh_token = some token })

abbrev pub me_request : String → AuthRequest
me_request token = record {
  method = get;
  path = "auth" ∷ "me" ∷ [];
  authorization = some ("Bearer " <> token);
  body = AuthBody.other;
}

longer : (k : ℕ) → (leb 8 k && leb k 128) ≡ true → leb 1 k ≡ true
longer k h = ground arith

module _ (A : AuthApp) (input : RegisterInput) (u : Users) where
  abbrev row : UserRecord
  row = user_row A.service input u

  abbrev pub with_row : Users
  with_row = record u { rows = u.rows ++ row ∷ []; ids = u.ids + 1 }

  -- The account with the tokens of a second, and what the registration answers.
  abbrev pub result_at : ℕ → AuthResult
  result_at now = auth_result A.service row now

  abbrev pub result : AuthResult
  result = result_at (seconds u)

  module _ (lifetime : String → Option ℕ) (clock : ℕ) where
    -- The table when the clock has gone on after the registration.
    abbrev pub later : Users
    later = record with_row { clock = clock }

    -- What the session needs of the libraries and of the table.
    pub record IsNewcomer : Type 0 where
      pub email_ok : A.is_email input.email ≡ true
      pub password_ok : within A 8 128 input.password ≡ true
      pub name_ok : within A 1 100 input.display_name ≡ true
      pub some_token : leb 1 (A.text_length result.tokens.refresh_token) ≡ true
      pub bcrypt : A.service.matches input.password row.password_hash ≡ true
      pub access_bearer :
          A.headers.after_prefix "Bearer " ("Bearer " <> result.tokens.access_token)
          ≡ some result.tokens.access_token
      pub refresh_bearer :
          A.headers.after_prefix "Bearer " ("Bearer " <> result.tokens.refresh_token)
          ≡ some result.tokens.refresh_token
      pub jwt :
          (t : TokenType)
          → IsTokenLibrary A.service.token_service.jwt lifetime
              (record { sub = row.id; email = input.email; token_type = t })
      pub live : IsLive A.service.token_service lifetime (seconds u) (seconds later)
      pub some_id : (row.id == "") ≡ false
      pub some_email : (input.email == "") ≡ false
      pub free : find_by_email input.email u ≡ none
      pub new_id : All (λ r. (r.id == row.id) ≡ false) u.rows

    pub record IsSession : Type 0 where
      pub registered :
          (header : Option String)
          → handle_auth A (record (register_request input) { authorization = header }) u
            ≡ (json 201 (success (account result)), with_row)
      pub logged_in :
          (header : Option String)
          → handle_auth A
              (record (login_request input.email input.password) { authorization = header })
              later
            ≡ (json 200 (success (account (result_at (seconds later)))), later)
      pub me :
          handle_auth A (me_request result.tokens.access_token) later
          ≡ (json 200 (success (profile result.user)), later)
      pub no_me :
          (message : String) × (handle_auth A (me_request result.tokens.refresh_token) later
            ≡ (json 401 (failure "UNAUTHORIZED" message), later))
      pub refreshed :
          handle_auth A (refresh_request result.tokens.refresh_token) later
          ≡ (json 200 (success (pair (result_at (seconds later)).tokens)), later)
      pub conflicts :
          (header : Option String)
          → handle_auth A (record (register_request input) { authorization = header }) later
            ≡ (json 409 (failure "CONFLICT" "An account with this email already exists"), later)

    -- For an input that the schema accepts, under an email and an id that are new, libraries that do what
    -- they document, two secrets that are not empty, and a later time at which both tokens of the
    -- registration are valid: POST /auth/register is a 201 with the user and a pair of tokens; later, a
    -- login with the email and password gives the user and a pair of that time, GET /auth/me with the
    -- first access token gives the user and with the first refresh token a 401, POST /auth/refresh gives
    -- a pair of that time for this user, and the same registration again is a 409; after the
    -- registration nothing changes the table.
    pub handle_auth-IsSession : IsNewcomer → IsSession
    unfolding handle_auth auth_router register login get_profile Tokens.require_auth
    handle_auth-IsSession n =
        let there : find_by_email input.email later ≡ some row =
          find-last (λ r. r.email == input.email) u.rows row
            (find-none (λ r. r.email == input.email) u.rows n.free) (eq_refl input.email) in
        let known : find_user_by_id row.id later ≡ some row =
          find-last (λ r. r.id == row.id) u.rows row n.new_id (eq_refl row.id) in
        let some_password : leb 1 (A.text_length input.password) ≡ true = longer _ n.password_ok in
        let (opens, (message, closed), again, _) =
          issue_token_pair-types A.service lifetime row (seconds u) later n.jwt n.live n.some_id
            n.some_email known in
        record {
          registered = λ header. rw (n.email_ok, n.password_ok, n.name_ok, n.free) refl;
          logged_in = λ header. rw (n.email_ok, some_password, there, n.bcrypt) refl;
          me = rw (n.access_bearer, opens, known) refl;
          no_me = (message, rw (n.refresh_bearer, closed) refl);
          refreshed = rw (n.some_token, again) refl;
          conflicts = λ header. rw (n.email_ok, n.password_ok, n.name_ok, there) refl;
        }
