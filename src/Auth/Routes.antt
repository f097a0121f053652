-- ===== src/Auth/Routes.antt =====
-- services/auth-service/src/routes/auth.route.ts with validation/auth.schema.ts and the guard, as app.ts mounts
-- them. Paths are lists of decoded segments. The health route, log lines and CORS and security
-- headers are left out.
pub mod Laws
use intelli_store.Prelude.{
  ℕ, String, Bool, true, false, ◌&&◌, not, Option, none, some, List, [], ◌∷◌, ◌==◌, leb,
  if◌then◌else◌,
}
use intelli_store.Effects.{
  Exec, Result, app_error, bad_request, err, error, ok, pure, throw, unauthorized, ◌>>=◌,
}
use intelli_store.SharedTypes.{User, success}
use intelli_store.Auth.Tokens as Tokens
use intelli_store.Auth.Tokens.{Headers, TokenClaims, TokenPair}
use intelli_store.Auth.Accounts.{
  AuthResult, AuthService, RegisterInput, Users, get_profile, login, refresh_tokens, register,
  seconds,
}
use intelli_store.Http.{Method, Reply, async_handler, get, json, post, route_not_found}

-- A body after `express.json()`: not JSON or over its limit of 100kb, of other types than the schemas', or with the texts of its fields,
-- where they are there.
pub record Fields : Type 0 where
  pub email : Option String
  pub password : Option String
  pub display_name : Option String
  pub refresh_token : Option String

pub data AuthBody : Type 0 where
  malformed other : AuthBody
  fields : Fields → AuthBody

pub record AuthRequest : Type 0 where
  pub method : Method
  pub path : List String
  pub authorization : Option String
  pub body : AuthBody

pub data AuthPayload : Type 0 where
  account : AuthResult → AuthPayload
  pair : TokenPair → AuthPayload
  profile : User → AuthPayload

pub record AuthApp : Type 0 where
  pub service : AuthService
  pub headers : Headers
  -- Zod's `email()`, and the number of UTF-16 units of a text.
  pub is_email : String → Bool
  pub text_length : String → ℕ

abbrev field : (Fields → Option String) → AuthBody → Option String
field f (fields x) = f x
field f _ = none

abbrev given_if : {A : Type 0} → Bool → A → Option A
given_if true a = some a
given_if false a = none

-- Two texts, or three, that are all there.
abbrev both_texts :
    {A : Type 0} → (String → String → Option A) → Option String → Option String → Option A
both_texts f (some a) (some b) = f a b
both_texts f _ _ = none

abbrev all_three :
    {A : Type 0}
    → (String → String → String → Option A)
    → Option String
    → Option String
    → Option String
    → Option A
all_three f (some a) b c = both_texts (f a) b c
all_three f none b c = none

module _ (A : AuthApp) where
  open A use {service, is_email, text_length}

  abbrev within : ℕ → ℕ → String → Bool
  within low high s = leb low (text_length s) && leb (text_length s) high

  abbrev pub register_schema : AuthBody → Option RegisterInput
  register_schema b =
      all_three
        (λ email password name.
          given_if (is_email email && (within 8 128 password && within 1 100 name))
            (record { email = email; password = password; display_name = name }))
        (field (λ x. x.email) b) (field (λ x. x.password) b) (field (λ x. x.display_name) b)

  abbrev pub login_schema : AuthBody → Option (String × String)
  login_schema b =
      both_texts
        (λ email password.
          given_if (is_email email && leb 1 (text_length password)) (email, password))
        (field (λ x. x.email) b) (field (λ x. x.password) b)

  abbrev refresh_of : Option String → Option String
  refresh_of none = none
  refresh_of (some t) = given_if (leb 1 (text_length t)) t

  abbrev pub refresh_schema : AuthBody → Option String
  refresh_schema b = refresh_of (field (λ x. x.refresh_token) b)

  -- `validateBody`
  abbrev checked :
      {I : Type 0}
      → Option I
      → (I → Exec Users (Reply AuthPayload))
      → Exec Users (Reply AuthPayload)
  checked none f = throw (app_error (bad_request "Validation failed"))
  checked (some input) f = f input

  abbrev responds :
      {R : Type 0} → ℕ → (R → AuthPayload) → Exec Users R → Exec Users (Reply AuthPayload)
  responds status f m = do r ← m; pure (json status (success (f r)))

  abbrev as_user :
      Result TokenClaims
      → (TokenClaims → Exec Users (Reply AuthPayload))
      → Exec Users (Reply AuthPayload)
  as_user (ok claims) f = f claims
  as_user (err e) f = throw e

  abbrev post_auth : AuthBody → String → Exec Users (Reply AuthPayload)
  post_auth b s =
      if s == "register"
      then checked (register_schema b) (λ input. responds 201 account (register service input))
      else if s == "login"
      then checked (login_schema b)
          (λ (email, password). responds 200 account (login service email password))
      else if s == "refresh"
      then checked (refresh_schema b) (λ token. responds 200 pair (refresh_tokens service token))
      else pure route_not_found

  abbrev get_auth : Option String → String → Exec Users (Reply AuthPayload)
  get_auth authorization s =
      if s == "me"
      then (λ u.
          as_user (Tokens.require_auth service.token_service (seconds u) A.headers authorization)
            (λ claims. responds 200 profile (get_profile service claims.sub)) u)
      else pure route_not_found

  -- The routes under /auth, by the segments after it.
  unfoldable pub auth_router : AuthRequest → Method → List String → Exec Users (Reply AuthPayload)
  auth_router r post (s ∷ []) = post_auth r.body s
  auth_router r get (s ∷ []) = get_auth r.authorization s
  auth_router r _ _ = pure route_not_found

  abbrev mounted : AuthRequest → List String → Exec Users (Reply AuthPayload)
  mounted r [] = pure route_not_found
  mounted r (s ∷ rest) = if s == "auth" then auth_router r r.method rest else pure route_not_found

  abbrev after_json : AuthBody → Exec Users (Reply AuthPayload) → Exec Users (Reply AuthPayload)
  after_json malformed m = throw (error "Unexpected token in JSON")
  after_json _ m = m

  unfoldable pub handle_auth : AuthRequest → Users → Reply AuthPayload × Users
  handle_auth r = async_handler (after_json r.body (mounted r r.path))
