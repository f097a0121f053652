-- ===== src/Auth/Tokens.antt =====
-- packages/shared-auth/src/index.ts, services/auth-service/src/services/token.service.ts and
-- services/auth-service/src/middleware/auth.middleware.ts, over a library of JSON web tokens.
use intelli_store.Prelude.{
  ℕ, ◌+◌, ◌≤◌, ◌<◌, ◌⊎◌, String, Bool, true, false, ◌&&◌, not, Option, none, some, ◌==◌,
  if◌then◌else◌, ◌≡◌,
}
use intelli_store.Effects.{Result, ok, err, app_error, unauthorized}

pub data TokenType : Type 0 where
  access refresh : TokenType

pub record TokenClaims : Type 0 where
  pub sub : String
  pub email : String
  pub token_type : TokenType

-- What a verified token holds: a text, or an object whose fields may be missing.
pub data Decoded : Type 0 where
  text : String → Decoded
  payload : Option String → Option String → Option TokenType → Decoded

-- `jwt.verify` at the time of a request; `none` where it throws.
pub record JsonWebToken : Type 0 where
  pub verify : String → String → Option Decoded

-- The library: `jwt.sign` of claims under a secret, with an `expiresIn` and at a second, which it writes into the
-- token as `iat`, and `jwt.verify` at each second.
pub record TokenLibrary : Type 0 where
  pub sign : TokenClaims → String → String → ℕ → String
  pub at : ℕ → JsonWebToken

-- `startsWith` and `slice` on a header: what follows the prefix, where it is one.
pub record Headers : Type 0 where
  pub after_prefix : String → String → Option String

abbrev pub payload_of : TokenClaims → Decoded
payload_of c = payload (some c.sub) (some c.email) (some c.token_type)

-- What is documented of the library, for one user's claims, `lifetime` being what an `expiresIn` says in seconds: under
-- its secret, which is not empty, a token is read back from its `iat` until it expires; whatever the
-- secret and the time are, `verify` throws or returns the payload.
pub record IsTokenLibrary (L : TokenLibrary) (lifetime : String → Option ℕ) (c : TokenClaims)
    : Type 0 where
  pub verify-sign :
      (secret expires_in : String) (iat now : ℕ) {life : ℕ}
      → (secret == "") ≡ false
      → lifetime expires_in ≡ some life
      → iat ≤ now
      → now < iat + life
      → (L.at now).verify (L.sign c secret expires_in iat) secret ≡ some (payload_of c)
  pub verify-cases :
      (secret expires_in : String) (iat now : ℕ) (other : String)
      → ((L.at now).verify (L.sign c secret expires_in iat) other ≡ none)
        ⊎ ((L.at now).verify (L.sign c secret expires_in iat) other ≡ some (payload_of c))

abbrev pub same_type : TokenType → TokenType → Bool
same_type access access = true
same_type refresh refresh = true
same_type _ _ = false

-- `TokenError`, by its message.
pub data Verified : Type 0 where
  claims : TokenClaims → Verified
  token_error : String → Verified

-- `!sub || !email || type !== expectedType`: an empty text counts as missing.
abbrev pub of_payload : Decoded → TokenType → Verified
of_payload (payload (some sub) (some email) (some t)) expected =
    if not (sub == "") && (not (email == "") && same_type t expected)
    then claims (record { sub = sub; email = email; token_type = t })
    else token_error "Malformed token"
of_payload _ expected = token_error "Malformed token"

abbrev pub of_verified : Option Decoded → TokenType → Verified
of_verified none expected = token_error "Invalid or expired token"
of_verified (some d) expected = of_payload d expected

pub record TokenPair : Type 0 where
  pub access_token : String
  pub refresh_token : String

pub record TokenService : Type 0 where
  pub jwt : TokenLibrary
  pub access_secret : String
  pub refresh_secret : String
  pub access_expires_in : String
  pub refresh_expires_in : String

unfoldable pub verify_token : JsonWebToken → String → String → TokenType → Verified
verify_token J token secret expected = of_verified (J.verify token secret) expected

abbrev pub unauthorized_on_error : Verified → Result TokenClaims
unauthorized_on_error (claims c) = ok c
unauthorized_on_error (token_error message) = err (app_error (unauthorized message))

-- `extractBearerToken`, of a header that may be missing.
abbrev pub after_bearer : Headers → Option String → Option String
after_bearer H none = none
after_bearer H (some header) = H.after_prefix "Bearer " header

module _ (T : TokenService) where
  open T use {jwt, access_secret, refresh_secret, access_expires_in, refresh_expires_in}

  -- At a second.
  unfoldable pub issue_token_pair : ℕ → String → String → TokenPair
  issue_token_pair now id email = record {
    access_token =
        jwt.sign (record { sub = id; email = email; token_type = access }) access_secret
          access_expires_in now;
    refresh_token =
        jwt.sign (record { sub = id; email = email; token_type = refresh }) refresh_secret
          refresh_expires_in now;
  }

  unfoldable pub verify_access_token : ℕ → String → Result TokenClaims
  verify_access_token now token =
      unauthorized_on_error (verify_token (jwt.at now) token access_secret access)

  unfoldable pub verify_refresh_token : ℕ → String → Result TokenClaims
  verify_refresh_token now token =
      unauthorized_on_error (verify_token (jwt.at now) token refresh_secret refresh)

  -- `requireAuth`: the user of the request.
  abbrev pub bearer : ℕ → Option String → Result TokenClaims
  bearer now none = err (app_error (unauthorized "Missing bearer token"))
  bearer now (some token) = verify_access_token now token

  unfoldable pub require_auth : ℕ → Headers → Option String → Result TokenClaims
  require_auth now H header = bearer now (after_bearer H header)

-- A pair that was issued at one second is still valid at another.
pub record IsLive (T : TokenService) (lifetime : String → Option ℕ) (iat now : ℕ) : Type 0 where
  pub access_secret_set : (T.access_secret == "") ≡ false
  pub refresh_secret_set : (T.refresh_secret == "") ≡ false
  pub access_life : ℕ
  pub access_lifetime : lifetime T.access_expires_in ≡ some access_life
  pub refresh_life : ℕ
  pub refresh_lifetime : lifetime T.refresh_expires_in ≡ some refresh_life
  pub issued : iat ≤ now
  pub access_valid : now < iat + access_life
  pub refresh_valid : now < iat + refresh_life
