-- ===== src/Http.antt =====
-- What the services' apps share: the guard of services/*/src/middleware/auth.middleware.ts, and the error
-- handlers of services/*/src/app.ts with the replies that their routes send.
use intelli_store.Prelude.{
  ℕ, String, ◌≡◌, sym, Bool, not, Option, none, some, List, leb, if◌then◌else◌,
}
use intelli_store.Effects.{
  Exec, Failure, Result, ok, err, app_error, error, never_returns, unauthorized, pure, unless,
}
use intelli_store.SharedTypes.{ApiResponse, failure}
use intelli_store.Auth.Tokens.{
  Headers, JsonWebToken, Verified, access, after_bearer, claims, token_error, verify_token,
}

-- A reply with its status: JSON, or nothing (`res.status(204).send()`). The last is the request that is
-- never answered, for a loop that never ends.
pub data Reply {ℓ} (A : Type ℓ) : Type ℓ where
  json : ℕ → ApiResponse A → Reply A
  no_body : ℕ → Reply A
  no_reply : Reply A

abbrev pub route_not_found {ℓ} : {A : Type ℓ} → Reply A
route_not_found = json 404 (failure "NOT_FOUND" "Route not found")

-- The app's error handler.
abbrev pub error_reply {ℓ} : {A : Type ℓ} → Failure → Reply A
error_reply (app_error e) = json e.status_code (failure e.code e.message)
error_reply (error message) = json 500 (failure "INTERNAL_ERROR" "Internal server error")
error_reply never_returns = no_reply

-- `asyncHandler`: what the handler throws goes to the error handler.
abbrev pub answer {ℓ} : {A : Type ℓ} → Result (Reply A) → Reply A
answer (ok reply) = reply
answer (err e) = error_reply e

abbrev pub async_handler {ℓ} : {W A : Type ℓ} → Exec W (Reply A) → W → Reply A × W
async_handler m w = let (r, w') = m w in (answer r, w')

-- What `requireAuth` puts into the request.
pub record Authenticated : Type 0 where
  pub id : String
  pub email : String
  pub bearer_token : String

abbrev authenticated : String → Verified → Result Authenticated
authenticated token (claims c) = ok (record { id = c.sub; email = c.email; bearer_token = token })
authenticated token (token_error message) = err (app_error (unauthorized message))

abbrev of_token : JsonWebToken → String → Option String → Result Authenticated
of_token jwt jwt_secret none = err (app_error (unauthorized "Missing bearer token"))
of_token jwt jwt_secret (some token) =
    authenticated token (verify_token jwt token jwt_secret access)

-- `requireAuth` of the services that only verify tokens, on the Authorization header.
unfoldable pub require_auth : Headers → JsonWebToken → String → Option String → Result Authenticated
require_auth H jwt jwt_secret header = of_token jwt jwt_secret (after_bearer H header)

-- The guard fails with an `unauthorized` error, and with no other.
pub require_auth-err :
    (H : Headers) (jwt : JsonWebToken) (jwt_secret : String) (header : Option String) {e : Failure}
    → require_auth H jwt jwt_secret header ≡ err e
    → (message : String) × (e ≡ app_error (unauthorized message))
unfolding require_auth
require_auth-err H jwt jwt_secret header {e} h = of_header (after_bearer H header) h
  where
    of_claims :
        (token : String) (v : Verified)
        → authenticated token v ≡ err e
        → (message : String) × (e ≡ app_error (unauthorized message))
    of_claims token (claims c) h = absurd (cc)
    of_claims token (token_error message) h =
        let same : app_error (unauthorized message) ≡ e = cc in (message, sym same)

    of_header :
        (t : Option String)
        → of_token jwt jwt_secret t ≡ err e
        → (message : String) × (e ≡ app_error (unauthorized message))
    of_header none h =
        let same : app_error (unauthorized "Missing bearer token") ≡ e = cc in (_, sym same)
    of_header (some token) h = of_claims token (verify_token jwt token jwt_secret access) h

pub data Method : Type 0 where
  get post : Method

-- A request without a body that anybody reads: its path as decoded segments.
pub record Call : Type 0 where
  pub method : Method
  pub path : List String
  pub authorization : Option String

-- What `express.json()` takes at most by default, its 100kb.
abbrev pub json_limit : ℕ
json_limit = 102400

-- What a request brings before its route is looked for: whether its method is OPTIONS, the bytes of its JSON
-- body, 0 where it has none, and whether they can be parsed.
pub record Sent : Type 0 where
  pub is_options : Bool
  pub body_bytes : ℕ
  pub is_json : Bool

-- `cors()` answers an OPTIONS, and `express.json()` throws at a body that it does not take; its errors are no
-- `AppError`.
abbrev pub before_routes : {W A : Type 0} → Sent → Exec W (Reply A) → Exec W (Reply A)
before_routes s m =
    if s.is_options
    then pure (no_body 204)
    else unless (not (leb s.body_bytes json_limit)) (error "request entity too large")
        (unless (not s.is_json) (error "Unexpected token in JSON") m)

-- What the routes of routes/health.route.ts send; the two times are texts, as JSON writes them.
pub record HealthPayload : Type 0 where
  pub service : String
  pub status : String
  pub uptime_seconds : String
  pub timestamp : String
