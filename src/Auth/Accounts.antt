-- ===== src/Auth/Accounts.antt =====
-- services/auth-service/src/services/auth.service.ts over the table of
-- services/auth-service/src/repositories/user.repository.ts.
pub mod Laws
use intelli_store.Prelude.{
  ℕ, ◌+◌, ◌/◌, String, Bool, true, false, not, Option, none, some, List, [], ◌∷◌, ◌++◌, ◌==◌, find?,
}
use intelli_store.Effects.{
  Exec, Result, app_error, conflict, unauthorized, not_found, pure, throw, unless, or_throw, ◌>>=◌,
  ◌>>◌,
}
use intelli_store.SharedTypes.{User}
use intelli_store.Auth.Tokens.{TokenPair, TokenService, issue_token_pair, verify_refresh_token}

pub record UserRecord : Type 0 where
  pub id : String
  pub email : String
  pub password_hash : String
  pub display_name : String
  pub created_at : ℕ
  pub updated_at : ℕ

pub record RegisterInput : Type 0 where
  pub email : String
  pub password : String
  pub display_name : String

pub record AuthResult : Type 0 where
  pub user : User
  pub tokens : TokenPair

-- The table, the number of ids that the database has given, and the clock, in milliseconds.
pub record Users : Type 0 where
  pub rows : List UserRecord
  pub ids : ℕ
  pub clock : ℕ

pub record AuthService : Type 0 where
  pub token_service : TokenService
  pub gen_random_uuid : ℕ → String
  -- `bcrypt.hash`, which draws its salt, here by a number, and `bcrypt.compare`.
  pub hash : String → ℕ → String
  pub matches : String → String → Bool

-- The second of a request, as the library of tokens takes it.
abbrev pub seconds : Users → ℕ
seconds u = u.clock / 1000

abbrev pub to_public_user : UserRecord → User
to_public_user r = record {
  id = r.id;
  email = r.email;
  display_name = r.display_name;
  created_at = r.created_at;
  updated_at = r.updated_at;
}

abbrev pub find_by_email : String → Users → Option UserRecord
find_by_email email u = find? (λ r. r.email == email) u.rows

abbrev pub find_user_by_id : String → Users → Option UserRecord
find_user_by_id id u = find? (λ r. r.id == id) u.rows

abbrev pub is_some : {A : Type 0} → Option A → Bool
is_some none = false
is_some (some _) = true

module _ (S : AuthService) where
  open S use {token_service, gen_random_uuid, hash, matches}

  abbrev pub user_row : RegisterInput → Users → UserRecord
  user_row input u = record {
    id = gen_random_uuid u.ids;
    email = input.email;
    password_hash = hash input.password u.ids;
    display_name = input.display_name;
    created_at = u.clock;
    updated_at = u.clock;
  }

  abbrev pub create_user : RegisterInput → Exec Users UserRecord
  create_user input u =
      pure (user_row input u) (record u { rows = u.rows ++ user_row input u ∷ []; ids = u.ids + 1 })

  abbrev pub auth_result : UserRecord → ℕ → AuthResult
  auth_result r now = record {
    user = to_public_user r;
    tokens = issue_token_pair token_service now r.id r.email;
  }

  abbrev signs_in : UserRecord → Exec Users AuthResult
  signs_in r u = pure (auth_result r (seconds u)) u

  unfoldable pub register : RegisterInput → Exec Users AuthResult
  register input = do
    existing ← λ u. pure (find_by_email input.email u) u
    unless (is_some existing) (app_error (conflict "An account with this email already exists"))
        (do r ← create_user input; signs_in r)

  unfoldable pub login : String → String → Exec Users AuthResult
  login email password = do
    found ← λ u. pure (find_by_email email u) u
    r ← or_throw found (app_error (unauthorized "Invalid email or password"))
    unless (not (matches password r.password_hash))
        (app_error (unauthorized "Invalid email or password")) (signs_in r)

  unfoldable pub refresh_tokens : String → Exec Users TokenPair
  refresh_tokens token = do
    claims ← λ u. (verify_refresh_token token_service (seconds u) token, u)
    found ← λ u. pure (find_user_by_id claims.sub u) u
    r ← or_throw found (app_error (unauthorized "User no longer exists"))
    (λ u. pure (issue_token_pair token_service (seconds u) r.id r.email) u)

  unfoldable pub get_profile : String → Exec Users User
  get_profile user_id = do
    found ← λ u. pure (find_user_by_id user_id u) u
    r ← or_throw found (app_error (not_found "User not found"))
    pure (to_public_user r)
