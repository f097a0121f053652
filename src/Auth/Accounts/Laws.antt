-- ===== src/Auth/Accounts/Laws.antt =====
-- Registration, login and refresh, and which tokens a request may bring.
use intelli_store.Prelude.{
  ℕ, String, ◌≡◌, refl, inl, inr, ◌⊎◌, Bool, true, false, Option, none, some, List, [], ◌∷◌, ◌++◌,
  ◌==◌, All, All-append, Unique, find?, Bool-cases, Option-cases,
}
use text.Mathlib.TextPositions.{eq_refl}
use intelli_store.Effects.{ok, err, app_error, conflict, unauthorized}
use intelli_store.Auth.Tokens.{
  Decoded, IsLive, IsTokenLibrary, TokenClaims, TokenService, TokenType, access, refresh,
  issue_token_pair, of_verified, payload, same_type, token_error, verify_access_token,
  verify_refresh_token, verify_token,
}
use intelli_store.Auth.Accounts.{
  AuthResult, AuthService, RegisterInput, UserRecord, Users, auth_result, find_by_email,
  find_user_by_id, login, refresh_tokens, register, seconds, user_row,
}

pub find-none :
    {A : Type 0} (p : A → Bool) (xs : List A) → find? p xs ≡ none → All (λ x. p x ≡ false) xs
find-none p [] h = tt
find-none p (x ∷ xs) h = elim (Bool-cases (p x)) [
  | inl e ↦ absurd (let y = rw e at h in cc)
  | inr e ↦ (e, find-none p xs (rw e at h))
]

pub find-last :
    {A : Type 0} (p : A → Bool) (xs : List A) (x : A)
    → All (λ y. p y ≡ false) xs
    → p x ≡ true
    → find? p (xs ++ x ∷ []) ≡ some x
find-last p [] x h e = rw e refl
find-last p (y ∷ ys) x h e = rw h.0 (find-last p ys x h.1 e)

Unique-append :
    {A : Type 0} (key : A → String) (xs : List A) (x : A)
    → Unique key xs
    → All (λ y. (key y == key x) ≡ false) xs
    → Unique key (xs ++ x ∷ [])
Unique-append key [] x u h = (tt, tt)
Unique-append key (y ∷ ys) x u h =
    (All-append _ ys (x ∷ []) u.0 (h.0, tt), Unique-append key ys x u.1 h.1)

-- A registration either makes the account, under an email that had none, or is a conflict that
-- changes nothing. After one that returns, the email and the password log in as the same user, a
-- second registration of the email is a conflict, and no two accounts have one email. This is for a
-- table in which no two had one before, and for a `bcrypt` that accepts a password against its own
-- hash.
pub register-login :
    (S : AuthService)
    → ((password : String) (salt : ℕ) → S.matches password (S.hash password salt) ≡ true)
    → (input : RegisterInput) (u : Users) → Unique (λ r. r.email) u.rows
    → let (r, u') = register S input u in
      ((a : AuthResult) × (r ≡ ok a)
        × (find_by_email input.email u ≡ none)
        × (login S input.email input.password u' ≡ (ok a, u'))
        × ((again : RegisterInput)
            → again.email ≡ input.email
            → register S again u'
              ≡ (err (app_error (conflict "An account with this email already exists")), u'))
        × Unique (λ r. r.email) u'.rows)
      ⊎ ((r ≡ err (app_error (conflict "An account with this email already exists"))) × (u' ≡ u))
unfolding register login
register-login S accepts input u unique = elim (Option-cases (find_by_email input.email u)) [
  | inr (old, e) ↦ rw e (inr (refl, refl))
  | inl e ↦
      let free = find-none (λ r. r.email == input.email) u.rows e in
      let row = user_row S input u in
      let there = find-last (λ r. r.email == input.email) u.rows row free (eq_refl input.email) in
      rw e (
        inl (
          auth_result S row (seconds u),
          refl,
          refl,
          rw (there, accepts input.password u.ids) refl,
          λ again same. rw (same, there) refl,
          Unique-append (λ r. r.email) u.rows row unique free,
        ))
]

-- A token that says another type than the expected is refused, whether or not its signature is accepted.
refused :
    (id email : String) (t expected : TokenType) (d : Option Decoded)
    → (id == "") ≡ false
    → (email == "") ≡ false
    → same_type t expected ≡ false
    → (d ≡ none) ⊎ (d ≡ some (payload (some id) (some email) (some t)))
    → (message : String) × (of_verified d expected ≡ token_error message)
refused id email t expected d i e n (inl h) = ("Invalid or expired token", rw h refl)
refused id email t expected d i e n (inr h) = ("Malformed token", rw (h, i, e, n) refl)

module _ (S : AuthService) (lifetime : String → Option ℕ) (r : UserRecord) (iat : ℕ)
    (u : Users) where
  abbrev T : TokenService
  T = S.token_service

  abbrev claims_of : TokenType → TokenClaims
  claims_of t = record { sub = r.id; email = r.email; token_type = t }

  -- Of a pair that was issued at an earlier second for a user with an id and an email who is still there,
  -- under any two secrets, that may be one, and while both tokens are valid: the access token
  -- identifies that user to a request and the refresh token is a 401, and the refresh token gives a
  -- pair for the same user, issued now, and the access token is a 401. This is for a library that reads
  -- the tokens of this user back, and whose `verify` throws or returns the payload that was signed.
  pub issue_token_pair-types :
      ((t : TokenType) → IsTokenLibrary T.jwt lifetime (claims_of t))
      → IsLive T lifetime iat (seconds u)
      → (r.id == "") ≡ false
      → (r.email == "") ≡ false
      → find_user_by_id r.id u ≡ some r
      → let pair = issue_token_pair T iat r.id r.email in
        (verify_access_token T (seconds u) pair.access_token ≡ ok (claims_of access))
        × ((message : String) × (verify_access_token T (seconds u) pair.refresh_token
              ≡ err (app_error (unauthorized message))))
        × (refresh_tokens S pair.refresh_token u
            ≡ (ok (issue_token_pair T (seconds u) r.id r.email), u))
        × ((message : String) × (refresh_tokens S pair.access_token u
              ≡ (err (app_error (unauthorized message)), u)))
  unfolding issue_token_pair verify_access_token verify_refresh_token verify_token refresh_tokens
  issue_token_pair-types law live id email found =
      let now = seconds u in
      let opens =
        (law access).verify-sign T.access_secret T.access_expires_in iat now live.access_secret_set
          live.access_lifetime live.issued live.access_valid in
      let renews =
        (law refresh).verify-sign T.refresh_secret T.refresh_expires_in iat now
          live.refresh_secret_set live.refresh_lifetime live.issued live.refresh_valid in
      let (m, closed) = refused r.id r.email refresh access _ id email refl (
        (law refresh).verify-cases T.refresh_secret T.refresh_expires_in iat now T.access_secret) in
      let (m', stale) =
        refused r.id r.email access refresh _ id email refl (
          (law access).verify-cases T.access_secret T.access_expires_in iat now T.refresh_secret) in
      (
        rw (opens, id, email) refl,
        (m, rw closed refl),
        rw (renews, id, email, found) refl,
        (m', rw stale refl),
      )
