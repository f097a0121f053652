-- ===== src/Effects.antt =====
-- services/*/src/errors/app-error.ts, and what an async function does: it may throw, and it may
-- change the world on the way, also before it throws.
use intelli_store.Prelude.{
  ℕ, String, ◌≡◌, refl, Bool, true, false, Option, none, some, ◌⊎◌, inl, inr,
}

-- An `AppError` carries the status and the code of the reply. Its `details`, which only `validateBody`
-- fills, are left out.
pub record AppError : Type 0 where
  pub status_code : ℕ
  pub code : String
  pub message : String

abbrev pub bad_request : String → AppError
bad_request m = record { status_code = 400; code = "BAD_REQUEST"; message = m }

abbrev pub unauthorized : String → AppError
unauthorized m = record { status_code = 401; code = "UNAUTHORIZED"; message = m }

abbrev pub not_found : String → AppError
not_found m = record { status_code = 404; code = "NOT_FOUND"; message = m }

abbrev pub conflict : String → AppError
conflict m = record { status_code = 409; code = "CONFLICT"; message = m }

abbrev pub bad_gateway : String → AppError
bad_gateway m = record { status_code = 502; code = "BAD_GATEWAY"; message = m }

abbrev pub integrity_failure : String → AppError
integrity_failure m = record { status_code = 500; code = "CHECKSUM_MISMATCH"; message = m }

-- What is thrown: an `AppError`, or any other `Error` with its message.
pub data Failure : Type 0 where
  app_error : AppError → Failure
  error : String → Failure
  -- Not thrown: it stands for a loop that never ends, and no `try` of the source is around one.
  never_returns : Failure

pub data Result {ℓ} (A : Type ℓ) : Type ℓ where
  ok : A → Result A
  err : Failure → Result A

abbrev pub map_ok {ℓ κ} : {A : Type ℓ} {B : Type κ} → (A → B) → Result A → Result B
map_ok f (ok a) = ok (f a)
map_ok f (err e) = err e

-- An async function over a world of type `W`.
abbrev pub Exec {ℓ κ} : Type ℓ → Type κ → Type (ℓ ⊔ κ)
Exec W A = W → Result A × W

module _ {ℓ} {W A : Type ℓ} where
  abbrev pub pure : A → Exec W A
  pure a w = (ok a, w)

  abbrev pub throw : Failure → Exec W A
  throw e w = (err e, w)

  -- `try { return await m } catch (err) { … }`, the handler being given the error.
  abbrev pub continue_catch : (Failure → Exec W A) → Result A × W → Result A × W
  continue_catch h (ok a, w) = (ok a, w)
  continue_catch h (err e, w) = h e w

  abbrev pub catch : Exec W A → (Failure → Exec W A) → Exec W A
  catch m h w = continue_catch h (m w)

  -- `if (test) throw e`, before the rest.
  abbrev pub unless : Bool → Failure → Exec W A → Exec W A
  unless true e m = throw e
  unless false e m = m

  abbrev pub or_throw : Option A → Failure → Exec W A
  or_throw none e = throw e
  or_throw (some a) e = pure a

module _ {ℓ} {W A B : Type ℓ} where
  abbrev pub continue : Result A × W → (A → Exec W B) → Result B × W
  continue (ok a, w) f = f a w
  continue (err e, w) f = (err e, w)

  infixl 5 ◌>>=◌ ◌>>◌
  abbrev pub ◌>>=◌ : Exec W A → (A → Exec W B) → Exec W B
  ◌>>=◌ m f w = continue (m w) f

  abbrev pub ◌>>◌ : Exec W A → Exec W B → Exec W B
  m >> n = m >>= λ _. n

  -- What a chain that returned says of its first step.
  pub >>=-eq-ok :
      (m : Exec W A) (f : A → Exec W B) (w : W) {b : B}
      → ((m >>= f) w).0 ≡ ok b
      → (a : A) × ((m w).0 ≡ ok a) × ((m >>= f) w ≡ f a (m w).1)
  >>=-eq-ok m f w {b} = split (m w)
    where
      split :
          (r : Result A × W)
          → (continue r f).0 ≡ ok b
          → (a : A) × (r.0 ≡ ok a) × (continue r f ≡ f a r.1)
      split (ok a, v) h = (a, refl, refl)
      split (err e, v) h = absurd (cc)

pub Result-cases {ℓ} :
    {A : Type ℓ} (r : Result A) → ((a : A) × (r ≡ ok a)) ⊎ ((x : Failure) × (r ≡ err x))
Result-cases (ok a) = inl (a, refl)
Result-cases (err x) = inr (x, refl)
