-- ===== src/Web/Login.antt =====
-- apps/web/src/app/login/page.tsx: the state of the page and the submission of its form. Rendering is left
-- out.
pub mod Laws
use intelli_store.Prelude.{String, Bool, true, false, Option, none, some}
use intelli_store.Auth.Accounts.{AuthResult}
use intelli_store.Web.Api.{
  Gateway, Outcome, Stored, StoredSession, api_error, failed, login, register_account, resolved,
  set_stored_session,
}

pub data Mode : Type 0 where
  login_mode register_mode : Mode

pub record LoginPage : Type 0 where
  pub mode : Mode
  pub email : String
  pub password : String
  pub display_name : String
  pub error : Option String
  pub is_submitting : Bool

-- What the browser keeps beside the page: the session, and the path that it shows.
pub record Browser : Type 0 where
  pub stored : Stored
  pub location : String

abbrev other_mode : Mode → Mode
other_mode login_mode = register_mode
other_mode register_mode = login_mode

-- The button that changes between login and registration.
abbrev pub toggle_mode : LoginPage → LoginPage
toggle_mode p = record p { mode = other_mode p.mode; error = none }

abbrev session_of : AuthResult → StoredSession
session_of r = record {
  access_token = r.tokens.access_token;
  refresh_token = r.tokens.refresh_token;
  user = r.user;
}

-- What is thrown, as the page shows it.
abbrev pub message_of : {A : Type 0} → String → Outcome A → Option String
message_of otherwise (resolved a) = none
message_of otherwise (api_error message code status) = some message
message_of otherwise failed = some otherwise

-- The rest of the `try` and the `catch`.
abbrev after_sign_in : Outcome AuthResult → Browser → Browser
after_sign_in (resolved r) b = record b {
  stored = set_stored_session (session_of r) b.stored;
  location = "/dashboard";
}
after_sign_in _ b = b

module _ {D W : Type 0} (G : Gateway D W) where
  abbrev submitted : LoginPage → Stored → W → Outcome AuthResult × W
  submitted p stored w = elim p.mode [
    | login_mode ↦ login G stored p.email p.password w
    | register_mode ↦
        register_account G stored
          (record { email = p.email; password = p.password; display_name = p.display_name }) w
  ]

  -- While the request is under way the page shows no error and is submitting.
  abbrev pub before_submit : LoginPage → LoginPage
  before_submit p = record p { error = none; is_submitting = true }

  unfoldable pub handle_submit : LoginPage → Browser → W → (LoginPage × Browser) × W
  handle_submit p b w =
      let (r, w') = submitted (before_submit p) b.stored w in
      (
        (
          record (before_submit p) {
            error = message_of "Something went wrong. Please try again." r;
            is_submitting = false;
          },
          after_sign_in r b,
        ),
        w',
      )
