-- ===== src/Web/Login/Laws.antt =====
-- The login page, the gateway and the auth service together.
use text.Mathlib.TextPositions.{eq_refl}
use intelli_store.Prelude.{ℕ, String, ◌≡◌, refl, false, Option, none, some, ◌==◌, if◌then◌else◌}
use intelli_store.SharedTypes.{failure, success}
use intelli_store.Http.{Call, Reply, json, no_body, no_reply}
use intelli_store.Auth.Accounts.{AuthResult, RegisterInput, Users, seconds}
use intelli_store.Auth.Routes.{AuthApp, AuthPayload, Fields, account, fields, handle_auth, profile}
use intelli_store.Auth.Routes.Laws.{
  IsNewcomer, handle_auth-IsSession, later, me_request, result_at, with_row,
}
use intelli_store.Gateway.{Upstreams, mount_proxies}
use intelli_store.Web.Api.{Gateway, StoredSession, session}
use intelli_store.Web.Login.{Browser, LoginPage, Mode, handle_submit, login_mode, register_mode}

abbrev as_account : Reply AuthPayload → Reply AuthResult
as_account (json status (success (account a))) = json status (success a)
as_account (json status (success p)) = no_body status
as_account (json status (failure code message)) = json status (failure code message)
as_account (no_body status) = no_body status
as_account no_reply = no_reply

module _ {D : Type 0} (A : AuthApp) (ups : Upstreams) (G : Gateway D Users) where
  -- Of the services behind the gateway, the auth service is up.
  abbrev auth_upstream : Fields → String → Call → Users → Option (Reply AuthPayload) × Users
  auth_upstream f target c u =
      let (r, u') =
        handle_auth A
          (record {
            method = c.method;
            path = c.path;
            authorization = c.authorization;
            body = fields f;
          })
          u in
      if target == ups.auth then (some r, u') else (none, u)

  -- The requests go through the gateway, their bodies are below the services' limit of 100kb, and its rate limit lets them through.
  unfoldable pub auth_gateway : Gateway D Users
  auth_gateway = record G {
    fetch_auth =
        λ c f u. let (r, u') = mount_proxies ups (auth_upstream f) false c u in (as_account r, u');
  }

  module _ (input : RegisterInput) (u : Users) where
    abbrev filled : Mode → LoginPage → LoginPage
    filled mode p = record p {
      mode = mode;
      email = input.email;
      password = input.password;
      display_name = input.display_name;
    }

    -- The session with the tokens of a second.
    abbrev pub session_at : ℕ → StoredSession
    session_at now =
        let r = result_at A input u now in
        record {
          access_token = r.tokens.access_token;
          refresh_token = r.tokens.refresh_token;
          user = r.user;
        }

    abbrev on_dashboard : ℕ → Browser
    on_dashboard now = record { stored = session (session_at now); location = "/dashboard" }

    module _ (lifetime : String → Option ℕ) (clock : ℕ) where
      abbrev then_on : Users
      then_on = later A input u lifetime clock

      -- From any state of the page and of the browser: registration opens the dashboard with a session
      -- whose access token the service knows later; so does a login later, and a second registration
      -- only shows why it is refused. The page is never left submitting.
      pub record IsSignedUp (p : LoginPage) (b : Browser) : Type 0 where
        pub registers : handle_submit auth_gateway (filled register_mode p) b u ≡ (
          (
            record (filled register_mode p) { error = none; is_submitting = false },
            on_dashboard (seconds u),
          ),
          with_row A input u,
        )
        pub logs_in : handle_submit auth_gateway (filled login_mode p) b then_on ≡ (
          (
            record (filled login_mode p) { error = none; is_submitting = false },
            on_dashboard (seconds then_on),
          ),
          then_on,
        )
        pub refused : handle_submit auth_gateway (filled register_mode p) b then_on ≡ (
          (
            record (filled register_mode p) {
              error = some "An account with this email already exists";
              is_submitting = false;
            },
            b,
          ),
          then_on,
        )
        pub known :
            handle_auth A (me_request (session_at (seconds u)).access_token) then_on
            ≡ (json 200 (success (profile (session_at (seconds u)).user)), then_on)

      -- When the auth service is up and the rate limit lets the requests through, for an input that the
      -- schema accepts under a new email, with two secrets that are not empty, and for a later time at
      -- which the tokens of the registration are valid, whatever the page and the browser were before:
      -- submitting the registration stores the new session and opens the dashboard, and later its
      -- access token is still known to /auth/me; a login then with the same email and password stores
      -- a session of the same user with tokens of that time; a second registration shows the conflict
      -- and leaves the browser as it is. Afterwards the page is not submitting.
      pub handle_submit-IsSignedUp :
          IsNewcomer A input u lifetime clock → (p : LoginPage) (b : Browser) → IsSignedUp p b
      unfolding handle_submit auth_gateway mount_proxies
      handle_submit-IsSignedUp n p b =
          let s = handle_auth-IsSession A input u lifetime clock n in
          record {
            registers = rw (eq_refl ups.auth, s.registered) refl;
            logs_in = rw (eq_refl ups.auth, s.logged_in) refl;
            refused = rw (eq_refl ups.auth, s.conflicts) refl;
            known = s.me;
          }
