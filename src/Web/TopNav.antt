-- ===== src/Web/TopNav.antt =====
-- apps/web/src/components/TopNav.tsx: whom the navigation shows as signed in, and the log-out. Rendering is left
-- out.
use intelli_store.Prelude.{Option, none, some}
use intelli_store.SharedTypes.{User}
use intelli_store.Web.Api.{StoredSession, clear_stored_session, get_stored_session}
use intelli_store.Web.Login.{Browser}

abbrev user_in : Option StoredSession → Option User
user_in none = none
user_in (some s) = some s.user

-- The effect, which runs whenever the path has changed.
unfoldable pub shown_user : Browser → Option User
shown_user b = user_in (get_stored_session b.stored)

-- The user that the navigation shows, and the browser.
unfoldable pub handle_logout : Option User → Browser → Option User × Browser
handle_logout user b =
    (none, record b { stored = clear_stored_session b.stored; location = "/login" })
