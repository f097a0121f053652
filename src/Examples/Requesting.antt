-- ===== src/Examples/Requesting.antt =====
-- Requests over HTTP: bob deletes his file, somebody without a token asks for a list, and alice marks
-- her notifications as read.
use intelli_store.Prelude.{
  All, filter, length, ◌≤◌, ◌<>◌, String, ◌≡◌, refl, ◌⊎◌, subst, none, some, [], ◌∷◌, true, false,
  ◌==◌,
}
use intelli_store.SharedTypes.{failure}
use intelli_store.Auth.Tokens.{access, payload, verify_token}
use intelli_store.Effects.{ok}
use intelli_store.Http.{Authenticated, json, no_body, require_auth}
use intelli_store.Metadata.Routes.{App, Request, delete, get, handle, other}
use intelli_store.Metadata.Routes.Laws.{handle-Keeps, handle-unauthorized}
use intelli_store.Metadata.Service.Isolation.{Keeps}
use intelli_store.Notification.{owned, unread_count}
use intelli_store.Notification.Routes.{NotificationApp}
use intelli_store.Gateway.{Upstreams}
use intelli_store.Web.Api.{StoredSession, session}
use intelli_store.Web.Bell.{Bell, handle_mark_all}
use intelli_store.Web.Bell.Laws.{handle_mark_all-clears, send}
use intelli_store.Examples.Using.{inbox, notifications}
use intelli_store.Examples.Cataloguing.{database, engine}

-- A header is a token, and a token a user's id.
abbrev app : App
app = record {
  engine = engine;
  jwt = record {
    verify = λ token secret. some (payload (some token) (some "bob@x") (some access));
  };
  headers = record { after_prefix = λ prefix header. some header };
  jwt_secret = "secret";
  text_length = λ s. 1;
  to_integer = λ s. some 1;
  uptime = λ d. "12.5";
  iso_now = λ d. "2025-01-01T00:00:00.000Z";
}

abbrev delete_b : Request
delete_b = record {
  method = delete;
  path = "files" ∷ "b" ∷ [];
  q = none;
  authorization = some "bob";
  body = other;
}

abbrev anonymous : Request
anonymous = record {
  method = get;
  path = "files" ∷ [];
  q = none;
  authorization = none;
  body = other;
}

abbrev bob_user : Authenticated
bob_user = record { id = "bob"; email = "bob@x"; bearer_token = "bob" }

bob : (u : Authenticated) → ok bob_user ≡ ok u → (u.id == "alice") ≡ false
bob u h = let same : bob_user ≡ u = cc in subst (λ x. (x.id == "alice") ≡ false) same refl

handle-Keeps_example : Keeps "alice" database (handle app delete_b database).1
unfolding require_auth verify_token
handle-Keeps_example =
    handle-Keeps app "alice" database delete_b ((refl, (refl, tt)), ((refl, tt), (tt, tt)))
      (refl, (refl, (refl, tt))) bob

handle-unauthorized_example :
    ((false ≡ true) × (handle app anonymous database ≡ (no_body 204, database)))
    ⊎ ((false ≡ true)
        × (handle app anonymous database
            ≡ (json 500 (failure "INTERNAL_ERROR" "Internal server error"), database)))
    ⊎ ((message : String) × (handle app anonymous database
          ≡ (json 401 (failure "UNAUTHORIZED" message), database)))
unfolding require_auth
handle-unauthorized_example = handle-unauthorized app anonymous [] database refl refl

abbrev notification_app : NotificationApp
notification_app = record {
  service = notifications;
  jwt = record {
    verify = λ token secret. some (payload (some "alice") (some "alice@x") (some access));
  };
  headers = record { after_prefix = λ prefix header. some header };
  jwt_secret = "secret";
}

abbrev upstreams : Upstreams
upstreams = record {
  auth = "http://localhost:4001";
  metadata = "http://localhost:4002";
  storage = "http://localhost:4003";
  replication = "http://localhost:4004";
  ai_analytics = "http://localhost:4005";
  notification = "http://localhost:4006";
}

abbrev alice : Authenticated
alice = record { id = "alice"; email = "alice@x"; bearer_token = "Bearer t" }

signed :
    require_auth notification_app.headers notification_app.jwt "secret" (some ("Bearer " <> "t"))
    ≡ ok alice
unfolding require_auth verify_token
signed = refl

abbrev bell : Bell
bell = record { is_open = true; notifications = []; unread = 2 }

abbrev stored : StoredSession
stored = record {
  access_token = "t";
  refresh_token = "r";
  user = record {
    id = "alice";
    email = "alice@x";
    display_name = "Alice";
    created_at = 1;
    updated_at = 1;
  };
}

handle_mark_all-clears_example :
    let (b', i') = handle_mark_all (session stored) (send notification_app upstreams) bell inbox in
    (b'.unread ≡ 0)
    × (unread_count "alice" i' ≡ 0)
    × (length b'.notifications ≤ 2)
    × All (λ n. n.owner_id ≡ "alice") b'.notifications
    × (b'.is_open ≡ true)
    × ((other : String)
        → ("alice" == other) ≡ false
        → filter (owned other) i'.rows ≡ filter (owned other) inbox.rows)
handle_mark_all-clears_example =
    handle_mark_all-clears notification_app upstreams stored alice signed bell inbox
