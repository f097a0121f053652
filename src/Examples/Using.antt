-- ===== src/Examples/Using.antt =====
-- services/auth-service and services/notification-service: one account and one inbox.
use intelli_store.Prelude.{
  ℕ, ◌+◌, leb, arith, map, List, String, ◌≡◌, refl, inr, Bool, true, false, Option, none, some, [],
  ◌∷◌, ◌==◌, filter, length, if◌then◌else◌,
}
use intelli_store.Prelude.Sorting.{insertion_postgres}
use intelli_store.Effects.{Result, error, ok, err, app_error, unauthorized}
use intelli_store.SharedTypes.{FileAccessedEvent}
use intelli_store.Queue.{acked, connect_with_retry, consume_all}
use intelli_store.Queue.Laws.{after_failures, connect_with_retry-after_failures}
use intelli_store.Analytics.{find_by_file_id, handle_file_access, last_of}
use intelli_store.Analytics.Laws.{access_count_of, consume_all-counts, last_time}
use intelli_store.Auth.Tokens.{
  IsLive, IsTokenLibrary, TokenLibrary, TokenType, access, issue_token_pair, payload, refresh,
  verify_access_token,
}
use intelli_store.Auth.Accounts.{AuthService, RegisterInput, UserRecord, Users, refresh_tokens}
use intelli_store.Auth.Accounts.Laws.{issue_token_pair-types}
use intelli_store.Auth.Routes.{AuthApp}
use intelli_store.Auth.Routes.Laws.{IsNewcomer, IsSession, handle_auth-IsSession}
use intelli_store.Notification.{Inbox, NotificationRecord, NotificationService}

-- Tokens of one user, one for each type, whatever the secret and the time.
abbrev said : TokenType → String
said access = "access"
said refresh = "refresh"

abbrev tokens : TokenLibrary
tokens = record {
  sign = λ c secret expires_in iat. said c.token_type;
  at = λ now. record {
    verify = λ token secret. some (
        payload (some "u0") (some "alice@x")
          (some (if token == "access" then access else refresh)));
  };
}

abbrev pub lifetime : String → Option ℕ
lifetime expires_in = some (if expires_in == "15m" then 900 else 604800)

abbrev auth : AuthService
auth = record {
  token_service = record {
    jwt = tokens;
    access_secret = "access-secret";
    refresh_secret = "refresh-secret";
    access_expires_in = "15m";
    refresh_expires_in = "7d";
  };
  gen_random_uuid = λ n. "u0";
  hash = λ password salt. password;
  matches = λ password hash. password == hash;
}

abbrev alice : UserRecord
alice = record {
  id = "u0";
  email = "alice@x";
  password_hash = "pw";
  display_name = "Alice";
  created_at = 1;
  updated_at = 1;
}

abbrev users : Users
users = record { rows = alice ∷ []; ids = 1; clock = 602000 }

abbrev bob : RegisterInput
bob = record { email = "bob@x"; password = "pw2"; display_name = "Bob" }

law :
    (t : TokenType)
    → IsTokenLibrary tokens lifetime (record { sub = "u0"; email = "alice@x"; token_type = t })
law access = record {
  verify-sign = λ secret expires_in iat now set life issued valid. refl;
  verify-cases = λ secret expires_in iat now other. inr refl;
}
law refresh = record {
  verify-sign = λ secret expires_in iat now set life issued valid. refl;
  verify-cases = λ secret expires_in iat now other. inr refl;
}

-- Ten minutes after the issue.
live : IsLive auth.token_service lifetime 2 602
live = record {
  access_secret_set = refl;
  refresh_secret_set = refl;
  access_life = 900;
  access_lifetime = refl;
  refresh_life = 604800;
  refresh_lifetime = refl;
  issued = omega arith;
  access_valid = omega arith;
  refresh_valid = omega arith;
}

issue_token_pair-types_example :
    let pair = issue_token_pair auth.token_service 2 "u0" "alice@x" in
    (verify_access_token auth.token_service 602 pair.access_token
      ≡ ok (record { sub = "u0"; email = "alice@x"; token_type = access }))
    × ((message : String) × (verify_access_token auth.token_service 602 pair.refresh_token
          ≡ err (app_error (unauthorized message))))
    × (refresh_tokens auth pair.refresh_token users
        ≡ (ok (issue_token_pair auth.token_service 602 "u0" "alice@x"), users))
    × ((message : String) × (refresh_tokens auth pair.access_token users
          ≡ (err (app_error (unauthorized message)), users)))
issue_token_pair-types_example =
    issue_token_pair-types auth lifetime alice 2 users law live refl refl refl

abbrev pub auth_app : AuthApp
auth_app = record {
  service = auth;
  headers = record {
    after_prefix =
        λ prefix header. some (if header == "Bearer access" then "access" else "refresh");
  };
  is_email = λ s. true;
  text_length = λ s. 9;
}

abbrev pub nobody : Users
nobody = record { rows = []; ids = 0; clock = 2000 }

abbrev pub newcomer : RegisterInput
newcomer = record { email = "alice@x"; password = "pw"; display_name = "Alice" }

pub is_newcomer : IsNewcomer auth_app newcomer nobody lifetime 602000
unfolding issue_token_pair
is_newcomer = record {
  email_ok = refl;
  password_ok = refl;
  name_ok = refl;
  some_token = refl;
  bcrypt = refl;
  access_bearer = refl;
  refresh_bearer = refl;
  jwt = law;
  live = live;
  some_id = refl;
  some_email = refl;
  free = refl;
  new_id = tt;
}

handle_auth-IsSession_example : IsSession auth_app newcomer nobody lifetime 602000
handle_auth-IsSession_example =
    handle_auth-IsSession auth_app newcomer nobody lifetime 602000 is_newcomer

abbrev inbox_row : String → String → Bool → ℕ → NotificationRecord
inbox_row id owner_id is_read created_at = record {
  id = id;
  owner_id = owner_id;
  kind = "file.uploaded";
  message = "uploaded";
  file_id = some "f";
  is_read = is_read;
  created_at = created_at;
}

abbrev pub inbox : Inbox
inbox = record {
  rows =
      inbox_row "1" "alice" false 10
      ∷ inbox_row "2" "bob" false 11
      ∷ inbox_row "3" "alice" true 12
      ∷ inbox_row "4" "alice" false 13
      ∷ [];
  ids = 4;
  clock = 20;
}

abbrev pub notifications : NotificationService
notifications = record {
  postgres = insertion_postgres;
  gen_random_uuid = λ n. "id";
  show = λ n. "n";
  list_limit = 2;
}

abbrev access_event : String → ℕ → FileAccessedEvent
access_event file_id accessed_at = record {
  file_id = file_id;
  owner_id = "alice";
  file_name = "notes.txt";
  version_id = "v";
  version_number = 1;
  accessed_at = accessed_at;
}

abbrev accesses : List FileAccessedEvent
accesses = access_event "f" 10 ∷ access_event "g" 11 ∷ access_event "f" 12 ∷ []

consume_all-counts_example :
    let (ds, rows) = consume_all handle_file_access accesses [] in
    (ds ≡ map (λ _. acked) accesses)
    × (access_count_of "f" rows ≡ 0 + length (filter (λ e. e.file_id == "f") accesses))
    × (last_of (find_by_file_id "f" rows) ≡ last_time "f" none accesses)
consume_all-counts_example = consume_all-counts "f" accesses []

-- A broker that is there from the third attempt on; the world counts the attempts.
abbrev dial : ℕ → Result String × ℕ
dial n = (if leb 2 n then ok "connection" else err (error "ECONNREFUSED"), n + 1)

connect_with_retry-after_failures_example :
    connect_with_retry dial (λ n. n) 10 0 ≡ dial (after_failures dial (λ n. n) 2 0)
unfolding after_failures
connect_with_retry-after_failures_example =
    connect_with_retry-after_failures dial (λ n. n) 2 10 0 (omega arith)
      ((error "ECONNREFUSED", refl), ((error "ECONNREFUSED", refl), tt)) refl
