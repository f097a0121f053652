-- ===== src/Web/Api.antt =====
-- apps/web/src/lib/api.ts and lib/auth-storage.ts: the calls that the pages make of the gateway, and the
-- stored session. `fetch` has a field for each type of body and reply; the calls for notifications
-- are in Web/Bell.
use intelli_store.Prelude.{ℕ, String, ◌<>◌, Option, none, some, List, [], ◌∷◌}
use intelli_store.SharedTypes.{User, failure, success}
use intelli_store.Http.{Call, Method, Reply, get, json, no_body, no_reply, post}
use intelli_store.Storage.Chunking.{Bytes}
use intelli_store.Storage.Routes.{UploadedFile}
use intelli_store.Metadata.Service.{FileWithLatestVersion}
use intelli_store.Auth.Accounts.{AuthResult, RegisterInput}
use intelli_store.Auth.Routes.{Fields}
use intelli_store.Analytics.Service.{FileRecommendation, OverviewResult}

-- What a call of the API resolves to, or throws: an `ApiError`, or another error, as when there is
-- no network or no JSON.
pub data Outcome {ℓ} (A : Type ℓ) : Type ℓ where
  resolved : A → Outcome A
  api_error : String → String → ℕ → Outcome A
  failed : Outcome A

abbrev pub unwrap {ℓ} : {A : Type ℓ} → Reply A → Outcome A
unwrap (json status (success a)) = resolved a
unwrap (json status (failure code message)) = api_error message code status
unwrap (no_body status) = failed
unwrap no_reply = failed

pub record StoredSession : Type 0 where
  pub access_token : String
  pub refresh_token : String
  pub user : User

-- What `localStorage` has under the key of the session: nothing, a text that is no JSON, or a session.
pub data Stored : Type 0 where
  absent unreadable : Stored
  session : StoredSession → Stored

abbrev pub get_stored_session : Stored → Option StoredSession
get_stored_session (session s) = some s
get_stored_session _ = none

-- `setStoredSession` and `clearStoredSession`, on what is stored.
abbrev pub set_stored_session : StoredSession → Stored → Stored
set_stored_session s _ = session s

abbrev pub clear_stored_session : Stored → Stored
clear_stored_session _ = absent

abbrev bearer_of : Option StoredSession → Option String
bearer_of none = none
bearer_of (some s) = some ("Bearer " <> s.access_token)

abbrev pub auth_header : Stored → Option String
auth_header stored = bearer_of (get_stored_session stored)

-- The reply to a download: the bytes of an `ok` reply, or another.
pub data Downloaded : Type 0 where
  blob : Bytes → Downloaded
  not_ok : Reply (Unit {0}) → Downloaded

-- `fetch` of the gateway, which changes a world of type `W`; `D` is the type of the scores.
pub record Gateway (D W : Type 0) : Type 0 where
  pub fetch_auth : Call → Fields → W → Reply AuthResult × W
  pub fetch_overview : Call → W → Reply (OverviewResult D) × W
  pub fetch_recommendations : Call → W → Reply (List (FileRecommendation D)) × W
  -- With the decoded `q` of the query.
  pub fetch_matches : Call → String → W → Reply (List FileWithLatestVersion) × W
  pub fetch_upload : Call → UploadedFile → W → Reply (Unit {0}) × W
  pub fetch_download : Call → W → Downloaded × W
  -- The browser saves bytes under a name.
  pub save : String → Bytes → W → W

module _ {D W : Type 0} (G : Gateway D W) (stored : Stored) where
  abbrev request_to : Method → List String → Call
  request_to method path = record {
    method = method;
    path = path;
    authorization = auth_header stored;
  }

  abbrev unwrapped : {A : Type 0} → Reply A × W → Outcome A × W
  unwrapped (reply, w) = (unwrap reply, w)

  abbrev pub register_account : RegisterInput → W → Outcome AuthResult × W
  register_account input w = unwrapped (
      G.fetch_auth (request_to post ("api" ∷ "auth" ∷ "register" ∷ []))
        (record {
          email = some input.email;
          password = some input.password;
          display_name = some input.display_name;
          refresh_token = none;
        })
        w)

  abbrev pub login : String → String → W → Outcome AuthResult × W
  login email password w = unwrapped (
      G.fetch_auth (request_to post ("api" ∷ "auth" ∷ "login" ∷ []))
        (record {
          email = some email;
          password = some password;
          display_name = none;
          refresh_token = none;
        })
        w)

  abbrev pub search_files : String → W → Outcome (List FileWithLatestVersion) × W
  search_files query w =
      unwrapped (G.fetch_matches (request_to get ("api" ∷ "files" ∷ "search" ∷ [])) query w)

  abbrev pub upload_file : UploadedFile → W → Outcome (Unit {0}) × W
  upload_file file w = unwrapped (G.fetch_upload (request_to post ("api" ∷ "storage" ∷ [])) file w)

  -- A reply that is not `ok` and has no error in it is read a second time as bytes, which throws.
  abbrev finish_download : String → Downloaded × W → Outcome (Unit {0}) × W
  finish_download file_name (blob bytes, w) = (resolved tt, G.save file_name bytes w)
  finish_download file_name (not_ok (json status (failure code message)), w) =
      (api_error message code status, w)
  finish_download file_name (not_ok _, w) = (failed, w)

  abbrev pub download_file : String → String → W → Outcome (Unit {0}) × W
  download_file file_id file_name w =
      finish_download file_name
        (G.fetch_download (request_to get ("api" ∷ "storage" ∷ file_id ∷ "download" ∷ [])) w)

  abbrev pub get_analytics_overview : W → Outcome (OverviewResult D) × W
  get_analytics_overview w =
      unwrapped (G.fetch_overview (request_to get ("api" ∷ "analytics" ∷ "overview" ∷ [])) w)

  abbrev pub get_file_recommendations : W → Outcome (List (FileRecommendation D)) × W
  get_file_recommendations w =
      unwrapped (G.fetch_recommendations (request_to get ("api" ∷ "analytics" ∷ "files" ∷ [])) w)
