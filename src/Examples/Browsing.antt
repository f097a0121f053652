-- ===== src/Examples/Browsing.antt =====
-- The pages of the web application: alice signs up, uploads a file and searches for it.
use intelli_store.Prelude.{
  ℕ, ◌+◌, ◌≤◌, String, ◌≡◌, refl, ◌⊎◌, false, true, none, some, [], ◌∷◌, ◌==◌, All,
}
use intelli_store.SharedTypes.{success}
use intelli_store.Http.{json, no_body}
use intelli_store.Storage.Routes.{UploadedFile}
use intelli_store.Gateway.{Upstreams}
use intelli_store.Web.Api.{Gateway, absent, blob, resolved, upload_file}
use intelli_store.Web.Login.{Browser, LoginPage, login_mode}
use intelli_store.Web.Login.Laws.{IsSignedUp, handle_submit-IsSignedUp}
use intelli_store.Web.Dashboard.{DashboardPage, handle_file_selected, visible_files}
use intelli_store.Web.Dashboard.Laws.{IsLoaded, handle_file_selected-IsLoaded}
use intelli_store.Web.Dashboard.Search.{
  Pending, SearchReach, Searching, fires, replies, reply_to, set_search_query, start, step, types,
}
use intelli_store.Web.Dashboard.Search.Laws.{AsksFor, SearchReach-IsCurrent, live_count}
use intelli_store.Examples.Using.{auth_app, is_newcomer, lifetime, newcomer, nobody}

-- A gateway whose other requests are all answered, and which counts the uploads and the downloads.
abbrev gateway : {W : Type 0} → (W → W) → Gateway ℕ W
gateway tick = record {
  fetch_auth = λ c f w. (no_body 502, w);
  fetch_overview = λ c w. (no_body 502, w);
  fetch_recommendations = λ c w. (json 200 (success []), w);
  fetch_matches = λ c q w. (json 200 (success []), w);
  fetch_upload = λ c file w. (json 201 (success tt), tick w);
  fetch_download = λ c w. (blob [], w);
  save = λ name bytes w. tick w;
}

abbrev upstreams : Upstreams
upstreams = record {
  auth = "auth:4001";
  metadata = "metadata:4002";
  storage = "storage:4003";
  replication = "replication:4004";
  ai_analytics = "analytics:4005";
  notification = "notification:4006";
}

abbrev form : LoginPage
form = record {
  mode = login_mode;
  email = "";
  password = "";
  display_name = "";
  error = some "Invalid email or password";
  is_submitting = false;
}

abbrev browser : Browser
browser = record { stored = absent; location = "/login" }

handle_submit-IsSignedUp_example :
    IsSignedUp auth_app upstreams (gateway (λ u. u)) newcomer nobody lifetime 602000 form browser
handle_submit-IsSignedUp_example =
    handle_submit-IsSignedUp auth_app upstreams (gateway (λ u. u)) newcomer nobody lifetime 602000
      is_newcomer form browser

abbrev dashboard : DashboardPage ℕ
dashboard = record {
  overview = none;
  files = [];
  is_loading = false;
  error = none;
  is_uploading = false;
  search_query = "";
  matched_ids = none;
}

abbrev notes : UploadedFile
notes = record { original_name = "notes.txt"; mime_type = "text/plain"; buffer = 1 ∷ 2 ∷ [] }

handle_file_selected-IsLoaded_example :
    let G = gateway (λ n. n + 1) in
    let (sent, w₁) = upload_file G absent notes 0 in
    let (p', w₂) = handle_file_selected G absent (some notes) dashboard 0 in
    (p'.is_uploading ≡ false)
    × (p'.search_query ≡ "")
    × (p'.matched_ids ≡ none)
    × (((sent ≡ resolved tt) × IsLoaded G absent dashboard w₁ p')
        ⊎ ((message : String) × (p'.error ≡ some message)
            × (p'.overview ≡ none)
            × (p'.files ≡ [])
            × (w₂ ≡ w₁)))
handle_file_selected-IsLoaded_example =
    handle_file_selected-IsLoaded (gateway (λ n. n + 1)) absent notes dashboard 0

abbrev trim : String → String
trim text = text

abbrev idle : Searching ℕ
idle = record { page = dashboard; pending = [] }

-- One text is typed, its request is sent, another text is typed, and then the reply comes.
abbrev asked : Pending
asked = record { query = "no"; cancelled = false; sent = false }

abbrev stale : Pending
stale = record { query = "no"; cancelled = true; sent = true }

abbrev after_typing : Searching ℕ
after_typing = record {
  page = record dashboard { search_query = "note" };
  pending = record { query = "note"; cancelled = false; sent = false } ∷ [];
}

typed_and_answered : SearchReach trim idle after_typing
unfolding set_search_query reply_to
typed_and_answered =
    step (step (step (step start (types "no")) (fires [] [] asked refl)) (types "note")) (
      replies [] (record { query = "note"; cancelled = false; sent = false } ∷ []) stale
        (resolved []) refl refl)

SearchReach-IsCurrent_example :
    All (AsksFor trim "note") after_typing.pending
    × (live_count after_typing.pending ≤ 1)
    × (("note" == "") ≡ true → visible_files after_typing.page ≡ [])
SearchReach-IsCurrent_example =
    SearchReach-IsCurrent trim idle after_typing refl refl typed_and_answered
