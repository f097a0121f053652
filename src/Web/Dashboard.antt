-- ===== src/Web/Dashboard.antt =====
-- apps/web/src/app/dashboard/page.tsx: the state of the page and its handlers. The search field is in
-- Web/Dashboard/Search; rendering is left out. The requests of `Promise.all`, which only read, run one
-- after another.
pub mod Laws
pub mod Search
use intelli_store.Prelude.{
  String, Bool, true, false, ◌||◌, Option, none, some, List, [], ◌∷◌, ◌==◌, filter,
}
use intelli_store.Storage.Routes.{UploadedFile}
use intelli_store.Analytics.Service.{FileRecommendation, OverviewResult}
use intelli_store.Web.Api.{
  Gateway, Outcome, Stored, StoredSession, api_error, download_file, failed, get_analytics_overview,
  get_file_recommendations, get_stored_session, resolved, upload_file,
}
use intelli_store.Web.Login.{message_of}

pub record DashboardPage (D : Type 0) : Type 0 where
  pub overview : Option (OverviewResult D)
  pub files : List (FileRecommendation D)
  pub is_loading : Bool
  pub error : Option String
  pub is_uploading : Bool
  pub search_query : String
  -- The ids that the server matched; `none` where nothing is searched for.
  pub matched_ids : Option (List String)

abbrev has : String → List String → Bool
has id [] = false
has id (x ∷ xs) = id == x || has id xs

abbrev shown_files :
    {D : Type 0} → Option (List String) → List (FileRecommendation D) → List (FileRecommendation D)
shown_files none files = files
shown_files (some ids) files = filter (λ f. has f.file_id ids) files

abbrev pub visible_files : {D : Type 0} → DashboardPage D → List (FileRecommendation D)
visible_files p = shown_files p.matched_ids p.files

abbrev pub show_error : {D A : Type 0} → String → Outcome A → DashboardPage D → DashboardPage D
show_error otherwise r p = record p { error = message_of otherwise r }

-- What `Promise.all` and the `catch` make of the two replies, the first that failed being shown.
abbrev pub loaded_data :
    {D : Type 0}
    → Outcome (OverviewResult D)
    → Outcome (List (FileRecommendation D))
    → DashboardPage D
    → DashboardPage D
loaded_data (resolved o) (resolved files) p = record p { overview = some o; files = files }
loaded_data (resolved o) r p = show_error "Failed to load dashboard data." r p
loaded_data r _ p = show_error "Failed to load dashboard data." r p

module _ {D W : Type 0} (G : Gateway D W) (stored : Stored) where
  unfoldable pub load_data : DashboardPage D → W → DashboardPage D × W
  load_data p w =
      let (o, w₁) = get_analytics_overview G stored w in
      let (files, w₂) = get_file_recommendations G stored w₁ in
      (record (loaded_data o files (record p { error = none })) { is_loading = false }, w₂)

  -- The effect of the first rendering, with the path that the browser shows.
  abbrev first_load :
      Option StoredSession → DashboardPage D → String → W → (DashboardPage D × String) × W
  first_load none p location w = ((p, "/login"), w)
  first_load (some s) p location w = let (p', w') = load_data p w in ((p', location), w')

  unfoldable pub open_dashboard : DashboardPage D → String → W → (DashboardPage D × String) × W
  open_dashboard = first_load (get_stored_session stored)

  -- Of a download that succeeds the page keeps the error that it showed.
  abbrev after_download : Outcome (Unit {0}) → DashboardPage D → DashboardPage D
  after_download (resolved _) p = p
  after_download r p = show_error "Download failed." r p

  unfoldable pub handle_download : String → String → DashboardPage D → W → DashboardPage D × W
  handle_download file_id file_name p w =
      let (r, w') = download_file G stored file_id file_name w in (after_download r p, w')

  -- What follows the upload in the `try`, or the `catch`.
  abbrev pub then_load_data : Outcome (Unit {0}) × W → DashboardPage D → DashboardPage D × W
  then_load_data (resolved _, w) p = load_data p w
  then_load_data (r, w) p = (show_error "Upload failed." r p, w)

  abbrev send_file : UploadedFile → DashboardPage D → W → DashboardPage D × W
  send_file file p w =
      let (p', w') =
        then_load_data (upload_file G stored file w)
          (record p { is_uploading = true; error = none }) in
      (record p' { is_uploading = false }, w')

  unfoldable pub handle_file_selected :
      Option UploadedFile → DashboardPage D → W → DashboardPage D × W
  handle_file_selected none p w = (p, w)
  handle_file_selected (some file) p w = send_file file p w
