-- ===== src/Web/Dashboard/Laws.antt =====
-- How the dashboard stands after an upload.
use intelli_store.Prelude.{String, ◌≡◌, refl, inl, inr, ◌⊎◌, true, false, none, some, List}
use intelli_store.Storage.Routes.{UploadedFile}
use intelli_store.Analytics.Service.{FileRecommendation, OverviewResult}
use intelli_store.Web.Api.{
  Gateway, Outcome, Stored, api_error, failed, get_analytics_overview, get_file_recommendations,
  resolved, upload_file,
}
use intelli_store.Web.Dashboard.{
  DashboardPage, then_load_data, handle_file_selected, load_data, loaded_data,
}

module _ {D W : Type 0} (G : Gateway D W) (stored : Stored) where
  -- A page that loaded shows what the two requests gave; otherwise it shows an error beside what it had.
  abbrev pub IsLoaded : DashboardPage D → W → DashboardPage D → Type 0
  IsLoaded p w p' =
      ((o : OverviewResult D) × (files : List (FileRecommendation D)) × ((get_analytics_overview G
            stored w).0
          ≡ resolved o)
        × ((get_file_recommendations G stored (get_analytics_overview G stored w).1).0
            ≡ resolved files)
        × (p'.error ≡ none)
        × (p'.overview ≡ some o)
        × (p'.files ≡ files))
      ⊎ ((message : String) × (p'.error ≡ some message)
          × (p'.overview ≡ p.overview)
          × (p'.files ≡ p.files))

  -- Of a load, with what it leaves of the search.
  abbrev IsLoad : DashboardPage D → W → DashboardPage D → Type 0
  IsLoad p w p' =
      IsLoaded p w p' × (p'.search_query ≡ p.search_query) × (p'.matched_ids ≡ p.matched_ids)

  load_data-IsLoad : (p : DashboardPage D) (w : W) → IsLoad p w (load_data G stored p w).0
  unfolding load_data
  load_data-IsLoad p w = go _ _ refl refl
    where
      go :
          (o : Outcome (OverviewResult D)) (files : Outcome (List (FileRecommendation D)))
          → (get_analytics_overview G stored w).0 ≡ o
          → (get_file_recommendations G stored (get_analytics_overview G stored w).1).0 ≡ files
          → IsLoad p w
              (record (loaded_data o files (record p { error = none })) { is_loading = false })
      go (resolved o) (resolved files) e f = (inl (o, files, e, f, refl, refl, refl), refl, refl)
      go (resolved o) (api_error m c s) e f = (inr (m, refl, refl, refl), refl, refl)
      go (resolved o) failed e f = (inr (_, refl, refl, refl), refl, refl)
      go (api_error m c s) files e f = (inr (m, refl, refl, refl), refl, refl)
      go failed files e f = (inr (_, refl, refl, refl), refl, refl)

  -- After a file was chosen the page is not uploading, and its search is as it was. Either the upload
  -- and both requests after it succeeded, and the page shows what they gave and no error; or it shows
  -- an error, and the overview and the files that it had.
  pub handle_file_selected-IsLoaded :
      (file : UploadedFile) (p : DashboardPage D) (w : W)
      → let (sent, w₁) = upload_file G stored file w in
        let (p', w₂) = handle_file_selected G stored (some file) p w in
        (p'.is_uploading ≡ false)
        × (p'.search_query ≡ p.search_query)
        × (p'.matched_ids ≡ p.matched_ids)
        × (((sent ≡ resolved tt) × IsLoaded p w₁ p')
            ⊎ ((message : String) × (p'.error ≡ some message)
                × (p'.overview ≡ p.overview)
                × (p'.files ≡ p.files)
                × (w₂ ≡ w₁)))
  unfolding handle_file_selected
  handle_file_selected-IsLoaded file p w =
      let (query, matched, sent) = go _ refl in (refl, query, matched, sent)
    where
      go :
          (r : Outcome (Unit {0}))
          → (upload_file G stored file w).0 ≡ r
          → let (p', w₂) =
              then_load_data G stored
                (r, (upload_file G stored file w).1)
                (record p { is_uploading = true; error = none }) in
            (p'.search_query ≡ p.search_query)
            × (p'.matched_ids ≡ p.matched_ids)
            × (((r ≡ resolved tt) × IsLoaded p (upload_file G stored file w).1 p')
                ⊎ ((message : String) × (p'.error ≡ some message)
                    × (p'.overview ≡ p.overview)
                    × (p'.files ≡ p.files)
                    × (w₂ ≡ (upload_file G stored file w).1)))
      go (resolved u) e =
          let (loaded, query, matched) =
            load_data-IsLoad (record p { is_uploading = true; error = none })
              (upload_file G stored file w).1 in
          (query, matched, inl (refl, loaded))
      go (api_error m c s) e = (refl, refl, inr (m, refl, refl, refl, refl))
      go failed e = (refl, refl, inr (_, refl, refl, refl, refl))
