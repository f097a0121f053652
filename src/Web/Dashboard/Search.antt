-- ===== src/Web/Dashboard/Search.antt =====
-- The search field of apps/web/src/app/dashboard/page.tsx: the effect that runs when the text changes, its timer and
-- the replies, in whatever order they come.
pub mod Laws
use intelli_store.Prelude.{
  String, ◌≡◌, Bool, true, false, Option, none, some, List, [], ◌∷◌, ◌++◌, map, ◌==◌, if◌then◌else◌,
}
use intelli_store.Metadata.Service.{FileWithLatestVersion}
use intelli_store.Web.Api.{Outcome, api_error, failed, resolved}
use intelli_store.Web.Dashboard.{DashboardPage, show_error}

-- A run of the effect that set its timer: its query, the variable `cancelled`, and whether the timer has
-- gone off, so that the request is under way.
pub record Pending : Type 0 where
  pub query : String
  pub cancelled : Bool
  pub sent : Bool

pub record Searching (D : Type 0) : Type 0 where
  pub page : DashboardPage D
  pub pending : List Pending

-- The cleanup: a timer that has not gone off is cleared.
abbrev cancel_all : List Pending → List Pending
cancel_all [] = []
cancel_all (p ∷ ps) =
    let rest = cancel_all ps in if p.sent then record p { cancelled = true } ∷ rest else rest

abbrev ids_of : List FileWithLatestVersion → List String
ids_of = map λ r. r.file.id

module _ {D : Type 0} (trim : String → String) where
  -- The effect, for a query that is not empty, and for one that is.
  abbrev search_effect : String → DashboardPage D → List Pending → Searching D
  search_effect query p ps =
      if query == ""
      then record { page = record p { matched_ids = none }; pending = ps }
      else record {
        page = p;
        pending = ps ++ record { query = query; cancelled = false; sent = false } ∷ [];
      }

  -- `onChange`: the effect runs again where the text is another.
  unfoldable pub set_search_query : String → Searching D → Searching D
  set_search_query text s =
      if text == s.page.search_query
      then s
      else search_effect (trim text) (record s.page { search_query = text }) (cancel_all s.pending)

  -- What an effect that was not cancelled makes of the reply.
  abbrev apply_results : Outcome (List FileWithLatestVersion) → DashboardPage D → DashboardPage D
  apply_results (resolved results) p = record p { matched_ids = some (ids_of results) }
  apply_results r p = show_error "Search failed." r p

  unfoldable pub reply_to :
      Pending → Outcome (List FileWithLatestVersion) → DashboardPage D → DashboardPage D
  reply_to request r p = if request.cancelled then p else apply_results r p

  -- What may happen next: a change of the text, the end of a timer, the reply to a request, or another
  -- handler of the page.
  pub data SearchStep (s : Searching D) : Searching D → Type 0 where
    types : (text : String) → SearchStep s (set_search_query text s)
    fires :
        (before after : List Pending) (request : Pending)
        → s.pending ≡ before ++ request ∷ after
        → SearchStep s (record s { pending = before ++ record request { sent = true } ∷ after })
    replies :
        (before after : List Pending) (request : Pending) (r : Outcome (List FileWithLatestVersion))
        → s.pending ≡ before ++ request ∷ after
        → request.sent ≡ true
        → SearchStep s (record { page = reply_to request r s.page; pending = before ++ after })
    elsewhere :
        (p : DashboardPage D)
        → p.search_query ≡ s.page.search_query
        → p.matched_ids ≡ s.page.matched_ids
        → SearchStep s (record s { page = p })

  pub data SearchReach (s : Searching D) : Searching D → Type 0 where
    start : SearchReach s s
    step : {t u : Searching D} → SearchReach s t → SearchStep t u → SearchReach s u
