-- ===== src/Analytics/Routes.antt =====
-- services/ai-analytics-service/src/routes/analytics.route.ts with its guard, as app.ts mounts it at /analytics. The health
-- route, log lines and CORS and security headers are left out.
use intelli_store.Prelude.{String, List, [], ◌∷◌, ◌==◌, if◌then◌else◌}
use intelli_store.Effects.{
  Exec, Result, app_error, err, ok, pure, throw, unauthorized, unless, ◌>>=◌,
}
use intelli_store.SharedTypes.{success}
use intelli_store.Auth.Tokens.{Headers, JsonWebToken}
use intelli_store.Http.{
  Authenticated, Call, Method, Reply, async_handler, get, json, require_auth, route_not_found,
}
use intelli_store.Analytics.Double.{Double}
use intelli_store.Analytics.Service.{
  AnalyticsService, FileRecommendation, OverviewResult, get_file_recommendations, get_overview,
}

pub data AnalyticsPayload (D : Type 0) : Type 0 where
  ranked : List (FileRecommendation D) → AnalyticsPayload D
  summary : OverviewResult D → AnalyticsPayload D

pub record AnalyticsApp (D W : Type 0) : Type 0 where
  pub service : AnalyticsService D W
  pub jwt : JsonWebToken
  pub headers : Headers
  pub jwt_secret : String

module _ {D W : Type 0} ⦃d : Double D⦄ (A : AnalyticsApp D W) where
  -- `requireBearerToken`
  abbrev bearer_token_of : Authenticated → Exec W String
  bearer_token_of user =
      unless (user.bearer_token == "") (app_error (unauthorized "Unauthorized"))
        (pure user.bearer_token)

  abbrev sends_json :
      {R : Type 0}
      → Authenticated
      → (R → AnalyticsPayload D)
      → (String → Exec W R)
      → Exec W (Reply (AnalyticsPayload D))
  sends_json user f m = do
    token ← bearer_token_of user
    r ← m token
    pure (json 200 (success (f r)))

  unfoldable pub analytics_router :
      Authenticated → Method → List String → Exec W (Reply (AnalyticsPayload D))
  analytics_router user get (s ∷ []) =
      if s == "files"
      then sends_json user ranked (get_file_recommendations A.service)
      else if s == "overview"
      then sends_json user summary (get_overview A.service)
      else pure route_not_found
  analytics_router user _ _ = pure route_not_found

  abbrev for_user :
      Result Authenticated → Method → List String → Exec W (Reply (AnalyticsPayload D))
  for_user (ok user) m path = analytics_router user m path
  for_user (err e) m path = throw e

  abbrev under_analytics : Call → List String → Exec W (Reply (AnalyticsPayload D))
  under_analytics c [] = pure route_not_found
  under_analytics c (s ∷ path) =
      if s == "analytics"
      then for_user (require_auth A.headers A.jwt A.jwt_secret c.authorization) c.method path
      else pure route_not_found

  unfoldable pub handle_analytics : Call → W → Reply (AnalyticsPayload D) × W
  handle_analytics c = async_handler (under_analytics c c.path)
