-- ===== src/Gateway.antt =====
-- services/api-gateway/src/routes/proxy.ts and app.ts: the public paths, and the services behind them.
-- Paths are lists of segments. The headers of the replies, the log lines and the health routes are left
-- out; whether the rate limit stops a request is its library's to say.
use intelli_store.Prelude.{
  String, Bool, false, Option, none, some, List, [], ◌∷◌, ◌++◌, ◌==◌, if◌then◌else◌,
}
use intelli_store.SharedTypes.{failure}
use intelli_store.Http.{Call, Reply, json, route_not_found}

-- `config.upstreams`
pub record Upstreams : Type 0 where
  pub auth : String
  pub metadata : String
  pub storage : String
  pub replication : String
  pub ai_analytics : String
  pub notification : String

pub record Route : Type 0 where
  pub prefix : List String
  pub target : String
  pub rewrite_to : List String

abbrev pub routes : Upstreams → List Route
routes u =
    record { prefix = "api" ∷ "auth" ∷ []; target = u.auth; rewrite_to = "auth" ∷ [] }
    ∷ record { prefix = "api" ∷ "files" ∷ []; target = u.metadata; rewrite_to = "files" ∷ [] }
    ∷ record { prefix = "api" ∷ "storage" ∷ []; target = u.storage; rewrite_to = "files" ∷ [] }
    ∷ record { prefix = "api" ∷ "replication" ∷ []; target = u.replication; rewrite_to = [] }
    ∷ record {
      prefix = "api" ∷ "analytics" ∷ [];
      target = u.ai_analytics;
      rewrite_to = "analytics" ∷ [];
    }
    ∷ record {
      prefix = "api" ∷ "notifications" ∷ [];
      target = u.notification;
      rewrite_to = "notifications" ∷ [];
    }
    ∷ []

-- `app.use(prefix, …)` takes the paths that begin with the prefix, and hands on the rest.
abbrev pub after_prefix : List String → List String → Option (List String)
after_prefix [] path = some path
after_prefix (p ∷ ps) [] = none
after_prefix (p ∷ ps) (s ∷ path) = let rest = after_prefix ps path in if p == s then rest else none

-- `pathRewrite`, for the first route that takes the path: the target and its path.
abbrev pub rewritten :
    Option (List String) → Route → Option (String × List String) → Option (String × List String)
rewritten none r others = others
rewritten (some rest) r others = some (r.target, r.rewrite_to ++ rest)

abbrev pub forward : List Route → List String → Option (String × List String)
forward [] path = none
forward (r ∷ rs) path =
    let others = forward rs path in rewritten (after_prefix r.prefix path) r others

abbrev pub is_api : List String → Bool
is_api [] = false
is_api (s ∷ path) = s == "api"

-- What the proxy makes of the upstream's reply, or of its not being reached.
abbrev proxied : {A : Type 0} → Option (Reply A) → Reply A
proxied none = json 502 (failure "BAD_GATEWAY" "Upstream service is unavailable")
proxied (some reply) = reply

module _ {W A : Type 0} (u : Upstreams) (upstream : String → Call → W → Option (Reply A) × W) where
  abbrev forwarded : Option (String × List String) → Call → W → Reply A × W
  forwarded none c w = (route_not_found, w)
  forwarded (some (target, path)) c w =
      let (reply, w') = upstream target (record c { path = path }) w in (proxied reply, w')

  -- `limited` says whether the rate limit, which is mounted at /api, stops the request.
  unfoldable pub mount_proxies : Bool → Call → W → Reply A × W
  mount_proxies limited c w =
      if is_api c.path
      then if limited
        then (json 429 (failure "RATE_LIMITED" "Too many requests, slow down"), w)
        else forwarded (forward (routes u) c.path) c w
      else (route_not_found, w)
