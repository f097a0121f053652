-- ===== src/Replication/Routes.antt =====
-- services/replication-service/src/routes/replica.route.ts with its guard, and the route of the heartbeat before it, as
-- app.ts mounts them: at the root, so that a path that they do not know is answered 401 before it is
-- answered 404. Log lines and the headers of cors() and helmet() are left out.
pub mod Laws
use intelli_store.Prelude.{
  ℕ, String, Bool, true, false, Option, none, some, List, [], ◌∷◌, ◌==◌, if◌then◌else◌,
}
use intelli_store.Effects.{Exec, Result, err, ok, pure, throw, ◌>>=◌}
use intelli_store.SharedTypes.{success}
use intelli_store.Auth.Tokens.{Headers, JsonWebToken}
use intelli_store.Http.{
  Authenticated, Call, HealthPayload, Method, Reply, Sent, async_handler, before_routes, get, json,
  post, require_auth, route_not_found,
}
use intelli_store.Replication.Nodes.{StorageNodeRecord}
use intelli_store.Replication.Replicas.{ChunkReplicaRecord}
use intelli_store.Replication.Service.{
  Diagnostics, ReplicationService, World, get_diagnostics, list_nodes, list_replicas,
}
use intelli_store.Replication.Heartbeat.{heartbeat}

pub data ReplicationPayload : Type 0 where
  all_nodes : List StorageNodeRecord → ReplicationPayload
  counts : Diagnostics → ReplicationPayload
  replicas_of : List ChunkReplicaRecord → ReplicationPayload
  healthy : HealthPayload → ReplicationPayload
  -- `{ name, isHealthy: true }`
  alive : String → ReplicationPayload

pub record ReplicationApp (N : Type 0) : Type 1 where
  pub service : ReplicationService N
  pub jwt : JsonWebToken
  pub headers : Headers
  pub jwt_secret : String
  -- `new Date()`
  pub now : World N → ℕ
  -- `process.uptime()` and `new Date().toISOString()`
  pub uptime : World N → String
  pub iso_now : World N → String

module _ {N : Type 0} (A : ReplicationApp N) where
  abbrev Answer : Type 0
  Answer = Exec (World N) (Reply ReplicationPayload)

  abbrev gives : {R : Type 0} → (R → ReplicationPayload) → Exec (World N) R → Answer
  gives f m = do r ← m; pure (json 200 (success (f r)))

  abbrev nowhere : Answer
  nowhere = pure route_not_found

  -- The routes behind the guard.
  unfoldable pub replica_router : Method → List String → Answer
  replica_router get (s ∷ []) =
      if s == "nodes"
      then gives all_nodes (list_nodes A.service)
      else if s == "diagnostics"
      then gives counts (get_diagnostics A.service)
      else nowhere
  replica_router get (s ∷ id ∷ t ∷ []) =
      if s == "chunks"
      then if t == "replicas" then gives replicas_of (list_replicas A.service id) else nowhere
      else nowhere
  replica_router _ _ = nowhere

  abbrev behind_guard : Result Authenticated → Call → Answer
  behind_guard (ok user) c = replica_router c.method c.path
  behind_guard (err e) c = throw e

  abbrev pub user_of_call : Call → Result Authenticated
  user_of_call c = require_auth A.headers A.jwt A.jwt_secret c.authorization

  abbrev pub beat : String → Answer
  beat name w = gives alive (heartbeat name (A.now w)) w

  -- The name that a ping is for, where the request is one.
  abbrev named_in : String → String → String → Option String
  named_in s name t = if s == "nodes" then if t == "heartbeat" then some name else none else none

  abbrev pub pinged : Method → List String → Option String
  pinged post (s ∷ name ∷ t ∷ []) = named_in s name t
  pinged _ _ = none

  -- healthRouter, which is mounted before the others.
  abbrev pub is_health : Method → List String → Bool
  is_health get (s ∷ []) = s == "health"
  is_health _ _ = false

  abbrev pub health_of : World N → HealthPayload
  health_of w = record {
    service = "replication-service";
    status = "ok";
    uptime_seconds = A.uptime w;
    timestamp = A.iso_now w;
  }

  abbrev tells_health : Answer
  tells_health w = pure (json 200 (success (healthy (health_of w)))) w

  abbrev dispatched : Option String → Call → Answer
  dispatched (some name) c = beat name
  dispatched none c = behind_guard (user_of_call c) c

  abbrev pub after_health : Bool → Call → Answer
  after_health true c = tells_health
  after_health false c = dispatched (pinged c.method c.path) c

  unfoldable pub handle_replication : Sent → Call → World N → Reply ReplicationPayload × World N
  handle_replication s c =
      async_handler (before_routes s (after_health (is_health c.method c.path) c))
