-- ===== src/Replication/Routes/Laws.antt =====
-- What a request to the replication service may do, with a token and without one.
use intelli_store.Prelude.{
  String, ◌≡◌, refl, Bool, true, false, leb, inl, inr, ◌⊎◌, none, some, List, [], ◌∷◌, ◌==◌,
  Bool-cases, Option-cases,
}
use intelli_store.Effects.{Result-cases, ok}
use intelli_store.SharedTypes.{failure, success}
use intelli_store.Http.{
  Authenticated, Call, Method, Reply, Sent, async_handler, get, json, json_limit, no_body, post,
  require_auth-err,
}
use intelli_store.Replication.Nodes.{StorageNodeRecord, find_by_name, set_health}
use intelli_store.Replication.Service.{World, get_diagnostics, list_nodes, list_replicas}
use intelli_store.Replication.Heartbeat.{heartbeat}
use intelli_store.Replication.Routes.{
  ReplicationApp, ReplicationPayload, after_health, beat, handle_replication, health_of, healthy,
  is_health, pinged, replica_router, user_of_call,
}

module _ {N : Type 0} (A : ReplicationApp N) where
  -- A ping may make one node healthy, and touches nothing else.
  pub record IsPing (name : String) (w w' : World N) : Type 0 where
    pub replicas : w'.replicas ≡ w.replicas
    pub objects : w'.objects ≡ w.objects
    pub nodes :
        ((find_by_name name w.nodes ≡ none) × (w'.nodes ≡ w.nodes))
        ⊎ ((node : StorageNodeRecord) × (find_by_name name w.nodes ≡ some node)
            × (w'.nodes ≡ set_health node.id true (A.now w) w.nodes))

  beat-IsPing : (name : String) (w : World N) → IsPing name w (beat A name w).1
  unfolding heartbeat
  beat-IsPing name w = elim (Option-cases (find_by_name name w.nodes)) [
    | inl e ↦ rw e (record { replicas = refl; objects = refl; nodes = inl (e, refl) })
    | inr (node, e) ↦ rw e (record { replicas = refl; objects = refl; nodes = inr (node, e, refl) })
  ]

  replica_router-reads :
      (m : Method) (path : List String) (w : World N) → (replica_router A m path w).1 ≡ w
  unfolding replica_router list_nodes get_diagnostics list_replicas
  replica_router-reads get [] w = refl
  replica_router-reads get (s ∷ []) w = elim (Bool-cases (s == "nodes")) [
    | inl e ↦ rw e refl
    | inr e ↦ elim (Bool-cases (s == "diagnostics")) [
      | inl f ↦ rw (e, f) refl
      | inr f ↦ rw (e, f) refl
    ]
  ]
  replica_router-reads get (s ∷ t ∷ []) w = refl
  replica_router-reads get (s ∷ id ∷ t ∷ []) w = elim (Bool-cases (s == "chunks")) [
    | inr e ↦ rw e refl
    | inl e ↦ elim (Bool-cases (t == "replicas")) [
      | inl f ↦ rw (e, f) refl
      | inr f ↦ rw (e, f) refl
    ]
  ]
  replica_router-reads get (s ∷ id ∷ t ∷ u ∷ us) w = refl
  replica_router-reads post path w = refl

  -- What became of a request that reached the routes: it told the service's health; or it was a ping; or it
  -- changed nothing, with a token that verifies, or else was answered 401.
  abbrev pub IsServed : Call → World N → Reply ReplicationPayload → World N → Type 0
  IsServed c w r w' =
      ((is_health A c.method c.path ≡ true)
        × (r ≡ json 200 (success (healthy (health_of A w))))
        × (w' ≡ w))
      ⊎ ((name : String) × (pinged A c.method c.path ≡ some name) × IsPing name w w')
      ⊎ ((is_health A c.method c.path ≡ false)
          × (pinged A c.method c.path ≡ none)
          × (w' ≡ w)
          × (((user : Authenticated) × (user_of_call A c ≡ ok user))
              ⊎ ((message : String) × (r ≡ json 401 (failure "UNAUTHORIZED" message)))))

  served :
      (c : Call) (w : World N) (b : Bool)
      → is_health A c.method c.path ≡ b
      → let (r, w') = async_handler (after_health A b c) w in IsServed c w r w'
  served c w true h = inl (h, refl, refl)
  served c w false h = elim (Option-cases (pinged A c.method c.path)) [
    | inr (name, e) ↦ rw e (inr (inl (name, refl, beat-IsPing name w)))
    | inl e ↦ elim (Result-cases (user_of_call A c)) [
      | inl (user, f) ↦
          rw (e, f) (inr (inr (h, refl, replica_router-reads c.method c.path w, inl (user, refl))))
      | inr (x, f) ↦
          let (message, same) = require_auth-err A.headers A.jwt A.jwt_secret c.authorization f in
          rw (e, f, same) (inr (inr (h, refl, refl, inr (message, refl))))
    ]
  ]

  -- Whatever the request: an OPTIONS is a 204, and a body over 100kb or that is no JSON a 500, that change
  -- nothing; GET /health is a 200 without a token, and changes nothing; a ping of a node may make this
  -- node healthy, now, and changes nothing else; any other request changes nothing, and without an
  -- access token that verifies it is answered 401.
  pub handle_replication-IsGuarded :
      (s : Sent) (c : Call) (w : World N)
      → let (r, w') = handle_replication A s c w in
        ((s.is_options ≡ true) × (r ≡ no_body 204) × (w' ≡ w))
        ⊎ (((leb s.body_bytes json_limit ≡ false) ⊎ (s.is_json ≡ false))
            × (r ≡ json 500 (failure "INTERNAL_ERROR" "Internal server error"))
            × (w' ≡ w))
        ⊎ IsServed c w r w'
  unfolding handle_replication
  handle_replication-IsGuarded s c w = elim (Bool-cases s.is_options) [
    | inl o ↦ rw o (inl (refl, refl, refl))
    | inr o ↦ elim (Bool-cases (leb s.body_bytes json_limit)) [
      | inr b ↦ rw (o, b) (inr (inl (inl refl, refl, refl)))
      | inl b ↦ elim (Bool-cases s.is_json) [
        | inr j ↦ rw (o, b, j) (inr (inl (inr refl, refl, refl)))
        | inl j ↦ rw (o, b, j) (inr (inr (served c w (is_health A c.method c.path) refl)))
      ]
    ]
  ]
