-- ===== src/Replication/Heartbeat/Laws.antt =====
-- What a staleness sweep and a heartbeat do to the table of nodes.
use mathlib.Core.List.{Permᴰ}
use intelli_store.Prelude.{
  ℕ, ◌+◌, ◌≤◌, String, ◌<>◌, ◌≡◌, refl, sym, ap, ◌∙◌, inl, inr, Bool, true, false, not, ◌&&◌, ◌||◌,
  none, some, List, [], ◌∷◌, map, arith, ◌==◌, eq_iff, All, All-map, All-map₂, Unique,
  Unique-update_where, map_ext, map_id, map-update_where, All-of, Bool-cases, if◌then◌else◌,
}
use text.Mathlib.TextPositions.{eq_refl}
use intelli_store.Prelude.Sorting.{Postgres}
use intelli_store.Effects.{ok, err, app_error, not_found}
use intelli_store.Replication.Nodes.{
  Nodes, StorageNodeRecord, list_all, find_by_name, set_health, mark_stale, has_id,
}
use intelli_store.Replication.Service.{World}
use intelli_store.Replication.Heartbeat.{is_stale, sweep_nodes, sweep_once, heartbeat}

abbrev pub unhealthy : StorageNodeRecord → StorageNodeRecord
unhealthy n = record n { is_healthy = false }

-- A node after a sweep: it stays healthy exactly if it was and its last beat is recent enough.
abbrev pub expire : ℕ → ℕ → StorageNodeRecord → StorageNodeRecord
expire stale_ms now n = record n { is_healthy = n.is_healthy && not (is_stale stale_ms now n) }

module _ (stale_ms now : ℕ) where
  abbrev flagged : StorageNodeRecord → Bool
  flagged n = n.is_healthy && is_stale stale_ms now n

  -- Does the loop over `listed` mark the node with this id?
  abbrev marks : List StorageNodeRecord → String → Bool
  marks [] id = false
  marks (n ∷ ns) id = (id == n.id && flagged n) || marks ns id

  abbrev expired : List StorageNodeRecord → StorageNodeRecord → StorageNodeRecord
  expired listed x = if marks listed x.id then unhealthy x else x

  sweep_nodes-map :
      (listed : List StorageNodeRecord) (nodes : Nodes)
      → sweep_nodes stale_ms now listed nodes ≡ map (expired listed) nodes
  unfolding sweep_nodes
  sweep_nodes-map [] nodes = sym (map_id nodes)
  sweep_nodes-map (n ∷ listed) nodes = elim (Bool-cases (flagged n)) [
    | inl e ↦ rw e (
        sweep_nodes-map listed (mark_stale n.id nodes)
        ∙ map-update_where (expired listed) (has_id n.id) unhealthy nodes
        ∙ map_ext _ _ nodes (All-of _ nodes (λ x. ground arith)))
    | inr e ↦
        rw e (sweep_nodes-map listed nodes ∙ map_ext _ _ nodes (All-of _ nodes (λ x. ground arith)))
  ]

  marks-perm :
      {xs ys : List StorageNodeRecord} (id : String) → Permᴰ xs ys → marks xs id ≡ marks ys id
  marks-perm id Permᴰ.nil = refl
  marks-perm id (Permᴰ.cons {a = a} {b = b} {l₁ = l₁} e p) =
      rw e (ap (λ m. (id == b.id && flagged b) || m) (marks-perm id p))
  marks-perm id (Permᴰ.swap {a' = a} {b' = b} {l = l} e f) = rw (e, f) (ground arith)
  marks-perm id (Permᴰ.trans p q) = marks-perm id p ∙ marks-perm id q

  marks_other :
      (id : String) (ns : Nodes) → All (λ n. (id == n.id) ≡ false) ns → marks ns id ≡ false
  marks_other id [] h = refl
  marks_other id (n ∷ ns) h = ground (arith, marks_other id ns h.1)

  marks_self :
      (nodes : Nodes) → Unique (λ n. n.id) nodes → All (λ n. marks nodes n.id ≡ flagged n) nodes
  marks_self [] u = tt
  marks_self (n ∷ ns) u = (
    ground (arith, eq_refl n.id, marks_other n.id ns u.0),
    All-map₂ (λ x. marks (n ∷ ns) x.id ≡ flagged x) ns
        (λ x d m. ground (arith, m, eq_iff n.id x.id, eq_iff x.id n.id)) u.0 (marks_self ns u.1),
  )

-- Where the ids of the nodes are unique, a sweep marks exactly the nodes that are healthy and stale,
-- in whatever order the database lists them, and changes nothing else: not a node's last heartbeat,
-- not another field, not the replicas.
pub sweep_once-expire :
    {N : Type 0} (pg : Postgres) (stale_ms now : ℕ) (w : World N)
    → Unique (λ n. n.id) w.nodes
    → sweep_once pg stale_ms now w ≡ (ok tt, record w { nodes = map (expire stale_ms now) w.nodes })
unfolding sweep_once
sweep_once-expire pg stale_ms now w u =
    ap (λ ns. (ok tt, record w { nodes = ns }))
      (sweep_nodes-map stale_ms now (list_all pg w.nodes) w.nodes
        ∙ map_ext _ _ w.nodes (
            All-map (λ x. expired stale_ms now (list_all pg w.nodes) x ≡ expire stale_ms now x)
              w.nodes
              (λ x m. ground (
                arith,
                m,
                marks-perm stale_ms now x.id (pg.order_by_text-perm (λ n. n.name) w.nodes),
              ))
              (marks_self stale_ms now w.nodes u)))

-- A heartbeat for an unknown name is answered with 404 and changes nothing.
heartbeat_unknown :
    {N : Type 0} (name : String) (now : ℕ) (w : World N)
    → find_by_name name w.nodes ≡ none
    → heartbeat name now w ≡ (err (app_error (not_found ("Unknown node: " <> name))), w)
unfolding heartbeat
heartbeat_unknown name now w h = rw h

abbrev pub beaten : ℕ → StorageNodeRecord → StorageNodeRecord
beaten t n = record n { is_healthy = true; last_heartbeat_at = some t }

find-set_health :
    (name : String) (t : ℕ) (nodes : Nodes) {n : StorageNodeRecord}
    → find_by_name name nodes ≡ some n
    → find_by_name name (set_health n.id true t nodes) ≡ some (beaten t n)
find-set_health name t [] h = absurd (cc)
find-set_health name t (x ∷ xs) {n} h = elim (Bool-cases (x.name == name)) [
  | inl e ↦ let same : x ≡ n = ground arith in rw same (rw (eq_refl n.id, rw same at e))
  | inr e ↦ ground (arith, find-set_health name t xs {n = n})
]

find-expire :
    (name : String) (stale_ms now : ℕ) (nodes : Nodes) {n : StorageNodeRecord}
    → find_by_name name nodes ≡ some n
    → find_by_name name (map (expire stale_ms now) nodes) ≡ some (expire stale_ms now n)
find-expire name stale_ms now [] h = absurd (cc)
find-expire name stale_ms now (x ∷ xs) {n} h =
    ground (arith, find-expire name stale_ms now xs {n = n})

-- A heartbeat of a known node at `t` outlives every sweep at a time `now` that is at most the stale
-- time later: the node is then healthy, with `t` as its last heartbeat, whatever it was before.
pub heartbeat_survives :
    {N : Type 0} (pg : Postgres) (name : String) (stale_ms t now : ℕ) (w : World N)
    {n : StorageNodeRecord}
    → Unique (λ n'. n'.id) w.nodes
    → find_by_name name w.nodes ≡ some n
    → now ≤ t + stale_ms
    → find_by_name name (sweep_once pg stale_ms now (heartbeat name t w).1).1.nodes
      ≡ some (beaten t n)
unfolding heartbeat
heartbeat_survives pg name stale_ms t now w {n} u found fresh = rw found (
    rw
      (sweep_once-expire pg stale_ms now (record w { nodes = set_health n.id true t w.nodes })
        (Unique-update_where (λ n'. n'.id) (has_id n.id) (beaten t) w.nodes (λ _. refl) u))
      (find-expire name stale_ms now _ (find-set_health name t w.nodes found) ∙ ground arith))
