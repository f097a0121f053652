-- ===== src/Analytics/Reports.antt =====
-- services/ai-analytics-service/src/services/analytics.service.ts: the texts of the overview, and when there
-- is one. The service and its sort are in Analytics/Service.
use intelli_store.Prelude.{
  ℕ, zero, suc, ◌-◌, String, ◌<>◌, Bool, ◌&&◌, List, [], ◌∷◌, ◌++◌, map, filter, length, ltb, leb,
  eqb, if◌then◌else◌,
}
use intelli_store.Analytics.Double.{Double}
use intelli_store.Analytics.Clients.{DiagnosticsDto, StorageNodeDto, SystemStatsDto}

abbrev units : List String
units = "B" ∷ "KB" ∷ "MB" ∷ "GB" ∷ "TB" ∷ []

-- `units[exp]`, and `undefined` past the end.
abbrev unit_at : List String → ℕ → String
unit_at [] exp = "undefined"
unit_at (u ∷ us) zero = u
unit_at (u ∷ us) (suc exp) = unit_at us exp

module _ {D : Type 0} (d : Double D) where
  abbrev unit_exponent : ℕ → ℕ
  unit_exponent bytes =
      let exp = d.floor (d.divided_by (d.log (d.of_nat bytes)) (d.log (d.lit 1024 1))) in
      let last = length units - 1 in if leb exp last then exp else last

  abbrev value_text : ℕ → D → String
  value_text exp value = if eqb exp 0 then d.show value else d.to_fixed_1 value

  abbrev format_bytes : ℕ → String
  format_bytes bytes =
      if eqb bytes 0
      then "0 B"
      else let exp = unit_exponent bytes in
        let value = d.divided_by (d.of_nat bytes) (d.pow (d.lit 1024 1) (d.of_nat exp)) in
        (value_text exp value <> " ") <> unit_at units exp

  -- `node.usedBytes / node.capacityBytes`
  abbrev pub utilization : StorageNodeDto → D
  utilization node = d.divided_by (d.of_nat node.used_bytes) (d.of_nat node.capacity_bytes)

  -- HIGH_UTILIZATION_THRESHOLD is 0.8.
  abbrev pub is_nearly_full : StorageNodeDto → Bool
  is_nearly_full node = ltb 0 node.capacity_bytes && d.gt (utilization node) (d.lit 8 10)

  abbrev pub capacity_text : StorageNodeDto → String
  capacity_text node =
      ((("Node \"" <> node.name) <> "\" is at ")
        <> d.show (d.round (d.times (utilization node) (d.lit 100 1))))
      <> "% capacity — consider provisioning additional storage nodes."

  abbrev pub node_capacity_recommendations : List StorageNodeDto → List String
  node_capacity_recommendations nodes = map capacity_text (filter is_nearly_full nodes)

  abbrev show_nat : ℕ → String
  show_nat n = d.show (d.of_nat n)

  abbrev pub under_replicated_recommendation : DiagnosticsDto → List String
  under_replicated_recommendation diagnostics =
      if ltb 0 diagnostics.under_replicated_chunk_count
      then (show_nat diagnostics.under_replicated_chunk_count
          <> " chunk(s) are under-replicated — self-healing should resolve this shortly, but investigate if it persists.")
        ∷ []
      else []

  abbrev pub unhealthy_recommendation : DiagnosticsDto → List String
  unhealthy_recommendation diagnostics =
      if ltb 0 diagnostics.unhealthy_nodes
      then (((show_nat diagnostics.unhealthy_nodes <> " of ") <> show_nat diagnostics.total_nodes)
          <> " storage node(s) are currently unhealthy.")
        ∷ []
      else []

  abbrev pub diagnostics_recommendations : DiagnosticsDto → List String
  diagnostics_recommendations diagnostics =
      under_replicated_recommendation diagnostics ++ unhealthy_recommendation diagnostics

  abbrev pub deduplication_recommendation : SystemStatsDto → List String
  deduplication_recommendation storage =
      if ltb 0 storage.deduped_bytes
      then (("Deduplication is saving " <> format_bytes storage.deduped_bytes)
          <> " by storing identical chunks once.")
        ∷ []
      else []

  abbrev pub cold_recommendation : ℕ → List String
  cold_recommendation n =
      if ltb 0 n
      then (show_nat n
          <> " of your file(s) are classified cold — consider archiving to reduce hot-storage costs.")
        ∷ []
      else []
