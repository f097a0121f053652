-- ===== src/Analytics/Service/Overview.antt =====
-- `getOverview`: what it counts, and when it recommends something.
use intelli_store.Prelude.{
  ℕ, ◌+◌, String, ◌≡◌, refl, ◌∙◌, Bool, true, false, List, [], ◌∷◌, ◌++◌, map, arith, filter, ◌-◌,
  length, length-append, length-map, length-filter-le, ltb, if◌then◌else◌,
}
use intelli_store.Prelude.Sorting.{insertion_sort-perm, length-perm}
use intelli_store.Effects.{ok}
use intelli_store.Analytics.{AccessTable, find_by_file_ids}
use intelli_store.Analytics.Double.{Double}
use intelli_store.Analytics.Clients.{
  DiagnosticsDto, FileWithLatestVersionDto, StorageNodeDto, SystemStatsDto,
}
use intelli_store.Analytics.Reports.{
  is_nearly_full, capacity_text, node_capacity_recommendations, diagnostics_recommendations,
  deduplication_recommendation, cold_recommendation, under_replicated_recommendation,
  unhealthy_recommendation,
}
use intelli_store.Analytics.Service.{
  AnalyticsService, OverviewResult, get_file_recommendations, get_overview, is_hot, recommend_each,
  overview_of, sort_by_score,
}

abbrev pub one_if : Bool → ℕ
one_if b = if b then 1 else 0

length-one_if : (b : Bool) (s : String) → length (if b then s ∷ [] else []) ≡ one_if b
length-one_if true s = refl
length-one_if false s = refl

length-append_five :
    (a b c e f : List String)
    → length (a ++ (b ++ c) ++ e ++ f) ≡ length a + length b + length c + length e + length f
length-append_five a b c e f = omega (
  arith,
  length-append (a ++ (b ++ c) ++ e) f,
  length-append (a ++ (b ++ c)) e,
  length-append a (b ++ c),
  length-append b c,
)

module _ {D : Type 0} (d : Double D) where
  length-recommendations :
      (storage : SystemStatsDto) (nodes : List StorageNodeDto) (x : DiagnosticsDto) (n : ℕ)
      → length (
          node_capacity_recommendations d nodes
          ++ diagnostics_recommendations d x
          ++ deduplication_recommendation d storage
          ++ cold_recommendation d n)
        ≡ length (filter (is_nearly_full d) nodes)
          + one_if (ltb 0 x.under_replicated_chunk_count)
          + one_if (ltb 0 x.unhealthy_nodes)
          + one_if (ltb 0 storage.deduped_bytes)
          + one_if (ltb 0 n)
  length-recommendations storage nodes x n =
      let a = node_capacity_recommendations d nodes in
      let b = under_replicated_recommendation d x in
      let c = unhealthy_recommendation d x in
      let e = deduplication_recommendation d storage in
      let f = cold_recommendation d n in
      length-append_five a b c e f
      ∙ rw
          (
            length-map (filter (is_nearly_full d) nodes) (capacity_text d),
            length-one_if (ltb 0 x.under_replicated_chunk_count),
            length-one_if (ltb 0 x.unhealthy_nodes),
            length-one_if (ltb 0 storage.deduped_bytes),
            length-one_if (ltb 0 n),
          )
          refl

module _ {D W : Type 0} ⦃d : Double D⦄ (S : AnalyticsService D W) where
  length-recommend_each :
      (n : ℕ) (stats : AccessTable) (files : List FileWithLatestVersionDto)
      → length (recommend_each S.scoring_options S.now n stats files) ≡ length files
  length-recommend_each n stats [] = refl
  length-recommend_each n stats (f ∷ files) =
      omega (arith, length-recommend_each (n + 1) stats files)

  -- When all four requests succeed, every listed file is counted once, as hot or as cold, and there is
  -- one recommendation for each node that is filled to more than 0.8 of a positive capacity, and
  -- one each for under-replicated chunks, unhealthy nodes, deduplicated bytes and cold files, if
  -- there are any.
  pub get_overview-counts :
      (t : String) (w w₁ w₂ w₃ w₄ : W) (storage : SystemStatsDto) (nodes : List StorageNodeDto)
      (x : DiagnosticsDto) (files : List FileWithLatestVersionDto)
      → S.metadata_client.get_system_stats t w ≡ (ok storage, w₁)
      → S.replication_client.get_nodes t w₁ ≡ (ok nodes, w₂)
      → S.replication_client.get_diagnostics t w₂ ≡ (ok x, w₃)
      → S.metadata_client.list_files t w₃ ≡ (ok files, w₄)
      → (o : OverviewResult D) × (get_overview S t w ≡ (ok o, w₄))
        × (o.hot + o.cold ≡ length files)
        × (length o.recommendations
            ≡ length (filter (is_nearly_full d) nodes)
              + one_if (ltb 0 x.under_replicated_chunk_count)
              + one_if (ltb 0 x.unhealthy_nodes)
              + one_if (ltb 0 storage.deduped_bytes)
              + one_if (ltb 0 o.cold))
  unfolding get_overview get_file_recommendations
  get_overview-counts t w w₁ w₂ w₃ w₄ storage nodes x files e₁ e₂ e₃ e₄ =
      let stats = find_by_file_ids (map (λ f. f.file.id) files) (S.stats w₄) in
      let entries = recommend_each S.scoring_options S.now 0 stats files in
      let ranked = sort_by_score entries in
      let n = length (filter (λ f. is_hot f.temperature.tier) ranked) in
      let all_ranked : length ranked ≡ length files =
        length-perm
          (insertion_sort-perm (λ a b. d.le a.temperature.score b.temperature.score) entries)
        ∙ length-recommend_each 0 stats files in
      let at_most = length-filter-le (λ f. is_hot f.temperature.tier) ranked in
      (
        overview_of S storage nodes x ranked,
        rw (e₁, e₂, e₃, e₄) refl,
        omega (arith, at_most, all_ranked),
        length-recommendations d storage nodes x (length ranked - n),
      )
