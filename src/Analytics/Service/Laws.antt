-- ===== src/Analytics/Service/Laws.antt =====
-- What the recommendations and the overview report.
use mathlib.Core.List.{Permᴰ}
use mathlib.Core.List.Permᴰ
use text.Mathlib.TextPositions.{eq_refl}
use intelli_store.Prelude.{
  ℕ, ◌+◌, String, ◌≡◌, refl, sym, ap, subst, inl, inr, Bool, true, false, Option, none, some, List,
  [], ◌∷◌, map, arith, eq_iff, All, All-filter, All-map, Unique, includes, Bool-cases,
  if◌then◌else◌,
}
use intelli_store.Prelude.Sorting.{
  Sorted, All-perm, insertion_sort, insertion_sort-Sorted, insertion_sort-perm,
}
use intelli_store.Effects.{ok}
use intelli_store.Analytics.{
  AccessTable, FileAccessStats, count_of, find_by_file_id, find_by_file_ids, of_file_id,
}
use intelli_store.Analytics.Laws.{access_count_of}
use intelli_store.Analytics.Double.{Double, IsDouble, ◌≼◌, hundred, nought}
use intelli_store.Analytics.Scoring.{score_file_temperature}
use intelli_store.Analytics.Scoring.Laws.{IsValid, score_of-IsPercentage}
use intelli_store.Analytics.Clients.{FileWithLatestVersionDto}
use intelli_store.Analytics.Service.{
  AnalyticsService, FileRecommendation, get_file_recommendations, input_of, map_get, recommend_each,
}

map_get-none :
    (id : String) (xs : AccessTable) → All (λ s. of_file_id id s ≡ false) xs → map_get id xs ≡ none
map_get-none id [] h = refl
map_get-none id (s ∷ xs) h = rw (map_get-none id xs h.1, h.0) refl

-- Where a file has one row, the map made of the rows that were asked for finds it.
map_get-find :
    (ids : List String) (id : String) (xs : AccessTable)
    → Unique (λ s. s.file_id) xs
    → includes ids id ≡ true
    → map_get id (find_by_file_ids ids xs) ≡ find_by_file_id id xs
map_get-find ids id [] u h = refl
map_get-find ids id (s ∷ xs) u h = elim (Bool-cases (of_file_id id s)) [
  | inl e ↦
      let same : s.file_id ≡ id = ground (arith, eq_iff s.file_id id) in
      let absent : map_get id (find_by_file_ids ids xs) ≡ none = map_get-none id _ (
        All-filter _ (λ t. includes ids t.file_id) xs
          (All-map _ xs
            (λ t k. ground (arith, k, same, eq_iff s.file_id t.file_id, eq_iff t.file_id id))
            u.0)) in
      let asked = subst (λ z. includes ids z ≡ true) (sym same) h in
      rw (e, asked) (rw (absent, e) refl)
  | inr e ↦ elim (Bool-cases (includes ids s.file_id)) [
    | inl b ↦
        rw (e, b)
          (rw (map_get-find ids id xs u.1 h) (settled (of_file_id id s) e (find_by_file_id id xs)))
    | inr b ↦ rw (e, b) (map_get-find ids id xs u.1 h)
  ]
]
  where
    settled :
        (b : Bool)
        → b ≡ false
        → (o : Option FileAccessStats)
        → (elim o [ none ↦ (if b then some s else none) | some t ↦ some t ]) ≡ o
    settled b e none = rw e refl
    settled b e (some t) = refl

ids-included :
    (files : List FileWithLatestVersionDto)
    → All (λ f. includes (map (λ g. g.file.id) files) f.file.id ≡ true) files
ids-included [] = tt
ids-included (f ∷ files) = (
  ground (arith, eq_refl f.file.id),
  All-map _ files (λ g h. ground (arith, h)) (ids-included files),
)

Permᴰ-map : {A B : Type 0} (f : A → B) {xs ys : List A} → Permᴰ xs ys → Permᴰ (map f xs) (map f ys)
Permᴰ-map f Permᴰ.nil = Permᴰ.nil
Permᴰ-map f (Permᴰ.cons e p) = Permᴰ.cons (ap f e) (Permᴰ-map f p)
Permᴰ-map f (Permᴰ.swap e k) = Permᴰ.swap (ap f e) (ap f k)
Permᴰ-map f (Permᴰ.trans p q) = Permᴰ.trans (Permᴰ-map f p) (Permᴰ-map f q)

module _ {D W : Type 0} ⦃d : Double D⦄ (S : AnalyticsService D W) where
  -- The entry of a file counts its accesses and has a percentage for its score.
  abbrev pub IsEntry : AccessTable → FileRecommendation D → Type 0
  IsEntry rows r =
      (r.access_count ≡ access_count_of r.file_id rows)
      × ((nought ≼ r.temperature.score) × (r.temperature.score ≼ hundred))

  recommend_each-ids :
      (n : ℕ) (stats : AccessTable) (files : List FileWithLatestVersionDto)
      → map (λ r. r.file_id) (recommend_each S.scoring_options S.now n stats files)
        ≡ map (λ f. f.file.id) files
  recommend_each-ids n stats [] = refl
  recommend_each-ids n stats (f ∷ files) =
      ap (◌∷◌ f.file.id) (recommend_each-ids (n + 1) stats files)

  module _ (law : IsDouble D) (valid : IsValid S.scoring_options) (rows : AccessTable)
      (unique : Unique (λ s. s.file_id) rows) where
    recommend_each-IsEntry :
        (n : ℕ) (ids : List String) (files : List FileWithLatestVersionDto)
        → All (λ f. includes ids f.file.id ≡ true) files
        → All
            (IsEntry rows)
            (recommend_each S.scoring_options S.now n (find_by_file_ids ids rows) files)
    unfolding score_file_temperature
    recommend_each-IsEntry n ids [] h = tt
    recommend_each-IsEntry n ids (f ∷ files) h = (
      (
        ap count_of (map_get-find ids f.file.id rows unique h.0),
        score_of-IsPercentage law S.scoring_options valid (S.now n)
            (input_of f (map_get f.file.id (find_by_file_ids ids rows))),
      ),
      recommend_each-IsEntry (n + 1) ids files h.1,
    )

    -- Under the laws of floating-point numbers, with valid options, and in a table with one row per
    -- file: when the metadata service lists files, the result has one entry for each of them, with
    -- its number of accesses and a score between 0 and 100; no entry has a lower score than one
    -- before it; and nothing else happens.
    pub get_file_recommendations-IsRanking :
        (bearer_token : String) (w w' : W) (files : List FileWithLatestVersionDto)
        → S.stats w' ≡ rows
        → S.metadata_client.list_files bearer_token w ≡ (ok files, w')
        → (rs : List (FileRecommendation D)) × (get_file_recommendations S bearer_token w
            ≡ (ok rs, w'))
          × Permᴰ (map (λ r. r.file_id) rs) (map (λ f. f.file.id) files)
          × All (IsEntry rows) rs
          × Sorted (λ a b. a.temperature.score ≼ b.temperature.score) rs
    unfolding get_file_recommendations
    get_file_recommendations-IsRanking bearer_token w w' files table listed =
        let ids = map (λ f. f.file.id) files in
        let entries = recommend_each S.scoring_options S.now 0 (find_by_file_ids ids rows) files in
        let le : FileRecommendation D → FileRecommendation D → Bool =
          λ a b. d.le a.temperature.score b.temperature.score in
        let good = recommend_each-IsEntry 0 ids files (ids-included files) in
        let number =
          λ (r : FileRecommendation D) (h : IsEntry rows r). (law.refl_of_le _ _ h.1.0).1 in
        (
          insertion_sort le entries,
          rw (listed, table) refl,
          subst (λ xs. Permᴰ (map (λ r. r.file_id) (insertion_sort le entries)) xs)
              (recommend_each-ids 0 (find_by_file_ids ids rows) files)
              (Permᴰ-map _ (insertion_sort-perm le entries)),
          All-perm _ (Permᴰ.symm (insertion_sort-perm le entries)) good,
          insertion_sort-Sorted (IsEntry rows) _ le (λ a b c. law.le_trans _ _ _) (λ a b p q e. e)
              (λ a b p q e. elim (law.le_total _ _ (number a p) (number b q)) [
                | inl y ↦ absurd (cc)
                | inr y ↦ y
              ])
              entries good,
        )
