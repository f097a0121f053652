-- ===== src/Metadata/Service/Access.antt =====
-- Whose files the operations show and change, and the sums of the statistics.
use mathlib.Core.List.Permᴰ
use intelli_store.Prelude.{
  ℕ, ◌+◌, ◌≤◌, String, ◌≡◌, refl, inl, inr, ◌⊎◌, true, false, ◌&&◌, none, some, List, [], ◌∷◌, map,
  arith, ◌==◌, eq_iff, All, All-map, All-filter_self, find?, find-some, update_where, sum_of,
  length, length-filter-le, Bool-cases, Option-cases,
}
use intelli_store.Prelude.Sorting.{All-perm}
use intelli_store.Effects.{Result, ok, err, app_error, not_found}
use intelli_store.Metadata.Files.{
  FileRecord, ChunkRecord, Database, Engine, distinct_chunks, find_file_by_id, get_system_stats,
  live, owned_by, soft_delete_file, latest_version, list_files_by_owner, search_by_owner,
}
use intelli_store.Metadata.Service.{
  FileWithLatestVersion, delete_file, get_file, get_owned_file, list_files, search_files,
}

-- A file that its owner may see.
abbrev pub IsVisible : String → FileRecord → Type 0
IsVisible owner_id f = (f.owner_id ≡ owner_id) × (f.is_deleted ≡ false)

abbrev pub Visible : String → Result (List FileWithLatestVersion) → Type 0
Visible owner_id (ok rows) = All (λ x. IsVisible owner_id x.file) rows
Visible owner_id (err e) = Unit

-- Either the file that the id names, not deleted and the owner's, or a 404; nothing changes.
pub get_owned_file-cases :
    (owner_id file_id : String) (d : Database)
    → ((f : FileRecord) × (get_owned_file owner_id file_id d ≡ (ok f, d))
        × (f.id ≡ file_id)
        × IsVisible owner_id f
        × (find_file_by_id file_id d ≡ some f))
      ⊎ (get_owned_file owner_id file_id d ≡ (err (app_error (not_found "File not found")), d))
unfolding get_owned_file
get_owned_file-cases owner_id file_id d = elim (Option-cases (find_file_by_id file_id d)) [
  | inl e ↦ rw e (inr refl)
  | inr (f, e) ↦
      let h = find-some (λ f. f.id == file_id && live f) d.files e in
      elim (Bool-cases (f.owner_id == owner_id)) [
        | inl o ↦ rw e (
            rw o (
              inl (
                f,
                refl,
                ground (arith, h, eq_iff f.id file_id),
                (ground (arith, o, eq_iff f.owner_id owner_id), ground (arith, h)),
                refl,
              )))
        | inr o ↦ rw e (rw o (inr refl))
      ]
]

module _ (E : Engine) where
  All-listed :
      (P : FileRecord → Type 0) (d : Database) (files : List FileRecord)
      → All P files
      → All
          (λ (x : FileWithLatestVersion). P x.file)
          (map (λ f. record { file = f; latest = latest_version E f.id d }) files)
  All-listed P d [] h = tt
  All-listed P d (f ∷ files) h = (h.0, All-listed P d files h.1)

  -- A list of files and a search, whatever the query, show a user only files of their own that are
  -- not deleted, and change nothing.
  pub list_and_search-Visible :
      (owner_id query : String) (d : Database)
      → Visible owner_id (list_files E owner_id d).0
        × Visible owner_id (search_files E owner_id query d).0
        × ((list_files E owner_id d).1 ≡ d)
        × ((search_files E owner_id query d).1 ≡ d)
  unfolding list_files search_files
  list_and_search-Visible owner_id query d = elim (Bool-cases (E.trim query == "")) [
    | inl e ↦ rw e (listed, tt, refl, refl)
    | inr e ↦ rw e (listed, searched, refl, refl)
  ]
    where
      listed : Visible owner_id (list_files E owner_id d).0
      listed = All-listed (IsVisible owner_id) d (list_files_by_owner E owner_id d) (
          All-perm (IsVisible owner_id) (Permᴰ.symm (E.postgres.order_by_desc-perm _ _)) (
            All-map (IsVisible owner_id) _
              (λ f h. (ground (arith, h, eq_iff f.owner_id owner_id), ground (arith, h)))
              (All-filter_self (λ f. owned_by owner_id f && live f) d.files)))

      searched :
          All
            (λ (x : FileWithLatestVersion). IsVisible owner_id x.file)
            (map
              (λ f. record { file = f; latest = latest_version E f.id d })
              (search_by_owner E owner_id (E.trim query) d))
      searched = All-listed (IsVisible owner_id) d (search_by_owner E owner_id (E.trim query) d) (
          All-perm (IsVisible owner_id) (Permᴰ.symm (E.postgres.order_by_desc-perm _ _)) (
            All-map (IsVisible owner_id) _
              (λ f h. (ground (arith, h, eq_iff f.owner_id owner_id), ground (arith, h)))
              (All-filter_self _ d.files)))

  find-deleted :
      (file_id : String) (now : ℕ) (files : List FileRecord)
      → find?
          (λ f. f.id == file_id && live f)
          (update_where
            (λ f. f.id == file_id)
            (λ f. record f { is_deleted = true; updated_at = now })
            files)
        ≡ none
  find-deleted file_id now [] = refl
  find-deleted file_id now (f ∷ files) = elim (Bool-cases (f.id == file_id)) [
    | inl e ↦ rw e (rw e (find-deleted file_id now files))
    | inr e ↦ rw e (rw e (find-deleted file_id now files))
  ]

  find-other :
      (file_id other : String) (now : ℕ) (files : List FileRecord)
      → (file_id == other) ≡ false
      → find?
          (λ f. f.id == other && live f)
          (update_where
            (λ f. f.id == file_id)
            (λ f. record f { is_deleted = true; updated_at = now })
            files)
        ≡ find? (λ f. f.id == other && live f) files
  find-other file_id other now [] h = refl
  find-other file_id other now (f ∷ files) h = elim (Bool-cases (f.id == file_id)) [
    | inl e ↦
        let n : (f.id == other) ≡ false = ground (arith, h, e, eq_iff f.id file_id) in
        rw e (rw n (find-other file_id other now files h))
    | inr e ↦ rw e (rw (find-other file_id other now files h) refl)
  ]

  -- A deletion that returns was the owner's; afterwards nobody finds the file, and every other file is
  -- found as before. A deletion that throws is a 404 and changes nothing.
  pub delete_file-hides :
      (owner_id file_id : String) (d : Database)
      → let (r, d') = delete_file E owner_id file_id d in
        ((f : FileRecord) × (find_file_by_id file_id d ≡ some f)
          × (f.owner_id ≡ owner_id)
          × (r ≡ ok tt)
          × ((anyone : String)
              → (get_file E anyone file_id d').0 ≡ err (app_error (not_found "File not found")))
          × ((other : String)
              → (file_id == other) ≡ false
              → find_file_by_id other d' ≡ find_file_by_id other d))
        ⊎ ((r ≡ err (app_error (not_found "File not found"))) × (d' ≡ d))
  unfolding delete_file get_file get_owned_file
  delete_file-hides owner_id file_id d = elim (get_owned_file-cases owner_id file_id d) [
    | inr e ↦ rw e (inr (refl, refl))
    | inl (f, e, i, v, found) ↦
        rw e
          (inl (f, found, v.0, refl, gone, λ other h. find-other file_id other d.clock d.files h))
  ]
    where
      gone :
          (anyone : String)
          → (get_file E anyone file_id (soft_delete_file file_id d)).0
            ≡ err (app_error (not_found "File not found"))
      gone anyone = rw (find-deleted file_id d.clock d.files) refl

  sum_of-distinct :
      (cs : List ChunkRecord)
      → sum_of (λ c. c.size_bytes) (distinct_chunks cs) ≤ sum_of (λ c. c.size_bytes) cs
  sum_of-distinct [] = omega arith
  sum_of-distinct (c ∷ cs) = ground (arith, sum_of-distinct cs)

  -- What deduplication saves and what is stored add up to the bytes of all chunks, what is stored
  -- is at most that, and at most as many files are counted as the table has rows.
  pub get_system_stats-sums :
      (d : Database)
      → let s = get_system_stats E d in
        (s.physical_chunk_bytes + s.deduped_bytes ≡ s.logical_chunk_bytes)
        × (s.physical_chunk_bytes ≤ s.logical_chunk_bytes)
        × (s.total_files ≤ length d.files)
  unfolding get_system_stats
  get_system_stats-sums d = (
    omega (arith, sum_of-distinct d.chunks),
    sum_of-distinct d.chunks,
    length-filter-le live d.files,
  )
