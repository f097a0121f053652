-- ===== src/Metadata/Service/Versions.antt =====
-- The numbers of versions, and what a registration that a constraint refuses leaves.
use mathlib.Core.List.{Permᴰ}
use mathlib.Core.List.Permᴰ
use text.Mathlib.TextPositions.{eq_refl}
use intelli_store.Prelude.{
  leb, ℕ, ◌+◌, ◌≤◌, suc, String, ◌≡◌, refl, ap, ◌∙◌, inl, inr, ◌⊎◌, false, some, List, [], ◌∷◌,
  ◌++◌, arith, All, All-append, All-map, filter, filter-append, eqb, length, length-append,
  Bool-cases,
}
use intelli_store.Prelude.Sorting.{All-perm, Sorted, length-perm}
use intelli_store.Effects.{Failure, ok, err, Result-cases}
use intelli_store.Metadata.Files.{
  FileRecord, FileVersionRecord, ChunkRecord, ChunkInput, Database, Engine, create_file,
  create_version, first, insert_chunk, insert_chunks, int_limit, latest_version, max_version,
  of_file, same_chunk, version_row, version_statements,
}
use intelli_store.Metadata.Service.{CreateFileInput, RegisteredFile, register_file, total_size}

-- A greatest key of its own comes first in descending order.
first-greatest :
    {A : Type 0} (key : A → ℕ) (v : A) (xs ys : List A)
    → Sorted (λ a b. key b ≤ key a) xs
    → Permᴰ xs (ys ++ v ∷ [])
    → All (λ y. suc (key y) ≤ key v) ys
    → first xs ≡ some v
first-greatest key v [] ys s p h =
    absurd (let n = length-perm p in ground (arith, n, length-append ys (v ∷ [])))
first-greatest {A} key v (x ∷ xs) ys s p h = elim ((All-perm P (Permᴰ.symm p) all).0) [
  | inr e ↦ ap some e
  | inl l ↦ absurd (
      below ys (
        All-perm (λ y. suc (key y) ≤ key v) p
          (l, All-map (λ y. suc (key y) ≤ key v) xs (λ y k. omega (arith, k, l)) s.0)))
]
  where
    P : A → Type 0
    P y = (suc (key y) ≤ key v) ⊎ (y ≡ v)

    all : All P (ys ++ v ∷ [])
    all = All-append P ys (v ∷ []) (All-map P ys (λ y k. inl k) h) (inr refl, tt)

    below : (zs : List A) → All (λ y. suc (key y) ≤ key v) (zs ++ v ∷ []) → ⊥
    below [] k = omega (arith, k.0)
    below (z ∷ zs) k = below zs k.1

max_version-bound :
    (vs : List FileVersionRecord) → All (λ v. suc v.version_number ≤ max_version vs + 1) vs
max_version-bound [] = tt
max_version-bound (v ∷ vs) = (
  ground arith,
  All-map (λ x. suc x.version_number ≤ max_version (v ∷ vs) + 1) vs (λ x h. ground (arith, h))
      (max_version-bound vs),
)

module _ (E : Engine) where
  insert_chunk-keeps :
      (version_id : String) (chunk : ChunkInput) (d : Database)
      → let d' = (insert_chunk E version_id chunk d).1 in
        (d'.files ≡ d.files) × (d'.versions ≡ d.versions) × (d'.clock ≡ d.clock)
  unfolding insert_chunk
  insert_chunk-keeps version_id chunk d = elim (Bool-cases (leb int_limit chunk.chunk_index)) [
    | inl b ↦ rw b (refl, refl, refl)
    | inr b ↦
        elim (Bool-cases
          (eqb (length (filter (same_chunk version_id chunk.chunk_index) d.chunks)) 0)) [
            | inl e ↦ rw (b, e) (refl, refl, refl)
            | inr e ↦ rw (b, e) (refl, refl, refl)
          ]
  ]

  pub insert_chunks-keeps :
      (version_id : String) (chunks : List ChunkInput) (rows : List ChunkRecord) (d : Database)
      → let d' = (insert_chunks E version_id chunks rows d).1 in
        (d'.files ≡ d.files) × (d'.versions ≡ d.versions) × (d'.clock ≡ d.clock)
  unfolding insert_chunks
  insert_chunks-keeps version_id [] rows d = (refl, refl, refl)
  insert_chunks-keeps version_id (c ∷ cs) rows d =
      let (f, v, t) = insert_chunk-keeps version_id c d in
      elim (Result-cases (insert_chunk E version_id c d).0) [
        | inr (x, e) ↦ rw e (f, v, t)
        | inl (row, e) ↦
            let (f', v', t') =
              insert_chunks-keeps version_id cs (rows ++ row ∷ [])
                (insert_chunk E version_id c d).1 in
            rw e (f' ∙ f, v' ∙ v, t' ∙ t)
      ]

  module _ (file_id : String) (size_bytes : ℕ) (mime_type checksum : String)
      (chunks : List ChunkInput) where
    -- A new version is the latest of its file, its number is greater than that of each other version
    -- of the file, and the other versions stay. If a constraint refuses one of the chunks, the tables
    -- are as they were.
    pub create_version-latest :
        (d : Database)
        → let (r, d') = create_version E file_id size_bytes mime_type checksum chunks d in
          ((v : FileVersionRecord) × (rows : List ChunkRecord) × (r ≡ ok (v, rows))
            × (d'.versions ≡ d.versions ++ v ∷ [])
            × All
                (λ u. suc u.version_number ≤ v.version_number)
                (filter (of_file file_id) d.versions)
            × (latest_version E file_id d' ≡ some v))
          ⊎ ((x : Failure) × (r ≡ err x) × (d' ≡ d))
    unfolding create_version version_statements
    create_version-latest d =
        let v = version_row E file_id size_bytes mime_type checksum d in
        let d₁ = record d { versions = d.versions ++ v ∷ []; ids = d.ids + 1 } in
        let keeps = insert_chunks-keeps v.id chunks [] d₁ in
        elim (Result-cases (insert_chunks E v.id chunks [] d₁).0) [
          | inr (x, e) ↦ rw e (inr (x, refl, refl))
          | inl (rows, e) ↦ rw e (inl (v, rows, refl, keeps.1, max_version-bound _, latest keeps.1))
        ]
      where
        latest :
            {vs : List FileVersionRecord}
            → let v = version_row E file_id size_bytes mime_type checksum d in
              vs ≡ d.versions ++ v ∷ []
              → first
                  (E.postgres.order_by_desc (λ u. u.version_number) (filter (of_file file_id) vs))
                ≡ some v
        latest {vs} e =
            let v = version_row E file_id size_bytes mime_type checksum d in
            let own : filter (of_file file_id) vs ≡ filter (of_file file_id) d.versions ++ v ∷ [] =
              rw (e, filter-append (of_file file_id) d.versions (v ∷ []), eq_refl file_id) refl in
            rw own (
              first-greatest (λ u. u.version_number) v _ (filter (of_file file_id) d.versions)
                (E.postgres.order_by_desc-Sorted _ _) (E.postgres.order_by_desc-perm _ _)
                (max_version-bound _))

  -- A registration that throws leaves the new file behind, without any version; one that returns
  -- leaves the file with the version that it returns as its latest.
  pub register_file-cases :
      (owner_id : String) (input : CreateFileInput) (d : Database)
      → let (r, d') = register_file E owner_id input d in
        let file = (create_file E owner_id input.file_name d).0 in
        ((x : Failure) × (r ≡ err x)
          × (d'.versions ≡ d.versions)
          × ((f : FileRecord) × (file ≡ ok f)
              × (d'.files ≡ d.files ++ f ∷ [])
              × (f.owner_id ≡ owner_id)
              × (f.file_name ≡ input.file_name)
              × (f.is_deleted ≡ false)))
        ⊎ ((f : RegisteredFile) × (r ≡ ok f)
            × (file ≡ ok f.file)
            × (latest_version E f.file.id d' ≡ some f.version)
            × (d'.versions ≡ d.versions ++ f.version ∷ []))
  unfolding register_file create_file
  register_file-cases owner_id input d =
      let f = E.gen_random_uuid d.ids in
      let d₁ : Database = (create_file E owner_id input.file_name d).1 in
      elim (create_version-latest f (total_size input.chunks) input.mime_type input.checksum
        input.chunks d₁) [
          | inl (v, rows, r, vs, _, l) ↦ rw r (inr (_, refl, refl, l, vs))
          | inr (x, r, e) ↦ rw r (
              inl
                (x, refl, ap (λ d. d.versions) e, (_, refl, ap (λ d. d.files) e, refl, refl, refl)))
        ]
