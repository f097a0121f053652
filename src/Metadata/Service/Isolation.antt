-- ===== src/Metadata/Service/Isolation.antt =====
-- No operation touches the files of a user other than the one it is called for.
use intelli_store.Prelude.{
  ℕ, ◌+◌, String, ◌≡◌, refl, sym, ap, subst, ◌∙◌, inl, inr, true, false, ◌&&◌, some, List, [], ◌∷◌,
  ◌++◌, arith, ◌==◌, eq_iff, All, All-append, All-map, Unique, Unique-row, filter, filter-append,
  filter-update_where, find-All, Option-cases,
}
use mathlib.Core.List.{append-nil}
use intelli_store.Effects.{Result-cases}
use intelli_store.Metadata.Files.{
  ChunkInput, Database, Engine, FileRecord, create_file, create_version, find_file_by_id,
  find_version, insert_chunks, live, owned_by, version_row, version_statements,
}
use intelli_store.Metadata.Service.{
  CreateFileInput, CreateVersionInput, add_version, delete_file, get_file, get_version, list_files,
  read_system_stats, register_file, search_files, total_size,
}
use intelli_store.Metadata.Service.Access.{get_owned_file-cases, list_and_search-Visible}
use intelli_store.Metadata.Service.Versions.{insert_chunks-keeps}

-- The files of a user are as before.
abbrev pub Keeps : String → Database → Database → Type 0
Keeps other d d' = filter (owned_by other) d'.files ≡ filter (owned_by other) d.files

-- No row with the id is the user's.
abbrev Foreign : String → String → Database → Type 0
Foreign other file_id d = All (λ f. (f.id == file_id) ≡ true → owned_by other f ≡ false) d.files

-- With unique ids, a file of another user is the only row with its id.
Foreign-found :
    (other owner_id file_id : String) (d : Database) (f : FileRecord)
    → Unique (λ f. f.id) d.files
    → (owner_id == other) ≡ false
    → find_file_by_id file_id d ≡ some f
    → f.owner_id ≡ owner_id
    → f.id ≡ file_id
    → Foreign other file_id d
Foreign-found other owner_id file_id d f u ne found owner id =
    All-map _ d.files
      (λ g same e. let s : g ≡ f = same (rw id e) in ap (λ x. x.owner_id == other) s ∙ rw owner ne)
      (find-All _ (λ f. f.id == file_id && live f) d.files (Unique-row (λ f. f.id) d.files u) found)

module _ (E : Engine) (other : String) where
  create_version-Keeps :
      (file_id : String) (size_bytes : ℕ) (mime_type checksum : String) (chunks : List ChunkInput)
      (d : Database)
      → Foreign other file_id d
      → Keeps other d (create_version E file_id size_bytes mime_type checksum chunks d).1
  unfolding create_version version_statements
  create_version-Keeps file_id size_bytes mime_type checksum chunks d h =
      let v = version_row E file_id size_bytes mime_type checksum d in
      let d₁ = record d { versions = d.versions ++ v ∷ []; ids = d.ids + 1 } in
      let (files, _, _) = insert_chunks-keeps E v.id chunks [] d₁ in
      elim (Result-cases (insert_chunks E v.id chunks [] d₁).0) [
        | inr (x, e) ↦ rw e refl
        | inl (rows, e) ↦ rw e (
            filter-update_where (owned_by other) (λ f. f.id == file_id) _ _ (λ f. refl)
              (subst (All (λ f. (f.id == file_id) ≡ true → owned_by other f ≡ false)) (sym files) h)
            ∙ ap (filter (owned_by other)) files)
      ]

  module _ (owner_id : String) (ne : (owner_id == other) ≡ false) (d : Database) where
    pub reads-Keeps :
        (file_id query : String) (n : ℕ)
        → Keeps other d (list_files E owner_id d).1
          × Keeps other d (search_files E owner_id query d).1
          × Keeps other d (read_system_stats E d).1
          × Keeps other d (get_file E owner_id file_id d).1
          × Keeps other d (get_version E owner_id file_id n d).1
    unfolding get_file get_version read_system_stats
    reads-Keeps file_id query n =
        let (_, _, listed, searched) = list_and_search-Visible E owner_id query d in
        let versions = find_version file_id n d in
        (
          rw listed refl,
          rw searched refl,
          refl,
          elim (get_owned_file-cases owner_id file_id d) [
            | inl (f, e, _, _, _) ↦ rw e refl
            | inr e ↦ rw e refl
          ],
          elim (get_owned_file-cases owner_id file_id d) [
            | inl (f, e, _, _, _) ↦ elim (Option-cases versions) [
              | inl b ↦ rw e (rw b refl)
              | inr (v, b) ↦ rw e (rw b refl)
            ]
            | inr e ↦ rw e refl
          ],
        )

    module _ (unique : Unique (λ f. f.id) d.files) where
      pub delete_file-Keeps :
          (file_id : String) → Keeps other d (delete_file E owner_id file_id d).1
      unfolding delete_file
      delete_file-Keeps file_id = elim (get_owned_file-cases owner_id file_id d) [
        | inl (f, e, i, v, found) ↦ rw e (
            filter-update_where (owned_by other) (λ f. f.id == file_id) _ d.files (λ f. refl)
              (Foreign-found other owner_id file_id d f unique ne found v.0 i))
        | inr e ↦ rw e refl
      ]

      pub add_version-Keeps :
          (file_id : String) (input : CreateVersionInput)
          → Keeps other d (add_version E owner_id file_id input d).1
      unfolding add_version
      add_version-Keeps file_id input =
          let r =
            create_version E file_id (total_size input.chunks) input.mime_type input.checksum
              input.chunks d in
          elim (get_owned_file-cases owner_id file_id d) [
            | inl (f, e, i, v, found) ↦
                let k =
                  create_version-Keeps file_id (total_size input.chunks) input.mime_type
                    input.checksum input.chunks d
                    (Foreign-found other owner_id file_id d f unique ne found v.0 i) in
                elim (Result-cases r.0) [ inl (x, b) ↦ rw e (rw b k) | inr (x, b) ↦ rw e (rw b k) ]
            | inr e ↦ rw e refl
          ]

      -- Where the database gives an id that is new.
      pub register_file-Keeps :
          (input : CreateFileInput)
          → All (λ f. (E.gen_random_uuid d.ids == f.id) ≡ false) d.files
          → Keeps other d (register_file E owner_id input d).1
      unfolding register_file create_file
      register_file-Keeps input fresh =
          let id = E.gen_random_uuid d.ids in
          let d₁ : Database = (create_file E owner_id input.file_name d).1 in
          let r =
            create_version E id (total_size input.chunks) input.mime_type input.checksum
              input.chunks d₁ in
          let appended : Keeps other d d₁ =
            filter-append (owned_by other) d.files _
            ∙ rw ne (append-nil (filter (owned_by other) d.files)) in
          let foreign : Foreign other id d₁ =
            All-append _ d.files _
              (All-map _ d.files
                (λ f n e. absurd (ground (arith, n, e, eq_iff id f.id, eq_iff f.id id))) fresh)
              (λ e. ne, tt) in
          let k =
            create_version-Keeps id (total_size input.chunks) input.mime_type input.checksum
              input.chunks d₁ foreign
            ∙ appended in
          elim (Result-cases r.0) [ inl (x, b) ↦ rw b k | inr (x, b) ↦ rw b k ]
