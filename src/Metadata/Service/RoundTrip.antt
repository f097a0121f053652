-- ===== src/Metadata/Service/RoundTrip.antt =====
-- A registered file is found again, with its first version and its chunks.
use mathlib.Core.List.{Permᴰ, append_assoc, append-nil}
use text.Mathlib.TextPositions.{eq_refl}
use intelli_store.Prelude.{
  ℕ, ◌+◌, ◌≤◌, ◌<◌, leb, String, ◌≡◌, refl, sym, ap, subst, ◌∙◌, Bool, true, false, ◌&&◌, some,
  List, [], ◌∷◌, ◌++◌, map, arith, ◌==◌, eq_iff, All, All-map, All-map₂, All-of, eqb, filter,
  filter-append, find?, length, length-append, update_where,
}
use intelli_store.Prelude.Sorting.{Sorted}
use intelli_store.Prelude.Ordered.{perm-single}
use intelli_store.Effects.{Result, ok}
use intelli_store.Metadata.Files.{
  ChunkInput, ChunkRecord, Database, Engine, FileRecord, FileVersionRecord, create_file,
  create_version, find_file_by_id, find_version, insert_chunk, insert_chunks, int_limit,
  list_chunks, list_versions, live, of_file, same_chunk, version_row, version_statements,
}
use intelli_store.Metadata.Service.Versions.{insert_chunks-keeps}
use intelli_store.Metadata.Service.{
  CreateFileInput, RegisteredFile, VersionDetail, get_file, get_owned_file, get_version,
  register_file, total_size,
}

abbrev pub input_of : ChunkRecord → ChunkInput
input_of c = record {
  chunk_index = c.chunk_index;
  size_bytes = c.size_bytes;
  checksum = c.checksum;
  storage_key = c.storage_key;
}

-- No two chunks have one index.
abbrev pub Distinct : List ChunkInput → Type 0
Distinct [] = Unit
Distinct (c ∷ cs) = All (λ y. eqb c.chunk_index y.chunk_index ≡ false) cs × Distinct cs

find-fresh :
    {A : Type 0} (p : A → Bool) (xs : List A) (x : A)
    → All (λ y. p y ≡ false) xs
    → p x ≡ true
    → find? p (xs ++ x ∷ []) ≡ some x
find-fresh p [] x h e = rw e refl
find-fresh p (y ∷ ys) x h e = rw h.0 (find-fresh p ys x h.1 e)

filter-fresh :
    {A : Type 0} (p : A → Bool) (xs : List A) → All (λ y. p y ≡ false) xs → filter p xs ≡ []
filter-fresh p [] h = refl
filter-fresh p (x ∷ xs) h = rw h.0 (filter-fresh p xs h.1)

filter-all : {A : Type 0} (p : A → Bool) (xs : List A) → All (λ y. p y ≡ true) xs → filter p xs ≡ xs
filter-all p [] h = refl
filter-all p (x ∷ xs) h = rw h.0 (ap (◌∷◌ x) (filter-all p xs h.1))

module _ (E : Engine) (id : String) where
  -- The rows that an insertion of all the chunks adds.
  record IsInserted (cs : List ChunkInput) (rows : List ChunkRecord) (d : Database)
      (r : Result (List ChunkRecord) × Database) : Type 0 where
    new : List ChunkRecord
    returned : r.0 ≡ ok (rows ++ new)
    added : r.1.chunks ≡ d.chunks ++ new
    inputs : map input_of new ≡ cs
    own : All (λ c. (c.file_version_id == id) ≡ true) new

  in_range : {k : ℕ} → k < int_limit → leb int_limit k ≡ false
  in_range h = ground arith

  abbrev Vacant : Database → ChunkInput → Type 0
  Vacant d c = length (filter (same_chunk id c.chunk_index) d.chunks) ≡ 0

  insert_chunks-IsInserted :
      (cs : List ChunkInput) (rows : List ChunkRecord) (d : Database)
      → Distinct cs
      → All (Vacant d) cs
      → All (λ c. c.chunk_index < int_limit) cs
      → IsInserted cs rows d (insert_chunks E id cs rows d)
  unfolding insert_chunks insert_chunk
  insert_chunks-IsInserted [] rows d u v b = record {
    new = [];
    returned = ap ok (sym (append-nil rows));
    added = sym (append-nil d.chunks);
    inputs = refl;
    own = tt;
  }
  insert_chunks-IsInserted (c ∷ cs) rows d u v b =
      rw (in_range b.0, v.0)
        (let rest = insert_chunks-IsInserted cs (rows ++ row ∷ []) d₁ u.1 still b.1 in
          record {
            new = row ∷ rest.new;
            returned = rest.returned ∙ ap ok (append_assoc rows (row ∷ []) rest.new);
            added = rest.added ∙ append_assoc d.chunks (row ∷ []) rest.new;
            inputs = ap (◌∷◌ c) rest.inputs;
            own = (eq_refl id, rest.own);
          })
    where
      row : ChunkRecord
      row = record {
        id = E.gen_random_uuid d.ids;
        file_version_id = id;
        chunk_index = c.chunk_index;
        size_bytes = c.size_bytes;
        checksum = c.checksum;
        storage_key = c.storage_key;
      }

      d₁ : Database
      d₁ = record d { chunks = d.chunks ++ row ∷ []; ids = d.ids + 1 }

      still : All (Vacant d₁) cs
      still =
          All-map₂ {P = Vacant d} {Q = λ y. eqb c.chunk_index y.chunk_index ≡ false} (Vacant d₁) cs
            (λ y k e.
              ap length (filter-append (same_chunk id y.chunk_index) d.chunks (row ∷ []))
              ∙ length-append (filter (same_chunk id y.chunk_index) d.chunks) _
              ∙ rw (eq_refl id, e) (omega (arith, k)))
            v.1 u.0

-- What the database has not given before: the ids of the next file and of its version.
pub record IsFresh (E : Engine) (d : Database) : Type 0 where
  pub no_file : All (λ f. (f.id == E.gen_random_uuid d.ids) ≡ false) d.files
  pub no_version : All (λ v. (v.file_id == E.gen_random_uuid d.ids) ≡ false) d.versions
  pub no_chunk : All (λ c. (c.file_version_id == E.gen_random_uuid (d.ids + 1)) ≡ false) d.chunks

-- A file that was registered, as its owner then reads its first version.
pub record IsReadBack (E : Engine) (owner_id : String) (input : CreateFileInput) (d' : Database)
    (f : RegisteredFile) : Type 0 where
  pub read : VersionDetail
  pub returned : (get_version E owner_id f.file.id 1 d').0 ≡ ok read
  pub same_version : read.version ≡ f.version
  pub same_chunks : Permᴰ read.chunks f.chunks
  pub in_order : Sorted (λ a b. a.chunk_index ≤ b.chunk_index) read.chunks
  pub as_given : map input_of f.chunks ≡ input.chunks
  pub summed : f.version.size_bytes ≡ total_size input.chunks
  pub typed : f.version.mime_type ≡ input.mime_type
  pub checked : f.version.checksum ≡ input.checksum
  pub shown : FileRecord
  pub detailed :
      get_file E owner_id f.file.id d'
      ≡ (ok (record { file = shown; versions = f.version ∷ [] }), d')
  pub named : shown.file_name ≡ input.file_name
  pub given : (k : ℕ) × (f.file.id ≡ E.gen_random_uuid k)

no_clash :
    (E : Engine) (id : String) (chunks : List ChunkRecord) (cs : List ChunkInput)
    → All (λ c. (c.file_version_id == id) ≡ false) chunks
    → All (λ c. length (filter (same_chunk id c.chunk_index) chunks) ≡ 0) cs
no_clash E id chunks cs h = All-of _ cs λ c.
    ap length
      (filter-fresh (same_chunk id c.chunk_index) chunks (All-map _ chunks (λ x k. rw k refl) h))

find-touched :
    (id : String) (now : ℕ) (f : FileRecord) (files : List FileRecord)
    → All (λ g. (g.id == id) ≡ false) files
    → f.id ≡ id
    → f.is_deleted ≡ false
    → find?
        (λ g. g.id == id && live g)
        (update_where (λ g. g.id == id) (λ g. record g { updated_at = now }) (files ++ f ∷ []))
      ≡ some (record f { updated_at = now })
find-touched id now f [] h i e =
    let there : (f.id == id) ≡ true = (eq_iff f.id id).1 i in rw there (rw (there, e) refl)
find-touched id now f (g ∷ files) h i e = rw h.0 (rw h.0 (find-touched id now f files h.1 i e))

module _ (E : Engine) (owner_id : String) (input : CreateFileInput) (d : Database) where
  abbrev file_id : String
  file_id = E.gen_random_uuid d.ids

  abbrev version_id : String
  version_id = E.gen_random_uuid (d.ids + 1)

  abbrev made : FileRecord
  made = record {
    id = file_id;
    owner_id = owner_id;
    file_name = input.file_name;
    is_deleted = false;
    created_at = d.clock;
    updated_at = d.clock;
  }

  -- After the INSERT into `files`, and after that into `file_versions`.
  abbrev with_file : Database
  with_file = record d { files = d.files ++ made ∷ []; ids = d.ids + 1 }

  abbrev row : FileVersionRecord
  row = version_row E file_id (total_size input.chunks) input.mime_type input.checksum with_file

  abbrev with_version : Database
  with_version = record with_file { versions = d.versions ++ row ∷ []; ids = d.ids + 1 + 1 }

  abbrev run : Result (List ChunkRecord) × Database
  run = insert_chunks E version_id input.chunks [] with_version

  abbrev after : Database
  after = record run.1 {
    files =
        update_where (λ g. g.id == file_id) (λ g. record g { updated_at = run.1.clock })
          run.1.files;
  }

  register_run :
      (new : List ChunkRecord)
      → run.0 ≡ ok new
      → register_file E owner_id input d
        ≡ (ok (record { file = made; version = row; chunks = new }), after)
  unfolding register_file create_file create_version version_statements
  register_run new e = rw e refl

  row-first : IsFresh E d → row.version_number ≡ 1
  row-first fresh = rw (filter-fresh (of_file file_id) d.versions fresh.no_version) refl

  abbrev touched : FileRecord
  touched = record made { updated_at = run.1.clock }

  found_after : IsFresh E d → find_file_by_id file_id after ≡ some touched
  found_after fresh =
      rw (insert_chunks-keeps E version_id input.chunks [] with_version).0
        (find-touched file_id run.1.clock made d.files fresh.no_file refl refl)

  get_version_run :
      IsFresh E d
      → (get_version E owner_id file_id 1 after).0
        ≡ ok (record { version = row; chunks = list_chunks E version_id after })
  unfolding get_version get_owned_file
  get_version_run fresh =
      let keeps = insert_chunks-keeps E version_id input.chunks [] with_version in
      let version : find_version file_id 1 after ≡ some row = rw keeps.1 (
        find-fresh (λ v. of_file file_id v && eqb v.version_number 1) d.versions row
          (All-map _ d.versions (λ v k. rw k refl) fresh.no_version)
          (rw (eq_refl file_id, row-first fresh) refl)) in
      rw (found_after fresh) (rw (eq_refl owner_id) (rw version refl))

  list_versions-after : IsFresh E d → list_versions E file_id after ≡ row ∷ []
  list_versions-after fresh =
      let keeps = insert_chunks-keeps E version_id input.chunks [] with_version in
      let own : filter (of_file file_id) run.1.versions ≡ row ∷ [] =
        rw
          (
            keeps.1,
            filter-append (of_file file_id) d.versions (row ∷ []),
            filter-fresh (of_file file_id) d.versions fresh.no_version,
          )
          (rw (eq_refl file_id) refl) in
      perm-single row (
        subst (Permᴰ (list_versions E file_id after)) own (
          E.postgres.order_by_desc-perm (λ v. v.version_number)
            (filter (of_file file_id) run.1.versions)))

  get_file_run :
      IsFresh E d
      → get_file E owner_id file_id after
        ≡ (ok (record { file = touched; versions = row ∷ [] }), after)
  unfolding get_file get_owned_file
  get_file_run fresh =
      rw (found_after fresh) (rw (eq_refl owner_id) (rw (list_versions-after fresh) refl))

  -- A registration of chunks without two of one index, the indices being those of an INT column, in a database that gives new ids, succeeds;
  -- the owner then sees the file with its name and one version, and reads this version, number 1, with
  -- the type and checksum that were given, the chunks in the order of their indices, and the sum of
  -- their sizes.
  pub register_file-IsReadBack :
      IsFresh E d
      → Distinct input.chunks
      → All (λ c. c.chunk_index < int_limit) input.chunks
      → let (r, d') = register_file E owner_id input d in
        (f : RegisteredFile) × (r ≡ ok f)
        × (f.version.version_number ≡ 1)
        × IsReadBack E owner_id input d' f
  register_file-IsReadBack fresh distinct bounded =
      let i =
        insert_chunks-IsInserted E version_id input.chunks [] with_version distinct
          (no_clash E version_id d.chunks input.chunks fresh.no_chunk) bounded in
      let own : filter (λ c. c.file_version_id == version_id) run.1.chunks ≡ i.new =
        rw
          (
            i.added,
            filter-append (λ c. c.file_version_id == version_id) d.chunks i.new,
            filter-fresh (λ c. c.file_version_id == version_id) d.chunks fresh.no_chunk,
          )
          (filter-all (λ c. c.file_version_id == version_id) i.new i.own) in
      rw (register_run i.new i.returned) (
        record { file = made; version = row; chunks = i.new },
        refl,
        row-first fresh,
        record {
          read = record { version = row; chunks = list_chunks E version_id after };
          returned = get_version_run fresh;
          same_version = refl;
          same_chunks = subst (Permᴰ (list_chunks E version_id after)) own (
              E.postgres.order_by-perm (λ c. c.chunk_index)
                (filter (λ c. c.file_version_id == version_id) run.1.chunks));
          in_order =
              E.postgres.order_by-Sorted (λ c. c.chunk_index)
                (filter (λ c. c.file_version_id == version_id) run.1.chunks);
          as_given = i.inputs;
          summed = refl;
          typed = refl;
          checked = refl;
          shown = touched;
          detailed = get_file_run fresh;
          named = refl;
          given = (d.ids, refl);
        },
      )
