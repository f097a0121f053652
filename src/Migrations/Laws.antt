-- ===== src/Migrations/Laws.antt =====
-- What a run of the migrations has applied, and that a second run finds nothing to do.
use intelli_store.Prelude.{
  String, ◌≡◌, refl, sym, ap, ◌∙◌, inl, inr, ◌⊎◌, Bool, true, false, ◌||◌, not, some, List, [], ◌∷◌,
  ◌++◌, arith, ◌==◌, All, All-filter, All-map, All-map₂, All-of, subst, Unique, filter, includes,
  Bool-cases,
}
use mathlib.Core.List.{Permᴰ, append-nil, append_assoc}
use intelli_store.Prelude.Sorting.{All-perm, Sorted}
use text.Mathlib.TextPositions.{eq_refl}
use intelli_store.Effects.{Failure, Result, ok, err, Result-cases}
use intelli_store.Migrations.{
  Migrations, Schema, applied_names, apply_each, apply_file, migration_files, run,
}

includes-append :
    (xs ys : List String) (s : String) → includes (xs ++ ys) s ≡ (includes xs s || includes ys s)
includes-append [] ys s = refl
includes-append (x ∷ xs) ys s = ground (arith, includes-append xs ys s)

includes-other :
    (names : List String) (file f : String)
    → (file == f) ≡ false
    → includes (names ++ file ∷ []) f ≡ includes names f
includes-other [] file f h = rw h refl
includes-other (x ∷ xs) file f h = ground (arith, includes-other xs file f h)

Sorted-filter :
    {A : Type 0} (R : A → A → Type 0) (p : A → Bool) (xs : List A)
    → Sorted R xs
    → Sorted R (filter p xs)
Sorted-filter R p [] s = tt
Sorted-filter R p (x ∷ xs) s = elim (Bool-cases (p x)) [
  | inl e ↦ rw e (All-filter (R x) p xs s.0, Sorted-filter R p xs s.1)
  | inr e ↦ rw e (Sorted-filter R p xs s.1)
]

-- The files that are not applied yet, in their order.
abbrev pub pending : List String → List String → List String
pending applied files = filter (λ file. not (includes applied file)) files

-- A file was applied before, or is pending.
pending-covers :
    (applied files : List String)
    → All (λ f. includes (applied ++ pending applied files) f ≡ true) files
pending-covers applied files = All-map _ files (λ f h. includes-append applied _ f ∙ h) (go files)
  where
    go :
        (fs : List String)
        → All (λ f. (includes applied f || includes (pending applied fs) f) ≡ true) fs
    go [] = tt
    go (f ∷ fs) = (ground (arith, eq_refl f), All-map _ fs (λ g h. ground (arith, h)) (go fs))

module _ {W : Type 0} (M : Migrations W) where
  -- The effects of some files, one after another.
  pub data Applies : List String → W → W → Type 0 where
    nothing : {w : W} → Applies [] w w
    one :
        {file : String} {files : List String} {w w' : W}
        → (M.run_file file w).0 ≡ ok tt
        → Applies files (M.run_file file w).1 w'
        → Applies (file ∷ files) w w'

  -- How a run ends: with nothing left over, or at a file whose effect on these tables is an error.
  abbrev pub Ends : List String → Result (Unit {0}) → W → Type 0
  Ends rest r w =
      ((r ≡ ok tt) × (rest ≡ []))
      ⊎ ((file : String) × (more : List String) × (x : Failure) × (rest ≡ file ∷ more)
          × ((M.run_file file w).0 ≡ err x)
          × (r ≡ err x))

  -- What `sort` does with the names: the same ones, in the order of texts.
  pub record IsSort (R : String → String → Type 0) : Type 0 where
    pub sort-perm : (names : List String) → Permᴰ (M.sort names) names
    pub sort-Sorted : (names : List String) → Sorted R (M.sort names)

  -- The files of the first list were applied in their order, their names recorded after those that
  -- were there; the others are left over.
  record IsDone (names files : List String) (w : W) (r : Result (Unit {0})) (s : Schema W)
      (done rest : List String) : Type 0 where
    split : files ≡ done ++ rest
    recorded : s.names ≡ some (names ++ done)
    applied : Applies done w s.tables
    ends : Ends rest r s.tables

  apply_file-ok :
      (file : String) (names : List String) (w : W)
      → (M.run_file file w).0 ≡ ok tt
      → includes names file ≡ false
      → apply_file M file (record { names = some names; tables = w })
        ≡ (ok tt, record { names = some (names ++ file ∷ []); tables = (M.run_file file w).1 })
  unfolding apply_file
  apply_file-ok file names w e b = rw (e, b) refl

  apply_file-err :
      (file : String) (s : Schema W) {x : Failure}
      → (M.run_file file s.tables).0 ≡ err x
      → apply_file M file s ≡ (err x, s)
  unfolding apply_file
  apply_file-err file s e = rw e refl

  apply_each-IsDone :
      (applied names files : List String) (w : W)
      → Unique (λ f. f) files
      → All (λ f. includes names f ≡ includes applied f) files
      → let (r, s) = apply_each M applied files (record { names = some names; tables = w }) in
        (done : List String) × (rest : List String) × IsDone names
          (pending applied files)
          w
          r
          s
          done
          rest
  unfolding apply_each
  apply_each-IsDone applied names [] w u h = (
    [],
    [],
    record {
      split = refl;
      recorded = ap some (sym (append-nil names));
      applied = nothing;
      ends = inl (refl, refl);
    },
  )
  apply_each-IsDone applied names (file ∷ files) w u h = elim (Bool-cases (includes applied file)) [
    | inl b ↦ rw b (apply_each-IsDone applied names files w u.1 h.1)
    | inr b ↦ elim (Result-cases (M.run_file file w).0) [
      | inr (x, e) ↦ rw b (
          rw (apply_file-err file (record { names = some names; tables = w }) e) (
            [],
            file ∷ pending applied files,
            record {
              split = refl;
              recorded = ap some (sym (append-nil names));
              applied = nothing;
              ends = inr (file, pending applied files, x, refl, e, refl);
            },
          ))
      | inl (_, e) ↦
          let (done, rest, d) =
            apply_each-IsDone applied (names ++ file ∷ []) files (M.run_file file w).1 u.1
              (All-map₂ _ files (λ f n k. includes-other names file f n ∙ k) u.0 h.1) in
          rw b (
            rw (apply_file-ok file names w e (h.0 ∙ b)) (
              file ∷ done,
              rest,
              record {
                split = ap (◌∷◌ file) d.split;
                recorded = d.recorded ∙ ap some (append_assoc names (file ∷ []) done);
                applied = one e d.applied;
                ends = d.ends;
              },
            ))
    ]
  ]

  apply_each-nothing :
      (applied files : List String) (s : Schema W)
      → All (λ f. includes applied f ≡ true) files
      → apply_each M applied files s ≡ (ok tt, s)
  unfolding apply_each
  apply_each-nothing applied [] s h = refl
  apply_each-nothing applied (f ∷ files) s h = rw h.0 (apply_each-nothing applied files s h.1)

  none_left :
      {rest : List String} {r : Result (Unit {0})} {w : W} → Ends rest r w → r ≡ ok tt → rest ≡ []
  none_left (inl (_, e)) h = e
  none_left (inr (file, more, x, _, _, e)) h = absurd (cc)

  run-again :
      (before done rest : List String) (s : Schema W)
      → pending before (migration_files M) ≡ done ++ rest
      → s.names ≡ some (before ++ done)
      → rest ≡ []
      → run M s ≡ (ok tt, s)
  unfolding run
  run-again before done rest s split recorded none_left =
      let names = before ++ done in
      let all_done : pending before (migration_files M) ≡ done =
        split ∙ rw none_left (append-nil done) in
      let covered =
        subst (λ ps. All (λ f. includes (before ++ ps) f ≡ true) (migration_files M)) all_done
          (pending-covers before (migration_files M)) in
      subst
        (λ ns.
          run M (record { names = ns; tables = s.tables })
          ≡ (ok tt, record { names = ns; tables = s.tables }))
        (sym recorded) (apply_each-nothing names (migration_files M) _ covered)

  -- Where no name is listed twice and `sort` sorts: the pending files are in the order of their names,
  -- and every .sql file of the directory is one of them or was applied before. A run applies them in
  -- this order and records exactly those that it applied, after the names that were there. It succeeds
  -- when none is left over, and another run then does nothing; or it throws the error with which the
  -- first that is left over fails on the tables that the run leaves, so that one changed nothing.
  pub run-Applies :
      (R : String → String → Type 0) (s : Schema W)
      → IsSort R
      → Unique (λ f. f) (migration_files M)
      → let before = applied_names s.names in
        let (r, s') = run M s in
        (done : List String) × (rest : List String) × (pending before (migration_files M)
          ≡ done ++ rest)
        × (s'.names ≡ some (before ++ done))
        × Sorted R (done ++ rest)
        × All
            (λ f. includes (before ++ (done ++ rest)) f ≡ true)
            (filter (λ f. M.ends_with f ".sql") M.readdir)
        × Applies done s.tables s'.tables
        × Ends rest r s'.tables
        × (r ≡ ok tt → run M s' ≡ (ok tt, s'))
  unfolding run
  run-Applies R s sorts u =
      let before = applied_names s.names in
      let (done, rest, d) =
        apply_each-IsDone before before (migration_files M) s.tables u
          (All-of _ (migration_files M) (λ f. refl)) in
      (
        done,
        rest,
        d.split,
        d.recorded,
        subst (Sorted R) d.split (
            Sorted-filter R (λ file. not (includes before file)) (migration_files M)
              (sorts.sort-Sorted _)),
        subst
            (λ fs.
              All (λ f. includes (before ++ fs) f ≡ true)
                (filter (λ f. M.ends_with f ".sql") M.readdir))
            d.split (All-perm _ (sorts.sort-perm _) (pending-covers before (migration_files M))),
        d.applied,
        d.ends,
        λ e. run-again before done rest _ d.split d.recorded (none_left d.ends e),
      )
