-- ===== src/Examples/Migrating.antt =====
-- services/*/src/db/migrate.ts: two migrations, of which one is applied.
use intelli_store.Prelude.{
  ℕ, ◌≤◌, String, ◌≡◌, refl, true, not, some, List, [], ◌∷◌, ◌++◌, ◌==◌, All, filter, includes,
  if◌then◌else◌,
}
use intelli_store.Prelude.Sorting.{Sorted, insertion_postgres, insertion_sort}
use intelli_store.Effects.{ok, pure}
use intelli_store.Migrations.{Migrations, Schema, migration_files, run}
use intelli_store.Migrations.Laws.{Applies, Ends, IsSort, pending, run-Applies}

-- The files by their numbers, which is the order of their names.
abbrev number : String → ℕ
number file = if file == "001_users.sql" then 1 else if file == "002_tokens.sql" then 2 else 3

-- The tables are the files that made them.
abbrev migrations : Migrations (List String)
migrations = record {
  readdir = "002_tokens.sql" ∷ "001_users.sql" ∷ "README.md" ∷ [];
  ends_with = λ file suffix. not (file == "README.md");
  sort = insertion_postgres.order_by number;
  run_file = λ file tables. pure tt (tables ++ file ∷ []);
}

abbrev half_way : Schema (List String)
half_way = record { names = some ("001_users.sql" ∷ []); tables = "001_users.sql" ∷ [] }

sorts : IsSort migrations (λ a b. number a ≤ number b)
sorts = record {
  sort-perm = insertion_postgres.order_by-perm number;
  sort-Sorted = insertion_postgres.order_by-Sorted number;
}

run-Applies_example :
    let (r, s') = run migrations half_way in
    (done : List String) × (rest : List String) × (pending
        ("001_users.sql" ∷ [])
        (migration_files migrations)
      ≡ done ++ rest)
    × (s'.names ≡ some (("001_users.sql" ∷ []) ++ done))
    × Sorted (λ a b. number a ≤ number b) (done ++ rest)
    × All
        (λ f. includes (("001_users.sql" ∷ []) ++ (done ++ rest)) f ≡ true)
        (filter (λ f. migrations.ends_with f ".sql") migrations.readdir)
    × Applies migrations done ("001_users.sql" ∷ []) s'.tables
    × Ends migrations rest r s'.tables
    × (r ≡ ok tt → run migrations s' ≡ (ok tt, s'))
unfolding insertion_sort
run-Applies_example =
    run-Applies migrations (λ a b. number a ≤ number b) half_way sorts ((refl, tt), (tt, tt))
