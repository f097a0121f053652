-- ===== src/Migrations.antt =====
-- services/metadata-service/src/db/migrate.ts, which the auth, replication, notification and analytics
-- services repeat. Log lines and the end of the pool are left out.
pub mod Laws
use intelli_store.Prelude.{
  String, Bool, true, false, Option, none, some, List, [], ◌∷◌, ◌++◌, ◌==◌, filter, includes,
  if◌then◌else◌,
}
use intelli_store.Effects.{Exec, Result, catch, error, pure, throw, unless, ◌>>=◌, ◌>>◌}

-- The names in `schema_migrations`, if the table is there, and all else in the database.
pub record Schema (W : Type 0) : Type 0 where
  pub names : Option (List String)
  pub tables : W

-- The directory as `readdirSync` lists it, `endsWith`, `sort` on texts, and what the file of a name
-- does to the database, which may fail half-way.
pub record Migrations (W : Type 0) : Type 0 where
  pub readdir : List String
  pub ends_with : String → String → Bool
  pub sort : List String → List String
  pub run_file : String → Exec W (Unit {0})

abbrev pub applied_names : Option (List String) → List String
applied_names none = []
applied_names (some names) = names

module _ {W : Type 0} where
  abbrev ensure_migrations_table : Exec (Schema W) (Unit {0})
  ensure_migrations_table s = pure tt (record s { names = some (applied_names s.names) })

  abbrev applied_migration_names : Exec (Schema W) (List String)
  applied_migration_names s = pure (applied_names s.names) s

  -- INSERT INTO schema_migrations, whose key is the name.
  abbrev insert_name : String → Exec (Schema W) (Unit {0})
  insert_name file s =
      if includes (applied_names s.names) file
      then throw (error "duplicate key value violates unique constraint") s
      else pure tt (record s { names = some (applied_names s.names ++ file ∷ []) })

  abbrev on_tables : Exec W (Unit {0}) → Exec (Schema W) (Unit {0})
  on_tables m s = let (r, w) = m s.tables in (r, record s { tables = w })

module _ {W : Type 0} (M : Migrations W) where
  abbrev pub migration_files : List String
  migration_files = M.sort (filter (λ file. M.ends_with file ".sql") M.readdir)

  -- Between BEGIN and COMMIT; ROLLBACK brings back what BEGIN found.
  unfoldable pub apply_file : String → Exec (Schema W) (Unit {0})
  apply_file file s = catch (on_tables (M.run_file file) >> insert_name file) (λ e _. throw e s) s

  unfoldable pub apply_each : List String → List String → Exec (Schema W) (Unit {0})
  apply_each applied [] = pure tt
  apply_each applied (file ∷ files) =
      let rest = apply_each applied files in
      if includes applied file then rest else (apply_file file >> rest)

  unfoldable pub run : Exec (Schema W) (Unit {0})
  run = do
    ensure_migrations_table
    applied ← applied_migration_names
    apply_each applied migration_files
