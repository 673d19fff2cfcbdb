-- ===== src/Tests/Migrations.antt =====
-- src/db/migrate.py on a folder of two migrations.
use infrabox.Migrate.Versions.{Released, Succeeds, InStep, migrate_db-InStep, migrate_db-Succeeds}
use infrabox.Texts.{ends_with, strip_prefix, first, int_of, digits_from, blank, starts_with}
use infrabox.Migrate.Order.{count, Numbered, numbers, range}
use infrabox.Migrate.{
  Schema, numbered, migrate_db, Script, apply_migrations, get_files, returned, current_version,
  sort_files, insert_file, apply_each, apply_migration, set_version,
}
use infrabox.Prelude.{
  refl, List, String, ◌∷◌, ℕ, none, rows_where, All, ◌≡◌, [], some, arith, ◌||◌, true,
  if◌then◌else◌, ◌==◌,
}

abbrev listing : List String
listing = "00002.py" ∷ "__init__.py" ∷ "00001.sql" ∷ []

-- 00001.sql creates the table, which fails where there is one; any other script leaves the table.
abbrev create_table : Script
create_table none = some (some 1)
create_table (some v) = none

abbrev script : String → Script
script name version = if name == "00001.sql" then create_table version else some version

abbrev files : List (String × ℕ)
files = ("00002.py", 2) ∷ ("00001.sql", 1) ∷ []

abbrev fresh : Schema
fresh = record { infrabox = none; applied = [] }

found : numbered (rows_where (starts_with "0") listing) ≡ some files
unfolding numbered rows_where strip_prefix first int_of digits_from blank
found = refl

both : Numbered 2 files
unfolding count
both k = ground arith

suffixes : All (λ (f : String × ℕ). (ends_with ".sql" f.0 || ends_with ".py" f.0) ≡ true) files
unfolding ends_with
suffixes = (refl, (refl, tt))

abbrev released : Released 2 listing
released = record { files = files; named = found; once = both; scripts = suffixes }

succeeds : Succeeds script released.files
succeeds = ((1, refl), ((1, refl), tt))

migrated :
    migrate_db script listing fresh
    ≡ (record { infrabox = some 2; applied = ("00001.sql", 1) ∷ ("00002.py", 2) ∷ [] }, returned)
unfolding migrate_db apply_migrations get_files numbered rows_where strip_prefix first int_of
    digits_from blank sort_files insert_file apply_each apply_migration set_version ends_with
migrated = refl

migrate_db-InStep_example : InStep (migrate_db script listing fresh).0
migrate_db-InStep_example = migrate_db-InStep script 2 listing fresh released refl

migrate_db-Succeeds_example :
    ((migrate_db script listing fresh).1 ≡ returned)
    × (current_version (migrate_db script listing fresh).0.infrabox ≡ 2)
    × (numbers (migrate_db script listing fresh).0.applied ≡ range 1 2)
migrate_db-Succeeds_example =
    migrate_db-Succeeds script 2 listing fresh released succeeds (ground arith) (omega arith) refl
