-- ===== src/Migrate.antt =====
-- src/db/migrate.py: the migration of the database's schema. The files of the folder migrations are
-- code that the database or Python runs: a script is what it does to the table `infrabox`, and none if
-- it raises an exception.
pub mod Order
pub mod Versions
use infrabox.Texts.{int_of, ends_with, first, starts_with}
use infrabox.Prelude.{
  Option, String, List, ℕ, ◌∷◌, some, if◌then◌else◌, suc, leb, rows_where, ◌++◌, [], zero, none,
  ◌||◌,
}

-- `infrabox` is the column schema_version of the one row of that table, and none while there is no such
-- table; `applied` has the migrations whose transaction was committed.
pub record Schema : Type 0 where
  pub infrabox : Option ℕ
  pub applied : List (String × ℕ)

abbrev pub Script : Type 0
Script = Option ℕ → Option (Option ℕ)

pub data Ended : Type 0 where
  returned : Ended
  raised : String → Ended

-- `files.sort(key=...)`: the sort is stable.
unfoldable pub insert_file : String × ℕ → List (String × ℕ) → List (String × ℕ)
insert_file f [] = f ∷ []
insert_file f (g ∷ gs) = let rest = insert_file f gs in if leb f.1 g.1 then f ∷ g ∷ gs else g ∷ rest

unfoldable pub sort_files : List (String × ℕ) → List (String × ℕ)
sort_files [] = []
sort_files (f ∷ fs) = insert_file f (sort_files fs)

module _ {ℓ κ} {A : Type ℓ} {B : Type κ} where
  infixl 5 ◌>>=◌
  abbrev pub ◌>>=◌ : Option A → (A → Option B) → Option B
  none >>= next = none
  some a >>= next = next a

-- `int(f[:5])` for each file.
unfoldable pub numbered : List String → Option (List (String × ℕ))
numbered [] = some []
numbered (f ∷ fs) = do n ← int_of (first 5 f); rest ← numbered fs; some ((f, n) ∷ rest)

module _ {ℓ} {A : Type ℓ} where
  abbrev pub drop : ℕ → List A → List A
  drop zero xs = xs
  drop (suc n) [] = []
  drop (suc n) (x ∷ xs) = drop n xs

-- `listing` is what `os.listdir` names of the files of the folder, in any order. None is a ValueError.
unfoldable pub get_files : List String → ℕ → Option (List (String × ℕ))
get_files listing current_schema_version = do
  files ← numbered (rows_where (starts_with "0") listing)
  some (drop current_schema_version (sort_files files))

-- The UPDATE and the commit: without the table the UPDATE raises an exception.
unfoldable pub set_version : String × ℕ → Option ℕ → Schema → Schema × Ended
set_version migration none db = (db, raised "relation \"infrabox\" does not exist")
set_version migration (some v) db =
    (record { infrabox = some migration.1; applied = db.applied ++ migration ∷ [] }, returned)

-- What an exception undoes is the open transaction: the script's own changes.
unfoldable pub apply_migration : (String → Script) → String × ℕ → Schema → Schema × Ended
apply_migration script migration db =
    if ends_with ".sql" migration.0 || ends_with ".py" migration.0
    then elim (script migration.0 db.infrabox) [
      | none ↦ (db, raised "the migration failed")
      | some infrabox ↦ set_version migration infrabox db
    ]
    else (db, raised "Unsupported migration file type")

unfoldable pub apply_each : (String → Script) → List (String × ℕ) → Schema → Schema × Ended
apply_each script [] db = (db, returned)
apply_each script (migration ∷ later) db =
    let (db', ended) = apply_migration script migration db in
    elim ended [ returned ↦ apply_each script later db' | raised what ↦ (db', raised what) ]

unfoldable pub apply_migrations : (String → Script) → List String → ℕ → Schema → Schema × Ended
apply_migrations script listing current_schema_version db =
    elim (get_files listing current_schema_version) [
      | none ↦ (db, raised "invalid literal for int()")
      | some migrations ↦ apply_each script migrations db
    ]

abbrev pub current_version : Option ℕ → ℕ
current_version none = 0
current_version (some v) = v

unfoldable pub migrate_db : (String → Script) → List String → Schema → Schema × Ended
migrate_db script listing db = apply_migrations script listing (current_version db.infrabox) db
