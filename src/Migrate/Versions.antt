-- ===== src/Migrate/Versions.antt =====
-- src/db/migrate.py: the version of the schema is the number of migrations that were applied, and they
-- were applied in order, each once.
use infrabox.Texts.{starts_with, ends_with}
use infrabox.Migrate.Order.{numbers, range, Numbered, numbers-sort_files, All-drop, All-sort_files}
use infrabox.Prelude.{
  ◌+◌, ◌-◌, refl, ℕ, List, String, ◌≡◌, ◌++◌, rows_where, ◌∷◌, arith, some, suc, [], All, zero, ap,
  ◌||◌, ◌⊎◌, ◌≢◌, true, Bool-cases, ◌∙◌, inr, inl, Option-cases, sym, Option, ◌≤◌,
}
use infrabox.Prelude.{none}
use infrabox.Migrate.{
  ◌>>=◌, Schema, apply_migration, drop, set_version, numbered, get_files, Script, current_version,
  returned, raised, sort_files, apply_each, migrate_db, apply_migrations,
}

-- The migrations that were committed are 1, 2, ... up to the version; 0 if there is no table yet.
abbrev pub InStep : Schema → Type 0
InStep db = numbers db.applied ≡ range 1 (current_version db.infrabox)

-- The folder has one file for each number from 1 to n, with a name that is a script's.
pub record Released (n : ℕ) (listing : List String) : Type 0 where
  pub files : List (String × ℕ)
  pub named : numbered (rows_where (starts_with "0") listing) ≡ some files
  pub once : Numbered n files
  pub scripts : All (λ (f : String × ℕ). (ends_with ".sql" f.0 || ends_with ".py" f.0) ≡ true) files

range-append : (a n : ℕ) → range a n ++ (a + n) ∷ [] ≡ range a (suc n)
range-append a zero = ground arith
range-append a (suc n) = ground (arith, range-append (suc a) n)

numbers-append :
    (fs : List (String × ℕ)) (f : String × ℕ) → numbers (fs ++ f ∷ []) ≡ numbers fs ++ f.1 ∷ []
numbers-append [] f = refl
numbers-append (g ∷ fs) f = ap (λ l. g.1 ∷ l) (numbers-append fs f)

drop-range : (v a n : ℕ) → drop v (range a n) ≡ range (a + v) (n - v)
drop-range zero a n = ground arith
drop-range (suc v) a zero = ground arith
drop-range (suc v) a (suc n) = ground (arith, drop-range v (suc a) n)

numbers-drop : (v : ℕ) (fs : List (String × ℕ)) → numbers (drop v fs) ≡ drop v (numbers fs)
numbers-drop zero fs = refl
numbers-drop (suc v) [] = refl
numbers-drop (suc v) (f ∷ fs) = numbers-drop v fs

module _ (n : ℕ) (listing : List String) (release : Released n listing) where
  get_files-Released :
      (v : ℕ)
      → (get_files listing v ≡ some (drop v (sort_files release.files)))
        × (numbers (drop v (sort_files release.files)) ≡ range (suc v) (n - v))
        × All
            (λ (f : String × ℕ). (ends_with ".sql" f.0 || ends_with ".py" f.0) ≡ true)
            (drop v (sort_files release.files))
  unfolding get_files
  get_files-Released v = (
    rw (release.named, ◌>>=◌) refl,
    numbers-drop v (sort_files release.files)
        ∙ ap (drop v) (numbers-sort_files n release.files release.once)
        ∙ drop-range v 1 n
        ∙ ground arith,
    All-drop _ v (sort_files release.files) (All-sort_files _ release.files release.scripts),
  )

-- A migration is committed, or nothing has changed.
apply_migration-cases :
    (script : String → Script) (f : String × ℕ) (db : Schema)
    → (apply_migration script f db
        ≡ (record { infrabox = some f.1; applied = db.applied ++ f ∷ [] }, returned))
      ⊎ ((what : String) × (apply_migration script f db ≡ (db, raised what)))
unfolding apply_migration set_version
apply_migration-cases script f db =
    elim (Bool-cases (ends_with ".sql" f.0 || ends_with ".py" f.0)) [
      | inr e ↦ rw e (inr ("Unsupported migration file type", refl))
      | inl e ↦ elim (Option-cases (script f.0 db.infrabox)) [
        | inl fails ↦ rw (e, fails) (inr ("the migration failed", refl))
        | inr (none, ran) ↦ rw (e, ran) (inr ("relation \"infrabox\" does not exist", refl))
        | inr (some v, ran) ↦ rw (e, ran) (inl refl)
      ]
    ]

-- To append the next migration keeps the numbers in order.
InStep-append :
    (db : Schema) (f : String × ℕ)
    → f.1 ≡ suc (current_version db.infrabox)
    → InStep db
    → InStep (record { infrabox = some f.1; applied = db.applied ++ f ∷ [] })
InStep-append db f next h =
    numbers-append db.applied f
    ∙ ap (λ l. l ++ f.1 ∷ []) h
    ∙ ap (λ k. range 1 (current_version db.infrabox) ++ k ∷ []) (next ∙ omega arith)
    ∙ range-append 1 (current_version db.infrabox)
    ∙ ap (range 1) (sym next)

apply_each-InStep :
    (script : String → Script) (m : ℕ) (fs : List (String × ℕ)) (db : Schema)
    → numbers fs ≡ range (suc (current_version db.infrabox)) m
    → InStep db
    → InStep (apply_each script fs db).0
unfolding apply_each
apply_each-InStep script m [] db along h = h
apply_each-InStep script zero (f ∷ fs) db along h = ground arith
apply_each-InStep script (suc m) (f ∷ fs) db along h =
    let next : f.1 ≡ suc (current_version db.infrabox) = cc in
    let later : numbers fs ≡ range (suc (suc (current_version db.infrabox))) m = cc in
    elim (apply_migration-cases script f db) [
      | inr (what, e) ↦ rw (apply_each, e, e) h
      | inl e ↦
          rw (apply_each, e, e)
            (apply_each-InStep script m fs
              (record { infrabox = some f.1; applied = db.applied ++ f ∷ [] })
              (later ∙ ap (λ k. range (suc k) m) (sym next)) (InStep-append db f next h))
    ]

-- For a folder whose files are numbered from 1 to n, whatever the scripts do and in whatever order the
-- folder is listed: if the migrations that were applied before are 1 to the version of the schema, in
-- order and each once, then so it is after migrate_db, also if it ends with an exception.
pub migrate_db-InStep :
    (script : String → Script) (n : ℕ) (listing : List String) (db : Schema)
    → Released n listing
    → InStep db
    → InStep (migrate_db script listing db).0
unfolding migrate_db apply_migrations
migrate_db-InStep script n listing db release h =
    let v = current_version db.infrabox in
    let (e, along, _) = get_files-Released n listing release v in
    rw (migrate_db, apply_migrations, e)
      (apply_each-InStep script (n - v) (drop v (sort_files release.files)) db along h)

-- The column of the table `infrabox` just before the migration with a number: there is no table yet
-- before the first.
abbrev pub version_before : ℕ → Option ℕ
version_before zero = none
version_before (suc zero) = none
version_before (suc (suc n)) = some (suc n)

-- Each file, run on the version just before its own, ends without an exception and there is the table
-- `infrabox` then.
abbrev pub Succeeds : (String → Script) → List (String × ℕ) → Type 0
Succeeds script fs =
    All (λ (f : String × ℕ). (v : ℕ) × (script f.0 (version_before f.1) ≡ some (some v))) fs

apply_migration-Succeeds :
    (script : String → Script) (f : String × ℕ) (db : Schema)
    → ((v : ℕ) × (script f.0 db.infrabox ≡ some (some v)))
    → (ends_with ".sql" f.0 || ends_with ".py" f.0) ≡ true
    → apply_migration script f db
      ≡ (record { infrabox = some f.1; applied = db.applied ++ f ∷ [] }, returned)
unfolding apply_migration set_version
apply_migration-Succeeds script f db (v, ran) e = rw (e, ran) refl

apply_each-Succeeds :
    (script : String → Script) (m : ℕ) (fs : List (String × ℕ)) (db : Schema)
    → Succeeds script fs
    → version_before (suc (current_version db.infrabox)) ≡ db.infrabox
    → All (λ (f : String × ℕ). (ends_with ".sql" f.0 || ends_with ".py" f.0) ≡ true) fs
    → numbers fs ≡ range (suc (current_version db.infrabox)) m
    → ((apply_each script fs db).1 ≡ returned)
      × (current_version (apply_each script fs db).0.infrabox ≡ current_version db.infrabox + m)
unfolding apply_each
apply_each-Succeeds script zero [] db runs here named along = (refl, omega arith)
apply_each-Succeeds script (suc m) [] db runs here named along = ground arith
apply_each-Succeeds script zero (f ∷ fs) db runs here named along = ground arith
apply_each-Succeeds script (suc m) (f ∷ fs) db ((v, ran), runs) here (name, named) along =
    let next : f.1 ≡ suc (current_version db.infrabox) = cc in
    let now : version_before f.1 ≡ db.infrabox = ap version_before next ∙ here in
    let e = apply_migration-Succeeds script f db (v, ap (script f.0) (sym now) ∙ ran) name in
    let later : numbers fs ≡ range (suc (suc (current_version db.infrabox))) m = cc in
    let (ends, version) =
      apply_each-Succeeds script m fs
        (record { infrabox = some f.1; applied = db.applied ++ f ∷ [] }) runs
        (ap (λ k. version_before (suc k)) next ∙ ap some (sym next)) named
        (later ∙ ap (λ k. range (suc k) m) (sym next)) in
    rw (apply_each, e, e) (ends, version ∙ ap (λ k. k + m) next ∙ omega arith)

current-version_before : (v : Option ℕ) → v ≢ some 0 → version_before (suc (current_version v)) ≡ v
current-version_before none set = refl
current-version_before (some zero) set = absurd (set refl)
current-version_before (some (suc n)) set = refl

-- If moreover each script of the folder, run on the version just before its own (the first: without the
-- table `infrabox`), succeeds and leaves the table there, the schema is not newer than the folder and its
-- version is not a stored 0, then migrate_db returns and the version is n, so that all migrations from 1
-- to n were applied in order, each once.
pub migrate_db-Succeeds :
    (script : String → Script) (n : ℕ) (listing : List String) (db : Schema)
    (release : Released n listing)
    → Succeeds script release.files
    → db.infrabox ≢ some 0
    → current_version db.infrabox ≤ n
    → InStep db
    → ((migrate_db script listing db).1 ≡ returned)
      × (current_version (migrate_db script listing db).0.infrabox ≡ n)
      × (numbers (migrate_db script listing db).0.applied ≡ range 1 n)
unfolding migrate_db apply_migrations
migrate_db-Succeeds script n listing db release runs set older h =
    let v = current_version db.infrabox in
    let (e, along, named) = get_files-Released n listing release v in
    let fs = drop v (sort_files release.files) in
    let (ends, version) =
      apply_each-Succeeds script (n - v) fs db
        (All-drop _ v (sort_files release.files) (All-sort_files _ release.files runs))
        (current-version_before db.infrabox set) named along in
    let kept = apply_each-InStep script (n - v) fs db along h in
    let newest : current_version (apply_each script fs db).0.infrabox ≡ n = omega arith in
    rw (migrate_db, apply_migrations, e) (ends, newest, kept ∙ ap (range 1) newest)
