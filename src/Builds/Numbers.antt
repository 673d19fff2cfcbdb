-- ===== src/Builds/Numbers.antt =====
-- src/db/migrations, src/github/trigger/trigger.py and src/api/handlers: the numbers of builds.
use infrabox.Builds.{max_where, next_number, Build, of_project, of_number, some}
use infrabox.Prelude.{
  String, List, Option, ℕ, count_where, Bool, ◌≤◌, ◌≡◌, ◌&&◌, ◌+◌, true, ◌++◌, arith, eqb, ◌∷◌,
  none, Bool-cases, [], inl, inr, count_where-append, refl, eq_iff, ap, sym, ◌∙◌,
}

-- The build of a project with the number and the restart counter.
abbrev pub is_numbered : String → ℕ → ℕ → Build → Bool
is_numbered project_id number restart b =
    of_project project_id b && eqb b.build_number number && eqb b.restart_counter restart

-- The constraint UNIQUE (project_id, build_number, restart_counter) of src/db/migrations/00001.sql.
abbrev pub Unique : List Build → Type 0
Unique builds =
    (project_id : String) (number restart : ℕ)
    → count_where (is_numbered project_id number restart) builds ≤ 1

-- All values are below it.
abbrev pub limit : Option ℕ → ℕ
limit none = 0
limit (some n) = n + 1

-- Rows that pass the test have values below the limit, so none of them has a value that is not.
pub count-beyond :
    (test other : Build → Bool) (value : Build → ℕ) (n : ℕ) (bs : List Build)
    → limit (max_where test value bs) ≤ n
    → ((b : Build) → other b ≡ true → (test b ≡ true) × (n ≤ value b))
    → count_where other bs ≡ 0
unfolding max_where count_where
count-beyond test other value n [] h only = refl
count-beyond test other value n (b ∷ bs) h only = elim (Bool-cases (other b)) [
  | inl e ↦ let passes = only b e in ground arith
  | inr e ↦
      let low : limit (max_where test value bs) ≤ n = ground arith in
      rw (count_where, e) (count-beyond test other value n bs low only)
]

Unique-append :
    (bs : List Build) (b : Build)
    → count_where (is_numbered b.project_id b.build_number b.restart_counter) bs ≡ 0
    → Unique bs
    → Unique (bs ++ b ∷ [])
Unique-append bs b fresh unique p n c = elim (Bool-cases (is_numbered p n c b)) [
  | inr e ↦ rw (count_where-append (is_numbered p n c) bs b, e) (omega (arith, unique p n c))
  | inl e ↦
      let project : b.project_id ≡ p = ground (arith, eq_iff b.project_id p) in
      let number : b.build_number ≡ n = ground arith in
      let restart : b.restart_counter ≡ c = ground arith in
      let none_there : count_where (is_numbered p n c) bs ≡ 0 =
        ap (λ q. count_where (is_numbered q n c) bs) (sym project)
        ∙ ap (λ m. count_where (is_numbered b.project_id m c) bs) (sym number)
        ∙ ap (λ k. count_where (is_numbered b.project_id b.build_number k) bs) (sym restart)
        ∙ fresh in
      rw (count_where-append (is_numbered p n c) bs b, e) (omega arith)
]

next_number-limit :
    (project_id : String) (bs : List Build)
    → limit (max_where (of_project project_id) Build.build_number bs) ≤ next_number project_id bs
unfolding next_number
next_number-limit project_id bs = ground arith

-- A build with the next number of its project keeps the builds unique.
pub next_number-Unique :
    (bs : List Build) (b : Build)
    → b.build_number ≡ next_number b.project_id bs
    → Unique bs
    → Unique (bs ++ b ∷ [])
next_number-Unique bs b number unique =
    Unique-append bs b
      (count-beyond (of_project b.project_id)
        (is_numbered b.project_id b.build_number b.restart_counter) Build.build_number
        b.build_number bs (omega (arith, next_number-limit b.project_id bs))
        (λ x h. (ground arith, ground arith)))
      unique

-- So does a build that restarts another, with the next restart counter of that number.
pub next_restart-Unique :
    (bs : List Build) (b : Build)
    → limit (max_where (of_number b.project_id b.build_number) Build.restart_counter bs)
      ≤ b.restart_counter
    → Unique bs
    → Unique (bs ++ b ∷ [])
next_restart-Unique bs b counter unique =
    Unique-append bs b
      (count-beyond (of_number b.project_id b.build_number)
        (is_numbered b.project_id b.build_number b.restart_counter) Build.restart_counter
        b.restart_counter bs counter (λ x h. (ground arith, ground arith)))
      unique
