-- ===== src/Builds/Queues.antt =====
-- What it means that a request queues a build, and the lemmas on the tables that the triggers share.
use infrabox.Builds.{
  insert_row, Tables, Commit, Build, first_row, MatrixJob, done, is_commit, next_number,
}
use infrabox.Prelude.{
  refl, String, rows_where, Bool, List, ◌≡◌, true, ◌++◌, Member, any, ◌∷◌, arith, [], Bool-cases,
  Option-cases, some, inl, sym, inr, eq_iff,
}

-- One build with the new id and the next number of its project, and one job that makes its jobs;
-- `commit_id` is a commit of the project.
pub record Queued (project_id new_id commit_id : String) (db db' : Tables) : Type 0 where
  pub build : Build
  pub job : MatrixJob
  pub builds : db'.builds ≡ db.builds ++ build ∷ []
  pub jobs : db'.jobs ≡ db.jobs ++ job ∷ []
  pub build_id : build.id ≡ new_id
  pub of_commit : build.commit_id ≡ some commit_id
  pub number : build.build_number ≡ next_number project_id db.builds
  pub restart : build.restart_counter ≡ 1
  pub of_project : build.project_id ≡ project_id
  pub job_of_build : job.build_id ≡ new_id
  pub job_of_project : job.project_id ≡ project_id
  pub known : any (is_commit commit_id project_id) db'.commits ≡ true

pub first_row-Member :
    {A : Type 0} (test : A → Bool) (xs : List A) (x : A)
    → first_row (rows_where test xs) ≡ done x
    → Member x xs × (test x ≡ true)
unfolding rows_where
first_row-Member test [] x h = ground arith
first_row-Member test (y ∷ ys) x h = elim (Bool-cases (test y)) [
  | inl e ↦
      let h' : done y ≡ done x = rw (rows_where, e) at h in
      let same : y ≡ x = cc in (inl (sym same), rw (← same) e)
  | inr e ↦ let (m, t) = first_row-Member test ys x (rw (rows_where, e) at h) in (inr m, t)
]

pub any-append :
    {A : Type 0} (test : A → Bool) (xs : List A) (x : A)
    → test x ≡ true
    → any test (xs ++ x ∷ []) ≡ true
any-append test [] x h = ground arith
any-append test (y ∷ ys) x h = ground (arith, any-append test ys x h)

-- A new commit is in the table, and the builds and jobs are as before.
pub insert_row-done :
    (c : Commit) (db db' : Tables)
    → insert_row c db ≡ done db'
    → (db'.builds ≡ db.builds)
      × (db'.jobs ≡ db.jobs)
      × (any (is_commit c.id c.project_id) db'.commits ≡ true)
unfolding insert_row
insert_row-done c db db' h = elim (Option-cases c.branch) [
  | inl e ↦ let h' = rw (insert_row, e) at h in ground arith
  | inr (b, e) ↦
      let h' : done (record db { commits = db.commits ++ c ∷ [] }) ≡ done db' =
        rw (insert_row, e) at h in
      let same : record db { commits = db.commits ++ c ∷ [] } ≡ db' = cc in
      rw (← same) (
        refl,
        refl,
        any-append (is_commit c.id c.project_id) db.commits c
            (ground (arith, eq_iff c.id c.id, eq_iff c.project_id c.project_id)),
      )
]
