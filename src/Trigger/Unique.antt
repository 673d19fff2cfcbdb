-- ===== src/Trigger/Unique.antt =====
-- Every way to queue a build: src/github/trigger/trigger.py, src/api/handlers/trigger.py and
-- restart_build of src/api/handlers/projects/build.py. The numbers of builds stay unique.
use infrabox.Github.{Answer}
use infrabox.Trigger.Adds.{post-AddsNext}
use infrabox.PullRequests.Webhook.{List-cases, trigger_build-Signed}
use infrabox.Builds.Numbers.{Unique, limit, next_number-Unique, next_restart-Unique}
use infrabox.PullRequests.{ListedCommit, trigger_build, Hook}
use infrabox.Builds.{Tables, insert_build, insert_job, Build, max_where, of_number, next_number}
use infrabox.Trigger.Requests.{
  restart_from, restart_build, next_restart, post, restart_rows, Outside, is_matrix_job,
}
use infrabox.Prelude.{
  refl, Option, String, List, ℕ, ◌≡◌, ◌∷◌, ◌≤◌, inl, [], arith, inr, rows_where, some, ◌∙◌, none,
  ◌++◌, ap, sym,
}
use infrabox.Http.{
  ◌>>=◌, type_error, unbound_local_error, lookup_error, database_error, Response, done, bind-done,
  abort, key_error, index_error, assertion_error,
}
use infrabox.Trigger.{one}

next_restart-limit : (top : Option ℕ) (n : ℕ) → next_restart top ≡ done n → limit top ≤ n
next_restart-limit none n h = ground arith
next_restart-limit (some m) n h = ground arith

restart_from-Unique :
    (new_id project_id : String) (b : Build) (db db' : Tables)
    → restart_from new_id project_id b db ≡ done db'
    → Unique db.builds
    → Unique db'.builds
unfolding restart_from insert_build insert_job
restart_from-Unique new_id project_id b db db' h unique =
    let top = max_where (of_number project_id b.build_number) Build.restart_counter db.builds in
    let (counter, e, h₁) = bind-done (next_restart top) _ h in
    let (j, _, h₂) = bind-done (one (rows_where (is_matrix_job project_id b.id) db.jobs)) _ h₁ in
    let build : Build = record {
      id = new_id;
      commit_id = b.commit_id;
      build_number = b.build_number;
      restart_counter = counter;
      project_id = project_id;
      source_upload_id = b.source_upload_id;
    } in
    let added : db'.builds ≡ db.builds ++ build ∷ [] = ground arith in
    rw added (next_restart-Unique db.builds build (next_restart-limit top counter e) unique)

restart_build-Unique :
    (new_id user_id project_id build_id : String) (db db' : Tables)
    → restart_build new_id user_id project_id build_id db ≡ done db'
    → Unique db.builds
    → Unique db'.builds
unfolding restart_build
restart_build-Unique new_id user_id project_id build_id db db' h unique =
    elim (List-cases (restart_rows user_id project_id build_id db)) [
      | inl e ↦ let h' = rw (restart_build, e) at h in ground arith
      | inr (b, bs, e) ↦
          restart_from-Unique new_id project_id b db db' (rw (restart_build, e) at h) unique
    ]

-- A request that queues a build, with what it brings.
pub data BuildRequest : Type 0 where
  hook :
      (String → String)
      → (String → List ListedCommit)
      → (new_pr_id new_id : String) → Hook
      → BuildRequest
  trigger : Outside → (project_id branch_or_sha : String) → List (String × String) → BuildRequest
  restart : (new_id user_id project_id build_id : String) → BuildRequest

abbrev pub kept_tables : Tables → Response Tables → Tables
kept_tables db (done db') = db'
kept_tables db _ = db

abbrev pub tables_of : Response (Tables × Answer) → Response Tables
tables_of r = r >>= λ (t : Tables × Answer). done t.0

unfoldable pub respond : BuildRequest → Tables → Response Tables
respond (hook sign_blob get_commits new_pr_id new_id h) db =
    tables_of (trigger_build sign_blob get_commits new_pr_id new_id h db)
respond (trigger o project_id branch_or_sha env) db = post o project_id branch_or_sha env db
respond (restart new_id user_id project_id build_id) db =
    restart_build new_id user_id project_id build_id db

-- Requests one after another: one that is refused or raises an exception changes nothing.
unfoldable pub serve : List BuildRequest → Tables → Tables
serve [] db = db
serve (r ∷ rs) db = serve rs (kept_tables db (respond r db))

respond-Unique :
    (r : BuildRequest) (db db' : Tables)
    → respond r db ≡ done db'
    → Unique db.builds
    → Unique db'.builds
unfolding respond
respond-Unique (hook sign_blob get_commits new_pr_id new_id h) db db' e unique =
    let ((db₁, a), made, e₁) =
      bind-done (trigger_build sign_blob get_commits new_pr_id new_id h db) _ e in
    let same : db₁ ≡ db' = cc in
    elim (trigger_build-Signed sign_blob get_commits new_pr_id new_id h db db₁ a made) [
      | inl kept ↦ rw (← same, kept) unique
      | inr (_, (project_id, commit_id, _, q)) ↦
          rw (← same, q.builds)
            (next_number-Unique db.builds q.build
              (q.number ∙ ap (λ p. next_number p db.builds) (sym q.of_project)) unique)
    ]
respond-Unique (trigger o project_id branch_or_sha env) db db' e unique =
    let (b, added, number) = post-AddsNext o project_id branch_or_sha env db db' e in
    rw added (next_number-Unique db.builds b number unique)
respond-Unique (restart new_id user_id project_id build_id) db db' e unique =
    restart_build-Unique new_id user_id project_id build_id db db' e unique

module _ (P : Tables → Type 0) where
  pub kept_tables-keeps :
      (db : Tables) (r : Response Tables)
      → P db
      → ((db' : Tables) → r ≡ done db' → P db')
      → P (kept_tables db r)
  kept_tables-keeps db (done db') kept next = next db' refl
  kept_tables-keeps db (abort code message) kept next = kept
  kept_tables-keeps db (key_error key) kept next = kept
  kept_tables-keeps db index_error kept next = kept
  kept_tables-keeps db assertion_error kept next = kept
  kept_tables-keeps db type_error kept next = kept
  kept_tables-keeps db unbound_local_error kept next = kept
  kept_tables-keeps db lookup_error kept next = kept
  kept_tables-keeps db database_error kept next = kept

-- Whatever pushes, pull requests, triggers and restarts come, one after another: if no two builds of a
-- project have the same number and the same restart counter, then so it is after them.
pub serve-Unique :
    (rs : List BuildRequest) (db : Tables) → Unique db.builds → Unique (serve rs db).builds
unfolding serve
serve-Unique [] db unique = unique
serve-Unique (r ∷ rs) db unique = serve-Unique rs (kept_tables db (respond r db)) (
    kept_tables-keeps (λ (t : Tables). Unique t.builds) db (respond r db) unique
      (λ db' e. respond-Unique r db db' e unique))
