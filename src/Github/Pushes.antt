-- ===== src/Github/Pushes.antt =====
-- src/github/trigger/trigger.py: what a push changes.
use infrabox.Http.{bind-done, ◌>>=◌}
use infrabox.Builds.Queues.{Queued, insert_row-done, first_row-Member}
use infrabox.Builds.{
  Tables, Repository, Commit, ProjectRow, insert_build, is_commit, insert_job, first_row,
  next_number,
}
use infrabox.Github.{
  push_commit, set_tag, create_push, PushCommit, create_build, EventRepository, tagged, create_job,
  done, some, of_github, given, push_distinct, push_with, new_build, Push, new_job, Answer, pushed,
  answer, handle_push, get_owner_token,
}
use infrabox.Prelude.{
  refl, String, Option, List, ◌≡◌, any, Member, true, ◌∷◌, ◌⊎◌, Bool-cases, none, inl, inr, arith,
  [], rows_where, false, ap, ◌++◌, ◌∙◌, Bool, Option-cases, sym, ◌==◌, eq_iff,
}

-- The project of a known repository, and it is built on a push.
abbrev pub BuildsOnPush : String → Tables → Type 0
BuildsOnPush project_id db =
    (r : Repository) × (p : ProjectRow) × Member r db.repositories
    × Member p db.projects
    × (p.id ≡ r.project_id)
    × (p.build_on_push ≡ true)
    × (r.project_id ≡ project_id)

-- A build of a commit is queued for such a project.
abbrev pub QueuesOne : String → Tables → Tables → Type 0
QueuesOne new_id db db' =
    (project_id : String) × (commit_id : String) × BuildsOnPush project_id db
    × Queued project_id new_id commit_id db db'

push_commit-done :
    (c : PushCommit) (e : EventRepository) (r : Repository) (branch tag : Option String)
    (db db' : Tables)
    → push_commit c e r branch tag db ≡ done db'
    → (db'.builds ≡ db.builds)
      × (db'.jobs ≡ db.jobs)
      × (any (is_commit c.id r.project_id) db'.commits ≡ true)
unfolding push_commit
push_commit-done c e r branch tag db db' h =
    elim (Bool-cases (any (is_commit c.id r.project_id) db.commits)) [
      | inl found ↦
          let h' : done db ≡ done db' = rw (push_commit, found) at h in
          let same : db ≡ db' = cc in rw (← same) (refl, refl, found)
      | inr new ↦ insert_row-done _ db db' (rw (push_commit, new) at h)
    ]

any-set_tag :
    (tag id project_id : String) (cs : List Commit)
    → any (is_commit id project_id) (set_tag tag id project_id cs)
      ≡ any (is_commit id project_id) cs
unfolding set_tag
any-set_tag tag id project_id [] = refl
any-set_tag tag id project_id (c ∷ cs) = elim (Bool-cases (is_commit id project_id c)) [
  | inl e ↦ rw (set_tag, e) (ground arith)
  | inr e ↦ rw (set_tag, e, e) (any-set_tag tag id project_id cs)
]

tagged-keeps :
    (tag : Option String) (id project_id : String) (db : Tables)
    → ((tagged tag id project_id db).builds ≡ db.builds)
      × ((tagged tag id project_id db).jobs ≡ db.jobs)
      × (any (is_commit id project_id) (tagged tag id project_id db).commits
          ≡ any (is_commit id project_id) db.commits)
tagged-keeps none id project_id db = (refl, refl, refl)
tagged-keeps (some tag) id project_id db = (refl, refl, any-set_tag tag id project_id db.commits)

-- create_build and create_job on tables that have the commit already.
pub created-Queued :
    (new_id commit_id sha clone_url project_id : String) (private : Bool) (branch : Option String)
    (env : Option (List (String × String))) (fork : Bool) (db db₂ : Tables)
    → db₂.builds ≡ db.builds
    → db₂.jobs ≡ db.jobs
    → any (is_commit commit_id project_id) db₂.commits ≡ true
    → Queued project_id new_id commit_id db (
        create_job sha clone_url new_id project_id private branch env fork
          (create_build new_id commit_id project_id db₂))
unfolding create_build create_job insert_build insert_job
created-Queued new_id commit_id sha clone_url project_id private branch env fork db db₂ builds jobs
      known =
    let build = new_build new_id commit_id project_id db₂ in
    let job = new_job new_id project_id env record {
      commit = sha;
      clone_url = clone_url;
      github_private_repo = some private;
      branch = branch;
      fork = fork;
      clone_all = false;
    } in
    record {
      build = build;
      job = job;
      builds = ap (λ bs. bs ++ build ∷ []) builds;
      jobs = ap (λ js. js ++ job ∷ []) jobs;
      build_id = refl;
      of_commit = refl;
      number = ap (next_number project_id) builds;
      restart = refl;
      of_project = refl;
      job_of_build = refl;
      job_of_project = refl;
      known = known;
    }

pub create_push-Queued :
    (new_id : String) (c : PushCommit) (e : EventRepository) (branch tag : Option String)
    (db db' : Tables)
    → create_push new_id c e branch tag db ≡ done db'
    → (db' ≡ db)
      ⊎ ((r : Repository) × (first_row (rows_where (of_github e.id) db.repositories) ≡ done r)
          × Queued r.project_id new_id c.id db db')
unfolding create_push push_distinct
create_push-Queued new_id c e branch tag db db' h = elim (Bool-cases c.distinct) [
  | inr e₁ ↦ inl (ground arith)
  | inl e₁ ↦
      let h₀ : push_distinct new_id c e branch tag db ≡ done db' = ground arith in
      let (r, e₂, h₁) = bind-done (first_row (rows_where (of_github e.id) db.repositories)) _ h₀ in
      let (db₁, e₃, h₂) = bind-done (push_commit c e r branch tag db) _ h₁ in
      let (builds, jobs, known) = push_commit-done c e r branch tag db db₁ e₃ in
      let db₂ = tagged (given tag) c.id r.project_id db₁ in
      let (builds₂, jobs₂, known₂) = tagged-keeps (given tag) c.id r.project_id db₁ in
      let db₃ = create_build new_id c.id r.project_id db₂ in
      let same : create_job c.id e.clone_url new_id r.project_id r.private branch none false db₃
          ≡ db' =
        cc in
      inr (
        r,
        e₂,
        rw (← same) (
            created-Queued new_id c.id c.id e.clone_url r.project_id r.private branch none false db
              db₂ (builds₂ ∙ builds) (jobs₂ ∙ jobs) (known₂ ∙ known)),
      )
]

push_with-Queued :
    (new_id : String) (event : Push) (token : Option String) (db db' : Tables) (a : Answer)
    → push_with new_id event token db ≡ done (db', a)
    → (db' ≡ db)
      ⊎ ((r : Repository) × (commit_id : String) × (first_row
              (rows_where (of_github event.repository.id) db.repositories)
            ≡ done r)
          × Queued r.project_id new_id commit_id db db')
unfolding push_with
push_with-Queued new_id event none db db' a h = inl (ground arith)
push_with-Queued new_id event (some token) db db' a h = elim (Option-cases (pushed event).2) [
  | inl e ↦
      let h' : done (answer 200 "ok" db) ≡ done (db', a) = rw (push_with, e) at h in
      inl (ground arith)
  | inr (c, e) ↦
      let (db₁, e₁, h₁) =
        bind-done (create_push new_id c event.repository (pushed event).0 (pushed event).1 db) _
          (rw (push_with, e) at h) in
      let same : db₁ ≡ db' = ground arith in
      elim (create_push-Queued new_id c event.repository (pushed event).0 (pushed event).1 db db₁
        e₁) [
          | inl kept ↦ inl (sym same ∙ kept)
          | inr (r, found, queued) ↦ inr (r, c.id, found, rw (← same) queued)
        ]
]

-- A repository that the query finds, with the row of its project.
pub found-BuildsOnPush :
    (test : Repository → Bool) (r : Repository) (p : ProjectRow) (db : Tables)
    → first_row (rows_where test db.repositories) ≡ done r
    → first_row (rows_where (λ (p : ProjectRow). p.id == r.project_id) db.projects) ≡ done p
    → p.build_on_push ≡ true
    → BuildsOnPush r.project_id db
found-BuildsOnPush test r p db found project on =
    let (member, _) = first_row-Member test db.repositories r found in
    let (row, same) =
      first_row-Member (λ (p : ProjectRow). p.id == r.project_id) db.projects p project in
    (r, p, member, row, (eq_iff p.id r.project_id).0 same, on, refl)

pub handle_push-QueuesOne :
    (new_id : String) (event : Push) (db db' : Tables) (a : Answer)
    → handle_push new_id event db ≡ done (db', a)
    → (db' ≡ db) ⊎ QueuesOne new_id db db'
unfolding handle_push
handle_push-QueuesOne new_id event db db' a h =
    let (r, found, h₁) =
      bind-done (first_row (rows_where (of_github event.repository.id) db.repositories)) _ h in
    let (p, project, h₂) =
      bind-done (first_row (rows_where (λ (p : ProjectRow). p.id == r.project_id) db.projects)) _
        h₁ in
    elim (Bool-cases p.build_on_push) [
      | inr off ↦ inl (ground arith)
      | inl on ↦
          let h₃ : (get_owner_token event.repository.id db >>= λ token.
          push_with new_id event (given token) db)
              ≡ done (db', a) =
            ground arith in
          let (token, _, h₄) = bind-done (get_owner_token event.repository.id db) _ h₃ in
          elim (push_with-Queued new_id event (given token) db db' a h₄) [
            | inl kept ↦ inl kept
            | inr (r', commit_id, found', queued) ↦
                let same : r ≡ r' = cc in
                inr (
                  r.project_id,
                  commit_id,
                  found-BuildsOnPush _ r p db found project on,
                  rw same queued,
                )
          ]
    ]
