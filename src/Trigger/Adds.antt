-- ===== src/Trigger/Adds.antt =====
-- src/api/handlers/trigger.py: a trigger adds one build, with the next number of its project.
use infrabox.Builds.Queues.{insert_row-done}
use infrabox.Github.{owner_tokens}
use infrabox.PullRequests.Webhook.{List-cases}
use infrabox.Builds.{
  Tables, Build, insert_build, Repository, insert_job, next_number, is_commit, ProjectRow,
  first_row,
}
use infrabox.Trigger.Requests.{git_trigger, trigger_typed, post, Outside}
use infrabox.Prelude.{
  refl, List, String, ◌≡◌, ◌∷◌, Bool-cases, ◌++◌, any, arith, [], if◌then◌else◌, Option-cases, ◌==◌,
  rows_where, ◌||◌, inl, inr, some, none, ap, ◌∙◌, sym,
}
use infrabox.Http.{Response, done, bind-done}
use infrabox.Trigger.{
  insert_commit, create_github_commit, create_gerrit_commit, create_upload_job, SourceCommit,
  GithubApi, create_git_job, token_text, last_build, get_github_commit, numbered_build,
}

insert_commit-builds :
    (now project_id repo_id : String) (c : SourceCommit) (db db' : Tables)
    → insert_commit now project_id repo_id c db ≡ done db'
    → db'.builds ≡ db.builds
unfolding insert_commit
insert_commit-builds now project_id repo_id c db db' h =
    elim (Bool-cases (any (is_commit c.sha project_id) db.commits)) [
      | inl e ↦ let h' : done db ≡ done db' = rw (insert_commit, e) at h in ground arith
      | inr e ↦ (insert_row-done _ db db' (rw (insert_commit, e) at h)).0
    ]

create_github_commit-builds :
    (api : GithubApi) (now project_id : String) (r : Repository) (branch_or_sha : String)
    (db db' : Tables) (c : SourceCommit)
    → create_github_commit api now project_id r branch_or_sha db ≡ done (c, db')
    → db'.builds ≡ db.builds
unfolding create_github_commit
create_github_commit-builds api now project_id r branch_or_sha db db' c h =
    let (owner, _, h₁) =
      bind-done (first_row (owner_tokens (λ (x : Repository). x.id == r.id) db db.collaborators)) _
        h in
    let (token, _, h₂) = bind-done (token_text owner) _ h₁ in
    let (c', _, h₃) =
      bind-done (get_github_commit api r.github_owner token r.name branch_or_sha) _ h₂ in
    let (db₁, stored, h₄) = bind-done (insert_commit now project_id r.id c' db) _ h₃ in
    let same : db₁ ≡ db' = ground arith in
    rw (← same) (insert_commit-builds now project_id r.id c' db db₁ stored)

create_gerrit_commit-builds :
    (service : String → String → Response SourceCommit) (now project_id : String) (r : Repository)
    (branch_or_sha : String) (db db' : Tables) (c : SourceCommit)
    → create_gerrit_commit service now project_id r branch_or_sha db ≡ done (c, db')
    → db'.builds ≡ db.builds
unfolding create_gerrit_commit
create_gerrit_commit-builds service now project_id r branch_or_sha db db' c h =
    let (c', _, h₁) = bind-done (service r.name branch_or_sha) _ h in
    let (db₁, stored, h₂) = bind-done (insert_commit now project_id r.id c' db) _ h₁ in
    let same : db₁ ≡ db' = ground arith in
    rw (← same) (insert_commit-builds now project_id r.id c' db db₁ stored)

-- One more build, with the next number of its project.
abbrev pub AddsNext : List Build → List Build → Type 0
AddsNext builds builds' =
    (b : Build) × (builds' ≡ builds ++ b ∷ []) × (b.build_number ≡ next_number b.project_id builds)

git_trigger-AddsNext :
    (o : Outside) (project_id project_type : String) (r : Repository) (branch_or_sha : String)
    (env : List (String × String)) (db db' : Tables)
    → git_trigger o
        (next_number project_id db.builds)
        project_id
        project_type
        r
        branch_or_sha
        env
        db
      ≡ done db'
    → AddsNext db.builds db'.builds
unfolding git_trigger create_git_job insert_build insert_job
git_trigger-AddsNext o project_id project_type r branch_or_sha env db db' h =
    let n = next_number project_id db.builds in
    let made =
      if project_type == "github"
      then create_github_commit o.api o.now project_id r branch_or_sha db
      else create_gerrit_commit o.gerrit o.now project_id r branch_or_sha db in
    let ((c, db₁), e, h₁) = bind-done made _ h in
    let kept : db₁.builds ≡ db.builds = elim (Bool-cases (project_type == "github")) [
      | inl is ↦
          create_github_commit-builds o.api o.now project_id r branch_or_sha db db₁ c (rw is at e)
      | inr is ↦
          create_gerrit_commit-builds o.gerrit o.now project_id r branch_or_sha db db₁ c
            (rw is at e)
    ] in
    let same : create_git_job o.new_id c n project_id r project_type env db₁ ≡ db' = cc in
    let b = numbered_build o.new_id (some c.sha) n project_id none in
    (b, ap Tables.builds (sym same) ∙ ap (λ bs. bs ++ b ∷ []) kept, refl)

create_upload_job-AddsNext :
    (new_id project_id : String) (env : List (String × String)) (db db' : Tables)
    → create_upload_job new_id project_id (next_number project_id db.builds) env db ≡ done db'
    → AddsNext db.builds db'.builds
unfolding create_upload_job insert_build insert_job
create_upload_job-AddsNext new_id project_id env db db' h =
    elim (Option-cases (last_build project_id db.builds)) [
      | inl e ↦ let h' = rw (create_upload_job, e) at h in ground arith
      | inr (l, e) ↦
          let b =
            numbered_build new_id none (next_number project_id db.builds) project_id
              l.source_upload_id in
          let h' = rw (create_upload_job, e) at h in (b, ground arith, refl)
    ]

trigger_typed-AddsNext :
    (o : Outside) (project_id project_type branch_or_sha : String) (env : List (String × String))
    (db db' : Tables)
    → trigger_typed o
        (next_number project_id db.builds)
        project_id
        project_type
        branch_or_sha
        env
        db
      ≡ done db'
    → AddsNext db.builds db'.builds
unfolding trigger_typed
trigger_typed-AddsNext o project_id project_type branch_or_sha env db db' h =
    elim (Bool-cases (project_type == "gerrit" || project_type == "github")) [
      | inl git ↦
          elim (List-cases
            (rows_where (λ (r : Repository). r.project_id == project_id) db.repositories)) [
              | inl e ↦ let h' = rw (trigger_typed, git, e) at h in ground arith
              | inr (r, rs, e) ↦
                  git_trigger-AddsNext o project_id project_type r branch_or_sha env db db'
                    (rw (trigger_typed, git, e) at h)
            ]
      | inr other ↦ elim (Bool-cases (project_type == "upload")) [
        | inl e ↦
            create_upload_job-AddsNext o.new_id project_id env db db'
              (rw (trigger_typed, other, e) at h)
        | inr e ↦ let h' = rw (trigger_typed, other, e) at h in ground arith
      ]
    ]

pub post-AddsNext :
    (o : Outside) (project_id branch_or_sha : String) (env : List (String × String))
    (db db' : Tables)
    → post o project_id branch_or_sha env db ≡ done db'
    → AddsNext db.builds db'.builds
unfolding post
post-AddsNext o project_id branch_or_sha env db db' h =
    elim (List-cases (rows_where (λ (p : ProjectRow). p.id == project_id) db.projects)) [
      | inl e ↦ let h' = rw (post, e) at h in ground arith
      | inr (p, ps, e) ↦
          trigger_typed-AddsNext o project_id p.type branch_or_sha env db db' (rw (post, e) at h)
    ]
