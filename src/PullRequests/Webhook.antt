-- ===== src/PullRequests/Webhook.antt =====
-- src/github/trigger/trigger.py: what a call of the webhook changes.
use infrabox.Github.{of_github, answer, get_owner_token, given, create_job, create_build}
use infrabox.Github.Pushes.{QueuesOne, created-Queued, found-BuildsOnPush, handle_push-QueuesOne}
use infrabox.Builds.Queues.{Queued, insert_row-done}
use infrabox.Builds.{
  Tables, Repository, first_row, PullRequest, next_number, ProjectRow, insert_row, is_commit,
}
use infrabox.PullRequests.{
  find_pull_request, build_head, pull_with, pull_known, handle_pull_request, trigger_build,
  PullRequestEvent, ListedCommit, Answer, Hook, HeadRepo, find_head, login, assigned, head_repo_of,
  environment, dispatch, Event, push_event, pull_request_event, other_event,
}
use infrabox.Prelude.{
  refl, String, List, ◌≡◌, [], Bool-cases, ◌∙◌, ◌⊎◌, any, Option, ap, Option-cases, ◌∷◌, rows_where,
  some, ◌++◌, inl, contains, ◌==◌, inr, ◌&&◌, arith, eqb, sym, eq_iff,
}
use infrabox.Prelude.{none, some}
use infrabox.Http.{◌>>=◌, done, bind-done}

find_pull_request-keeps :
    (new_id : String) (event : PullRequestEvent) (r : Repository) (db : Tables)
    → ((find_pull_request new_id event r db).0.builds ≡ db.builds)
      × ((find_pull_request new_id event r db).0.jobs ≡ db.jobs)
unfolding find_pull_request
find_pull_request-keeps new_id event r db =
    elim (Bool-cases (
      any (λ (p : PullRequest). p.project_id == r.id && eqb p.github_pull_request_id event.id)
        db.pull_requests)) [
          | inl e ↦ rw (find_pull_request, e) (refl, refl)
          | inr e ↦ rw (find_pull_request, e) (refl, refl)
        ]

build_head-Queued :
    (new_id : String) (event : PullRequestEvent) (r : Repository) (head : HeadRepo)
    (hc : ListedCommit) (pr : Option String) (db db' : Tables) (a : Answer)
    → build_head new_id event r head hc pr db ≡ done (db', a)
    → Queued r.project_id new_id hc.sha db db'
unfolding build_head
build_head-Queued new_id event r head hc pr db db' a h =
    let (author, _, h₁) = bind-done (login hc.author_login) _ h in
    let (pr_id, _, h₂) = bind-done (assigned pr) _ h₁ in
    let (db₁, inserted, h₃) = bind-done (insert_row _ db) _ h₂ in
    let (builds, jobs, known) = insert_row-done _ db db₁ inserted in
    let same : create_job event.head_sha head.clone_url new_id r.project_id r.private
          (some event.head_ref) (some (environment event)) head.fork
          (create_build new_id hc.sha r.project_id db₁)
        ≡ db' =
      ground arith in
    rw (← same) (
      created-Queued new_id hc.sha event.head_sha head.clone_url r.project_id r.private
        (some event.head_ref) (some (environment event)) head.fork db db₁ builds jobs known)

-- The search for the pull request's row leaves builds and jobs as they are.
Queued-from :
    (project_id new_id commit_id : String) (db₀ db db' : Tables)
    → db.builds ≡ db₀.builds
    → db.jobs ≡ db₀.jobs
    → Queued project_id new_id commit_id db db'
    → Queued project_id new_id commit_id db₀ db'
Queued-from project_id new_id commit_id db₀ db db' builds jobs q = record {
  build = q.build;
  job = q.job;
  builds = q.builds ∙ ap (λ bs. bs ++ q.build ∷ []) builds;
  jobs = q.jobs ∙ ap (λ js. js ++ q.job ∷ []) jobs;
  build_id = q.build_id;
  of_commit = q.of_commit;
  number = q.number ∙ ap (next_number project_id) builds;
  restart = q.restart;
  of_project = q.of_project;
  job_of_build = q.job_of_build;
  job_of_project = q.job_of_project;
  known = q.known;
}

pull_with-Queued :
    (new_pr_id new_id : String) (event : PullRequestEvent) (r : Repository)
    (commits : List ListedCommit) (db db' : Tables) (a : Answer)
    → pull_with new_pr_id new_id event r commits db ≡ done (db', a)
    → (db' ≡ db) ⊎ ((commit_id : String) × Queued r.project_id new_id commit_id db db')
unfolding pull_with
pull_with-Queued new_pr_id new_id event r commits db db' a h =
    elim (Option-cases (find_head event.head_sha commits)) [
      | inl e ↦
          let h' : done (answer 500 "Internal Server Error" db) ≡ done (db', a) =
            rw (pull_with, e) at h in
          inl (ground arith)
      | inr (hc, e) ↦
          let (head, _, h₁) = bind-done (head_repo_of event.head_repo) _ (rw (pull_with, e) at h) in
          let (builds, jobs) = find_pull_request-keeps new_pr_id event r db in
          let (db₁, pr) = find_pull_request new_pr_id event r db in
          elim (Bool-cases (any (is_commit hc.sha r.project_id) db.commits)) [
            | inl old ↦
                let h₂ : done (answer 200 "ok" db) ≡ done (db', a) = rw old at h₁ in
                inl (ground arith)
            | inr new ↦ inr (
              hc.sha,
              Queued-from r.project_id new_id hc.sha db db₁ db' builds jobs
                  (build_head-Queued new_id event r head hc pr db₁ db' a (rw new at h₁)),
            )
          ]
    ]

pub List-cases :
    {A : Type 0} (xs : List A) → (xs ≡ []) ⊎ ((x : A) × (rest : List A) × (xs ≡ x ∷ rest))
List-cases [] = inl refl
List-cases (x ∷ rest) = inr (x, rest, refl)

pull_known-QueuesOne :
    (get_commits : String → List ListedCommit) (new_pr_id new_id : String)
    (event : PullRequestEvent) (r : Repository) (db db' : Tables) (a : Answer)
    → first_row (rows_where (of_github event.repository.id) db.repositories) ≡ done r
    → pull_known get_commits new_pr_id new_id event r db ≡ done (db', a)
    → (db' ≡ db) ⊎ QueuesOne new_id db db'
unfolding pull_known
pull_known-QueuesOne get_commits new_pr_id new_id event r db db' a found h =
    let (p, project, h₁) =
      bind-done (first_row (rows_where (λ (p : ProjectRow). p.id == r.project_id) db.projects)) _
        h in
    elim (Bool-cases p.build_on_push) [
      | inr off ↦ inl (ground arith)
      | inl on ↦
          let h₂ : (get_owner_token event.repository.id db >>= λ token. elim (given token) [
            | none ↦ done (answer 200 "no token" db)
            | some t ↦ pull_with new_pr_id new_id event r (get_commits event.commits_url) db
          ])
              ≡ done (db', a) =
            ground arith in
          let (token, _, h₃) = bind-done (get_owner_token event.repository.id db) _ h₂ in
          elim (Option-cases (given token)) [
            | inl e ↦
                let h₄ : done (answer 200 "no token" db) ≡ done (db', a) = rw e at h₃ in
                inl (ground arith)
            | inr (t, e) ↦
                elim (pull_with-Queued new_pr_id new_id event r (get_commits event.commits_url) db
                  db' a (rw e at h₃)) [
                    | inl kept ↦ inl kept
                    | inr (commit_id, queued) ↦ inr (
                      r.project_id,
                      commit_id,
                      found-BuildsOnPush _ r p db found project on,
                      queued,
                    )
                  ]
          ]
    ]

handle_pull_request-QueuesOne :
    (get_commits : String → List ListedCommit) (new_pr_id new_id : String)
    (event : PullRequestEvent) (db db' : Tables) (a : Answer)
    → handle_pull_request get_commits new_pr_id new_id event db ≡ done (db', a)
    → (db' ≡ db) ⊎ QueuesOne new_id db db'
unfolding handle_pull_request
handle_pull_request-QueuesOne get_commits new_pr_id new_id event db db' a h =
    elim (Bool-cases (contains ("opened" ∷ "reopened" ∷ "synchronize" ∷ []) event.action)) [
      | inr off ↦
          let h' : done (answer 200 "action ignored" db) ≡ done (db', a) =
            rw (handle_pull_request, off) at h in
          inl (ground arith)
      | inl on ↦ elim (List-cases (rows_where (of_github event.repository.id) db.repositories)) [
        | inl e ↦
            let h' : done (answer 404 "Unknown repository" db) ≡ done (db', a) =
              rw (handle_pull_request, on, e) at h in
            inl (ground arith)
        | inr (r, rs, e) ↦
            pull_known-QueuesOne get_commits new_pr_id new_id event r db db' a (rw e refl)
              (rw (handle_pull_request, on, e) at h)
      ]
    ]

dispatch-QueuesOne :
    (get_commits : String → List ListedCommit) (new_pr_id new_id : String) (event : Event)
    (db db' : Tables) (a : Answer)
    → dispatch get_commits new_pr_id new_id event db ≡ done (db', a)
    → (db' ≡ db) ⊎ QueuesOne new_id db db'
unfolding dispatch
dispatch-QueuesOne get_commits new_pr_id new_id (push_event push) db db' a h =
    handle_push-QueuesOne new_id push db db' a h
dispatch-QueuesOne get_commits new_pr_id new_id (pull_request_event pull) db db' a h =
    handle_pull_request-QueuesOne get_commits new_pr_id new_id pull db db' a h
dispatch-QueuesOne get_commits new_pr_id new_id other_event db db' a h = inl (ground arith)

-- Whatever a call of the webhook answers: the tables are as before, or the call carries the signature
-- of its body and queues one build, with the next number of its project and one job, of a commit that
-- the table then has, for the project of a known repository that is built on a push.
pub trigger_build-Signed :
    (sign_blob : String → String) (get_commits : String → List ListedCommit)
    (new_pr_id new_id : String) (hook : Hook) (db db' : Tables) (a : Answer)
    → trigger_build sign_blob get_commits new_pr_id new_id hook db ≡ done (db', a)
    → (db' ≡ db) ⊎ ((hook.signature ≡ some (sign_blob hook.body)) × QueuesOne new_id db db')
unfolding trigger_build
trigger_build-Signed sign_blob get_commits new_pr_id new_id hook db db' a h =
    elim (Option-cases hook.event) [
      | inl e ↦
          let h' : done (answer 400 "X-Github-Event not set" db) ≡ done (db', a) =
            rw (trigger_build, e) at h in
          inl (ground arith)
      | inr (event, e) ↦ elim (Option-cases hook.signature) [
        | inl e' ↦
            let h' : done (answer 400 "X-Hub-Signature not set" db) ≡ done (db', a) =
              rw (trigger_build, e, e') at h in
            inl (ground arith)
        | inr (signature, e') ↦ elim (Bool-cases (sign_blob hook.body == signature)) [
          | inr bad ↦
              let h' : done (answer 400 "X-Hub-Signature does not match blob signature" db)
                  ≡ done (db', a) =
                rw (trigger_build, e, e', bad) at h in
              inl (ground arith)
          | inl good ↦
              let signed = e' ∙ ap some (sym ((eq_iff (sign_blob hook.body) signature).0 good)) in
              elim (dispatch-QueuesOne get_commits new_pr_id new_id event db db' a
                (rw (trigger_build, e, e', good) at h)) [
                  | inl kept ↦ inl kept
                  | inr queues ↦ inr (signed, queues)
                ]
        ]
      ]
    ]
