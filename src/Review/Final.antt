-- ===== src/Review/Final.antt =====
-- src/github/review/review.py: a status that is not pending is the last one.
use infrabox.Trigger.{token_text}
use infrabox.PullRequests.Webhook.{List-cases}
use infrabox.Http.{bind-done}
use infrabox.Jobs.Rows.{HasKey, find_row}
use infrabox.Lifecycle.Steps.{Steps, Steps-keep_ended}
use infrabox.Builds.{ProjectRow, Build, Tables, first_row}
use infrabox.Jobs.{
  State, Table, Job, is_active, queued, scheduled, running, finished, failure, error, skipped,
  killed,
}
use infrabox.Review.{
  status_with, handle_job_update, status_of, commit_state, StatusUpdate, done, is_commit_of,
  project_tokens,
}
use infrabox.Prelude.{
  refl, some, String, ◌≢◌, List, ◌≡◌, Option, false, arith, ◌∙◌, ◌∷◌, Option-cases, ap, inl, sym,
  inr, rows_where, ◌==◌, Bool-cases, [],
}

status_with-state :
    (quote : String → String) (root : String) (p : ProjectRow) (b : Build) (j : Job)
    (tokens : List (Option String)) (db : Tables) (u : StatusUpdate)
    → status_with quote root p b j tokens db ≡ done (some u)
    → u.state ≡ commit_state j.state
unfolding status_with
status_with-state quote root p b j [] db u h = ground arith
status_with-state quote root p b j (t ∷ tokens) db u h =
    let (c, _, h₁) =
      bind-done (first_row (rows_where (is_commit_of b.commit_id j.project_id) db.commits)) _ h in
    let (token, _, h₂) = bind-done (token_text t) _ h₁ in ground arith

-- What is posted has the state of the job's row.
handle_job_update-state :
    (quote : String → String) (root job_id : String) (jobs : Table) (db : Tables) (u : StatusUpdate)
    → handle_job_update quote root job_id jobs db ≡ done (some u)
    → (j : Job) × (find_row job_id jobs ≡ some j) × (u.state ≡ commit_state j.state)
unfolding handle_job_update status_of
handle_job_update-state quote root job_id jobs db u h = elim (Option-cases (find_row job_id jobs)) [
  | inl e ↦ let h' = rw (handle_job_update, e) at h in ground arith
  | inr (j, e) ↦
      elim (List-cases (rows_where (λ (p : ProjectRow). p.id == j.project_id) db.projects)) [
        | inl e₁ ↦ let h' = rw (handle_job_update, e, e₁) at h in ground arith
        | inr (p, ps, e₁) ↦
            let h₁ : status_of quote root p j db ≡ done (some u) =
              rw (handle_job_update, e, e₁) at h in
            elim (Bool-cases (p.type == "github")) [
              | inr other ↦ ground arith
              | inl github ↦
                  elim (List-cases (rows_where (λ (b : Build). b.id == j.build_id) db.builds)) [
                    | inl e₂ ↦ ground arith
                    | inr (b, bs, e₂) ↦
                        let h₂ : status_with quote root p b j
                              (project_tokens j.project_id db.users db.collaborators) db
                            ≡ done (some u) =
                          ground arith in
                        (
                          j,
                          e,
                          status_with-state quote root p b j
                              (project_tokens j.project_id db.users db.collaborators) db u h₂,
                        )
                  ]
            ]
      ]
]

not_pending : (s : State) → commit_state s ≢ "pending" → is_active s ≡ false
not_pending queued h = absurd (h refl)
not_pending scheduled h = absurd (h refl)
not_pending running h = absurd (h refl)
not_pending finished h = refl
not_pending failure h = refl
not_pending error h = refl
not_pending skipped h = refl
not_pending killed h = refl

-- The id keys the table. If an update of a job posts a state that is not pending, then after any sequence
-- of the steps of Lifecycle.Steps (turns of the scheduler and their parts, SetRunning, SetFinished, and
-- CreateJobs with new ids, each run to its end; handle_timeouts is one step) each later update of that
-- job that posts a state posts the same one, whatever the other tables are then.
pub handle_job_update-final :
    (quote : String → String) (root job_id : String) (jobs jobs' : Table) (db db' : Tables)
    (u u' : StatusUpdate)
    → Steps jobs jobs'
    → HasKey jobs
    → handle_job_update quote root job_id jobs db ≡ done (some u)
    → u.state ≢ "pending"
    → handle_job_update quote root job_id jobs' db' ≡ done (some u')
    → u'.state ≡ u.state
handle_job_update-final quote root job_id jobs jobs' db db' u u' steps key before over after =
    let (j, found, state) = handle_job_update-state quote root job_id jobs db u before in
    let (j', found', state') = handle_job_update-state quote root job_id jobs' db' u' after in
    let ended = not_pending j.state (λ e. over (state ∙ e)) in
    let kept = Steps-keep_ended jobs jobs' job_id j steps key found ended in
    let same : j' ≡ j = cc in state' ∙ ap (λ (r : Job). commit_state r.state) same ∙ sym state
