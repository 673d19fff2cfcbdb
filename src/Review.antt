-- ===== src/Review.antt =====
-- src/github/review/review.py: the status of a commit on GitHub follows the state of its jobs.
-- `quote` stands for urllib.quote_plus with the spaces put back.
pub mod Final
use infrabox.Trigger.{token_text}
use infrabox.Jobs.Rows.{find_row}
use infrabox.Http.{Response, done, ◌>>=◌}
use infrabox.Builds.{Commit, ProjectRow, User, Build, Tables, first_row}
use infrabox.Prelude.{
  none, some, Option, String, List, Bool, ◌∷◌, false, ◌<>◌, rows_where, ◌==◌, show_nat,
  if◌then◌else◌, ◌&&◌, not, [],
}
use infrabox.Jobs.{
  Job, error, failure, State, Table, scheduled, running, queued, skipped, killed, finished,
}
use infrabox.Guards.{Collaborator}

-- What is posted. `url` is none where the column is null.
pub record StatusUpdate : Type 0 where
  pub url : Option String
  pub token : String
  pub state : String
  pub target_url : String
  pub context : String

-- `state = 'success'`, and the tests that change it.
abbrev pub commit_state : State → String
commit_state scheduled = "pending"
commit_state running = "pending"
commit_state queued = "pending"
commit_state failure = "failure"
commit_state skipped = "failure"
commit_state killed = "failure"
commit_state error = "error"
commit_state finished = "success"

-- The tokens of the owners of a project: the join of the user's rows.
unfoldable pub project_tokens : String → List User → List Collaborator → List (Option String)
project_tokens project_id users [] = []
project_tokens project_id users (co ∷ cos) =
    let later = project_tokens project_id users cos in
    elim (rows_where (λ (u : User). u.id == co.user_id) users) [
      | [] ↦ later
      | u ∷ us ↦
          if co.owner && co.project_id == project_id then u.github_api_token ∷ later else later
    ]

abbrev pub is_commit_of : Option String → String → Commit → Bool
is_commit_of none project_id c = false
is_commit_of (some commit_id) project_id c = c.id == commit_id && c.project_id == project_id

unfoldable pub target_url : (String → String) → String → ProjectRow → Build → Job → String
target_url quote dashboard_url p b j =
    dashboard_url
    <> ("/dashboard/#/project/"
        <> (p.name
            <> ("/build/"
                <> (show_nat b.build_number
                    <> ("/" <> (show_nat b.restart_counter <> ("/job/" <> quote j.name)))))))

-- From the token on: none is `return False` before the request.
unfoldable pub status_with :
    (String → String)
    → String
    → ProjectRow
    → Build
    → Job
    → List (Option String)
    → Tables
    → Response (Option StatusUpdate)
status_with quote dashboard_url p b j [] db = done none
status_with quote dashboard_url p b j (owner_token ∷ tokens) db = do
  c ← first_row (rows_where (is_commit_of b.commit_id j.project_id) db.commits)
  token ← token_text owner_token
  done (
      some record {
        url = c.github_status_url;
        token = token;
        state = commit_state j.state;
        target_url = target_url quote dashboard_url p b j;
        context = "Job: " <> j.name;
      })

unfoldable pub status_of :
    (String → String) → String → ProjectRow → Job → Tables → Response (Option StatusUpdate)
status_of quote dashboard_url p j db =
    if not (p.type == "github")
    then done none
    else elim (rows_where (λ (b : Build). b.id == j.build_id) db.builds) [
      | [] ↦ done none
      | b ∷ bs ↦
          status_with quote dashboard_url p b j
            (project_tokens j.project_id db.users db.collaborators) db
    ]

unfoldable pub handle_job_update :
    (String → String) → String → String → Table → Tables → Response (Option StatusUpdate)
handle_job_update quote dashboard_url job_id jobs db = elim (find_row job_id jobs) [
  | none ↦ done none
  | some j ↦ elim (rows_where (λ (p : ProjectRow). p.id == j.project_id) db.projects) [
    | [] ↦ done none
    | p ∷ ps ↦ status_of quote dashboard_url p j db
  ]
]
