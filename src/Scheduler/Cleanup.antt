-- ===== src/Scheduler/Cleanup.antt =====
-- src/scheduler/kubernetes/scheduler.py: aborts, timeouts, orphaned namespaces and jobs.
use infrabox.Jobs.Rows.{row_ids}
use infrabox.Prelude.{
  none, String, Bool, List, ℕ, ◌&&◌, if◌then◌else◌, false, contains, ◌∷◌, ◌==◌, true, some, Option,
  ◌<>◌, [], ltb, ◌+◌,
}
use infrabox.Jobs.{
  Job, Table, State, select, update, has_id, is_active, state_of, finished, running, failure, error,
  killed,
}
use infrabox.Scheduler.{
  Action, pure, execute, fetch, current_time, kube_delete_job, kube_delete_namespace, ApiServer,
  ◌>>=◌, ◌>>◌, is_queued, Exception, key_error, or_raise,
}

-- The `console` table: the lines of a job in the order of their dates, joined.
abbrev pub Console : Type 0
Console = String → String

-- j.state not in ('finished', 'failure', 'error', 'killed')
abbrev pub may_abort : State → Bool
may_abort finished = false
may_abort failure = false
may_abort error = false
may_abort killed = false
may_abort _ = true

-- jobs_to_abort: the ids come from the deleted rows of `abort`.
abbrev pub to_abort : List String → Table → List Job
to_abort all_aborts = select (λ j. contains all_aborts j.id && may_abort j.state)

module _ (api : ApiServer) (console : Console) where
  -- The UPDATE of a job that is aborted.
  abbrev pub mark_killed : String → Action (Unit {0})
  mark_killed job_id = do
    now ← current_time
    execute (
        update (λ j. j.id == job_id && is_active j.state)
          (λ j. record j {
            state = State.killed;
            console = some (console job_id);
            end_date = some now;
          }))

  -- One round of the loop over the aborts.
  unfoldable pub abort_job : String → Action (Unit {0})
  abort_job job_id = do kube_delete_job api job_id; mark_killed job_id

  unfoldable pub abort_each : List Job → Action (Unit {0})
  abort_each [] = pure tt
  abort_each (j ∷ js) = do abort_job j.id; abort_each js

  -- The parts of the WITH statement see the table as it was before the statement.
  unfoldable pub handle_aborts : List String → Action (Unit {0})
  handle_aborts all_aborts = do
    jobs_to_abort ← fetch (to_abort all_aborts)
    let not_started = row_ids (select (λ j. is_queued j.state) jobs_to_abort)
    execute (update (λ j. contains not_started j.id) (λ j. record j { state = State.killed }))
    abort_each (select (λ j. is_active j.state) jobs_to_abort)

  -- j.start_date < (NOW() - j.timeout): false where start_date is null.
  abbrev pub timed_out : ℕ → Job → Bool
  timed_out now j = elim j.start_date [ none ↦ false | some start ↦ ltb (start + j.timeout) now ]

  abbrev pub is_running : State → Bool
  is_running running = true
  is_running _ = false

  -- The UPDATE of a job that is timed out. It does not ask for the job's state.
  abbrev pub mark_expired : String → Action (Unit {0})
  mark_expired job_id = do
    now ← current_time
    execute (
        update (has_id job_id) (λ j. record j {
          state = State.error;
          console = some (console job_id <> "Aborted due to timeout");
          end_date = some now;
        }))

  -- One round of the loop over the jobs that are timed out.
  unfoldable pub expire_job : String → Action (Unit {0})
  expire_job job_id = do kube_delete_job api job_id; mark_expired job_id

  unfoldable pub expire_each : List Job → Action (Unit {0})
  expire_each [] = pure tt
  expire_each (j ∷ js) = do expire_job j.id; expire_each js

  unfoldable pub handle_timeouts : Action (Unit {0})
  handle_timeouts = do
    now ← current_time
    aborts ← fetch (select (λ j. timed_out now j && is_running j.state))
    expire_each aborts

-- What the loop does with the namespace of a job, given the state of its row.
abbrev pub clean_namespace : ApiServer → String → Option State → Action (Unit {0})
clean_namespace api job_id none = pure tt
clean_namespace api job_id (some s) =
    if is_active s then pure tt else kube_delete_namespace api job_id

-- A namespace that the API server lists, with the values of its labels `infrabox-job-id`.
unfoldable pub clean_namespaces : ApiServer → List String → Action (Unit {0})
clean_namespaces api [] = pure tt
clean_namespaces api (job_id ∷ rest) = do
  state ← fetch (state_of job_id)
  clean_namespace api job_id state
  clean_namespaces api rest

-- An IBJob that the API server lists: its name, whether it has a deletionTimestamp, and its status
-- with the message, none where there is no such key.
pub record IbJob : Type 0 where
  pub name : String
  pub deleting : Bool
  pub status : Option String
  pub message : Option String

-- The value, or the exception where there is none.
abbrev pub present : {A : Type 0} → Exception → Option A → Action A
present e a w = (or_raise e a, w)

abbrev pub error_message : String → String
error_message m = if m == "" then "Internal Controller Error" else m

-- What the loop does with an IBJob whose row is active: true if it goes on to delete it.
unfoldable pub fail_active : IbJob → Action Bool
fail_active ib = elim ib.status [
  | none ↦ pure false
  | some status ↦
      if status == "error"
      then (do
        text ← present key_error ib.message
        now ← current_time
        execute (
            update (λ j. j.id == ib.name && is_active j.state)
              (λ j. record j {
                state = State.error;
                message = some (error_message text);
                end_date = some now;
              }))
        pure true)
      else pure false
]

-- What the loop does with an IBJob whose row has the state `s`.
abbrev pub visit_row : ApiServer → IbJob → State → Action (Unit {0})
visit_row api ib s =
    if is_active s
    then (do go_on ← fail_active ib; if go_on then kube_delete_job api ib.name else pure tt)
    else kube_delete_job api ib.name

abbrev pub visit_state : ApiServer → IbJob → Option State → Action (Unit {0})
visit_state api ib none = kube_delete_job api ib.name
visit_state api ib (some s) = visit_row api ib s

unfoldable pub visit_ib_job : ApiServer → IbJob → Action (Unit {0})
visit_ib_job api ib =
    if ib.deleting then pure tt else (do state ← fetch (state_of ib.name); visit_state api ib state)

unfoldable pub handle_orphaned_jobs : ApiServer → List IbJob → Action (Unit {0})
handle_orphaned_jobs api [] = pure tt
handle_orphaned_jobs api (ib ∷ rest) = do visit_ib_job api ib; handle_orphaned_jobs api rest
