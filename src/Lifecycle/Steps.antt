-- ===== src/Lifecycle/Steps.antt =====
-- The state machine of a job: the turns of src/scheduler/kubernetes/scheduler.py and the requests of a
-- running job (src/api/handlers/job_api.py) as steps on the table, in any order.
use infrabox.JobApi.{Cluster, Sender, NewJob, last_id, create_jobs}
use infrabox.JobApi.Inserts.{create_jobs-Calm, Unnamed}
use infrabox.Scheduler.Conditions.{visit-Effect}
use infrabox.Lifecycle.Ended.{handle_timeouts-Ends, kill_queued-Ends, abort_job-Ends}
use infrabox.Lifecycle.Orphans.{visit_ib_job-Ends}
use infrabox.Scheduler.Cleanup.{Console, handle_timeouts, to_abort, abort_job, IbJob, visit_ib_job}
use infrabox.Scheduler.Round.{Turn, attempt, handle, clean_up}
use mathlib.Core.Path.{subst}
use infrabox.Scheduler.Decisions.{schedule-Allows, schedule-HasKey}
use infrabox.Scheduler.Parents.{jobs_after, Effect}
use infrabox.Lifecycle.Turns.{clean_up-Ends}
use infrabox.Lifecycle.Ends.{Ends-Calm}
use infrabox.Lifecycle.Calm.{Calm, Calm-refl, Calm-trans, update-Calm, found-OnActive}
use infrabox.Jobs.Rows.{find_row, KeepsId, HasKey, find_row-id, state_of-find_row, row_ids}
use infrabox.Prelude.{
  String, ◌≡◌, some, arith, false, Option-cases, Bool-cases, inl, inr, ℕ, refl, Option,
  if◌then◌else◌, Bool, true, List, contains,
}
use infrabox.Http.{done}
use infrabox.Lifecycle.{job_token_required, set_running, set_finished}
use infrabox.Scheduler.{ApiServer, World, schedule, pure, parents_of, is_queued, visit}
use infrabox.Jobs.{Table, state_of, State, Job, update, is_active, has_id, select}

-- One step on the table. A turn of the scheduler that ran alone is one step; a turn with requests between
-- its parts is a sequence of steps: of `handle_timeouts`; of the WITH statement of `handle_aborts`, with
-- the rows of `abort` that it deletes; of a round of its loop, of any id; of the visit of an IBJob; and of
-- the visit of a job in `schedule`, whose row is still active when the visit begins. Each may end by an
-- exception. The ids of the jobs that CreateJobs creates are new: no row has one of them (the primary key)
-- and no row depends on the last one. A restart is no step.
pub data Step : Table → Table → Type 0 where
  turn_step :
      (api : ApiServer) (cluster : String) (turn : Turn) (w : World)
      → Step w.jobs (jobs_after (handle api cluster turn w))
  timeouts_step :
      (api : ApiServer) (console : Console) (w : World)
      → Step w.jobs (jobs_after (handle_timeouts api console w))
  kill_queued_step :
      (all_aborts : List String) (t : Table)
      → Step t (
          update
            (λ j. contains (row_ids (select (λ j. is_queued j.state) (to_abort all_aborts t))) j.id)
            (λ j. record j { state = State.killed })
            t)
  abort_step :
      (api : ApiServer) (console : Console) (i : String) (w : World)
      → Step w.jobs (jobs_after (abort_job api console i w))
  ib_job_step :
      (api : ApiServer) (ib : IbJob) (w : World) → Step w.jobs (jobs_after (visit_ib_job api ib w))
  visit_step :
      (api : ApiServer) (j r : Job) (w : World)
      → find_row j.id w.jobs ≡ some r
      → is_active r.state ≡ true
      → Step w.jobs (jobs_after (visit api j w))
  set_running_step : (i : String) (now : ℕ) (t : Table) → Step t (set_running i now t)
  set_finished_step :
      (i : String) (s : State) (message : Option String) (output : String) (now : ℕ) (t : Table)
      → Step t (set_finished i s message output now t)
  create_jobs_step :
      (enabled : Bool) (clusters : List Cluster) (avg : String → Option ℕ) (sender : Sender)
      (now : ℕ) (jobs : List NewJob) (t t' : Table)
      → Unnamed (last_id sender.id jobs) t
      → HasKey t'
      → create_jobs enabled clusters avg sender now jobs t ≡ done t'
      → Step t t'

pub data Steps : Table → Table → Type 0 where
  stop : (t : Table) → Steps t t
  go_on : (t₁ t₂ t₃ : Table) → Step t₁ t₂ → Steps t₂ t₃ → Steps t₁ t₃

schedule-Calm :
    (api : ApiServer) (cluster : String) (w : World)
    → Calm w.jobs (jobs_after (schedule api cluster w))
schedule-Calm api cluster w key = (schedule-HasKey api cluster w key, keeps)
  where
    keeps :
        (k : String) (r : Job)
        → find_row k w.jobs ≡ some r
        → is_active r.state ≡ false
        → find_row k (jobs_after (schedule api cluster w)) ≡ some r
    keeps k r found over =
        let name = find_row-id k r w.jobs found in
        elim (schedule-Allows api cluster w r key (rw (← name) at found)) [
          | inl same ↦
              subst (λ i. find_row i (jobs_after (schedule api cluster w)) ≡ some r) name same
          | inr (_, _, waits, _, _) ↦ ground arith
        ]

if-Calm :
    (api : ApiServer) (cluster : String) (inactive : Bool) (w : World)
    → Calm w.jobs (jobs_after (schedule api cluster w))
    → Calm w.jobs (jobs_after ((if inactive then pure tt else schedule api cluster) w))
if-Calm api cluster true w h = Calm-refl w.jobs
if-Calm api cluster false w h = h

handle-Calm :
    (api : ApiServer) (cluster : String) (turn : Turn) (w : World)
    → Calm w.jobs (jobs_after (handle api cluster turn w))
unfolding handle attempt
handle-Calm api cluster turn w = elim (Bool-cases turn.cluster_known) [
  | inl known ↦
      let w₁ = (clean_up api turn w).1 in
      rw known (
        Calm-trans w.jobs w₁.jobs _ (Ends-Calm w.jobs w₁.jobs (clean_up-Ends api turn w))
          (if-Calm api cluster turn.inactive w₁ (schedule-Calm api cluster w₁)))
  | inr unknown ↦ rw unknown (Calm-refl w.jobs)
]

-- A visit changes the row of its job at most.
Effect-Calm :
    (j r : Job) (ps : List Job) (t t' : Table)
    → find_row j.id t ≡ some r
    → is_active r.state ≡ true
    → Effect j ps t t'
    → Calm t t'
Effect-Calm j r ps t t' found live (inl same) = rw same (Calm-refl t)
Effect-Calm j r ps t t' found live (inr (f, keeps, e, _)) =
    rw e (update-Calm (has_id j.id) f t keeps (found-OnActive j.id r t found live))

-- The guard lets a request pass only while its job is active.
job_token_required-Calm :
    (i : String) (f : Job → Job) (t : Table)
    → KeepsId f
    → Calm t (job_token_required i t (update (has_id i) f))
unfolding job_token_required
job_token_required-Calm i f t keeps = elim (Option-cases (state_of i t)) [
  | inl missing ↦ rw (job_token_required, missing) (Calm-refl t)
  | inr (s, e) ↦ elim (Bool-cases (is_active s)) [
    | inl live ↦
        let (x, found, same) = state_of-find_row i s t e in
        rw (job_token_required, e, live)
          (update-Calm (has_id i) f t keeps (found-OnActive i x t found (rw (← same) at live)))
    | inr over ↦ rw (job_token_required, e, over) (Calm-refl t)
  ]
]

Step-Calm : (t t' : Table) → Step t t' → Calm t t'
unfolding set_running set_finished
Step-Calm _ _ (turn_step api cluster turn w) = handle-Calm api cluster turn w
Step-Calm _ _ (timeouts_step api console w) =
    Ends-Calm w.jobs _ (handle_timeouts-Ends api console w)
Step-Calm _ _ (kill_queued_step all_aborts t) = Ends-Calm t _ (kill_queued-Ends all_aborts t)
Step-Calm _ _ (abort_step api console i w) = Ends-Calm w.jobs _ (abort_job-Ends api console i w)
Step-Calm _ _ (ib_job_step api ib w) = Ends-Calm w.jobs _ (visit_ib_job-Ends api ib w)
Step-Calm _ _ (visit_step api j r w found live) =
    Effect-Calm j r (parents_of j w.jobs) w.jobs _ found live (visit-Effect api j w)
Step-Calm _ _ (create_jobs_step enabled clusters avg sender now jobs t t' fresh key run) =
    create_jobs-Calm enabled clusters avg sender now jobs t t' fresh key run
Step-Calm _ _ (set_running_step i now t) = job_token_required-Calm i _ t (λ j. refl)
Step-Calm _ _ (set_finished_step i s message output now t) =
    job_token_required-Calm i _ t (λ j. refl)

Steps-Calm : (t t' : Table) → Steps t t' → Calm t t'
Steps-Calm _ _ (stop t) = Calm-refl t
Steps-Calm _ _ (go_on t₁ t₂ t₃ first rest) =
    Calm-trans t₁ t₂ t₃ (Step-Calm t₁ t₂ first) (Steps-Calm t₂ t₃ rest)

-- The id keys the table. Through any sequence of the steps above (turns of the scheduler and their parts,
-- SetRunning, SetFinished, and CreateJobs with new ids, each run to its end before the next) a job that
-- has ended keeps its row: state, dates, console and message. `handle_timeouts` is one step: a request
-- between its SELECT and its UPDATE is not among these sequences, and a visit finds its row active.
pub Steps-keep_ended :
    (t t' : Table) (k : String) (r : Job)
    → Steps t t'
    → HasKey t
    → find_row k t ≡ some r
    → is_active r.state ≡ false
    → find_row k t' ≡ some r
Steps-keep_ended t t' k r steps key found over = (Steps-Calm t t' steps key).1 k r found over
