-- ===== src/Tests/Rounds.antt =====
-- The scheduler and the job's requests on a small table.
use infrabox.Aborts.{abort_build}
use infrabox.Scheduler.Cleanup.{handle_aborts, abort_each, abort_job}
use infrabox.Aborts.Ended.{Off, handle_aborts-abort_build}
use infrabox.Scheduler.Drained.{OffQueue, schedule-OffQueue}
use infrabox.Scheduler.Progress.{Accepts}
use infrabox.Lifecycle.Turns.{Follows, handle-Follows}
use infrabox.Scheduler.Round.{Turn, handle}
use infrabox.Lifecycle.Restart.{Extends, Settled, grow_all-Settled}
use infrabox.Lifecycle.{set_finished, grow_all}
use infrabox.Lifecycle.Steps.{Steps, Steps-keep_ended, set_finished_step, turn_step}
use infrabox.Scheduler.Decisions.{Decided, schedule-Allows}
use infrabox.Scheduler.Parents.{jobs_after, Ended}
use infrabox.Jobs.{select, State, Job, update, state_of, Dependency, JobType}
use infrabox.Scheduler.{
  World, ApiServer, schedule, insert_by_age, by_age, queued_jobs, find_on, check_conditions,
  kube_job, prepare, schedule_job, visit, visit_all, Request, return, parents_of, get_secrets,
  raise, request_error, kube_delete_job, delete_ibjob,
}
use infrabox.Prelude.{
  String, arith, ◌≡◌, ◌∷◌, eq_iff, some, List, [], none, false, refl, suc, length, All, ℕ, true,
  Option,
}
use infrabox.Jobs.Rows.{find_row, HasKey}

abbrev row : String → State → List Dependency → Job
row i s deps = record {
  id = i;
  build_id = "b";
  project_id = "p";
  name = i;
  type = JobType.run_project_container;
  state = s;
  dependencies = deps;
  cluster_name = "master";
  created_at = 1;
  start_date = none;
  end_date = none;
  timeout = 3600;
  console = none;
  message = none;
  kubernetes = false;
}

abbrev compile : Job
compile = row "compile" State.finished []

abbrev deploy : Job
deploy =
    row "deploy" State.queued
      (record { job = "compile"; job_id = "compile"; on = "finished" ∷ [] } ∷ [])

abbrev clean : Job
clean =
    row "clean" State.queued
      (record { job = "compile"; job_id = "compile"; on = "failure" ∷ [] } ∷ [])

abbrev three_jobs : World
three_jobs = record { jobs = compile ∷ deploy ∷ clean ∷ []; requests = []; now = 100 }

-- An API server that creates what it is asked for.
abbrev willing : ApiServer
willing = record { status = λ r. some 201; secrets = λ i. return (true ∷ []) }

abbrev answer : Request → Option ℕ
answer (get_secrets i) = some 200
answer _ = some 201

round : Unit {0}
unfolding select update find_row state_of insert_by_age by_age queued_jobs find_on check_conditions
    kube_job prepare schedule_job visit visit_all schedule
round = tt

-- `deploy` is started and `clean` is skipped.
started :
    (find_row "deploy" (jobs_after (schedule willing "master" three_jobs))
      ≡ some (record deploy { state = State.scheduled }))
    × (find_row "clean" (jobs_after (schedule willing "master" three_jobs))
        ≡ some (record clean { state = State.skipped }))
unfolding round
started = (refl, refl)

three_jobs-HasKey : HasKey three_jobs.jobs
three_jobs-HasKey = (
  ground (arith, eq_iff "compile" "deploy", eq_iff "compile" "clean"),
  (ground (arith, eq_iff "deploy" "clean"), (λ m. m, tt)),
)

deploy_found : find_row deploy.id three_jobs.jobs ≡ some deploy
unfolding round
deploy_found = refl

schedule-Allows_example :
    Decided "master" (jobs_after (schedule willing "master" three_jobs)) deploy
schedule-Allows_example =
    schedule-Allows willing "master" three_jobs deploy three_jobs-HasKey deploy_found

abbrev busy : Turn
busy = record {
  cluster_known = true;
  console = λ i. "";
  aborts = "compile" ∷ "clean" ∷ [];
  ib_jobs = some [];
  namespaces = none;
  inactive = false;
}

-- A turn that aborts `compile` and `clean` and cannot list the namespaces, and then a request that `compile` sends after its end.
late_request : Steps three_jobs.jobs (
    set_finished "compile" State.failure none "" 101
      (jobs_after (handle willing "master" busy three_jobs)))
late_request =
    Steps.go_on _ _ _ (turn_step willing "master" busy three_jobs)
      (Steps.go_on _ _ _ (set_finished_step "compile" State.failure none "" 101 _) (Steps.stop _))

clean_found : find_row clean.id three_jobs.jobs ≡ some clean
unfolding round
clean_found = refl

compile_found : find_row "compile" three_jobs.jobs ≡ some compile
unfolding round
compile_found = refl

Steps-keep_ended_example :
    find_row "compile" (
      set_finished "compile" State.failure none "" 101
        (jobs_after (handle willing "master" busy three_jobs)))
    ≡ some compile
Steps-keep_ended_example =
    Steps-keep_ended three_jobs.jobs _ "compile" compile late_request three_jobs-HasKey
      compile_found refl

grow_all-Settled_example :
    (restart : List String) × (grow_all
        (suc (length three_jobs.jobs))
        three_jobs.jobs
        ("compile" ∷ [])
      ≡ some restart)
    × Extends ("compile" ∷ []) restart
    × All (Settled restart) three_jobs.jobs
grow_all-Settled_example = grow_all-Settled three_jobs.jobs ("compile" ∷ [])

handle-Follows_example : Follows (jobs_after (handle willing "master" busy three_jobs)) clean
handle-Follows_example =
    handle-Follows willing "master" busy three_jobs clean three_jobs-HasKey clean_found

-- An API server that answers each request as the scheduler expects.
abbrev accepting : ApiServer
accepting = record { status = answer; secrets = λ i. return (true ∷ []) }

accepting-Accepts : Accepts accepting
accepting-Accepts = record {
  namespace = λ i. refl;
  role = λ i. refl;
  role_binding = λ i. refl;
  discovery = λ i. refl;
  listed = λ i. refl;
  secret = λ i. ([], refl);
  ibjob = λ i. refl;
}

deploy-Ended : Ended (parents_of deploy three_jobs.jobs)
unfolding round
deploy-Ended = (refl, tt)

schedule-OffQueue_example :
    ((schedule accepting "master" three_jobs).0 ≡ return tt)
    × OffQueue (jobs_after (schedule accepting "master" three_jobs)) deploy
schedule-OffQueue_example =
    schedule-OffQueue accepting "master" three_jobs deploy accepting-Accepts three_jobs-HasKey
      (tt, ((refl, tt), ((refl, tt), tt))) deploy_found refl refl deploy-Ended

handle_aborts-abort_build_example : Off "deploy" (
    jobs_after (
      handle_aborts willing
        (λ i. "")
        (abort_build deploy.build_id deploy.project_id three_jobs.jobs [])
        three_jobs))
handle_aborts-abort_build_example =
    handle_aborts-abort_build willing (λ i. "") deploy.build_id deploy.project_id [] three_jobs
      "deploy" deploy (λ i. (201, refl)) three_jobs-HasKey deploy_found refl

-- The only row of the table runs, and its time is over.
abbrev overdue : Job
overdue = record compile { state = State.running; start_date = some 1; timeout = 10 }

abbrev one_job : World
one_job = record { jobs = overdue ∷ []; requests = []; now = 100 }

-- An API server that does not answer.
abbrev silent : ApiServer
silent = record { status = λ r. none; secrets = λ i. raise request_error }

-- The rows of `abort` are gone, and the job runs on.
lost :
    handle_aborts silent (λ i. "") ("compile" ∷ []) one_job
    ≡ (raise request_error, record one_job { requests = delete_ibjob "compile" ∷ [] })
unfolding handle_aborts abort_each abort_job kube_delete_job update select
lost = refl
