-- ===== src/Scheduler/Round.antt =====
-- src/scheduler/kubernetes/scheduler.py: `handle`, one turn of the scheduler. Of
-- `update_cluster_state`, which writes to the table `cluster` only, the exception is what is modelled.
use infrabox.Prelude.{List, String, Bool, if◌then◌else◌, Option}
use infrabox.Scheduler.Cleanup.{
  Console, IbJob, handle_timeouts, handle_aborts, handle_orphaned_jobs, clean_namespaces, present,
}
use infrabox.Scheduler.{
  Action, ApiServer, return, ◌>>◌, pure, schedule, throw, ◌>>=◌, request_error,
}

-- try: ... except Exception: the state stays as the exception left it; the log line is left out.
unfoldable pub attempt : Action (Unit {0}) → Action (Unit {0})
attempt act w = (return tt, (act w).1)

-- What a turn reads from outside: whether `update_cluster_state` ends without an exception, the console
-- of each job, the rows that it deletes from `abort`, the IBJobs and the job ids of the namespaces that
-- the API server lists (none where that request or the reading of its answer raises an exception), and
-- whether the cluster is inactive.
pub record Turn : Type 0 where
  pub cluster_known : Bool
  pub console : Console
  pub aborts : List String
  pub ib_jobs : Option (List IbJob)
  pub namespaces : Option (List String)
  pub inactive : Bool

-- The body of the `try`.
abbrev pub clean_up : ApiServer → Turn → Action (Unit {0})
clean_up api turn = do
  handle_timeouts api turn.console
  handle_aborts api turn.console turn.aborts
  ib_jobs ← present request_error turn.ib_jobs
  handle_orphaned_jobs api ib_jobs
  namespaces ← present request_error turn.namespaces
  clean_namespaces api namespaces

-- `handle` after `update_cluster_state`.
abbrev pub after_cluster_state : ApiServer → String → Turn → Action (Unit {0})
after_cluster_state api cluster turn = do
  attempt (clean_up api turn)
  if turn.inactive then pure tt else schedule api cluster

unfoldable pub handle : ApiServer → String → Turn → Action (Unit {0})
handle api cluster turn =
    if turn.cluster_known then after_cluster_state api cluster turn else throw request_error
