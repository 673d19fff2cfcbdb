-- ===== src/Lifecycle/Orphans.antt =====
-- src/scheduler/kubernetes/scheduler.py: the visits of orphaned jobs end active jobs at most.
use infrabox.Jobs.{State, is_active, state_of, has_id}
use infrabox.Lifecycle.Ends.{EndsAction, Ends-refl, bind-Ends, update-Ends}
use infrabox.Prelude.{List, Option, ◌==◌, ◌∷◌, some, [], none, if◌then◌else◌, inr, refl}
use infrabox.Scheduler.Cleanup.{
  fail_active, visit_ib_job, handle_orphaned_jobs, IbJob, visit_row, visit_state, present,
}
use infrabox.Lifecycle.Ended.{if-Ends, option-Ends, kube_delete_job-Ends, present-Ends}
use infrabox.Lifecycle.Calm.{guard-OnActive}
use infrabox.Scheduler.{pure, ApiServer, fetch, key_error, kube_delete_job}

fail_active-Ends : (ib : IbJob) → EndsAction (fail_active ib)
unfolding fail_active
fail_active-Ends ib =
    option-Ends ib.status _ _ (λ w. Ends-refl w.jobs)
      (λ status.
        if-Ends (status == "error") _ _
          (bind-Ends (present key_error ib.message) _ (present-Ends key_error ib.message) (λ text w.
            update-Ends _ _ w.jobs (λ j. refl) (λ j. inr refl)
              (λ key. guard-OnActive (has_id ib.name) w.jobs)))
          (λ w. Ends-refl w.jobs))

visit_row-Ends : (api : ApiServer) (ib : IbJob) (s : State) → EndsAction (visit_row api ib s)
visit_row-Ends api ib s =
    let delete = kube_delete_job-Ends api ib.name in
    if-Ends (is_active s) _ (kube_delete_job api ib.name)
      (bind-Ends (fail_active ib) (λ go_on. if go_on then kube_delete_job api ib.name else pure tt)
        (fail_active-Ends ib)
        (λ go_on.
          if-Ends go_on (kube_delete_job api ib.name) (pure tt) delete (λ w. Ends-refl w.jobs)))
      delete

visit_state-Ends :
    (api : ApiServer) (ib : IbJob) (state : Option State) → EndsAction (visit_state api ib state)
visit_state-Ends api ib none = kube_delete_job-Ends api ib.name
visit_state-Ends api ib (some s) = visit_row-Ends api ib s

pub visit_ib_job-Ends : (api : ApiServer) (ib : IbJob) → EndsAction (visit_ib_job api ib)
unfolding visit_ib_job
visit_ib_job-Ends api ib =
    if-Ends ib.deleting (pure tt) _ (λ w. Ends-refl w.jobs)
      (bind-Ends (fetch (state_of ib.name)) (λ state. visit_state api ib state)
        (λ w. Ends-refl w.jobs) (visit_state-Ends api ib))

pub handle_orphaned_jobs-Ends :
    (api : ApiServer) (ibs : List IbJob) → EndsAction (handle_orphaned_jobs api ibs)
unfolding handle_orphaned_jobs
handle_orphaned_jobs-Ends api [] w = Ends-refl w.jobs
handle_orphaned_jobs-Ends api (ib ∷ rest) w =
    bind-Ends (visit_ib_job api ib) (λ _. handle_orphaned_jobs api rest) (visit_ib_job-Ends api ib)
      (λ a. handle_orphaned_jobs-Ends api rest) w
