-- ===== src/Scheduler/Conditions.antt =====
-- src/scheduler/kubernetes/scheduler.py: what one round of the loop of `schedule` does to the table.
use infrabox.Scheduler.Parents.{
  jobs_after, Allows, bind-return, Ended, Effect, AllMet, any-All, check_conditions-Conditions,
  skip, bind-raise,
}
use mathlib.Core.Path.{subst}
use infrabox.Jobs.Rows.{KeepsId}
use infrabox.Scheduler.{
  raise, parents_of, visit, ◌>>=◌, set_state, is_wait, pure, finish_wait, post_ibjob, request_error,
}
use infrabox.Jobs.{State, update, Table, is_active, has_id}
use infrabox.Scheduler.{
  Outcome, ApiServer, Job, World, create_kube_namespace, return, Action, first_secret,
  post_namespace, schedule_job, Request, post_role, prepare, expect, post_role_binding, kube_job,
  post_discovery, get_secrets,
}
use infrabox.Prelude.{
  List, Bool, ◌∷◌, any, inl, String, ◌≡◌, Bool-cases, false, true, ◌⊎◌, arith, [], inr, ℕ, eqb,
  ◌++◌, some, ap, if◌then◌else◌, refl, sym, Option-cases, none,
}

module _ (api : ApiServer) where
  abbrev KeepsJobs : Action Bool → Type 0
  KeepsJobs act = (w : World) → jobs_after (act w) ≡ w.jobs

  expect-KeepsJobs :
      (code : ℕ) (r : Request) (next : Action Bool)
      → KeepsJobs next
      → KeepsJobs (expect api code r next)
  expect-KeepsJobs code r next keeps w = elim (Option-cases (api.status r)) [
    | inl fails ↦ rw (◌>>=◌, jobs_after, fails) refl
    | inr (status, e) ↦ elim (Bool-cases (eqb status code)) [
      | inl same ↦
          rw (◌>>=◌, jobs_after, e, same) (keeps (record w { requests = w.requests ++ r ∷ [] }))
      | inr other ↦ rw (◌>>=◌, jobs_after, e, other) refl
    ]
  ]

  first_secret-KeepsJobs : (i : String) → KeepsJobs (first_secret api i)
  first_secret-KeepsJobs i w = refl

  create_kube_namespace-KeepsJobs : (i : String) → KeepsJobs (create_kube_namespace api i)
  unfolding create_kube_namespace
  create_kube_namespace-KeepsJobs i = expect-KeepsJobs 201 (post_namespace i) _ (
      expect-KeepsJobs 201 (post_role i) _ (
        expect-KeepsJobs 201 (post_role_binding i) _ (
          expect-KeepsJobs 201 (post_discovery i) _
            (expect-KeepsJobs 200 (get_secrets i) _ (first_secret-KeepsJobs i)))))

  -- What `schedule_job` does to the table.
  abbrev Starts : Job → Table → Table → Type 0
  Starts j t t' =
      (t' ≡ t)
      ⊎ ((f : Job → Job) × KeepsId f
          × (t' ≡ update (has_id j.id) f t)
          × (((f j).state ≡ State.scheduled) ⊎ ((f j).state ≡ State.error)))

  abbrev fail_namespace : Job → Job
  fail_namespace r = record r {
    state = State.error;
    console = some "Failed to create kubernetes namespace";
  }

  -- How `prepare` ends: it makes its UPDATE only where it returns false.
  abbrev Prepares : Job → Table → Outcome Bool × World → Type 0
  Prepares j t result =
      (jobs_after result ≡ t)
      ⊎ ((result.0 ≡ return false) × (jobs_after result ≡ update (has_id j.id) fail_namespace t))

  after_namespace :
      (j : Job) (w : World) (made : Outcome Bool × World)
      → j.kubernetes ≡ true
      → create_kube_namespace api j.id w ≡ made
      → made.1.jobs ≡ w.jobs
      → Prepares j w.jobs (prepare api j w)
  unfolding prepare
  after_namespace j w (return true, w') wanted e same =
      rw (wanted, e, if◌then◌else◌, ◌>>=◌, jobs_after, e) (inl same)
  after_namespace j w (return false, w') wanted e same =
      rw (wanted, e, if◌then◌else◌, ◌>>=◌, jobs_after, e)
        (inr (refl, ap (update (has_id j.id) fail_namespace) same))
  after_namespace j w (raise x, w') wanted e same =
      rw (wanted, e, if◌then◌else◌, ◌>>=◌, jobs_after, e) (inl same)

  prepare-Prepares : (j : Job) (w : World) → Prepares j w.jobs (prepare api j w)
  unfolding prepare
  prepare-Prepares j w = elim (Bool-cases j.kubernetes) [
    | inl wanted ↦
        after_namespace j w (create_kube_namespace api j.id w) wanted refl
          (create_kube_namespace-KeepsJobs j.id w)
    | inr other ↦ rw other (inl refl)
  ]

  -- The rest of `schedule_job`, after `prepare`.
  abbrev pub go_on : Job → Bool → Action (Unit {0})
  go_on j ready =
      if ready
      then (do
        started ← kube_job api j.id
        if started then set_state j.id State.scheduled else pure tt)
      else pure tt

  pub kube_job-raises :
      (i : String) (w : World)
      → api.status (post_ibjob i) ≡ none
      → kube_job api i w
        ≡ (raise request_error, record w { requests = w.requests ++ post_ibjob i ∷ [] })
  unfolding kube_job
  kube_job-raises i w e = rw (◌>>=◌, e) refl

  pub kube_job-returns :
      (i : String) (w : World) (status : ℕ)
      → api.status (post_ibjob i) ≡ some status
      → kube_job api i w
        ≡ (return (eqb status 201), record w { requests = w.requests ++ post_ibjob i ∷ [] })
  unfolding kube_job
  kube_job-returns i w status e = rw (◌>>=◌, e) refl

  abbrev pub mark_scheduled : Job → Bool → Action (Unit {0})
  mark_scheduled j started = if started then set_state j.id State.scheduled else pure tt

  start-Starts :
      (j : Job) (t : Table) (w : World) → w.jobs ≡ t → Starts j t (jobs_after (go_on j true w))
  start-Starts j t w same = elim (Option-cases (api.status (post_ibjob j.id))) [
    | inl fails ↦
        subst (λ r. Starts j t (jobs_after r))
          (sym (bind-raise (kube_job api j.id) (mark_scheduled j) (kube_job-raises j.id w fails)))
          (inl same)
    | inr (status, e) ↦
        subst (λ r. Starts j t (jobs_after r))
          (sym
            (bind-return (kube_job api j.id) (mark_scheduled j) (kube_job-returns j.id w status e)))
          (elim (Bool-cases (eqb status 201)) [
            | inl created ↦ rw created (
                inr (
                  λ r. record r { state = State.scheduled },
                  λ r. refl,
                  ap (update (has_id j.id) _) same,
                  inl refl,
                ))
            | inr other ↦ rw other (inl same)
          ])
  ]

  after_prepare :
      (j : Job) (w : World) (ready : Outcome Bool × World)
      → prepare api j w ≡ ready
      → Prepares j w.jobs ready
      → Starts j w.jobs (jobs_after (schedule_job api j w))
  unfolding schedule_job
  after_prepare j w (return true, w') e (inl same) =
      subst (λ r. Starts j w.jobs (jobs_after r)) (sym (bind-return (prepare api j) (go_on j) e))
        (start-Starts j w.jobs w' same)
  after_prepare j w (return false, w') e (inl same) = rw (e, ◌>>=◌, jobs_after, e) (inl same)
  after_prepare j w (raise x, w') e (inl same) = rw (e, ◌>>=◌, jobs_after, e) (inl same)
  after_prepare j w (return true, w') e (inr (differ, _)) = ground arith
  after_prepare j w (return false, w') e (inr (_, failed)) =
      rw (e, ◌>>=◌, jobs_after, e) (inr (fail_namespace, λ r. refl, failed, inr refl))
  after_prepare j w (raise x, w') e (inr (differ, _)) = ground arith

  schedule_job-Starts : (j : Job) (w : World) → Starts j w.jobs (jobs_after (schedule_job api j w))
  schedule_job-Starts j w = after_prepare j w (prepare api j w) refl (prepare-Prepares j w)

  Starts-Effect :
      (j : Job) (ps : List Job) (t t' : Table)
      → Ended ps
      → AllMet j ps
      → Starts j t t'
      → Effect j ps t t'
  unfolding Allows
  Starts-Effect j ps t t' ended met (inl same) = inl same
  Starts-Effect j ps t t' ended met (inr (f, keeps, e, inl s)) =
      inr (f, keeps, e, rw s (ended, met))
  Starts-Effect j ps t t' ended met (inr (f, keeps, e, inr s)) =
      inr (f, keeps, e, rw s (ended, met))

  decide-Effect :
      (j : Job) (w : World)
      → Ended (parents_of j w.jobs)
      → AllMet j (parents_of j w.jobs)
      → Effect j
          (parents_of j w.jobs)
          w.jobs
          (jobs_after ((if is_wait j.type then finish_wait j else schedule_job api j) w))
  unfolding Allows
  decide-Effect j w ended met = elim (Bool-cases (is_wait j.type)) [
    | inl waits ↦ rw waits (
        inr (
          λ r. record r { state = State.finished; start_date = some w.now; end_date = some w.now },
          λ r. refl,
          refl,
          (ended, met),
        ))
    | inr runs ↦
        rw runs (Starts-Effect j (parents_of j w.jobs) w.jobs _ ended met (schedule_job-Starts j w))
  ]

  -- One round of the loop changes the row of its job at most, and only to a state that the parents allow.
  pub visit-Effect :
      (j : Job) (w : World) → Effect j (parents_of j w.jobs) w.jobs (jobs_after (visit api j w))
  unfolding visit Allows
  visit-Effect j w = elim (Bool-cases (any (λ p. is_active p.state) (parents_of j w.jobs))) [
    | inl waits ↦ rw waits (inl refl)
    | inr over ↦
        let ended = any-All (parents_of j w.jobs) over in
        elim (check_conditions-Conditions j (parents_of j w.jobs) w) [
          | inl (e, met) ↦
              rw (over, e, if◌then◌else◌, ◌>>=◌, jobs_after, e) (decide-Effect j w ended met)
          | inr (inl (e, unmet)) ↦
              rw (over, e, if◌then◌else◌, ◌>>=◌, jobs_after, e)
                (inr (skip, λ r. refl, refl, (ended, unmet)))
          | inr (inr e) ↦ rw (over, e, if◌then◌else◌, ◌>>=◌, jobs_after, e) (inl refl)
        ]
  ]
