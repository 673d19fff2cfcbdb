-- ===== src/Scheduler/Progress.antt =====
-- src/scheduler/kubernetes/scheduler.py: a round of `schedule` does not leave a ready job in the queue.
use infrabox.Scheduler.Conditions.{go_on, mark_scheduled, kube_job-returns}
use mathlib.Core.Path.{subst}
use infrabox.Scheduler.{
  raise, Request, first_secret, Action, visit, expect, pure, is_wait, parents_of, finish_wait,
  check_namespace, ◌>>=◌,
}
use infrabox.Scheduler.Parents.{
  jobs_after, meets, Ended, bind-return, check_conditions-Conditions, skip, any-All,
}
use infrabox.Jobs.Rows.{KeepsId}
use infrabox.Prelude.{
  String, All, Option, Bool, List, ◌≡◌, true, contains, some, ◌∷◌, ◌⊎◌, Bool-cases, ◌≢◌, inl, eqb,
  arith, inr, false, ◌==◌, none, [], eq_iff, ℕ, ◌∙◌, if◌then◌else◌, sym, any, ◌++◌, ap, refl,
}
use infrabox.Jobs.{select, Job, Table, Dependency, update, has_id, State, is_active}
use infrabox.Scheduler.{
  ApiServer, find_on, check_conditions, schedule_job, post_namespace, prepare, World, Outcome,
  create_kube_namespace, post_role, has_condition, return, kube_job, post_role_binding, parent_ids,
  post_discovery, get_secrets, assertion_error, is_queued, post_ibjob,
}

-- The API server creates what it is asked for, and the first secret of each namespace has what is read.
pub record Accepts (api : ApiServer) : Type 0 where
  pub namespace : (i : String) → api.status (post_namespace i) ≡ some 201
  pub role : (i : String) → api.status (post_role i) ≡ some 201
  pub role_binding : (i : String) → api.status (post_role_binding i) ≡ some 201
  pub discovery : (i : String) → api.status (post_discovery i) ≡ some 201
  pub listed : (i : String) → api.status (get_secrets i) ≡ some 200
  pub secret : (i : String) → (rest : List Bool) × (api.secrets i ≡ return (true ∷ rest))
  pub ibjob : (i : String) → api.status (post_ibjob i) ≡ some 201

-- Each dependency names a condition, as the validator sees to.
abbrev pub HasConditions : Job → Type 0
HasConditions j = All (λ (d : Dependency). has_condition (some d.on) ≡ true) j.dependencies

find_on-has_condition :
    (i : String) (on : Option (List String)) (ds : List Dependency)
    → All (λ (d : Dependency). has_condition (some d.on) ≡ true) ds
    → (contains (parent_ids ds) i ≡ true) ⊎ (has_condition on ≡ true)
    → has_condition (find_on i on ds) ≡ true
unfolding find_on
find_on-has_condition i on [] given (inl m) = ground arith
find_on-has_condition i on [] given (inr h) = h
find_on-has_condition i on (d ∷ ds) (g, given) m = elim (Bool-cases (d.job_id == i)) [
  | inl here ↦ rw here (find_on-has_condition i (some d.on) ds given (inr g))
  | inr there ↦
      rw there
        (find_on-has_condition i on ds given (ground (arith, eq_iff i d.job_id, eq_iff d.job_id i)))
]

select-passes : (test : Job → Bool) (t : Table) → All (λ (p : Job). test p ≡ true) (select test t)
unfolding select
select-passes test [] = tt
select-passes test (p ∷ t) = elim (Bool-cases (test p)) [
  | inl kept ↦ rw kept (kept, select-passes test t)
  | inr dropped ↦ rw dropped (select-passes test t)
]

-- Where each dependency has a condition, the assertion holds.
conditions-hold :
    (j : Job) (ps : List Job) (w : World)
    → HasConditions j
    → All (λ (p : Job). contains (parent_ids j.dependencies) p.id ≡ true) ps
    → check_conditions j ps w ≢ (raise assertion_error, w)
unfolding check_conditions
conditions-hold j [] w given among e = ground arith
conditions-hold j (p ∷ ps) w given (m, among) e =
    let here = find_on-has_condition p.id none j.dependencies given (inl m) in
    elim (Bool-cases (meets j p)) [
      | inl met ↦ conditions-hold j ps w given among (rw (here, met) at e)
      | inr unmet ↦ let e' = rw (here, unmet) at e in ground arith
    ]

All-any : (ps : List Job) → Ended ps → any (λ (p : Job). is_active p.state) ps ≡ false
All-any [] h = refl
All-any (p ∷ ps) (e, h) = let ih = All-any ps h in ground arith

-- The action returns, and the job has left the queue.
abbrev pub Left : Job → Table → Outcome (Unit {0}) × World → Type 0
Left j t result =
    (result.0 ≡ return tt)
    × ((f : Job → Job) × KeepsId f
        × (jobs_after result ≡ update (has_id j.id) f t)
        × (is_queued (f j).state ≡ false))

module _ (api : ApiServer) (accepts : Accepts api) where
  abbrev log : Request → World → World
  log r w = record w { requests = w.requests ++ r ∷ [] }

  expect-met :
      (code : ℕ) (r : Request) (next : Action Bool) (w : World)
      → api.status r ≡ some code
      → expect api code r next w ≡ next (log r w)
  expect-met code r next w e = let test : eqb code code ≡ true = ground arith in rw (◌>>=◌, e, test)

  first_secret-found : (i : String) (w : World) → first_secret api i w ≡ (return true, w)
  first_secret-found i w = let (rest, e) = accepts.secret i in rw e

  -- The namespace is made, and the table stays.
  create_kube_namespace-made :
      (i : String) (w : World)
      → (w' : World) × (create_kube_namespace api i w ≡ (return true, w')) × (w'.jobs ≡ w.jobs)
  unfolding create_kube_namespace
  create_kube_namespace-made i w = (
    log (get_secrets i) (
        log (post_discovery i)
          (log (post_role_binding i) (log (post_role i) (log (post_namespace i) w)))),
    expect-met 201 (post_namespace i) _ w (accepts.namespace i)
        ∙ expect-met 201 (post_role i) _ _ (accepts.role i)
        ∙ expect-met 201 (post_role_binding i) _ _ (accepts.role_binding i)
        ∙ expect-met 201 (post_discovery i) _ _ (accepts.discovery i)
        ∙ expect-met 200 (get_secrets i) _ _ (accepts.listed i)
        ∙ first_secret-found i _,
    refl,
  )

  prepare-ready :
      (j : Job) (w : World)
      → (w' : World) × (prepare api j w ≡ (return true, w')) × (w'.jobs ≡ w.jobs)
  unfolding prepare
  prepare-ready j w = elim (Bool-cases j.kubernetes) [
    | inl wanted ↦
        let (w', made, same) = create_kube_namespace-made j.id w in
        (
          w',
          rw wanted (bind-return (create_kube_namespace api j.id) (check_namespace api j) made),
          same,
        )
    | inr other ↦ (w, rw other refl, refl)
  ]

  start-Left : (j : Job) (t : Table) (w : World) → w.jobs ≡ t → Left j t (go_on api j true w)
  start-Left j t w same =
      subst (Left j t)
        (sym (
          bind-return (kube_job api j.id) (mark_scheduled api j)
            (kube_job-returns api j.id w 201 (accepts.ibjob j.id))))
        (
          refl,
          (
            λ r. record r { state = State.scheduled },
            λ r. refl,
            ap (update (has_id j.id) _) same,
            refl,
          ),
        )

  schedule_job-Left : (j : Job) (w : World) → Left j w.jobs (schedule_job api j w)
  unfolding schedule_job
  schedule_job-Left j w =
      let (w', ready, same) = prepare-ready j w in
      subst (Left j w.jobs) (sym (bind-return (prepare api j) (go_on api j) ready))
        (start-Left j w.jobs w' same)

  decide-Left :
      (j : Job) (w : World)
      → Left j w.jobs ((if is_wait j.type then finish_wait j else schedule_job api j) w)
  decide-Left j w = elim (Bool-cases (is_wait j.type)) [
    | inl waits ↦ rw waits (
      refl,
      (
        λ r. record r { state = State.finished; start_date = some w.now; end_date = some w.now },
        λ r. refl,
        refl,
        refl,
      ),
    )
    | inr runs ↦ rw runs (schedule_job-Left j w)
  ]

  abbrev after_conditions : Job → Bool → Action (Unit {0})
  after_conditions j skips =
      if skips then pure tt else (if is_wait j.type then finish_wait j else schedule_job api j)

  -- A job whose parents have ended is decided.
  pub visit-Left :
      (j : Job) (w : World)
      → HasConditions j
      → Ended (parents_of j w.jobs)
      → Left j w.jobs (visit api j w)
  unfolding visit
  visit-Left j w given ended =
      let ps = parents_of j w.jobs in
      rw (All-any ps ended) (elim (check_conditions-Conditions j ps w) [
        | inl (e, met) ↦
            subst (Left j w.jobs) (sym (bind-return (check_conditions j ps) (after_conditions j) e))
              (decide-Left j w)
        | inr (inl (e, unmet)) ↦
            subst (Left j w.jobs) (sym (bind-return (check_conditions j ps) (after_conditions j) e))
              (refl, (skip, λ r. refl, refl, refl))
        | inr (inr e) ↦ absurd (conditions-hold j ps w given (select-passes _ w.jobs) e)
      ])

  visit_waits :
      (j : Job) (w : World)
      → any (λ (p : Job). is_active p.state) (parents_of j w.jobs) ≡ true
      → (visit api j w).0 ≡ return tt
  unfolding visit
  visit_waits j w waits = rw waits refl

  -- A round on one job returns.
  pub visit-returns : (j : Job) (w : World) → HasConditions j → (visit api j w).0 ≡ return tt
  visit-returns j w given =
      elim (Bool-cases (any (λ (p : Job). is_active p.state) (parents_of j w.jobs))) [
        | inl waits ↦ visit_waits j w waits
        | inr over ↦ (visit-Left j w given (any-All (parents_of j w.jobs) over)).0
      ]
