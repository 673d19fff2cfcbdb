-- ===== src/Lifecycle/Ended.antt =====
-- src/scheduler/kubernetes/scheduler.py: aborts and timeouts end active jobs at most.
use mathlib.Core.Path.{subst}
use infrabox.Scheduler.Decisions.{queued-active}
use infrabox.Jobs.Rows.{
  find_row, HasKey, Among-All, Among-select, row_ids, find_row-Among, All-OneOf, KeepsId,
  find_row-update, select-HasKey,
}
use infrabox.Jobs.{Table, Job, has_id, select, is_active, update, State}
use infrabox.Scheduler.Parents.{jobs_after, bind-raise, bind-return}
use infrabox.Scheduler.Cleanup.{
  Console, abort_job, abort_each, handle_aborts, to_abort, expire_each, handle_timeouts, expire_job,
  timed_out, is_running, present, mark_killed, mark_expired,
}
use infrabox.Lifecycle.Calm.{OnActive, guard-OnActive, found-OnActive}
use infrabox.Lifecycle.Ends.{EndsAction, Ends-refl, update-Ends, bind-Ends, Ends-trans, Ends}
use infrabox.Prelude.{
  none, Option, false, Bool, if◌then◌else◌, String, ◌≡◌, List, true, ◌∷◌, some, All, refl, contains,
  contains→OneOf, arith, ℕ, [], OneOf, ◌≢◌, ◌&&◌, inl, eq_iff, inr, Option, ◌++◌, Option-cases, sym,
}
use infrabox.Scheduler.{
  Action, ApiServer, World, kube_delete_job, is_queued, pure, Exception, Request, send,
  delete_ibjob, raise, return, request_error, ◌>>=◌,
}

pub if-Ends :
    {A : Type 0} (b : Bool) (m n : Action A)
    → EndsAction m
    → EndsAction n
    → EndsAction (if b then m else n)
if-Ends true m n h k = h
if-Ends false m n h k = k

pub option-Ends :
    {A X : Type 0} (o : Option X) (m : Action A) (n : X → Action A)
    → EndsAction m
    → ((x : X) → EndsAction (n x))
    → EndsAction (elim o [ none ↦ m | some x ↦ n x ])
option-Ends none m n h k = h
option-Ends (some x) m n h k = k x

pub present-Ends : {A : Type 0} (e : Exception) (a : Option A) → EndsAction (present e a)
present-Ends e a w = Ends-refl w.jobs

-- A row of the table with a property.
abbrev Holds : (Job → Type 0) → Table → Job → Type 0
Holds P t j = (find_row j.id t ≡ some j) × P j

abbrev Waits : Job → Type 0
Waits j = is_queued j.state ≡ true

queued-OnActive :
    (t : Table) (js : List Job)
    → HasKey t
    → All (Holds Waits t) js
    → OnActive (λ j. contains (row_ids js) j.id) t
queued-OnActive t js key waits =
    Among-All (λ j. contains (row_ids js) j.id ≡ true → is_active j.state ≡ true) t
      (λ p m chosen.
        let (q, (there, waiting), _, e) =
          All-OneOf (Holds Waits t) (Holds Waits t) js p.id waits waits
            (contains→OneOf (row_ids js) p.id chosen) in
        let here = find_row-Among t p key m in
        let same : q ≡ p = ground arith in queued-active p.state (rw (← same) waiting))

-- The queued jobs of a list of rows.
select-Holds :
    (P : Job → Type 0) (test : Job → Bool) (t : Table)
    → HasKey t
    → ((j : Job) → test j ≡ true → P j)
    → All (Holds P t) (select test t)
select-Holds P test t key means =
    Among-All (Holds P t) (select test t) (λ p m.
      let (n, passes) = Among-select test t p m in (find_row-Among t p key n, means p passes))

-- The first UPDATE of handle_aborts.
pub kill_queued-Ends :
    (all_aborts : List String) (t : Table)
    → Ends t (
        update
          (λ j. contains (row_ids (select (λ j. is_queued j.state) (to_abort all_aborts t))) j.id)
          (λ j. record j { state = State.killed })
          t)
kill_queued-Ends all_aborts t =
    let listed = to_abort all_aborts t in
    let not_started = select (λ j. is_queued j.state) listed in
    let waits : HasKey t → All (Holds Waits t) not_started = λ key.
      Among-All (Holds Waits t) not_started (λ p m.
        let (n, passes) = Among-select (λ j. is_queued j.state) listed p m in
        let (o, _) = Among-select _ t p n in (find_row-Among t p key o, passes)) in
    update-Ends _ _ t (λ j. refl) (λ j. inl refl)
      (λ key. queued-OnActive t not_started key (waits key))

module _ (api : ApiServer) where
  pub send-Ends : (r : Request) → EndsAction (send api r)
  send-Ends r w = Ends-refl w.jobs

  pub kube_delete_job-Ends : (i : String) → EndsAction (kube_delete_job api i)
  unfolding kube_delete_job
  kube_delete_job-Ends i =
      bind-Ends (send api (delete_ibjob i)) (λ _. pure tt) (send-Ends (delete_ibjob i))
        (λ _ w. Ends-refl w.jobs)

  pub kube_delete_job-raises :
      (i : String) (w : World)
      → api.status (delete_ibjob i) ≡ none
      → kube_delete_job api i w
        ≡ (raise request_error, record w { requests = w.requests ++ delete_ibjob i ∷ [] })
  unfolding kube_delete_job
  kube_delete_job-raises i w e = rw (◌>>=◌, e) refl

  pub kube_delete_job-returns :
      (i : String) (w : World) (status : ℕ)
      → api.status (delete_ibjob i) ≡ some status
      → kube_delete_job api i w
        ≡ (return tt, record w { requests = w.requests ++ delete_ibjob i ∷ [] })
  unfolding kube_delete_job
  kube_delete_job-returns i w status e = rw (◌>>=◌, e) refl

  module _ (console : Console) where
    mark_killed-Ends : (i : String) → EndsAction (mark_killed api console i)
    mark_killed-Ends i w =
        update-Ends _ _ w.jobs (λ j. refl) (λ j. inl refl) (λ key. guard-OnActive (has_id i) w.jobs)

    pub abort_job-Ends : (i : String) → EndsAction (abort_job api console i)
    unfolding abort_job
    abort_job-Ends i =
        bind-Ends (kube_delete_job api i) (λ _. mark_killed api console i) (kube_delete_job-Ends i)
          (λ _. mark_killed-Ends i)

    pub abort_each-Ends : (js : List Job) → EndsAction (abort_each api console js)
    unfolding abort_each
    abort_each-Ends [] w = Ends-refl w.jobs
    abort_each-Ends (j ∷ js) w =
        bind-Ends (abort_job api console j.id) (λ _. abort_each api console js)
          (abort_job-Ends j.id) (λ a. abort_each-Ends js) w

    pub handle_aborts-Ends :
        (all_aborts : List String) → EndsAction (handle_aborts api console all_aborts)
    unfolding handle_aborts
    handle_aborts-Ends all_aborts w =
        let listed = to_abort all_aborts w.jobs in
        let not_started = select (λ j. is_queued j.state) listed in
        let w₁ = record w {
          jobs =
              update (λ j. contains (row_ids not_started) j.id)
                (λ j. record j { state = State.killed }) w.jobs;
        } in
        Ends-trans w.jobs w₁.jobs _ (kill_queued-Ends all_aborts w.jobs)
          (abort_each-Ends (select (λ j. is_active j.state) listed) w₁)

    abbrev Lives : Job → Type 0
    Lives j = is_active j.state ≡ true

    -- Rows with another id stay.
    others-Hold :
        (i : String) (f : Job → Job) (t : Table) (js : List Job)
        → KeepsId f
        → ¬ OneOf i (row_ids js)
        → All (Holds Lives t) js
        → All (Holds Lives (update (has_id i) f t)) js
    others-Hold i f t [] keeps fresh h = tt
    others-Hold i f t (k ∷ js) keeps fresh ((found, live), h) =
        let differ : i ≢ k.id = λ e. fresh (inl e) in
        let other = find_row-update i k.id f t keeps in
        (
          (ground (arith, other, eq_iff i k.id), live),
          others-Hold i f t js keeps (λ m. fresh (inr m)) h,
        )

    -- The world after the request and the UPDATE.
    abbrev pub expired : String → World → World
    expired i w =
        (mark_expired api console i (record w { requests = w.requests ++ delete_ibjob i ∷ [] })).1

    expire_job-raises :
        (i : String) (w : World)
        → api.status (delete_ibjob i) ≡ none
        → expire_job api console i w
          ≡ (raise request_error, record w { requests = w.requests ++ delete_ibjob i ∷ [] })
    unfolding expire_job
    expire_job-raises i w e =
        bind-raise (kube_delete_job api i) (λ _. mark_expired api console i)
          (kube_delete_job-raises i w e)

    pub expire_job-returns :
        (i : String) (w : World) (status : ℕ)
        → api.status (delete_ibjob i) ≡ some status
        → expire_job api console i w ≡ (return tt, expired i w)
    unfolding expire_job
    expire_job-returns i w status e =
        bind-return (kube_delete_job api i) (λ _. mark_expired api console i)
          (kube_delete_job-returns i w status e)

    expire_each-Ends :
        (js : List Job) (w : World)
        → HasKey js
        → All (Holds Lives w.jobs) js
        → Ends w.jobs (jobs_after (expire_each api console js w))
    unfolding expire_each
    expire_each-Ends [] w distinct lives = Ends-refl w.jobs
    expire_each-Ends (j ∷ js) w (fresh, distinct) ((found, live), lives) =
        elim (Option-cases (api.status (delete_ibjob j.id))) [
          | inl fails ↦
              subst (λ r. Ends w.jobs (jobs_after r))
                (sym (
                  bind-raise (expire_job api console j.id) (λ _. expire_each api console js)
                    (expire_job-raises j.id w fails)))
                (Ends-refl w.jobs)
          | inr (status, e) ↦
              let w₁ = expired j.id w in
              let first : Ends w.jobs w₁.jobs =
                update-Ends (has_id j.id) _ w.jobs (λ r. refl) (λ r. inr refl)
                  (found-OnActive j.id j w.jobs found live) in
              subst (λ r. Ends w.jobs (jobs_after r))
                (sym (
                  bind-return (expire_job api console j.id) (λ _. expire_each api console js)
                    (expire_job-returns j.id w status e)))
                (Ends-trans w.jobs w₁.jobs _ first (
                  expire_each-Ends js w₁ distinct
                    (others-Hold j.id _ w.jobs js (λ r. refl) fresh lives)))
        ]

    is_running-active : (s : State) → is_running api console s ≡ true → is_active s ≡ true
    is_running-active State.running h = refl
    is_running-active State.queued h = refl
    is_running-active State.scheduled h = refl
    is_running-active State.finished h = ground arith
    is_running-active State.failure h = ground arith
    is_running-active State.error h = ground arith
    is_running-active State.skipped h = ground arith
    is_running-active State.killed h = ground arith

    running-live :
        (now : ℕ) (j : Job)
        → (timed_out api console now j && is_running api console j.state) ≡ true
        → Lives j
    running-live now j h =
        let runs : is_running api console j.state ≡ true = ground arith in
        is_running-active j.state runs

    pub handle_timeouts-Ends : EndsAction (handle_timeouts api console)
    unfolding handle_timeouts
    handle_timeouts-Ends w key =
        let test = λ (j : Job). timed_out api console w.now j && is_running api console j.state in
        expire_each-Ends (select test w.jobs) w (select-HasKey test w.jobs key)
          (select-Holds Lives test w.jobs key (λ j h. running-live w.now j h)) key
