-- ===== src/Lifecycle/Turns.antt =====
-- A turn of src/scheduler/kubernetes/scheduler.py as a move of the state machine of each job.
use mathlib.Core.Path.{subst}
use infrabox.Scheduler.Decisions.{schedule-Allows}
use infrabox.Lifecycle.Ended.{
  if-Ends, handle_timeouts-Ends, handle_aborts-Ends, send-Ends, present-Ends,
}
use infrabox.Lifecycle.Orphans.{handle_orphaned_jobs-Ends}
use infrabox.Jobs.Rows.{find_row, HasKey, find_row-id}
use infrabox.Prelude.{
  String, List, Option, ◌≡◌, ◌∷◌, true, some, ◌⊎◌, refl, ◌≢◌, inl, arith, ◌∙◌, Bool-cases, none, [],
  sym, ap, inr,
}
use infrabox.Lifecycle.Ends.{EndsAction, Ends-refl, bind-Ends, EndsRow}
use infrabox.Scheduler.Round.{handle, Turn, attempt, clean_up, after_cluster_state}
use infrabox.Scheduler.Parents.{Allows, jobs_after}
use infrabox.Jobs.{State, Table, queued, Job, is_active, killed, state_of}
use infrabox.Scheduler.Cleanup.{
  clean_namespaces, clean_namespace, handle_orphaned_jobs, handle_aborts, handle_timeouts, present,
  IbJob,
}
use infrabox.Scheduler.{
  Action, kube_delete_namespace, ApiServer, World, ◌>>◌, fetch, pure, schedule, send,
  delete_namespace, request_error, ◌>>=◌,
}

then-Ends : (m n : Action (Unit {0})) → EndsAction m → EndsAction n → EndsAction (m >> n)
then-Ends m n h k = bind-Ends m (λ _. n) h (λ _. k)

kube_delete_namespace-Ends :
    (api : ApiServer) (i : String) → EndsAction (kube_delete_namespace api i)
unfolding kube_delete_namespace
kube_delete_namespace-Ends api i =
    bind-Ends (send api (delete_namespace i)) (λ _. pure tt) (send-Ends api (delete_namespace i))
      (λ _ w. Ends-refl w.jobs)

clean_namespace-Ends :
    (api : ApiServer) (i : String) (state : Option State) → EndsAction (clean_namespace api i state)
clean_namespace-Ends api i none w = Ends-refl w.jobs
clean_namespace-Ends api i (some s) w =
    if-Ends (is_active s) (pure tt) (kube_delete_namespace api i) (λ w. Ends-refl w.jobs)
      (kube_delete_namespace-Ends api i) w

clean_namespaces-Ends :
    (api : ApiServer) (ids : List String) → EndsAction (clean_namespaces api ids)
unfolding clean_namespaces
clean_namespaces-Ends api [] w = Ends-refl w.jobs
clean_namespaces-Ends api (i ∷ rest) w =
    bind-Ends (fetch (state_of i))
      (λ state. clean_namespace api i state >> clean_namespaces api rest) (λ w. Ends-refl w.jobs)
      (λ state.
        then-Ends (clean_namespace api i state) (clean_namespaces api rest)
          (clean_namespace-Ends api i state) (clean_namespaces-Ends api rest))
      w

pub clean_up-Ends : (api : ApiServer) (turn : Turn) → EndsAction (clean_up api turn)
clean_up-Ends api turn =
    let namespaces = present request_error turn.namespaces >>= clean_namespaces api in
    let orphans : List IbJob → Action (Unit {0}) =
      λ ib_jobs. handle_orphaned_jobs api ib_jobs >> namespaces in
    let aborts = handle_aborts api turn.console turn.aborts in
    let more = present request_error turn.ib_jobs >>= orphans in
    let namespaces-Ends : EndsAction namespaces =
      bind-Ends (present request_error turn.namespaces) (clean_namespaces api)
        (present-Ends request_error turn.namespaces) (clean_namespaces-Ends api) in
    let more-Ends =
      bind-Ends (present request_error turn.ib_jobs) orphans
        (present-Ends request_error turn.ib_jobs)
        (λ ib_jobs.
          then-Ends (handle_orphaned_jobs api ib_jobs) namespaces
            (handle_orphaned_jobs-Ends api ib_jobs) namespaces-Ends) in
    then-Ends (handle_timeouts api turn.console) (aborts >> more)
      (handle_timeouts-Ends api turn.console)
      (then-Ends aborts more (handle_aborts-Ends api turn.console turn.aborts) more-Ends)

-- The diagram that the scheduler follows.
pub data Moves : State → State → Type 0 where
  to_scheduled : Moves queued State.scheduled
  to_finished : Moves queued State.finished
  to_skipped : Moves queued State.skipped
  to_error : (s : State) → is_active s ≡ true → Moves s State.error
  to_killed : (s : State) → is_active s ≡ true → Moves s State.killed

Allows-Moves : (j : Job) (ps : List Job) (s : State) → Allows j ps s → Moves queued s
unfolding Allows
Allows-Moves j ps State.scheduled h = to_scheduled
Allows-Moves j ps State.finished h = to_finished
Allows-Moves j ps State.skipped h = to_skipped
Allows-Moves j ps State.error h = to_error queued refl
Allows-Moves j ps State.queued h = absurd h
Allows-Moves j ps State.running h = absurd h
Allows-Moves j ps State.failure h = absurd h
Allows-Moves j ps State.killed h = absurd h

-- The row is as before, or its state has made one move.
abbrev pub Follows : Table → Job → Type 0
Follows t r = (r' : Job) × (find_row r.id t ≡ some r') × ((r' ≡ r) ⊎ Moves r.state r'.state)

schedule-Follows :
    (api : ApiServer) (cluster : String) (w : World) (r : Job)
    → HasKey w.jobs
    → find_row r.id w.jobs ≡ some r
    → Follows (jobs_after (schedule api cluster w)) r
schedule-Follows api cluster w r key found = elim (schedule-Allows api cluster w r key found) [
  | inl same ↦ (r, same, inl refl)
  | inr (r', found', waits, _, allowed) ↦ (
    r',
    found',
    inr (subst (λ s. Moves s r'.state) (sym waits) (Allows-Moves r _ r'.state allowed)),
  )
]

ended-Moves :
    (r r' : Job)
    → is_active r.state ≡ true
    → (r'.state ≡ killed) ⊎ (r'.state ≡ State.error)
    → Moves r.state r'.state
ended-Moves r r' live (inl e) = subst (Moves r.state) (sym e) (to_killed r.state live)
ended-Moves r r' live (inr e) = subst (Moves r.state) (sym e) (to_error r.state live)

queued_moves : (r r₁ : Job) → (r₁.state ≡ killed) ⊎ (r₁.state ≡ State.error) → r₁.state ≢ queued
queued_moves r r₁ (inl e) h = ground arith
queued_moves r r₁ (inr e) h = ground arith

-- A round of `schedule` after the statements that end jobs.
round-Follows :
    (api : ApiServer) (cluster : String) (w : World) (r r₁ : Job)
    → HasKey w.jobs
    → r₁.id ≡ r.id
    → find_row r.id w.jobs ≡ some r₁
    → EndsRow r r₁
    → Follows (jobs_after (schedule api cluster w)) r
round-Follows api cluster w r r₁ key name found (inl same) =
    schedule-Follows api cluster w r key (found ∙ ap some same)
round-Follows api cluster w r r₁ key name found (inr (live, ended)) =
    let found₁ : find_row r₁.id w.jobs ≡ some r₁ =
      subst (λ i. find_row i w.jobs ≡ some r₁) (sym name) found in
    elim (schedule-Allows api cluster w r₁ key found₁) [
      | inl same ↦ (
        r₁,
        subst (λ i. find_row i (jobs_after (schedule api cluster w)) ≡ some r₁) name same,
        inr (ended-Moves r r₁ live ended),
      )
      | inr (_, _, waits, _, _) ↦ absurd (queued_moves r r₁ ended waits)
    ]

after_cluster_state-Follows :
    (api : ApiServer) (cluster : String) (turn : Turn) (w : World) (r : Job)
    → HasKey w.jobs
    → find_row r.id w.jobs ≡ some r
    → Follows (jobs_after (after_cluster_state api cluster turn w)) r
unfolding attempt
after_cluster_state-Follows api cluster turn w r key found =
    let w₁ = (clean_up api turn w).1 in
    let (key₁, rows) = clean_up-Ends api turn w key in
    let (r₁, found₁, ended) = rows r.id r found in
    let name = find_row-id r.id r₁ w₁.jobs found₁ in
    elim (Bool-cases turn.inactive) [
      | inl idle ↦
          rw idle (
            r₁,
            found₁,
            elim ended [ inl e ↦ inl e | inr (live, e) ↦ inr (ended-Moves r r₁ live e) ],
          )
      | inr busy ↦ rw busy (round-Follows api cluster w₁ r r₁ key₁ name found₁ ended)
    ]

-- The id keys the table. After a turn of the scheduler each row is as before or its state has made one
-- move of the diagram, also where the turn or its clean-up is broken off by an exception: that of a
-- request that gets no answer, of an answer without what is read, or of a failed assertion.
pub handle-Follows :
    (api : ApiServer) (cluster : String) (turn : Turn) (w : World) (r : Job)
    → HasKey w.jobs
    → find_row r.id w.jobs ≡ some r
    → Follows (jobs_after (handle api cluster turn w)) r
unfolding handle
handle-Follows api cluster turn w r key found = elim (Bool-cases turn.cluster_known) [
  | inl known ↦ rw known (after_cluster_state-Follows api cluster turn w r key found)
  | inr unknown ↦ rw unknown (r, found, inl refl)
]
