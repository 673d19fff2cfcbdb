-- ===== src/Aborts/Ended.antt =====
-- src/scheduler/kubernetes/scheduler.py: what was aborted is over after `handle_aborts`.
use mathlib.Core.Path.{subst}
use infrabox.Aborts.{abort_build, of_build}
use infrabox.Lifecycle.Ended.{
  kube_delete_job-returns, abort_job-Ends, abort_each-Ends, handle_aborts-Ends, kill_queued-Ends,
}
use infrabox.Scheduler.Parents.{jobs_after, bind-return}
use infrabox.Lifecycle.Ends.{Ends, EndsRow}
use infrabox.Scheduler.Cleanup.{
  Console, abort_job, abort_each, may_abort, handle_aborts, to_abort, mark_killed,
}
use infrabox.Scheduler.{ApiServer, kube_delete_job, World, is_queued, delete_ibjob, return}
use infrabox.Jobs.Rows.{find_row, KeepsId, HasKey, Among, row_ids, OneOf-row_ids, find_row-id}
use infrabox.Jobs.{
  update, select, State, Table, Job, is_active, queued, scheduled, running, finished, failure,
  error, skipped, killed,
}
use infrabox.Prelude.{
  refl, String, ◌≡◌, Bool, some, false, true, ◌==◌, List, ◌&&◌, arith, ◌∷◌, OneOf, inl, Bool-cases,
  ap, inr, sym, [], ◌∙◌, contains, ◌++◌, OneOf→contains, ℕ,
}

-- There is a row of the id, and it is not active.
abbrev pub Off : String → Table → Type 0
Off k t = (r : Job) × (find_row k t ≡ some r) × (is_active r.state ≡ false)

Ends-Off : (k : String) (t t' : Table) → Ends t t' → HasKey t → Off k t → Off k t'
Ends-Off k t t' ends key (r, found, off) =
    let (r', found', h) = (ends key).1 k r found in stays r r' h found' off
  where
    stays :
        (r r' : Job) → EndsRow r r' → find_row k t' ≡ some r' → is_active r.state ≡ false → Off k t'
    stays r r' (inl same) found' off = (r', found', rw same off)
    stays r r' (inr (active, ended)) found' off = ground arith

-- The UPDATE of the active row of an id.
update-Off :
    (k : String) (f : Job → Job) (t : Table) (r : Job)
    → KeepsId f
    → ((j : Job) → is_active (f j).state ≡ false)
    → find_row k t ≡ some r
    → Off k (update (λ j. j.id == k && is_active j.state) f t)
unfolding update find_row
update-Off k f [] r keeps ends found = ground arith
update-Off k f (j ∷ t) r keeps ends found = elim (Bool-cases (j.id == k)) [
  | inl here ↦ elim (Bool-cases (is_active j.state)) [
    | inl live ↦ (f j, rw (here, live, keeps j, here) refl, ends j)
    | inr over ↦ (j, rw (here, over, here) refl, over)
  ]
  | inr there ↦
      let (r', found', off) = update-Off k f t r keeps ends (rw there at found) in
      (r', rw (there, there) found', off)
]

Among-of_find_row : (k : String) (t : Table) (r : Job) → find_row k t ≡ some r → Among r t
unfolding find_row
Among-of_find_row k [] r found = ground arith
Among-of_find_row k (j ∷ t) r found = elim (Bool-cases (j.id == k)) [
  | inl here ↦ inl (ground arith)
  | inr there ↦ inr (Among-of_find_row k t r (rw there at found))
]

select-Among :
    (test : Job → Bool) (t : Table) (r : Job) → test r ≡ true → Among r t → Among r (select test t)
unfolding select
select-Among test [] r h m = m
select-Among test (j ∷ t) r h (inl e) = rw (ap test (sym e) ∙ h) (inl e)
select-Among test (j ∷ t) r h (inr m) = elim (Bool-cases (test j)) [
  | inl kept ↦ rw kept (inr (select-Among test t r h m))
  | inr dropped ↦ rw dropped (select-Among test t r h m)
]

-- The API server answers each request to delete an IBJob, with whatever status.
abbrev pub Answers : ApiServer → Type 0
Answers api = (i : String) → (status : ℕ) × (api.status (delete_ibjob i) ≡ some status)

module _ (api : ApiServer) (console : Console) (answers : Answers api) where
  -- The world after the request and the UPDATE.
  abbrev aborted : String → World → World
  aborted i w =
      (mark_killed api console i (record w { requests = w.requests ++ delete_ibjob i ∷ [] })).1

  abort_job-returns :
      (i : String) (w : World) → abort_job api console i w ≡ (return tt, aborted i w)
  unfolding abort_job
  abort_job-returns i w =
      let (status, e) = answers i in
      bind-return (kube_delete_job api i) (λ _. mark_killed api console i)
        (kube_delete_job-returns api i w status e)

  abort_each-Off :
      (js : List Job) (k : String) (w : World) (r : Job)
      → HasKey w.jobs
      → find_row k w.jobs ≡ some r
      → OneOf k (row_ids js)
      → Off k (jobs_after (abort_each api console js w))
  unfolding abort_each
  abort_each-Off [] k w r key found m = absurd m
  abort_each-Off (j ∷ js) k w r key found m =
      let w₁ = aborted j.id w in
      let first : Ends w.jobs w₁.jobs =
        subst (λ o. Ends w.jobs (jobs_after o)) (abort_job-returns j.id w)
          (abort_job-Ends api console j.id w) in
      let (key₁, rows) = first key in
      subst (λ o. Off k (jobs_after o))
        (sym (
          bind-return (abort_job api console j.id) (λ _. abort_each api console js)
            (abort_job-returns j.id w)))
        (elim m [
          | inl e ↦ Ends-Off k w₁.jobs _ (abort_each-Ends api console js w₁) key₁ (
              subst (λ i. Off k (aborted i w).jobs) e
                (update-Off k _ w.jobs r (λ j. refl) (λ j. refl) found))
          | inr more ↦
              let (r₁, found₁, _) = rows k r found in abort_each-Off js k w₁ r₁ key₁ found₁ more
        ])

active-may_abort : (s : State) → is_active s ≡ true → may_abort s ≡ true
active-may_abort queued h = refl
active-may_abort scheduled h = refl
active-may_abort running h = refl
active-may_abort finished h = ground arith
active-may_abort failure h = ground arith
active-may_abort error h = ground arith
active-may_abort skipped h = refl
active-may_abort killed h = ground arith

module _ (api : ApiServer) (console : Console) (answers : Answers api) where
  -- Each row that an abort names is over after a round of the aborts.
  handle_aborts-Off :
      (all_aborts : List String) (k : String) (w : World) (r : Job)
      → HasKey w.jobs
      → find_row k w.jobs ≡ some r
      → contains all_aborts k ≡ true
      → Off k (jobs_after (handle_aborts api console all_aborts w))
  unfolding handle_aborts
  handle_aborts-Off all_aborts k w r key found named = elim (Bool-cases (is_active r.state)) [
    | inr over ↦
        Ends-Off k w.jobs _ (handle_aborts-Ends api console all_aborts w) key (r, found, over)
    | inl live ↦
        let listed = to_abort all_aborts w.jobs in
        let first = row_ids (select (λ j. is_queued j.state) listed) in
        let w₁ : World = record w {
          jobs = update (λ j. contains first j.id) (λ j. record j { state = State.killed }) w.jobs;
        } in
        let id = find_row-id k r w.jobs found in
        let chosen : (contains all_aborts r.id && may_abort r.state) ≡ true =
          rw (id, named, active-may_abort r.state live) refl in
        let among =
          select-Among (λ j. contains all_aborts j.id && may_abort j.state) w.jobs r chosen
            (Among-of_find_row k w.jobs r found) in
        let member =
          OneOf-row_ids (select (λ j. is_active j.state) listed) r
            (select-Among (λ j. is_active j.state) listed r live among) in
        let (key₁, rows) = kill_queued-Ends all_aborts w.jobs key in
        let (r₁, found₁, _) = rows k r found in
        abort_each-Off api console answers (select (λ j. is_active j.state) listed) k w₁ r₁ key₁
          found₁ (rw (← id) member)
  ]

contains-append_left :
    (xs ys : List String) (k : String) → contains xs k ≡ true → contains (ys ++ xs) k ≡ true
contains-append_left xs [] k h = h
contains-append_left xs (y ∷ ys) k h = ground (arith, contains-append_left xs ys k h)

-- On a table with unique ids, where the API server answers each request to delete an IBJob (with whatever
-- status): after a user aborts a build and the scheduler then handles the aborts, with nothing between the
-- two and nothing during the second, no job of that build is active: the row of each is there and its state
-- is not active.
pub handle_aborts-abort_build :
    (api : ApiServer) (console : Console) (build_id project_id : String) (aborts : List String)
    (w : World) (k : String) (r : Job)
    → Answers api
    → HasKey w.jobs
    → find_row k w.jobs ≡ some r
    → of_build build_id project_id r ≡ true
    → Off k
        (jobs_after (handle_aborts api console (abort_build build_id project_id w.jobs aborts) w))
unfolding abort_build
handle_aborts-abort_build api console build_id project_id aborts w k r answers key found mine =
    let rows = select (of_build build_id project_id) w.jobs in
    let among =
      select-Among (of_build build_id project_id) w.jobs r mine
        (Among-of_find_row k w.jobs r found) in
    let member = OneOf-row_ids rows r among in
    let named = OneOf→contains (row_ids rows) r.id member in
    handle_aborts-Off api console answers (abort_build build_id project_id w.jobs aborts) k w r key
      found
      (contains-append_left (row_ids rows) aborts k (rw (← find_row-id k r w.jobs found) named))
