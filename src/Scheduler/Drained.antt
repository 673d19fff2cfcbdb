-- ===== src/Scheduler/Drained.antt =====
-- src/scheduler/kubernetes/scheduler.py: the loop of `schedule` takes each ready job off the queue.
use mathlib.Core.Path.{subst}
use infrabox.Scheduler.Decisions.{Effect-HasKey, Effect-Pending, update-select, visit_all-Loop}
use infrabox.Scheduler.Conditions.{visit-Effect}
use infrabox.Scheduler.Parents.{Effect, Ended, jobs_after, bind-return}
use infrabox.Scheduler.Queue.{
  Pending, queued_jobs-Every, InQueue, queued_jobs-All, queued_jobs-HasKey, queued_jobs-Among,
}
use infrabox.Prelude.{
  List, ◌≡◌, some, All, ◌∷◌, false, ap, ◌∙◌, inl, inr, [], refl, arith, true, eq_iff, sym, String,
  All-map,
}
use infrabox.Jobs.Rows.{find_row, KeepsId, HasKey, Among, find_row-update, found-All}
use infrabox.Scheduler.Progress.{Accepts, HasConditions, visit-returns, visit-Left}
use infrabox.Scheduler.{
  ApiServer, visit_all, World, is_queued, parents_of, return, visit, parent_ids, schedule,
  queued_jobs,
}
use infrabox.Jobs.{Table, Job, update, has_id, queued}

-- The job has a row that is not queued.
abbrev pub OffQueue : Table → Job → Type 0
OffQueue t r = (r' : Job) × (find_row r.id t ≡ some r') × (is_queued r'.state ≡ false)

update-OffQueue :
    (j : Job) (f : Job → Job) (t : Table)
    → KeepsId f
    → find_row j.id t ≡ some j
    → is_queued (f j).state ≡ false
    → OffQueue (update (has_id j.id) f t) j
update-OffQueue j f t keeps found off =
    let h = find_row-update j.id j.id f t keeps in
    (f j, ground (arith, h, found, eq_iff j.id j.id), off)

-- An UPDATE of another queued job leaves the parents of a ready job.
Ended-later :
    (j r : Job) (t t' : Table)
    → HasKey t
    → Pending t j
    → Effect j (parents_of j t) t t'
    → Ended (parents_of r t)
    → Ended (parents_of r t')
Ended-later j r t t' key pending (inl same) ended = rw same ended
Ended-later j r t t' key (found, waits) (inr (f, keeps, e, _)) ended =
    let waiting = found-All (λ (r : Job). is_queued r.state ≡ true) j.id j t key found waits in
    let steady = update-select j.id f keeps (parent_ids r.dependencies) t waiting ended in
    rw e (subst Ended (sym steady) ended)

module _ (api : ApiServer) (accepts : Accepts api) where
  visit_all-goes :
      (j : Job) (js : List Job) (w : World)
      → HasConditions j
      → visit_all api (j ∷ js) w ≡ visit_all api js (visit api j w).1
  unfolding visit_all
  visit_all-goes j js w given =
      let returns = visit-returns api accepts j w given in
      bind-return (visit api j) (λ _. visit_all api js) (λ i. (returns i, (visit api j w).1))

  visit_all-returns :
      (js : List Job) (w : World) → All HasConditions js → (visit_all api js w).0 ≡ return tt
  unfolding visit_all
  visit_all-returns [] w given = refl
  visit_all-returns (j ∷ js) w (g, given) =
      ap (λ r. r.0) (visit_all-goes j js w g) ∙ visit_all-returns js (visit api j w).1 given

  visit_all-OffQueue :
      (js : List Job) (w : World) (r : Job)
      → HasKey w.jobs
      → HasKey js
      → All (Pending w.jobs) js
      → All HasConditions js
      → Among r js
      → Ended (parents_of r w.jobs)
      → OffQueue (jobs_after (visit_all api js w)) r
  visit_all-OffQueue [] w r key distinct pending given m ended = absurd m
  visit_all-OffQueue (j ∷ js) w r key (fresh, distinct) (first, pending) (g, given) m ended =
      let effect = visit-Effect api j w in
      let w₁ = (visit api j w).1 in
      let key₁ = Effect-HasKey j (parents_of j w.jobs) w.jobs w₁.jobs key effect in
      let pending₁ =
        Effect-Pending j (parents_of j w.jobs) w.jobs w₁.jobs js fresh effect pending in
      let goes = ap jobs_after (visit_all-goes j js w g) in
      subst (λ t. OffQueue t r) (sym goes)
        (elim m [
          | inl same ↦
              let others = (visit_all-Loop api js w₁ key₁ distinct pending₁).0 in
              let ended' : Ended (parents_of j w.jobs) =
                subst (λ (x : Job). Ended (parents_of x w.jobs)) same ended in
              let (_, (f, keeps, e, off)) = visit-Left api accepts j w g ended' in
              let (r', found, off') = update-OffQueue j f w.jobs keeps first.0 off in
              subst (OffQueue _) (sym same)
                (r', others j.id fresh ∙ ap (find_row j.id) e ∙ found, off')
          | inr later ↦
              visit_all-OffQueue js w₁ r key₁ distinct pending₁ given later
                (Ended-later j r w.jobs w₁.jobs key first effect ended)
        ])

-- The id keys the table, each dependency has a condition, the API server accepts each request, and the
-- first secret of each namespace has the data that is read. Then a round of `schedule` returns, and a
-- queued job of the cluster whose parents have all ended at its start is off the queue after it.
pub schedule-OffQueue :
    (api : ApiServer) (cluster : String) (w : World) (r : Job)
    → Accepts api
    → HasKey w.jobs
    → All HasConditions w.jobs
    → find_row r.id w.jobs ≡ some r
    → r.state ≡ queued
    → r.cluster_name ≡ cluster
    → Ended (parents_of r w.jobs)
    → ((schedule api cluster w).0 ≡ return tt) × OffQueue (jobs_after (schedule api cluster w)) r
unfolding schedule
schedule-OffQueue api cluster w r accepts key given found waits here ended =
    let js = queued_jobs cluster w.jobs in
    let given' = queued_jobs-Every HasConditions cluster w.jobs given in
    let pending =
      All-map (InQueue cluster w.jobs) (Pending w.jobs) (λ j p. p.0) js
        (queued_jobs-All cluster w.jobs key) in
    (
      visit_all-returns api accepts js w given',
      visit_all-OffQueue api accepts js w r key (queued_jobs-HasKey cluster w.jobs key) pending
          given' (queued_jobs-Among cluster w.jobs r found waits here) ended,
    )
