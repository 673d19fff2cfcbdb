-- ===== src/Scheduler/Decisions.antt =====
-- src/scheduler/kubernetes/scheduler.py: the loop of `schedule` as a whole.
use infrabox.Scheduler.Queue.{Pending, queued_jobs-All, InQueue, queued_jobs-HasKey}
use mathlib.Core.Path.{subst}
use infrabox.Scheduler.Conditions.{visit-Effect}
use infrabox.Scheduler.Parents.{Allows, Ended, Effect, jobs_after, then-cases}
use infrabox.Scheduler.{
  is_queued, parents_of, parent_ids, ApiServer, visit_all, World, visit, schedule, queued_jobs,
}
use infrabox.Jobs.Rows.{
  find_row, KeepsId, HasKey, row_ids, find_row-update, row_ids-update, EachRow, found-All,
  All-OneOf,
}
use infrabox.Prelude.{
  String, ◌≡◌, some, ◌⊎◌, true, All, OneOf, ◌∷◌, List, Bool-cases, Bool, inl, ◌==◌, arith, contains,
  sym, eq_iff, ◌≢◌, inr, false, refl, ap, [], All-map, Distinct, ◌∙◌, contains→not-OneOf,
  contains→OneOf,
}
use infrabox.Jobs.{Table, Job, select, update, has_id, State, is_active, queued}

-- The job is in the table as before, or in a state that its parents in that table allow.
abbrev pub Outcomes : Table → Job → Type 0
Outcomes t r =
    (find_row r.id t ≡ some r)
    ⊎ ((r' : Job) × (find_row r.id t ≡ some r') × Allows r (parents_of r t) r'.state)

-- Each row with the id is queued.
abbrev pub Waiting : String → Table → Type 0
Waiting i t = EachRow (λ (r : Job). is_queued r.state ≡ true) i t

pub queued-active : (s : State) → is_queued s ≡ true → is_active s ≡ true
queued-active queued h = refl
queued-active State.scheduled h = refl
queued-active State.running h = refl
queued-active State.finished h = ground arith
queued-active State.failure h = ground arith
queued-active State.error h = ground arith
queued-active State.skipped h = ground arith
queued-active State.killed h = ground arith

abbrev pub named_row : List String → Job → Bool
named_row names p = contains names p.id

module _ (i : String) (f : Job → Job) (keeps : KeepsId f) (names : List String) where
  -- An UPDATE of a queued job does not touch rows that have ended.
  pub update-select :
      (t : Table)
      → Waiting i t
      → Ended (select (named_row names) t)
      → select (named_row names) (update (has_id i) f t) ≡ select (named_row names) t
  unfolding select update
  update-select [] waits ended = refl
  update-select (r ∷ t) (head, waits) ended = elim (Bool-cases (contains names r.id)) [
    | inl chosen ↦
        let all : Ended (r ∷ select (named_row names) t) = rw chosen at ended in
        let differ : r.id ≢ i =
          λ e. let active = queued-active r.state (head e) in let over = all.0 in ground arith in
        let test : (r.id == i) ≡ false = ground (arith, eq_iff r.id i) in
        rw (test, chosen) (ap (λ rest. r ∷ rest) (update-select t waits (all.1)))
    | inr other ↦ elim (Bool-cases (r.id == i)) [
      | inl here ↦ rw (here, keeps r, other) (update-select t waits (rw other at ended))
      | inr there ↦ rw (there, other) (update-select t waits (rw other at ended))
    ]
  ]

Allows-Ended : (j : Job) (ps : List Job) (s : State) → Allows j ps s → Ended ps
unfolding Allows
Allows-Ended j ps State.scheduled h = h.0
Allows-Ended j ps State.finished h = h.0
Allows-Ended j ps State.error h = h.0
Allows-Ended j ps State.skipped h = h.0
Allows-Ended j ps State.queued h = absurd h
Allows-Ended j ps State.running h = absurd h
Allows-Ended j ps State.failure h = absurd h
Allows-Ended j ps State.killed h = absurd h

-- What the parents allow in the one table they allow in the other.
abbrev pub Steady : Table → Table → Type 0
Steady t t' = (r : Job) (s : State) → Allows r (parents_of r t) s → Allows r (parents_of r t') s

-- What the loop over the list does to the table.
abbrev pub Loop : List Job → Table → Table → Type 0
Loop js t t' =
    ((k : String) → ¬ OneOf k (row_ids js) → find_row k t' ≡ find_row k t)
    × All (Outcomes t') js
    × Steady t t'

Loop-refl : (js : List Job) (t : Table) → All (Pending t) js → Loop js t t
Loop-refl js t pending =
    (λ k m. refl, All-map (Pending t) (Outcomes t) (λ j p. inl (p.0)) js pending, λ r s h. h)

Effect-Steady :
    (j : Job) (t t' : Table) → HasKey t → Pending t j → Effect j (parents_of j t) t t' → Steady t t'
Effect-Steady j t t' key pending (inl same) r s h = rw same h
Effect-Steady j t t' key (found, waits) (inr (f, keeps, e, _)) r s h =
    let waiting = found-All (λ (r : Job). is_queued r.state ≡ true) j.id j t key found waits in
    let steady =
      update-select j.id f keeps (parent_ids r.dependencies) t waiting
        (Allows-Ended r (parents_of r t) s h) in
    rw e (subst (λ ps. Allows r ps s) (sym steady) h)

pub Effect-HasKey :
    (j : Job) (ps : List Job) (t t' : Table) → HasKey t → Effect j ps t t' → HasKey t'
Effect-HasKey j ps t t' key (inl same) = rw same key
Effect-HasKey j ps t t' key (inr (f, keeps, e, _)) =
    rw e (subst Distinct (sym (row_ids-update (has_id j.id) f t keeps)) key)

Effect-other :
    (j : Job) (ps : List Job) (t t' : Table) (k : String)
    → j.id ≢ k
    → Effect j ps t t'
    → find_row k t' ≡ find_row k t
Effect-other j ps t t' k differ (inl same) = rw same refl
Effect-other j ps t t' k differ (inr (f, keeps, e, _)) =
    let test : (j.id == k) ≡ false = ground (arith, eq_iff j.id k) in
    let h = find_row-update j.id k f t keeps in rw e (ground (arith, h, test))

Effect-Outcomes :
    (j : Job) (t t' : Table)
    → HasKey t
    → Pending t j
    → Effect j (parents_of j t) t t'
    → Outcomes t' j
Effect-Outcomes j t t' key (found, waits) (inl same) = inl (rw same found)
Effect-Outcomes j t t' key (found, waits) (inr (f, keeps, e, allowed)) =
    let h = find_row-update j.id j.id f t keeps in
    let moved : find_row j.id t' ≡ some (f j) = rw e (ground (arith, h, found, eq_iff j.id j.id)) in
    inr (
      f j,
      moved,
      Effect-Steady j t t' key (found, waits) (inr (f, keeps, e, allowed)) j (f j).state allowed,
    )

pub Effect-Pending :
    (j : Job) (ps : List Job) (t t' : Table) (js : List Job)
    → ¬ OneOf j.id (row_ids js)
    → Effect j ps t t'
    → All (Pending t) js
    → All (Pending t') js
Effect-Pending j ps t t' [] fresh effect pending = tt
Effect-Pending j ps t t' (k ∷ js) fresh effect ((found, waits), pending) =
    let other = Effect-other j ps t t' k.id (λ e. fresh (inl e)) effect in
    ((other ∙ found, waits), Effect-Pending j ps t t' js (λ m. fresh (inr m)) effect pending)

Loop-step :
    (j : Job) (js : List Job) (t t₁ t' : Table)
    → HasKey t
    → Pending t j
    → ¬ OneOf j.id (row_ids js)
    → Effect j (parents_of j t) t t₁
    → Loop js t₁ t'
    → Loop (j ∷ js) t t'
Loop-step j js t t₁ t' key pending fresh effect (others, outcomes, steady) = (
  λ k m.
      others k (λ n. m (inr n))
      ∙ Effect-other j (parents_of j t) t t₁ k (λ e. m (inl (sym e))) effect,
  (
    elim (Effect-Outcomes j t t₁ key pending effect) [
      | inl same ↦ inl (others j.id fresh ∙ same)
      | inr (r', found, allowed) ↦ inr (r', others j.id fresh ∙ found, steady j r'.state allowed)
    ],
    outcomes,
  ),
  λ r s h. steady r s (Effect-Steady j t t₁ key pending effect r s h),
)

module _ (api : ApiServer) where
  pub visit_all-Loop :
      (js : List Job) (w : World)
      → HasKey w.jobs
      → HasKey js
      → All (Pending w.jobs) js
      → Loop js w.jobs (jobs_after (visit_all api js w))
  unfolding visit_all
  visit_all-Loop [] w key distinct pending = Loop-refl [] w.jobs tt
  visit_all-Loop (j ∷ js) w key (fresh, distinct) (first, pending) =
      let effect = visit-Effect api j w in
      let w₁ = (visit api j w).1 in
      let pending₁ =
        Effect-Pending j (parents_of j w.jobs) w.jobs w₁.jobs js fresh effect pending in
      let step : (t' : Table) → Loop js w₁.jobs t' → Loop (j ∷ js) w.jobs t' =
        λ t' loop. Loop-step j js w.jobs w₁.jobs t' key first fresh effect loop in
      elim (then-cases (visit api j) (visit_all api js) w) [
        | inl goes ↦ step _ (
            subst (Loop js w₁.jobs) (sym goes) (
              visit_all-Loop js w₁ (Effect-HasKey j (parents_of j w.jobs) w.jobs w₁.jobs key effect)
                distinct pending₁))
        | inr ends ↦ step _ (subst (Loop js w₁.jobs) (sym ends) (Loop-refl js w₁.jobs pending₁))
      ]

pub is_queued-queued : (s : State) → is_queued s ≡ true → s ≡ queued
is_queued-queued queued h = refl
is_queued-queued State.scheduled h = ground arith
is_queued-queued State.running h = ground arith
is_queued-queued State.finished h = ground arith
is_queued-queued State.failure h = ground arith
is_queued-queued State.error h = ground arith
is_queued-queued State.skipped h = ground arith
is_queued-queued State.killed h = ground arith

-- The row is as before, or had its turn and is in a state that its parents in the table allow.
abbrev pub Decided : String → Table → Job → Type 0
Decided cluster t r =
    (find_row r.id t ≡ some r)
    ⊎ ((r' : Job) × (find_row r.id t ≡ some r')
        × (r.state ≡ queued)
        × (r.cluster_name ≡ cluster)
        × Allows r (parents_of r t) r'.state)

Outcomes-Decided :
    (cluster : String) (t t' : Table) (j : Job)
    → InQueue cluster t j
    → Outcomes t' j
    → Decided cluster t' j
Outcomes-Decided cluster t t' j q (inl same) = inl same
Outcomes-Decided cluster t t' j ((_, waits), here) (inr (r', found, allowed)) =
    inr (r', found, is_queued-queued j.state waits, here, allowed)

-- The id keys the table. After a round of `schedule`, also one that an exception ends, the row of each
-- job is as before, or else the job was queued in the cluster and its new state is one that its parents,
-- as the table has them after the round, allow: each of them has ended, and all meet the job's
-- conditions where the state is scheduled, finished or error, or one does not where it is skipped.
pub schedule-Allows :
    (api : ApiServer) (cluster : String) (w : World) (r : Job)
    → HasKey w.jobs
    → find_row r.id w.jobs ≡ some r
    → Decided cluster (jobs_after (schedule api cluster w)) r
unfolding schedule
schedule-Allows api cluster w r key found =
    let js = queued_jobs cluster w.jobs in
    let queue = queued_jobs-All cluster w.jobs key in
    let pending = All-map (InQueue cluster w.jobs) (Pending w.jobs) (λ j p. p.0) js queue in
    let (others, outcomes, _) =
      visit_all-Loop api js w key (queued_jobs-HasKey cluster w.jobs key) pending in
    elim (Bool-cases (contains (row_ids js) r.id)) [
      | inr absent ↦ inl (others r.id (contains→not-OneOf (row_ids js) r.id absent) ∙ found)
      | inl present ↦
          let (j, p, outcome, e) =
            All-OneOf (InQueue cluster w.jobs) _ js r.id queue outcomes
              (contains→OneOf (row_ids js) r.id present) in
          let same : j ≡ r = let there = p.0.0 in ground arith in
          subst (Decided cluster _) same (Outcomes-Decided cluster w.jobs _ j p outcome)
    ]

module _ (api : ApiServer) where
  visit_all-HasKey :
      (js : List Job) (w : World) → HasKey w.jobs → HasKey (jobs_after (visit_all api js w))
  unfolding visit_all
  visit_all-HasKey [] w key = key
  visit_all-HasKey (j ∷ js) w key =
      let key₁ = Effect-HasKey j (parents_of j w.jobs) w.jobs _ key (visit-Effect api j w) in
      elim (then-cases (visit api j) (visit_all api js) w) [
        | inl goes ↦ subst HasKey (sym goes) (visit_all-HasKey js (visit api j w).1 key₁)
        | inr ends ↦ subst HasKey (sym ends) key₁
      ]

  pub schedule-HasKey :
      (cluster : String) (w : World) → HasKey w.jobs → HasKey (jobs_after (schedule api cluster w))
  unfolding schedule
  schedule-HasKey cluster w key = visit_all-HasKey (queued_jobs cluster w.jobs) w key
