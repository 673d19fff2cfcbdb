-- ===== src/JobApi/Inserts.antt =====
-- src/api/handlers/job_api.py: CreateJobs with new ids leaves the rows that there are.
use mathlib.Core.Path.{subst}
use infrabox.Jobs.Rows.{find_row, HasKey}
use infrabox.Lifecycle.Calm.{Calm}
use infrabox.Jobs.{Table, Job, update}
use mathlib.Core.List.{append_assoc, append-nil}
use mathlib.Core.Path.{subst}
use infrabox.Http.{done, bind-done}
use infrabox.JobApi.{
  Sender, NewJob, Cluster, create_jobs, insert_jobs, new_row, names_job, wait_for_leaves, last_id,
  sort_by_duration, prefix_names, assign_cluster, find_leaf_jobs,
}
use infrabox.Prelude.{
  String, ℕ, List, Bool, Option, All, some, ◌≡◌, ◌∷◌, [], ◌++◌, ◌+◌, false, refl, sym, ap, ◌∙◌,
  arith, inl, inr, Bool-cases, ◌==◌, ◌&&◌, ◌||◌, not, any,
}

-- No row depends on the id.
abbrev pub Unnamed : String → Table → Type 0
Unnamed i t = All (λ (r : Job). names_job i r.dependencies ≡ false) t

update-none :
    (test : Job → Bool) (f : Job → Job) (t : Table)
    → All (λ (r : Job). test r ≡ false) t
    → update test f t ≡ t
unfolding update
update-none test f [] h = refl
update-none test f (r ∷ t) (other, h) = rw other (ap (λ u. r ∷ u) (update-none test f t h))

Unnamed-test :
    (sender : Sender) (i : String) (t : Table)
    → Unnamed i t
    → All
        (λ (r : Job).
          (names_job i r.dependencies
            && r.build_id == sender.build_id
            && r.project_id == sender.project_id)
          ≡ false)
        t
Unnamed-test sender i [] h = tt
Unnamed-test sender i (r ∷ t) (other, h) = (rw other refl, Unnamed-test sender i t h)

wait_for_leaves-Unnamed :
    (sender : Sender) (i : String) (leaves : List NewJob) (t : Table)
    → Unnamed i t
    → wait_for_leaves sender i leaves t ≡ t
unfolding wait_for_leaves
wait_for_leaves-Unnamed sender i [] t h = refl
wait_for_leaves-Unnamed sender i (leaf ∷ rest) t h =
    ap (wait_for_leaves sender i rest) (update-none _ _ t (Unnamed-test sender i t h))
    ∙ wait_for_leaves-Unnamed sender i rest t h

insert_jobs-appends :
    (sender : Sender) (jobs : List NewJob) (now : ℕ) (js : List (NewJob × String)) (t t' : Table)
    → insert_jobs sender jobs now js t ≡ done t'
    → (rows : Table) × (t' ≡ t ++ rows)
unfolding insert_jobs
insert_jobs-appends sender jobs now [] t t' h =
    ([], let e : t ≡ t' = ground arith in sym e ∙ sym (append-nil t))
insert_jobs-appends sender jobs now ((j, cluster) ∷ js) t t' h =
    let (row, _, later) = bind-done (new_row sender jobs now j cluster) _ h in
    let (rows, e) = insert_jobs-appends sender jobs (now + 1) js (t ++ row ∷ []) t' later in
    (row ∷ rows, e ∙ append_assoc t (row ∷ []) rows)

find_row-append :
    (k : String) (t rows : Table) (r : Job)
    → find_row k t ≡ some r
    → find_row k (t ++ rows) ≡ some r
unfolding find_row
find_row-append k [] rows r found = ground arith
find_row-append k (x ∷ t) rows r found = elim (Bool-cases (x.id == k)) [
  | inl here ↦ rw here (rw here at found)
  | inr there ↦ rw there (find_row-append k t rows r (rw there at found))
]

appends-Calm : (t rows : Table) → HasKey (t ++ rows) → Calm t (t ++ rows)
appends-Calm t rows key' key = (key', λ k r found over. find_row-append k t rows r found)

created-appends :
    (enabled : Bool) (clusters : List Cluster) (avg : String → Option ℕ) (sender : Sender) (now : ℕ)
    (jobs : List NewJob) (t t' : Table)
    → Unnamed (last_id sender.id jobs) t
    → create_jobs enabled clusters avg sender now jobs t ≡ done t'
    → (rows : Table) × (t' ≡ t ++ rows)
unfolding create_jobs
created-appends enabled clusters avg sender now jobs t t' fresh h =
    let sorted = sort_by_duration avg jobs in
    let named = prefix_names sender.name sorted in
    elim (Bool-cases (enabled || not (any (λ (j : NewJob). j.capabilities) jobs))) [
      | inr off ↦ let e = rw off at h in ground arith
      | inl on ↦ elim (Bool-cases (sender.name == "Create Jobs")) [
        | inl first ↦
            let (assigned, _, run) =
              bind-done (assign_cluster clusters sorted) (λ a. insert_jobs sender jobs now a t)
                (rw (on, first) at h) in
            insert_jobs-appends sender jobs now assigned t t' run
        | inr later ↦
            let i = last_id sender.id jobs in
            let leaves = find_leaf_jobs named in
            let (assigned, _, run) =
              bind-done (assign_cluster clusters named)
                (λ a. insert_jobs sender jobs now a (wait_for_leaves sender i leaves t))
                (rw (on, later) at h) in
            insert_jobs-appends sender jobs now assigned t t'
              (rw (wait_for_leaves-Unnamed sender i leaves t fresh) at run)
      ]
    ]

pub create_jobs-Calm :
    (enabled : Bool) (clusters : List Cluster) (avg : String → Option ℕ) (sender : Sender) (now : ℕ)
    (jobs : List NewJob) (t t' : Table)
    → Unnamed (last_id sender.id jobs) t
    → HasKey t'
    → create_jobs enabled clusters avg sender now jobs t ≡ done t'
    → Calm t t'
create_jobs-Calm enabled clusters avg sender now jobs t t' fresh key h =
    let (rows, e) = created-appends enabled clusters avg sender now jobs t t' fresh h in
    let key' : HasKey (t ++ rows) = subst HasKey e key in rw e (appends-Calm t rows key')
