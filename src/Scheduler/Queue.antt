-- ===== src/Scheduler/Queue.antt =====
-- src/scheduler/kubernetes/scheduler.py: the list of queued jobs that `schedule` goes through.
use infrabox.Jobs.Rows.{
  HasKey, find_row, row_ids, select-HasKey, Among-select, find_row-Among, Among-All, Among,
  All-select, select-All,
}
use infrabox.Scheduler.{insert_by_age, by_age, queued_jobs, is_queued}
use infrabox.Prelude.{
  String, List, ◌≡◌, All, OneOf, ◌∷◌, some, Bool-cases, inl, [], true, leb, inr, ◌&&◌, sym, ◌==◌,
  arith, eq_iff,
}
use infrabox.Jobs.{Table, Job, select, queued}

-- A job of the list is queued, and its row is as the list has it.
abbrev pub Pending : Table → Job → Type 0
Pending t j = (find_row j.id t ≡ some j) × (is_queued j.state ≡ true)

abbrev pub InQueue : String → Table → Job → Type 0
InQueue cluster t j = Pending t j × (j.cluster_name ≡ cluster)

insert_by_age-All :
    (P : Job → Type 0) (j : Job) (ks : List Job) → P j → All P ks → All P (insert_by_age j ks)
unfolding insert_by_age
insert_by_age-All P j [] p h = (p, tt)
insert_by_age-All P j (k ∷ ks) p (q, h) = elim (Bool-cases (leb j.created_at k.created_at)) [
  | inl older ↦ rw older (p, (q, h))
  | inr younger ↦ rw younger (q, insert_by_age-All P j ks p h)
]

by_age-All : (P : Job → Type 0) (js : List Job) → All P js → All P (by_age js)
unfolding by_age
by_age-All P [] h = tt
by_age-All P (j ∷ js) (p, h) = insert_by_age-All P j (by_age js) p (by_age-All P js h)

-- The ids of a list are among the ids of the other.
insert_by_age-OneOf :
    (a : String) (j : Job) (ks : List Job)
    → OneOf a (row_ids (insert_by_age j ks))
    → OneOf a (row_ids (j ∷ ks))
unfolding insert_by_age
insert_by_age-OneOf a j [] m = m
insert_by_age-OneOf a j (k ∷ ks) m = elim (Bool-cases (leb j.created_at k.created_at)) [
  | inl older ↦ rw older at m
  | inr younger ↦
      let m' : OneOf a (k.id ∷ row_ids (insert_by_age j ks)) = rw younger at m in
      elim m' [
        | inl e ↦ inr (inl e)
        | inr n ↦ elim (insert_by_age-OneOf a j ks n) [ inl e ↦ inl e | inr o ↦ inr (inr o) ]
      ]
]

by_age-OneOf : (a : String) (js : List Job) → OneOf a (row_ids (by_age js)) → OneOf a (row_ids js)
unfolding by_age
by_age-OneOf a [] m = m
by_age-OneOf a (j ∷ js) m = elim (insert_by_age-OneOf a j (by_age js) m) [
  | inl e ↦ inl e
  | inr n ↦ inr (by_age-OneOf a js n)
]

insert_by_age-HasKey : (j : Job) (ks : List Job) → HasKey (j ∷ ks) → HasKey (insert_by_age j ks)
unfolding insert_by_age
insert_by_age-HasKey j [] key = key
insert_by_age-HasKey j (k ∷ ks) (fresh, (head, key)) =
    elim (Bool-cases (leb j.created_at k.created_at)) [
      | inl older ↦ rw older (fresh, (head, key))
      | inr younger ↦ rw younger (
        λ m. elim (insert_by_age-OneOf k.id j ks m) [
          | inl e ↦ fresh (inl (sym e))
          | inr n ↦ head n
        ],
        insert_by_age-HasKey j ks (λ n. fresh (inr n), key),
      )
    ]

by_age-HasKey : (js : List Job) → HasKey js → HasKey (by_age js)
unfolding by_age
by_age-HasKey [] key = tt
by_age-HasKey (j ∷ js) (fresh, key) =
    insert_by_age-HasKey j (by_age js) (λ m. fresh (by_age-OneOf j.id js m), by_age-HasKey js key)

pub queued_jobs-All :
    (cluster : String) (t : Table) → HasKey t → All (InQueue cluster t) (queued_jobs cluster t)
unfolding queued_jobs
queued_jobs-All cluster t key =
    let test = λ (j : Job). is_queued j.state && j.cluster_name == cluster in
    by_age-All (InQueue cluster t) (select test t) (
      Among-All (InQueue cluster t) (select test t) (λ p m.
        let (n, passes) = Among-select test t p m in
        ((find_row-Among t p key n, ground arith), ground (arith, eq_iff p.cluster_name cluster))))

pub queued_jobs-HasKey : (cluster : String) (t : Table) → HasKey t → HasKey (queued_jobs cluster t)
unfolding queued_jobs
queued_jobs-HasKey cluster t key = by_age-HasKey (select _ t) (select-HasKey _ t key)

insert_by_age-Among : (r j : Job) (ks : List Job) → Among r (j ∷ ks) → Among r (insert_by_age j ks)
unfolding insert_by_age
insert_by_age-Among r j [] m = m
insert_by_age-Among r j (k ∷ ks) m = elim (Bool-cases (leb j.created_at k.created_at)) [
  | inl older ↦ rw older m
  | inr younger ↦ rw younger (elim m [
    | inl e ↦ inr (insert_by_age-Among r j ks (inl e))
    | inr n ↦ elim n [ inl e ↦ inl e | inr o ↦ inr (insert_by_age-Among r j ks (inr o)) ]
  ])
]

by_age-Among : (r : Job) (js : List Job) → Among r js → Among r (by_age js)
unfolding by_age
by_age-Among r [] m = m
by_age-Among r (j ∷ js) (inl e) = insert_by_age-Among r j (by_age js) (inl e)
by_age-Among r (j ∷ js) (inr m) = insert_by_age-Among r j (by_age js) (inr (by_age-Among r js m))

-- A queued row of the cluster is in the list.
pub queued_jobs-Among :
    (cluster : String) (t : Table) (r : Job)
    → find_row r.id t ≡ some r
    → r.state ≡ queued
    → r.cluster_name ≡ cluster
    → Among r (queued_jobs cluster t)
unfolding queued_jobs
queued_jobs-Among cluster t r found waits here =
    let test = λ (j : Job). is_queued j.state && j.cluster_name == cluster in
    let same : (r.cluster_name == cluster) ≡ true = ground (arith, eq_iff r.cluster_name cluster) in
    by_age-Among r (select test t) (
      select-All (λ p. Among p (select test t)) test t r.id r
        (Among-All _ (select test t) (λ p m. m)) found (rw (waits, same)))

pub queued_jobs-Every :
    (P : Job → Type 0) (cluster : String) (t : Table) → All P t → All P (queued_jobs cluster t)
unfolding queued_jobs
queued_jobs-Every P cluster t h = by_age-All P (select _ t) (All-select P _ t h)
