-- ===== src/Lifecycle/Restart.antt =====
-- JobRestart of src/api/handlers/projects/jobs.py: the loop that collects the jobs to restart ends, and
-- leaves out no job that depends on a collected one.
use infrabox.Lifecycle.{grow, grow_all, depends_on_any}
use infrabox.Jobs.Rows.{Among}
use infrabox.Jobs.{Job}
use infrabox.Prelude.{
  List, String, contains, length, ◌≡◌, ◌++◌, true, ◌∷◌, [], arith, suc, eq_iff, ap, refl, ℕ, ◌≤◌,
  ◌⊎◌, if◌then◌else◌, false, Bool-cases, All, ◌<◌, some, not, inl, ◌&&◌, inr, zero, eqb,
}

-- The number of jobs that are not in the list yet.
abbrev missing : List String → List Job → ℕ
missing restart [] = 0
missing restart (j ∷ js) =
    if contains restart j.id then missing restart js else suc (missing restart js)

missing-length : (r : List String) (js : List Job) → missing r js ≤ length js
missing-length r [] = ground arith
missing-length r (j ∷ js) = let ih = missing-length r js in ground arith

contains-snoc :
    (r : List String) (x a : String) → contains r a ≡ true → contains (r ++ x ∷ []) a ≡ true
contains-snoc [] x a h = ground arith
contains-snoc (y ∷ r) x a h = let ih = contains-snoc r x a in ground arith

contains-last : (r : List String) (x : String) → contains (r ++ x ∷ []) x ≡ true
contains-last [] x = ground (arith, eq_iff x x)
contains-last (y ∷ r) x = let ih = contains-last r x in ground arith

length-snoc : (r : List String) (x : String) → length (r ++ x ∷ []) ≡ suc (length r)
length-snoc [] x = refl
length-snoc (y ∷ r) x = ap suc (length-snoc r x)

missing-snoc :
    (r : List String) (x : String) (js : List Job) → missing (r ++ x ∷ []) js ≤ missing r js
missing-snoc r x [] = ground arith
missing-snoc r x (j ∷ js) =
    let ih = missing-snoc r x js in let kept = contains-snoc r x j.id in ground arith

missing-less :
    (r : List String) (j : Job) (js : List Job)
    → Among j js
    → contains r j.id ≡ false
    → missing (r ++ j.id ∷ []) js < missing r js
missing-less r j [] m h = absurd m
missing-less r j (k ∷ js) (inl e) h =
    let rest = missing-snoc r j.id js in
    let last = contains-last r j.id in
    let same : j.id ≡ k.id = ap (λ (p : Job). p.id) e in ground arith
missing-less r j (k ∷ js) (inr m) h =
    let rest = missing-less r j js m h in let kept = contains-snoc r j.id k.id in ground arith

-- The job is in the list, or it depends on nothing in it.
abbrev pub Settled : List String → Job → Type 0
Settled r j = (contains r j.id ≡ true) ⊎ (depends_on_any r j.dependencies ≡ false)

abbrev pub Extends : List String → List String → Type 0
Extends r r' = (a : String) → contains r a ≡ true → contains r' a ≡ true

module _ (jobs : List Job) where
  -- A pass adds jobs only.
  grow-more :
      (js : List Job) (r : List String)
      → (missing (grow js r) jobs ≤ missing r jobs) × (length r ≤ length (grow js r))
  unfolding grow
  grow-more [] r = (ground arith, ground arith)
  grow-more (j ∷ js) r =
      elim (Bool-cases (not (contains r j.id) && depends_on_any r j.dependencies)) [
        | inl added ↦
            let (a, b) = grow-more js (r ++ j.id ∷ []) in
            let c = missing-snoc r j.id jobs in
            let d = length-snoc r j.id in rw added (ground arith, ground arith)
        | inr passed ↦ rw passed (grow-more js r)
      ]

  -- A pass adds nothing because nothing is to be added, or it adds a job.
  grow-cases :
      (js : List Job) (r : List String)
      → ((p : Job) → Among p js → Among p jobs)
      → ((grow js r ≡ r) × All (Settled r) js)
        ⊎ ((missing (grow js r) jobs < missing r jobs) × (length r < length (grow js r)))
  unfolding grow
  grow-cases [] r within = inl (refl, tt)
  grow-cases (j ∷ js) r within =
      elim (Bool-cases (not (contains r j.id) && depends_on_any r j.dependencies)) [
        | inl added ↦
            let absent : contains r j.id ≡ false = ground arith in
            let (a, b) = grow-more js (r ++ j.id ∷ []) in
            let c = missing-less r j jobs (within j (inl refl)) absent in
            let d = length-snoc r j.id in rw added (inr (ground arith, ground arith))
        | inr passed ↦
            let settled : Settled r j = ground arith in
            elim (grow-cases js r (λ p m. within p (inr m))) [
              | inl (same, all) ↦ rw passed (inl (same, (settled, all)))
              | inr more ↦ rw passed (inr more)
            ]
      ]

  grow-keeps : (js : List Job) (r : List String) → Extends r (grow js r)
  unfolding grow
  grow-keeps [] r a h = h
  grow-keeps (j ∷ js) r a h =
      elim (Bool-cases (not (contains r j.id) && depends_on_any r j.dependencies)) [
        | inl added ↦ rw added (grow-keeps js (r ++ j.id ∷ []) a (contains-snoc r j.id a h))
        | inr passed ↦ rw passed (grow-keeps js r a h)
      ]

  grow_all-ends :
      (fuel : ℕ) (r : List String)
      → missing r jobs < fuel
      → (r' : List String) × (grow_all fuel jobs r ≡ some r') × Extends r r' × All (Settled r') jobs
  unfolding grow_all
  grow_all-ends zero r enough = ground arith
  grow_all-ends (suc fuel) r enough = elim (grow-cases jobs r (λ p m. m)) [
    | inl (same, all) ↦
        let same_length : length (grow jobs r) ≡ length r = ap length same in
        let test : eqb (length (grow jobs r)) (length r) ≡ true = ground arith in
        (r, rw test refl, λ a h. h, all)
    | inr (less, longer) ↦
        let (r', run, keeps, all) = grow_all-ends fuel (grow jobs r) (ground arith) in
        let test : eqb (length (grow jobs r)) (length r) ≡ false = ground arith in
        (r', rw test run, λ a h. keeps a (grow-keeps jobs r a h), all)
  ]

-- With one pass more than there are jobs the loop ends, whatever list it starts with. Its result has the
-- ids of that list, and each job is collected or depends on no collected job.
pub grow_all-Settled :
    (jobs : List Job) (restart : List String)
    → (restart' : List String) × (grow_all (suc (length jobs)) jobs restart ≡ some restart')
      × Extends restart restart'
      × All (Settled restart') jobs
grow_all-Settled jobs restart =
    grow_all-ends jobs (suc (length jobs)) restart
      (let h = missing-length restart jobs in ground arith)
