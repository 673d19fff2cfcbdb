-- ===== src/Lifecycle/Calm.antt =====
-- src/scheduler/kubernetes/scheduler.py and src/api/handlers/job_api.py: an UPDATE of active jobs leaves
-- the rows of jobs that have ended.
use mathlib.Core.Path.{subst}
use infrabox.Prelude.{
  String, ◌≡◌, Bool, some, All, ◌&&◌, true, false, ◌∷◌, Bool-cases, arith, All-map, ◌==◌, eq_iff,
  [], inl, inr, ap, Distinct, sym,
}
use infrabox.Jobs.Rows.{find_row, HasKey, KeepsId, found-All, row_ids-update}
use infrabox.Jobs.{Table, Job, update, is_active, has_id}

-- The key stays, and so does each row whose job has ended.
abbrev pub Calm : Table → Table → Type 0
Calm t t' =
    HasKey t
    → HasKey t'
      × ((k : String) (r : Job)
          → find_row k t ≡ some r
          → is_active r.state ≡ false
          → find_row k t' ≡ some r)

pub Calm-refl : (t : Table) → Calm t t
Calm-refl t key = (key, λ k r found over. found)

pub Calm-trans : (t₁ t₂ t₃ : Table) → Calm t₁ t₂ → Calm t₂ t₃ → Calm t₁ t₃
Calm-trans t₁ t₂ t₃ first second key =
    let (key₂, keeps₂) = first key in
    let (key₃, keeps₃) = second key₂ in
    (key₃, λ k r found over. keeps₃ k r (keeps₂ k r found over) over)

-- The test selects active jobs only.
abbrev pub OnActive : (Job → Bool) → Table → Type 0
OnActive test t = All (λ (r : Job). test r ≡ true → is_active r.state ≡ true) t

update-found :
    (test : Job → Bool) (f : Job → Job) (t : Table)
    → KeepsId f
    → OnActive test t
    → (k : String) (r : Job) → find_row k t ≡ some r
    → is_active r.state ≡ false
    → find_row k (update test f t) ≡ some r
unfolding find_row update
update-found test f [] keeps active k r found over = found
update-found test f (x ∷ t) keeps (head, active) k r found over = elim (Bool-cases (x.id == k)) [
  | inl here ↦
      let same : x ≡ r = ground arith in
      elim (Bool-cases (test x)) [
        | inl chosen ↦ let live = head chosen in ground arith
        | inr other ↦ rw (other, here) (ap some same)
      ]
  | inr there ↦
      let later = update-found test f t keeps active k r (rw there at found) over in
      elim (Bool-cases (test x)) [
        | inl chosen ↦ rw (chosen, keeps x, there) later
        | inr other ↦ rw (other, there) later
      ]
]

pub update-Calm :
    (test : Job → Bool) (f : Job → Job) (t : Table)
    → KeepsId f
    → (HasKey t → OnActive test t)
    → Calm t (update test f t)
update-Calm test f t keeps active key = (
  subst Distinct (sym (row_ids-update test f t keeps)) key,
  update-found test f t keeps (active key),
)

-- A test that asks for it selects active jobs.
pub guard-OnActive : (test : Job → Bool) (t : Table) → OnActive (λ j. test j && is_active j.state) t
guard-OnActive test [] = tt
guard-OnActive test (r ∷ t) = (λ h. ground arith, guard-OnActive test t)

-- Of a unique key, the row that is found tells of each row.
pub found-OnActive :
    (i : String) (x : Job) (t : Table)
    → find_row i t ≡ some x
    → is_active x.state ≡ true
    → HasKey t
    → OnActive (has_id i) t
found-OnActive i x t found active key =
    All-map (λ (r : Job). r.id ≡ i → is_active r.state ≡ true)
      (λ (r : Job). has_id i r ≡ true → is_active r.state ≡ true)
      (λ r p h. p (ground (arith, eq_iff r.id i))) t
      (found-All (λ (r : Job). is_active r.state ≡ true) i x t key found active)
