-- ===== src/Lifecycle/Ends.antt =====
-- src/scheduler/kubernetes/scheduler.py: statements that end active jobs, and leave all others.
use mathlib.Core.Path.{subst}
use infrabox.Scheduler.Parents.{jobs_after, bind-return, bind-raise}
use infrabox.Lifecycle.Calm.{Calm, OnActive}
use infrabox.Prelude.{
  inl, ◌≡◌, ◌⊎◌, String, Bool, inr, some, arith, true, false, ◌∷◌, Distinct, sym, ◌∙◌, refl,
  Bool-cases, ap, ◌==◌, [],
}
use infrabox.Scheduler.{Action, World, ◌>>=◌, Outcome, return, raise}
use infrabox.Jobs.Rows.{find_row, HasKey, KeepsId, row_ids-update}
use infrabox.Jobs.{Table, State, Job, update, killed, is_active}

-- The row stays, or its job was active and has been killed or has failed with an error.
abbrev pub EndsRow : Job → Job → Type 0
EndsRow r r' =
    (r' ≡ r) ⊎ ((is_active r.state ≡ true) × ((r'.state ≡ killed) ⊎ (r'.state ≡ State.error)))

-- The key stays, and each row stays or is ended.
abbrev pub Ends : Table → Table → Type 0
Ends t t' =
    HasKey t
    → HasKey t'
      × ((k : String) (r : Job)
          → find_row k t ≡ some r
          → (r' : Job) × (find_row k t' ≡ some r') × EndsRow r r')

pub Ends-refl : (t : Table) → Ends t t
Ends-refl t key = (key, λ k r found. (r, found, inl refl))

over : (s : State) → (s ≡ killed) ⊎ (s ≡ State.error) → is_active s ≡ false
over s (inl e) = rw e refl
over s (inr e) = rw e refl

EndsRow-trans : (r₁ r₂ r₃ : Job) → EndsRow r₁ r₂ → EndsRow r₂ r₃ → EndsRow r₁ r₃
EndsRow-trans r₁ r₂ r₃ h (inl e) = rw e h
EndsRow-trans r₁ r₂ r₃ (inl e) (inr k) = rw (← e) (inr k)
EndsRow-trans r₁ r₂ r₃ (inr (_, ended)) (inr (live, _)) =
    let dead = over r₂.state ended in ground arith

pub Ends-trans : (t₁ t₂ t₃ : Table) → Ends t₁ t₂ → Ends t₂ t₃ → Ends t₁ t₃
Ends-trans t₁ t₂ t₃ first second key = (key₃, rows)
  where
    key₂ : HasKey t₂
    key₂ = (first key).0

    key₃ : HasKey t₃
    key₃ = (second key₂).0

    rows :
        (k : String) (r : Job)
        → find_row k t₁ ≡ some r
        → (r' : Job) × (find_row k t₃ ≡ some r') × EndsRow r r'
    rows k r found =
        let (r₂, found₂, h) = (first key).1 k r found in
        let (r₃, found₃, h') = (second key₂).1 k r₂ found₂ in
        (r₃, found₃, EndsRow-trans r r₂ r₃ h h')

-- The UPDATE sets one of the two states.
abbrev pub SetsEnd : (Job → Job) → Type 0
SetsEnd f = (j : Job) → ((f j).state ≡ killed) ⊎ ((f j).state ≡ State.error)

update-row :
    (test : Job → Bool) (f : Job → Job) (t : Table)
    → KeepsId f
    → SetsEnd f
    → OnActive test t
    → (k : String) (r : Job) → find_row k t ≡ some r
    → (r' : Job) × (find_row k (update test f t) ≡ some r') × EndsRow r r'
unfolding find_row update
update-row test f [] keeps sets active k r found = ground arith
update-row test f (x ∷ t) keeps sets (head, active) k r found = elim (Bool-cases (x.id == k)) [
  | inl here ↦
      let same : x ≡ r = ground arith in
      elim (Bool-cases (test x)) [
        | inl chosen ↦
            (f x, rw (chosen, keeps x, here) refl, inr (rw (← same) (head chosen), sets x))
        | inr other ↦ (r, rw (other, here) (ap some same), inl refl)
      ]
  | inr there ↦
      let (r', later, h) = update-row test f t keeps sets active k r (rw there at found) in
      elim (Bool-cases (test x)) [
        | inl chosen ↦ (r', rw (chosen, keeps x, there) later, h)
        | inr other ↦ (r', rw (other, there) later, h)
      ]
]

pub update-Ends :
    (test : Job → Bool) (f : Job → Job) (t : Table)
    → KeepsId f
    → SetsEnd f
    → (HasKey t → OnActive test t)
    → Ends t (update test f t)
update-Ends test f t keeps sets active key = (
  subst Distinct (sym (row_ids-update test f t keeps)) key,
  update-row test f t keeps sets (active key),
)

-- An action that ends jobs at most, whatever it returns or raises.
abbrev pub EndsAction : {A : Type 0} → Action A → Type 0
EndsAction act = (w : World) → Ends w.jobs (jobs_after (act w))

module _ {A B : Type 0} where
  pub bind-Ends :
      (m : Action A) (next : A → Action B)
      → EndsAction m
      → ((a : A) → EndsAction (next a))
      → EndsAction (m >>= next)
  bind-Ends m next ends later w = go (m w) refl (ends w)
    where
      go :
          (r : Outcome A × World)
          → m w ≡ r
          → Ends w.jobs (jobs_after r)
          → Ends w.jobs (jobs_after ((m >>= next) w))
      go (return a, w') e h =
          subst (λ r. Ends w.jobs (jobs_after r)) (sym (bind-return m next e))
            (Ends-trans w.jobs w'.jobs (jobs_after (next a w')) h (later a w'))
      go (raise x, w') e h = subst (λ r. Ends w.jobs (jobs_after r)) (sym (bind-raise m next e)) h

-- A table whose jobs are ended at most keeps the jobs that have ended.
pub Ends-Calm : (t t' : Table) → Ends t t' → Calm t t'
Ends-Calm t t' ends key = ((ends key).0, keeps)
  where
    keeps :
        (k : String) (r : Job)
        → find_row k t ≡ some r
        → is_active r.state ≡ false
        → find_row k t' ≡ some r
    keeps k r found dead =
        let (r', found', h) = (ends key).1 k r found in
        elim h [ inl e ↦ found' ∙ ap some e | inr (live, _) ↦ ground arith ]
