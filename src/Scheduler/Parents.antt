-- ===== src/Scheduler/Parents.antt =====
-- src/scheduler/kubernetes/scheduler.py: when the parents of a job let it start or skip it, and how an
-- action goes on.
use infrabox.Jobs.Rows.{KeepsId}
use infrabox.Scheduler.{raise, ◌>>=◌, ◌>>◌, Exception}
use infrabox.Jobs.{State, update, Table, is_active, has_id}
use infrabox.Scheduler.{
  check_conditions, Outcome, Job, World, satisfies, find_on, return, has_condition, assertion_error,
  Action,
}
use infrabox.Prelude.{
  List, All, Bool, ◌∷◌, any, inl, ◌≡◌, Bool-cases, false, true, ◌⊎◌, none, arith, [], inr, ap, refl,
  sym, ◌∙◌,
}

-- Every parent has ended, whatever its state.
abbrev pub Ended : List Job → Type 0
Ended ps = All (λ (p : Job). is_active p.state ≡ false) ps

-- The condition of a job on one parent.
abbrev pub meets : Job → Job → Bool
meets j p = satisfies p.state (find_on p.id none j.dependencies)

abbrev pub SomeUnmet : Job → List Job → Type 0
SomeUnmet j [] = ⊥
SomeUnmet j (p ∷ ps) = (meets j p ≡ false) ⊎ SomeUnmet j ps

abbrev pub AllMet : Job → List Job → Type 0
AllMet j ps = All (λ (p : Job). meets j p ≡ true) ps

-- What must hold of its parents for a job to get a state from the scheduler.
unfoldable pub Allows : Job → List Job → State → Type 0
Allows j ps State.scheduled = Ended ps × AllMet j ps
Allows j ps State.finished = Ended ps × AllMet j ps
Allows j ps State.error = Ended ps × AllMet j ps
Allows j ps State.skipped = Ended ps × SomeUnmet j ps
Allows j ps _ = ⊥

pub any-All : (ps : List Job) → any (λ (p : Job). is_active p.state) ps ≡ false → Ended ps
any-All [] h = tt
any-All (p ∷ ps) h = (ground arith, any-All ps (ground arith))

abbrev pub skip : Job → Job
skip r = record r { state = State.skipped }

abbrev skipped_world : Job → World → World
skipped_world j w = record w { jobs = update (has_id j.id) skip w.jobs }

-- How the loop over the parents ends.
abbrev Conditions : Job → List Job → World → Outcome Bool × World → Type 0
Conditions j ps w result =
    ((result ≡ (return false, w)) × AllMet j ps)
    ⊎ ((result ≡ (return true, skipped_world j w)) × SomeUnmet j ps)
    ⊎ (result ≡ (raise assertion_error, w))

pub check_conditions-Conditions :
    (j : Job) (ps : List Job) (w : World) → Conditions j ps w (check_conditions j ps w)
unfolding check_conditions
check_conditions-Conditions j [] w = inl (refl, tt)
check_conditions-Conditions j (p ∷ ps) w =
    elim (Bool-cases (has_condition (find_on p.id none j.dependencies))) [
      | inr missing ↦ inr (inr (rw missing))
      | inl given ↦ elim (Bool-cases (meets j p)) [
        | inr unmet ↦ inr (inl (rw (given, unmet), inl unmet))
        | inl met ↦ elim (check_conditions-Conditions j ps w) [
          | inl (e, all) ↦ inl (rw (given, met) e, (met, all))
          | inr (inl (e, unmet)) ↦ inr (inl (rw (given, met) e, inr unmet))
          | inr (inr e) ↦ inr (inr (rw (given, met) e))
        ]
      ]
    ]

-- The table after an action.
abbrev pub jobs_after : {A : Type 0} → Outcome A × World → Table
jobs_after r = (r.1).jobs

pub bind-return :
    {A B : Type 0} (m : Action A) (next : A → Action B) {w w' : World} {a : A}
    → m w ≡ (return a, w')
    → (m >>= next) w ≡ next a w'
bind-return m next e = ap (λ r. elim r.0 [ return b ↦ next b r.1 | raise x ↦ (raise x, r.1) ]) e

pub bind-raise :
    {A B : Type 0} (m : Action A) (next : A → Action B) {w w' : World} {x : Exception}
    → m w ≡ (raise x, w')
    → (m >>= next) w ≡ (raise x, w')
bind-raise m next e = ap (λ r. elim r.0 [ return b ↦ next b r.1 | raise y ↦ (raise y, r.1) ]) e

-- An action goes on after its first part, or ends there with an exception.
pub then-cases :
    {A B : Type 0} (m : Action A) (next : Action B) (w : World)
    → (jobs_after ((m >> next) w) ≡ jobs_after (next (m w).1))
      ⊎ (jobs_after ((m >> next) w) ≡ jobs_after (m w))
then-cases {A} {B} m next w = go (m w) refl
  where
    go :
        (r : Outcome A × World)
        → m w ≡ r
        → (jobs_after ((m >> next) w) ≡ jobs_after (next (m w).1))
          ⊎ (jobs_after ((m >> next) w) ≡ jobs_after (m w))
    go (return a, w') e =
        inl (ap jobs_after (bind-return m (λ _. next) e) ∙ ap (λ r. jobs_after (next r.1)) (sym e))
    go (raise x, w') e = inr (
        ap jobs_after (ap (λ r. elim r.0 [ return b ↦ next r.1 | raise y ↦ (raise y, r.1) ]) e)
        ∙ ap jobs_after (sym e))

-- One UPDATE of the row of the job, to a state that its parents allow.
abbrev pub Effect : Job → List Job → Table → Table → Type 0
Effect j ps t t' =
    (t' ≡ t)
    ⊎ ((f : Job → Job) × KeepsId f × (t' ≡ update (has_id j.id) f t) × Allows j ps ((f j).state))
