-- ===== src/Jobs/Rows.antt =====
-- Rows by their primary key, under SELECT and UPDATE.
use infrabox.Prelude.{
  String, List, Distinct, ◌≡◌, Option, Bool, OneOf, none, ◌∷◌, if◌then◌else◌, All, true, some, ◌==◌,
  arith, ◌⊎◌, Bool-cases, inl, [], eq_iff, ap, inr, refl, ◌≢◌, sym,
}
use infrabox.Jobs.{Job, Table, select, update, has_id, state_of, State}

-- The row of a key.
unfoldable pub find_row : String → Table → Option Job
find_row k [] = none
find_row k (j ∷ js) = if j.id == k then some j else find_row k js

abbrev pub row_ids : List Job → List String
row_ids [] = []
row_ids (j ∷ js) = j.id ∷ row_ids js

-- The key is unique.
abbrev pub HasKey : Table → Type 0
HasKey t = Distinct (row_ids t)

abbrev pub KeepsId : (Job → Job) → Type 0
KeepsId f = (j : Job) → (f j).id ≡ j.id

abbrev pub map_row : (Job → Job) → Option Job → Option Job
map_row f none = none
map_row f (some j) = some (f j)

pub find_row-update :
    (i k : String) (f : Job → Job) (t : Table)
    → KeepsId f
    → find_row k (update (has_id i) f t)
      ≡ (if i == k then map_row f (find_row k t) else find_row k t)
unfolding find_row update
find_row-update i k f [] keeps = ground arith
find_row-update i k f (j ∷ t) keeps = ground (
  arith,
  keeps j,
  find_row-update i k f t keeps,
  eq_iff j.id i,
  eq_iff j.id k,
  eq_iff i k,
  eq_iff (f j).id k,
)

pub row_ids-update :
    (test : Job → Bool) (f : Job → Job) (t : Table)
    → KeepsId f
    → row_ids (update test f t) ≡ row_ids t
unfolding update
row_ids-update test f [] keeps = refl
row_ids-update test f (j ∷ t) keeps = ground (arith, keeps j, row_ids-update test f t keeps)

abbrev pub Among : Job → List Job → Type 0
Among p [] = ⊥
Among p (j ∷ js) = (p ≡ j) ⊎ Among p js

pub select-All :
    (P : Job → Type 0) (test : Job → Bool) (t : Table) (k : String) (p : Job)
    → All P (select test t)
    → find_row k t ≡ some p
    → test p ≡ true
    → P p
unfolding select find_row
select-All P test (j ∷ t) k p h found passes = elim (Bool-cases (test j)) [
  | inl kept ↦ elim (Bool-cases (j.id == k)) [
    | inl here ↦
        let same : j ≡ p = ground arith in
        rw (← same) (let all : All P (j ∷ select test t) = rw kept at h in all.0)
    | inr later ↦
        let all : All P (j ∷ select test t) = rw kept at h in
        select-All P test t k p (all.1) (ground arith) passes
  ]
  | inr dropped ↦ elim (Bool-cases (j.id == k)) [
    | inl here ↦ ground arith
    | inr later ↦ select-All P test t k p (rw dropped at h) (ground arith) passes
  ]
]
select-All P test [] k p h found passes = ground arith

pub Among-select :
    (test : Job → Bool) (t : Table) (p : Job)
    → Among p (select test t)
    → Among p t × (test p ≡ true)
unfolding select
Among-select test (j ∷ t) p m = elim (Bool-cases (test j)) [
  | inl kept ↦
      let m' : Among p (j ∷ select test t) = rw kept at m in
      elim m' [
        | inl e ↦ (inl e, rw e kept)
        | inr later ↦ let (n, passes) = Among-select test t p later in (inr n, passes)
      ]
  | inr dropped ↦ let (n, passes) = Among-select test t p (rw dropped at m) in (inr n, passes)
]
Among-select test [] p m = absurd m

pub OneOf-row_ids : (t : Table) (p : Job) → Among p t → OneOf p.id (row_ids t)
OneOf-row_ids [] p m = absurd m
OneOf-row_ids (j ∷ t) p (inl e) = inl (ap (λ (r : Job). r.id) e)
OneOf-row_ids (j ∷ t) p (inr m) = inr (OneOf-row_ids t p m)

-- With a unique key a row of the table is the row of its key.
pub find_row-Among : (t : Table) (p : Job) → HasKey t → Among p t → find_row p.id t ≡ some p
unfolding find_row
find_row-Among [] p key m = absurd m
find_row-Among (j ∷ t) p (fresh, key) (inl e) = rw e (ground (arith, eq_iff j.id j.id))
find_row-Among (j ∷ t) p (fresh, key) (inr m) =
    let differ : j.id ≢ p.id = λ e. fresh (rw e (OneOf-row_ids t p m)) in
    ground (arith, eq_iff j.id p.id, find_row-Among t p key m)

OneOf-select :
    (test : Job → Bool) (t : Table) (a : String)
    → OneOf a (row_ids (select test t))
    → OneOf a (row_ids t)
unfolding select
OneOf-select test (j ∷ t) a m = elim (Bool-cases (test j)) [
  | inl kept ↦
      let m' : OneOf a (j.id ∷ row_ids (select test t)) = rw kept at m in
      elim m' [ inl e ↦ inl e | inr later ↦ inr (OneOf-select test t a later) ]
  | inr dropped ↦ inr (OneOf-select test t a (rw dropped at m))
]
OneOf-select test [] a m = absurd m

pub select-HasKey : (test : Job → Bool) (t : Table) → HasKey t → HasKey (select test t)
unfolding select
select-HasKey test [] key = tt
select-HasKey test (j ∷ t) (fresh, key) = elim (Bool-cases (test j)) [
  | inl kept ↦ rw kept (λ m. fresh (OneOf-select test t j.id m), select-HasKey test t key)
  | inr dropped ↦ rw dropped (select-HasKey test t key)
]

-- Each row with the id has the property.
abbrev pub EachRow : (Job → Type 0) → String → Table → Type 0
EachRow P i t = All (λ (r : Job). r.id ≡ i → P r) t

absent-All : (P : Job → Type 0) (i : String) (t : Table) → ¬ OneOf i (row_ids t) → EachRow P i t
absent-All P i [] h = tt
absent-All P i (r ∷ t) h = (λ e. absurd (h (inl (sym e))), absent-All P i t (λ m. h (inr m)))

pub found-All :
    (P : Job → Type 0) (i : String) (x : Job) (t : Table)
    → HasKey t
    → find_row i t ≡ some x
    → P x
    → EachRow P i t
unfolding find_row
found-All P i x [] key found p = tt
found-All P i x (r ∷ t) (fresh, key) found p = elim (Bool-cases (r.id == i)) [
  | inl here ↦
      let at_head : r.id ≡ i = ground (arith, eq_iff r.id i) in
      let same : r ≡ x = ground arith in
      (λ _. rw same p, absent-All P i t (λ m. fresh (rw at_head m)))
  | inr later ↦
      let differ : r.id ≢ i = ground (arith, eq_iff r.id i) in
      (λ e. absurd (differ e), found-All P i x t key (ground arith) p)
]

pub Among-All : (P : Job → Type 0) (js : List Job) → ((p : Job) → Among p js → P p) → All P js
Among-All P [] h = tt
Among-All P (j ∷ js) h = (h j (inl refl), Among-All P js (λ p m. h p (inr m)))

-- The entry of an id, with what two predicates say of it.
pub All-OneOf :
    (P Q : Job → Type 0) (js : List Job) (a : String)
    → All P js
    → All Q js
    → OneOf a (row_ids js)
    → (j : Job) × P j × Q j × (a ≡ j.id)
All-OneOf P Q [] a h k m = absurd m
All-OneOf P Q (j ∷ js) a (p, h) (q, k) (inl e) = (j, p, q, e)
All-OneOf P Q (j ∷ js) a (p, h) (q, k) (inr m) = All-OneOf P Q js a h k m

pub find_row-id : (k : String) (r : Job) (t : Table) → find_row k t ≡ some r → r.id ≡ k
unfolding find_row
find_row-id k r [] found = ground arith
find_row-id k r (j ∷ t) found = ground (arith, find_row-id k r t, eq_iff j.id k)

pub All-select :
    (P : Job → Type 0) (test : Job → Bool) (t : Table) → All P t → All P (select test t)
unfolding select
All-select P test [] h = tt
All-select P test (j ∷ t) (p, h) = elim (Bool-cases (test j)) [
  | inl kept ↦ rw kept (p, All-select P test t h)
  | inr dropped ↦ rw dropped (All-select P test t h)
]

pub state_of-find_row :
    (i : String) (s : State) (t : Table)
    → state_of i t ≡ some s
    → (x : Job) × (find_row i t ≡ some x) × (x.state ≡ s)
unfolding state_of find_row
state_of-find_row i s [] e = ground arith
state_of-find_row i s (r ∷ t) e = elim (Bool-cases (r.id == i)) [
  | inl here ↦ (r, rw here refl, ground arith)
  | inr there ↦ rw there (state_of-find_row i s t (rw there at e))
]
