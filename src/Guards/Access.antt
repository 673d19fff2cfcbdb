-- ===== src/Guards/Access.antt =====
-- `auth_required` of src/pyinfraboxutils/ibflask.py: what a request has that passes it.
use infrabox.Jobs.{is_active, state_of}
use infrabox.Jobs.Rows.{find_row, state_of-find_row}
use infrabox.Http.{bind-done, demand, demand-done}
use infrabox.Guards.{
  Db, is_collaborator, is_owner, Options, validate_user_token, validate_project_token, validate_job,
  validate_token, Codec, authorize, auth_required, Request, Collaborator, Token, on_project,
  is_row_of, done, get_token, user_token, admin, Job, is_public, normal_type, project_token,
  job_token, other_token,
}
use infrabox.Prelude.{
  Bool, Option, List, String, any, ◌≡◌, true, Member, false, arith, ◌&&◌, some, Bool-cases, OneOf,
  ◌∷◌, eq_iff, ◌⊎◌, ◌==◌, none, contains, inl, inr, refl, Option-cases, contains→OneOf, ◌∙◌, [], ap,
}

any-found :
    {A : Type 0} (test : A → Bool) (cs : List A)
    → any test cs ≡ true
    → (c : A) × Member c cs × (test c ≡ true)
any-found test [] h = ground arith
any-found test (c ∷ cs) h = elim (Bool-cases (test c)) [
  | inl here ↦ (c, inl refl, here)
  | inr other ↦ let (d, m, e) = any-found test cs (rw other at h) in (d, inr m, e)
]

-- A collaborator of the project, and its owner if that is asked for.
abbrev pub HasRow : Db → Bool → String → String → Type 0
HasRow db owner user_id project_id =
    (c : Collaborator) × Member c db.collaborators
    × (c.user_id ≡ user_id)
    × (c.project_id ≡ project_id)
    × (owner ≡ true → c.owner ≡ true)

is_collaborator-HasRow :
    (db : Db) (u p : String) → is_collaborator db u p ≡ true → HasRow db false u p
unfolding is_collaborator
is_collaborator-HasRow db u p h =
    let (c, m, e) = any-found (is_row_of u p) db.collaborators (ground arith) in
    (
      c,
      m,
      ground (arith, eq_iff c.user_id u),
      ground (arith, eq_iff c.project_id p),
      λ no'. ground arith,
    )

is_owner-HasRow : (db : Db) (u p : String) → is_owner db u p ≡ true → HasRow db true u p
unfolding is_owner
is_owner-HasRow db u p h =
    let (c, m, e) = any-found (λ c. is_row_of u p c && c.owner) db.collaborators (ground arith) in
    (
      c,
      m,
      ground (arith, eq_iff c.user_id u),
      ground (arith, eq_iff c.project_id p),
      λ _. ground arith,
    )

-- What a token must have to pass on the project. The token of a job may be of another project.
abbrev pub MayUse : Options → Db → Option String → Token → Type 0
MayUse o db project_id (user_token u) =
    (u ≡ admin)
    ⊎ ((o.check_admin ≡ false)
        × (p : String) × (project_id ≡ some p)
        × HasRow db o.check_project_owner u p)
MayUse o db project_id (project_token earlier i own) =
    (o.check_project_owner ≡ false) × (project_id ≡ some own)
MayUse o db project_id (job_token j) =
    (o.check_project_owner ≡ false)
    × (x : Job) × (find_row j db.jobs ≡ some x)
    × (is_active x.state ≡ true)
MayUse o db project_id (other_token t) = ⊥

on_project-done :
    (project_id : Option String) (check : String → Bool)
    → on_project project_id check ≡ done tt
    → (p : String) × (project_id ≡ some p) × (check p ≡ true)
on_project-done none check h = ground arith
on_project-done (some p) check h = (p, refl, ground arith)

validate_user_token-HasRow :
    (db : Db) (u : String) (project_id : Option String) (owner : Bool)
    → validate_user_token db u true project_id owner ≡ done tt
    → (p : String) × (project_id ≡ some p) × HasRow db owner u p
unfolding validate_user_token
validate_user_token-HasRow db u project_id false h =
    let (_, _, h₁) = bind-done (demand (contains db.users u) 401 "Unauthorized") _ h in
    let (_, h₂, _) = bind-done (on_project project_id (λ p. is_collaborator db u p)) _ h₁ in
    let (p, e, member) = on_project-done project_id _ h₂ in
    (p, e, is_collaborator-HasRow db u p member)
validate_user_token-HasRow db u project_id true h =
    let (_, _, h₁) = bind-done (demand (contains db.users u) 401 "Unauthorized") _ h in
    let (_, _, h₂) = bind-done (on_project project_id (λ p. is_collaborator db u p)) _ h₁ in
    let (p, e, member) = on_project-done project_id _ h₂ in (p, e, is_owner-HasRow db u p member)

validate_project_token-own :
    (own : String) (project_id : Option String)
    → validate_project_token own true project_id ≡ done tt
    → project_id ≡ some own
unfolding validate_project_token
validate_project_token-own own none h = ground arith
validate_project_token-own own (some p) h =
    let e = demand-done (p == own) 401 "Unauthorized" h in ground (arith, eq_iff p own)

validate_job-active :
    (db : Db) (j : String)
    → validate_job db j ≡ done tt
    → (x : Job) × (find_row j db.jobs ≡ some x) × (is_active x.state ≡ true)
unfolding validate_job
validate_job-active db j h = elim (Option-cases (state_of j db.jobs)) [
  | inl missing ↦ let e = rw (missing, validate_job) at h in ground arith
  | inr (s, found) ↦
      let live = demand-done (is_active s) 401 "Unauthorized" (rw (validate_job, found) at h) in
      let (x, row, same) = state_of-find_row j s db.jobs found in (x, row, rw same live)
]

validate_token-MayUse :
    (o : Options) (db : Db) (project_id : Option String) (t : Token)
    → o.check_project_access ≡ true
    → validate_token o db project_id t ≡ done tt
    → MayUse o db project_id t
unfolding validate_token
validate_token-MayUse o db project_id (user_token u) checked h = elim (Bool-cases (u == admin)) [
  | inl is_admin ↦ inl (ground (arith, eq_iff u admin))
  | inr other ↦ elim (Bool-cases o.check_admin) [
    | inl asked ↦ let e = rw (other, asked) at h in ground arith
    | inr not_asked ↦
        let (p, e, row) =
          validate_user_token-HasRow db u project_id o.check_project_owner
            (rw (other, not_asked, checked) at h) in
        inr (not_asked, p, e, row)
  ]
]
validate_token-MayUse o db project_id (project_token earlier i own) checked h =
    elim (Bool-cases o.check_project_owner) [
      | inl asked ↦ let e = rw asked at h in ground arith
      | inr not_asked ↦
          (not_asked, validate_project_token-own own project_id (rw (not_asked, checked) at h))
    ]
validate_token-MayUse o db project_id (job_token j) checked h =
    elim (Bool-cases o.check_project_owner) [
      | inl asked ↦ let e = rw asked at h in ground arith
      | inr not_asked ↦
          let (x, row, live) = validate_job-active db j (rw not_asked at h) in
          (not_asked, x, row, live)
    ]
validate_token-MayUse o db project_id (other_token t) checked h = ground arith

-- A valid token of an admitted type that passes: see MayUse.
abbrev pub Authorized : Codec → Options → Db → Request → Type 0
Authorized codec o db r =
    (t : Token) × (get_token codec r ≡ done t)
    × OneOf (normal_type t) o.types
    × MayUse o db r.project_id t

authorize-Authorized :
    (codec : Codec) (o : Options) (db : Db) (r : Request)
    → o.check_project_access ≡ true
    → authorize codec o db r ≡ done tt
    → Authorized codec o db r
unfolding authorize
authorize-Authorized codec o db r checked h =
    let (t, token, h₁) = bind-done (get_token codec r) _ h in
    let (_, admitted, h₂) =
      bind-done (demand (contains o.types (normal_type t)) 401 "Unauthorized") _ h₁ in
    let is_type =
      contains→OneOf o.types (normal_type t) (demand-done _ 401 "Unauthorized" admitted) in
    (t, token, is_type, validate_token-MayUse o db r.project_id t checked h₂)

-- Where access to the project is checked, a request that passes is on a public project that the handler
-- lets everybody see, or has a valid token of an admitted type, which is one of these: that of the
-- administrator; that of a user with a row of the project, as its owner if that is asked for, where no
-- administrator is asked for; a project's token, of that very project; or the token of an active job, of
-- whatever project. The last two never pass where an owner is asked for.
pub auth_required-Authorized :
    (codec : Codec) (o : Options) (db : Db) (r : Request)
    → o.check_project_access ≡ true
    → auth_required codec o db r ≡ done tt
    → ((o.allow_if_public ≡ true) × (is_public db r.project_id r.project_name ≡ done true))
      ⊎ Authorized codec o db r
unfolding auth_required authorize validate_token
auth_required-Authorized codec o db r checked h = elim (Bool-cases o.allow_if_public) [
  | inr closed ↦ inr (authorize-Authorized codec o db r checked (rw closed at h))
  | inl open' ↦
      let (public, looked, h₁) =
        bind-done (is_public db r.project_id r.project_name) _ (rw open' at h) in
      elim (Bool-cases public) [
        | inl shown ↦ inl (open', looked ∙ ap done shown)
        | inr hidden ↦ inr (authorize-Authorized codec o db r checked (rw hidden at h₁))
      ]
]
