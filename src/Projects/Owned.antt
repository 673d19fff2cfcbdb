-- ===== src/Projects/Owned.antt =====
-- src/api/handlers/projects/projects.py: what every sequence of requests keeps of the projects.
use infrabox.Builds.Queues.{any-append}
use infrabox.PullRequests.Webhook.{List-cases}
use infrabox.Settings.Owners.{owner_row}
use infrabox.Trigger.Unique.{kept_tables, kept_tables-keeps}
use infrabox.Http.{Response, done, bind-done, ◌>>=◌, demand, demand-done}
use infrabox.Projects.{
  insert_project, drop_project, add_github, add_typed, add_project, delete_project, RepoApi,
  is_named, NewProject, insert_repository, add_gerrit, Connected, has_project, github_repository,
  connect, unhook, set_hook, count_projects,
}
use infrabox.Builds.{Tables, ProjectRow}
use infrabox.Prelude.{
  refl, Bool, count_where, String, delete_where, List, any, ◌==◌, arith, ◌≡◌, ◌∷◌, ◌≤◌, true, false,
  All, count_where-delete_where-le, ◌++◌, not, Option-cases, Bool-cases, [], All-append, eq_iff,
  rows_where, inr, inl, count_where-append, All-map, leb, ap, sym, ◌∙◌,
}
use infrabox.Guards.{Collaborator}

-- No two projects have one name, and each project has an owner.
pub record Owned (db : Tables) : Type 0 where
  pub names : (name : String) → count_where (is_named name) db.projects ≤ 1
  pub owners : All (λ (p : ProjectRow). any (owner_row p.id) db.collaborators ≡ true) db.projects

any-append_left :
    {A : Type 0} (test : A → Bool) (xs ys : List A)
    → any test xs ≡ true
    → any test (xs ++ ys) ≡ true
any-append_left test [] ys h = ground arith
any-append_left test (x ∷ xs) ys h = ground (arith, any-append_left test xs ys)

count-any :
    {A : Type 0} (test : A → Bool) (xs : List A) → any test xs ≡ false → count_where test xs ≡ 0
unfolding count_where
count-any test [] h = refl
count-any test (x ∷ xs) h = ground (arith, count-any test xs)

inserted_names :
    (name : String) (ps : List ProjectRow) (row : ProjectRow)
    → count_where (is_named name) ps ≤ 1
    → any (is_named row.name) ps ≡ false
    → count_where (is_named name) (ps ++ row ∷ []) ≤ 1
inserted_names name ps row few free = elim (Bool-cases (is_named name row)) [
  | inr e ↦ rw (count_where-append (is_named name) ps row, e) (omega (arith, few))
  | inl e ↦
      let same : row.name ≡ name = (eq_iff row.name name).0 e in
      let absent = ap (λ n. any (is_named n) ps) (sym same) ∙ free in
      rw (count_where-append (is_named name) ps row, e)
        (omega (arith, count-any (is_named name) ps absent))
]

insert_project-Owned :
    (new_id user_id : String) (b : NewProject) (db : Tables)
    → any (is_named b.name) db.projects ≡ false
    → Owned db
    → Owned (insert_project new_id user_id b db)
unfolding insert_project
insert_project-Owned new_id user_id b db free owned =
    let row : ProjectRow = record {
      id = new_id;
      name = b.name;
      type = b.type;
      public = not b.private;
      build_on_push = true;
    } in
    let co : Collaborator = record { user_id = user_id; project_id = new_id; owner = true } in
    record {
      names = λ name. inserted_names name db.projects row (owned.names name) free;
      owners =
          All-append _ db.projects (row ∷ [])
            (All-map _ _ (λ p h. any-append_left (owner_row p.id) db.collaborators (co ∷ []) h)
              db.projects owned.owners)
            (
              any-append (owner_row new_id) db.collaborators co
                  (ground (arith, eq_iff new_id new_id)),
              tt,
            );
    }

-- A row whose project stays is not deleted.
any-delete_where :
    (project_id q : String) (cs : List Collaborator)
    → (q == project_id) ≡ false
    → any (owner_row q) cs ≡ true
    → any (owner_row q) (delete_where (λ (c : Collaborator). c.project_id == project_id) cs) ≡ true
unfolding delete_where
any-delete_where project_id q [] other h = ground arith
any-delete_where project_id q (c ∷ cs) other h = ground (
  arith,
  any-delete_where project_id q cs,
  eq_iff c.project_id project_id,
  eq_iff c.project_id q,
  eq_iff q project_id,
)

owners-delete_where :
    (project_id : String) (cs : List Collaborator) (ps : List ProjectRow)
    → All (λ (p : ProjectRow). any (owner_row p.id) cs ≡ true) ps
    → All
        (λ (p : ProjectRow).
          any (owner_row p.id) (delete_where (λ (c : Collaborator). c.project_id == project_id) cs)
          ≡ true)
        (delete_where (has_project project_id) ps)
unfolding delete_where
owners-delete_where project_id cs [] h = tt
owners-delete_where project_id cs (p ∷ ps) (own, h) = elim (Bool-cases (has_project project_id p)) [
  | inl e ↦ rw (delete_where, e) (owners-delete_where project_id cs ps h)
  | inr e ↦
      rw (delete_where, e)
        (any-delete_where project_id p.id cs e own, owners-delete_where project_id cs ps h)
]

drop_project-Owned :
    (project_id : String) (db : Tables) → Owned db → Owned (drop_project project_id db)
unfolding drop_project
drop_project-Owned project_id db owned = record {
  names = λ name. omega (
    arith,
    owned.names name,
    count_where-delete_where-le (is_named name) (has_project project_id) db.projects,
  );
  owners = owners-delete_where project_id db.collaborators db.projects owned.owners;
}

add_github-Owned :
    (api : RepoApi) (repo_id project_id : String) (c : Connected) (db db' : Tables)
    → add_github api repo_id project_id c db ≡ done db'
    → Owned db
    → Owned db'
unfolding add_github insert_repository
add_github-Owned api repo_id project_id c db db' h owned =
    elim (Option-cases (api.hook c.owner c.repo_name c.token)) [
      | inl e ↦ let h' = rw (add_github, e) at h in ground arith
      | inr (hook, e) ↦
          let db₁ = insert_repository (github_repository repo_id project_id c) db in
          let h' : done (record db₁ { repositories = set_hook c.repo.id hook db₁.repositories })
              ≡ done db' =
            rw (add_github, e) at h in
          let same : record db₁ { repositories = set_hook c.repo.id hook db₁.repositories } ≡ db' =
            cc in
          rw (← same) record { names = owned.names; owners = owned.owners }
    ]

add_typed-Owned :
    (api : RepoApi) (new_id repo_id user_id : String) (b : NewProject) (db db' : Tables)
    → add_typed api new_id repo_id user_id b db ≡ done db'
    → Owned (insert_project new_id user_id b db)
    → Owned db'
unfolding add_typed add_gerrit insert_repository
add_typed-Owned api new_id repo_id user_id b db db' h owned =
    elim (Bool-cases (b.type == "github")) [
      | inl e ↦
          let h₀ : (connect api user_id b.github_repo_name db >>= λ (c : Connected).
          add_github api repo_id new_id c (insert_project new_id user_id b db))
              ≡ done db' =
            ground arith in
          let (c, _, h₁) = bind-done (connect api user_id b.github_repo_name db) _ h₀ in
          add_github-Owned api repo_id new_id c (insert_project new_id user_id b db) db' h₁ owned
      | inr e ↦ elim (Bool-cases (b.type == "gerrit")) [
        | inl e' ↦
            let same : add_gerrit repo_id new_id b.name (insert_project new_id user_id b db) ≡ db' =
              ground arith in
            rw (← same) record { names = owned.names; owners = owned.owners }
        | inr e' ↦
            let same : insert_project new_id user_id b db ≡ db' = ground arith in rw (← same) owned
      ]
    ]

add_project-Owned :
    (api : RepoApi) (new_id repo_id user_id : String) (b : NewProject) (db db' : Tables)
    → add_project api new_id repo_id user_id b db ≡ done db'
    → Owned db
    → Owned db'
unfolding add_project
add_project-Owned api new_id repo_id user_id b db db' h owned =
    let (_, room, h₁) =
      bind-done (demand (leb (count_projects user_id db) 50) 400 "too many projects") _ h in
    let (_, new, h₂) =
      bind-done
        (demand (not (any (is_named b.name) db.projects)) 400
          "A project with this name already exists")
        _ h₁ in
    let fresh =
      demand-done (not (any (is_named b.name) db.projects)) 400
        "A project with this name already exists" new in
    let free : any (is_named b.name) db.projects ≡ false = ground arith in
    add_typed-Owned api new_id repo_id user_id b db db' h₂
      (insert_project-Owned new_id user_id b db free owned)

delete_project-Owned :
    (user_id project_id : String) (db db' : Tables)
    → delete_project user_id project_id db ≡ done db'
    → Owned db
    → Owned db'
unfolding delete_project
delete_project-Owned user_id project_id db db' h owned =
    elim (List-cases (rows_where (has_project project_id) db.projects)) [
      | inl e ↦ let h' = rw (delete_project, e) at h in ground arith
      | inr (p, ps, e) ↦
          let (_, gone, h₁) =
            bind-done (unhook user_id project_id p db) _ (rw (delete_project, e) at h) in
          let same : drop_project project_id db ≡ db' = cc in
          rw (← same) (drop_project-Owned project_id db owned)
    ]

-- A request of a user.
pub data ProjectRequest : Type 0 where
  add : RepoApi → (new_id repo_id user_id : String) → NewProject → ProjectRequest
  remove : (user_id project_id : String) → ProjectRequest

unfoldable pub handle_project : ProjectRequest → Tables → Response Tables
handle_project (add api new_id repo_id user_id b) db = add_project api new_id repo_id user_id b db
handle_project (remove user_id project_id) db = delete_project user_id project_id db

-- A request that is refused or raises an exception changes nothing.
unfoldable pub handle_projects : List ProjectRequest → Tables → Tables
handle_projects [] db = db
handle_projects (r ∷ rs) db = handle_projects rs (kept_tables db (handle_project r db))

handle_project-Owned :
    (r : ProjectRequest) (db db' : Tables) → handle_project r db ≡ done db' → Owned db → Owned db'
unfolding handle_project
handle_project-Owned (add api new_id repo_id user_id b) db db' h owned =
    add_project-Owned api new_id repo_id user_id b db db' h owned
handle_project-Owned (remove user_id project_id) db db' h owned =
    delete_project-Owned user_id project_id db db' h owned

-- Whatever requests to add and to delete projects come, one after another: if no two projects have one
-- name and each project has an owner, then so it is after them.
pub handle_projects-Owned :
    (rs : List ProjectRequest) (db : Tables) → Owned db → Owned (handle_projects rs db)
unfolding handle_projects
handle_projects-Owned [] db owned = owned
handle_projects-Owned (r ∷ rs) db owned =
    handle_projects-Owned rs (kept_tables db (handle_project r db)) (
      kept_tables-keeps Owned db (handle_project r db) owned
        (λ db' e. handle_project-Owned r db db' e owned))
