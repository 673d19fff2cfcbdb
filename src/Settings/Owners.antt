-- ===== src/Settings/Owners.antt =====
-- src/api/handlers/projects/collaborators.py: who may be removed.
use infrabox.Http.{bind-done, demand, demand-done}
use infrabox.Guards.{Collaborator, is_row_of}
use infrabox.Settings.{remove_collaborator, done}
use infrabox.Prelude.{
  refl, String, rows_where, List, delete_where, Bool, All, ◌==◌, ◌≡◌, ◌&&◌, true, false, ◌∷◌, arith,
  not, eq_iff, [],
}

-- A row that makes its user an owner of the project.
abbrev pub owner_row : String → Collaborator → Bool
owner_row project_id r = r.project_id == project_id && r.owner

-- The caller is the project's only owner.
abbrev pub SoleOwner : String → String → List Collaborator → Type 0
SoleOwner caller project_id =
    All (λ (r : Collaborator). owner_row project_id r ≡ true → r.user_id ≡ caller)

delete-owner_row :
    (caller project_id user_id q : String) (rows : List Collaborator)
    → (user_id == caller) ≡ false
    → SoleOwner caller project_id rows
    → rows_where (owner_row q) (delete_where (is_row_of user_id project_id) rows)
      ≡ rows_where (owner_row q) rows
unfolding rows_where delete_where
delete-owner_row caller project_id user_id q [] h sole = refl
delete-owner_row caller project_id user_id q (r ∷ rows) h (owner, sole) = ground (
  arith,
  delete-owner_row caller project_id user_id q rows h sole,
  eq_iff r.project_id q,
  eq_iff r.project_id project_id,
  eq_iff r.user_id user_id,
  eq_iff user_id caller,
)

-- If the caller is the only owner of the project, then to remove a collaborator leaves the rows of
-- every project's owners as they are.
pub remove_collaborator-owners :
    (caller project_id user_id q : String) (rows rows' : List Collaborator)
    → SoleOwner caller project_id rows
    → remove_collaborator caller project_id user_id rows ≡ done rows'
    → rows_where (owner_row q) rows' ≡ rows_where (owner_row q) rows
unfolding remove_collaborator
remove_collaborator-owners caller project_id user_id q rows rows' sole h =
    let (_, other, h₁) =
      bind-done
        (demand (not (user_id == caller)) 400
          "It's not allowed to delete the owner of the project from collaborators.")
        _ h in
    let allowed =
      demand-done (not (user_id == caller)) 400
        "It's not allowed to delete the owner of the project from collaborators." other in
    ground (arith, delete-owner_row caller project_id user_id q rows)
