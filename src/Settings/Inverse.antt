-- ===== src/Settings/Inverse.antt =====
-- src/api/handlers/projects/collaborators.py and tokens.py: to remove undoes to add.
use infrabox.Settings.{add_collaborator, add_token, remove_collaborator, ProjectToken, delete_token}
use infrabox.Prelude.{
  refl, Bool, String, delete_where, count_where, List, ◌==◌, ◌≡◌, lookup, ◌&&◌, true, some, ◌++◌,
  ◌∷◌, ◌≢◌, [], false, arith, eqb, eq_iff, count_where-append, ◌∙◌,
}
use infrabox.Http.{◌>>=◌, done, bind-done, demand}
use infrabox.Guards.{Collaborator, is_row_of}

module _ {A : Type 0} (test : A → Bool) where
  -- The one row that passes the test is the last.
  delete_where-append :
      (xs : List A) (x : A)
      → count_where test xs ≡ 0
      → test x ≡ true
      → delete_where test (xs ++ x ∷ []) ≡ xs
  unfolding delete_where count_where
  delete_where-append [] x none_yet last = ground arith
  delete_where-append (y ∷ ys) x none_yet last = ground (arith, delete_where-append ys x)

-- If a user who is known by that name and is no collaborator is added, and then removed by another
-- user, the collaborators are as before.
pub remove_collaborator-add_collaborator :
    (users : List (String × String)) (caller project_id username user_id : String)
    (rows : List Collaborator)
    → lookup username users ≡ some user_id
    → count_where (is_row_of user_id project_id) rows ≡ 0
    → user_id ≢ caller
    → (add_collaborator users project_id username rows
        >>= remove_collaborator caller project_id user_id)
      ≡ done rows
unfolding add_collaborator remove_collaborator
remove_collaborator-add_collaborator users caller project_id username user_id rows known new other =
    let row : Collaborator = record { user_id = user_id; project_id = project_id; owner = false } in
    let is : is_row_of user_id project_id row ≡ true =
      ground (arith, eq_iff user_id user_id, eq_iff project_id project_id) in
    let apart : (user_id == caller) ≡ false = ground (arith, eq_iff user_id caller) in
    let one : count_where (is_row_of user_id project_id) (rows ++ row ∷ []) ≡ 1 =
      count_where-append (is_row_of user_id project_id) rows row ∙ rw (new, is) (omega arith) in
    let back = delete_where-append (is_row_of user_id project_id) rows row new is in
    rw (add_collaborator, known, new, ◌>>=◌, remove_collaborator, apart, one, back) refl

-- WHERE project_id = ... and id = ...
abbrev pub is_token : String → String → ProjectToken → Bool
is_token project_id token_id t = t.project_id == project_id && t.id == token_id

-- If a token is added under a new id, which is a uuid, and then deleted, the tokens are as before.
pub delete_token-add_token :
    (is_uuid : String → Bool) (new_id project_id description : String)
    (tokens tokens' : List ProjectToken)
    → is_uuid new_id ≡ true
    → count_where (is_token project_id new_id) tokens ≡ 0
    → add_token new_id project_id description tokens ≡ done tokens'
    → delete_token is_uuid project_id new_id tokens' ≡ done tokens
unfolding add_token delete_token
delete_token-add_token is_uuid new_id project_id description tokens tokens' uuid new h =
    let row : ProjectToken = record {
      id = new_id;
      project_id = project_id;
      description = description;
    } in
    let (_, _, h₁) =
      bind-done
        (demand
          (eqb
            (count_where
              (λ (t : ProjectToken). t.project_id == project_id && t.description == description)
              tokens)
            0)
          400 "Token with such a description already exists.")
        _ h in
    let same : tokens ++ row ∷ [] ≡ tokens' = ground arith in
    let is : is_token project_id new_id row ≡ true =
      ground (arith, eq_iff new_id new_id, eq_iff project_id project_id) in
    let one : count_where (is_token project_id new_id) (tokens ++ row ∷ []) ≡ 1 =
      count_where-append (is_token project_id new_id) tokens row ∙ rw (new, is) (omega arith) in
    let back = delete_where-append (is_token project_id new_id) tokens row new is in
    rw (← same, delete_token, uuid, ◌>>=◌, one, back) refl
