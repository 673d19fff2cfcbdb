-- ===== src/Settings/Limits.antt =====
-- src/api/handlers/projects/secrets.py: what every sequence of requests keeps of the table `secret`.

use mathlib.Core.Path.{subst}
use infrabox.Http.{
  Response, done, bind-done, abort, demand, key_error, demand-done, index_error, type_error,
  unbound_local_error, lookup_error, database_error, assertion_error,
}
use infrabox.Settings.{add_secret, delete_secret, Secret, of_project, has_name, name_pattern}
use infrabox.Prelude.{
  refl, String, List, count_where, delete_where, Bool, ◌∷◌, ◌++◌, ◌≤◌, All, leb, eqb, ◌≡◌, arith,
  [], Bool-cases, true, ◌==◌, ◌&&◌, inl, eq_iff, inr, All-append, count_where-append,
  count_where-delete_where-le,
}

-- POST and DELETE of the secrets, with the id that the database gives to a new row.
pub data Change : Type 0 where
  post : String → String → String → String → Change
  delete : String → String → Change

-- A request that is refused changes nothing.
abbrev pub stored : List Secret → Response (List Secret) → List Secret
stored secrets (done secrets') = secrets'
stored secrets _ = secrets

unfoldable pub change : (String → String) → Change → List Secret → List Secret
change encrypt (post new_id project_id name value) secrets =
    stored secrets (add_secret encrypt new_id project_id name value secrets)
change encrypt (delete project_id secret_id) secrets = delete_secret project_id secret_id secrets

unfoldable pub changes : (String → String) → List Change → List Secret → List Secret
changes encrypt [] secrets = secrets
changes encrypt (c ∷ cs) secrets = changes encrypt cs (change encrypt c secrets)

pub record Kept (secrets : List Secret) : Type 0 where
  pub few : (project_id : String) → count_where (of_project project_id) secrets ≤ 51
  pub single : (project_id name : String) → count_where (has_name project_id name) secrets ≤ 1
  pub named : All (λ (s : Secret). name_pattern s.name ≡ true) secrets

module _ {ℓ} {A : Type ℓ} where
  All-delete_where {κ} :
      (P : A → Type κ) (other : A → Bool) (xs : List A) → All P xs → All P (delete_where other xs)
  unfolding delete_where
  All-delete_where P other [] h = tt
  All-delete_where P other (x ∷ xs) (p, h) = elim (Bool-cases (other x)) [
    | inl e ↦ rw e (All-delete_where P other xs h)
    | inr e ↦ rw e (p, All-delete_where P other xs h)
  ]

grown_few :
    (p : String) (secrets : List Secret) (row : Secret)
    → leb (count_where (of_project row.project_id) secrets) 50 ≡ true
    → count_where (of_project p) secrets ≤ 51
    → count_where (of_project p) (secrets ++ row ∷ []) ≤ 51
grown_few p secrets row fits few = elim (Bool-cases (row.project_id == p)) [
  | inl e ↦
      let same = (eq_iff row.project_id p).0 e in
      let fits' = subst (λ q. leb (count_where (of_project q) secrets) 50 ≡ true) (same) fits in
      rw (count_where-append (of_project p) secrets row) (ground (arith, e))
  | inr e ↦ rw (count_where-append (of_project p) secrets row, e) (omega arith)
]

grown_single :
    (p n : String) (secrets : List Secret) (row : Secret)
    → eqb (count_where (has_name row.project_id row.name) secrets) 0 ≡ true
    → count_where (has_name p n) secrets ≤ 1
    → count_where (has_name p n) (secrets ++ row ∷ []) ≤ 1
grown_single p n secrets row fresh single = elim (Bool-cases (has_name p n row)) [
  | inl e ↦
      let same : row.project_id ≡ p = ground (arith, eq_iff row.project_id p) in
      let name : row.name ≡ n = ground (arith, eq_iff row.name n) in
      let fresh' =
        subst (λ q. eqb (count_where (has_name q row.name) secrets) 0 ≡ true) (same) fresh in
      let fresh'' = subst (λ q. eqb (count_where (has_name p q) secrets) 0 ≡ true) (name) fresh' in
      rw (count_where-append (has_name p n) secrets row) (ground (arith, e))
  | inr e ↦ rw (count_where-append (has_name p n) secrets row, e) (omega arith)
]

add_secret-Kept :
    (encrypt : String → String) (new_id project_id name value : String)
    (secrets secrets' : List Secret)
    → Kept secrets
    → add_secret encrypt new_id project_id name value secrets ≡ done secrets'
    → Kept secrets'
unfolding add_secret
add_secret-Kept encrypt new_id project_id name value secrets secrets' k h =
    let row : Secret = record {
      id = new_id;
      project_id = project_id;
      name = name;
      value = encrypt value;
    } in
    let (_, good, h₁) =
      bind-done (demand (name_pattern name) 400 "Secret name must be not empty alphanumeric string")
        _ h in
    let (_, room, h₂) =
      bind-done
        (demand (leb (count_where (of_project project_id) secrets) 50) 400 "Too many secrets") _
        h₁ in
    let (_, new, h₃) =
      bind-done
        (demand (eqb (count_where (has_name project_id name) secrets) 0) 400
          "Secret with this name already exist")
        _ h₂ in
    let named =
      demand-done (name_pattern name) 400 "Secret name must be not empty alphanumeric string"
        good in
    let fits =
      demand-done (leb (count_where (of_project project_id) secrets) 50) 400 "Too many secrets"
        room in
    let fresh =
      demand-done (eqb (count_where (has_name project_id name) secrets) 0) 400
        "Secret with this name already exist" new in
    let e : secrets' ≡ secrets ++ row ∷ [] = ground arith in
    rw e record {
      few = λ p. grown_few p secrets row fits (k.few p);
      single = λ p n. grown_single p n secrets row fresh (k.single p n);
      named = All-append _ secrets (row ∷ []) k.named (named, tt);
    }

stored-Kept :
    (secrets : List Secret) (r : Response (List Secret))
    → Kept secrets
    → ((secrets' : List Secret) → r ≡ done secrets' → Kept secrets')
    → Kept (stored secrets r)
stored-Kept secrets (done secrets') k next = next secrets' refl
stored-Kept secrets (abort code message) k next = k
stored-Kept secrets (key_error key) k next = k
stored-Kept secrets index_error k next = k
stored-Kept secrets assertion_error k next = k
stored-Kept secrets type_error k next = k
stored-Kept secrets unbound_local_error k next = k
stored-Kept secrets lookup_error k next = k
stored-Kept secrets database_error k next = k

delete_secret-Kept :
    (project_id secret_id : String) (secrets : List Secret)
    → Kept secrets
    → Kept (delete_secret project_id secret_id secrets)
unfolding delete_secret
delete_secret-Kept project_id secret_id secrets k = record {
  few = λ p. omega (
    arith,
    k.few p,
    count_where-delete_where-le (of_project p)
        (λ (s : Secret). s.project_id == project_id && s.id == secret_id) secrets,
  );
  single = λ p n. omega (
    arith,
    k.single p n,
    count_where-delete_where-le (has_name p n)
        (λ (s : Secret). s.project_id == project_id && s.id == secret_id) secrets,
  );
  named = All-delete_where _ _ secrets k.named;
}

change-Kept :
    (encrypt : String → String) (c : Change) (secrets : List Secret)
    → Kept secrets
    → Kept (change encrypt c secrets)
unfolding change
change-Kept encrypt (post new_id project_id name value) secrets k =
    stored-Kept secrets (add_secret encrypt new_id project_id name value secrets) k
      (λ secrets' h. add_secret-Kept encrypt new_id project_id name value secrets secrets' k h)
change-Kept encrypt (delete project_id secret_id) secrets k =
    delete_secret-Kept project_id secret_id secrets k

-- Whatever requests to add and to delete secrets come, in any order: if no project had more than 51
-- secrets, no project had two of one name, and each name passed the test for names, then so it is after
-- them.
pub changes-Kept :
    (encrypt : String → String) (cs : List Change) (secrets : List Secret)
    → Kept secrets
    → Kept (changes encrypt cs secrets)
unfolding changes
changes-Kept encrypt [] secrets k = k
changes-Kept encrypt (c ∷ cs) secrets k =
    changes-Kept encrypt cs (change encrypt c secrets) (change-Kept encrypt c secrets k)
