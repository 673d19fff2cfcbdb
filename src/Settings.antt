-- ===== src/Settings.antt =====
-- The settings of a project: src/api/handlers/projects/secrets.py, tokens.py and collaborators.py.
-- `auth_required` stands before each handler. The ids that the database makes are arguments.
pub mod Limits
pub mod Inverse
pub mod Owners
use infrabox.Guards.{Collaborator, is_row_of}
use infrabox.Http.{Response, abort, ◌>>◌, demand, done}
use Prim.Native.Char.{code}
use infrabox.Prelude.{
  none, some, String, ℕ, List, Bool, delete_where, leb, true, false, ◌==◌, lookup, ◌&&◌, eqb, ◌||◌,
  count_where, not, if◌then◌else◌, ◌++◌, ◌∷◌, [],
}

pub record Secret : Type 0 where
  pub id : String
  pub project_id : String
  pub name : String
  pub value : String

-- [a-zA-Z0-9_]
abbrev pub is_word : ℕ → Bool
is_word c =
    (leb b'a' c && leb c b'z')
    || (leb b'A' c && leb c b'Z')
    || (leb b'0' c && leb c b'9')
    || eqb c b'_'

-- Where `$` matches: at the end, or at a line feed that ends the text.
abbrev pub at_end : String → Bool
at_end String.[] = true
at_end (String.◌∷◌ c String.[]) = eqb (code c) 10
at_end _ = false

-- `[a-zA-Z0-9_]*$`
unfoldable pub match_words : String → Bool
match_words String.[] = true
match_words (String.◌∷◌ c s) = (is_word (code c) && match_words s) || at_end (String.◌∷◌ c s)

-- `name_pattern.match(name)`, with the pattern ^[a-zA-Z0-9_]+$
unfoldable pub name_pattern : String → Bool
name_pattern String.[] = false
name_pattern (String.◌∷◌ c s) = is_word (code c) && match_words s

abbrev pub of_project : String → Secret → Bool
of_project project_id s = s.project_id == project_id

abbrev pub has_name : String → String → Secret → Bool
has_name project_id name s = s.project_id == project_id && s.name == name

-- Secrets.post. `encrypt` is the library's.
unfoldable pub add_secret :
    (String → String) → String → String → String → String → List Secret → Response (List Secret)
add_secret encrypt new_id project_id name value secrets = do
  demand (name_pattern name) 400 "Secret name must be not empty alphanumeric string"
  demand (leb (count_where (of_project project_id) secrets) 50) 400 "Too many secrets"
  demand (eqb (count_where (has_name project_id name) secrets) 0) 400
      "Secret with this name already exist"
  done (
      secrets
      ++ record { id = new_id; project_id = project_id; name = name; value = encrypt value } ∷ [])

-- Secret.delete
unfoldable pub delete_secret : String → String → List Secret → List Secret
delete_secret project_id secret_id =
    delete_where (λ (s : Secret). s.project_id == project_id && s.id == secret_id)

pub record ProjectToken : Type 0 where
  pub id : String
  pub project_id : String
  pub description : String

-- Tokens.post, less the token's text.
unfoldable pub add_token :
    String → String → String → List ProjectToken → Response (List ProjectToken)
add_token new_id project_id description tokens = do
  demand
      (eqb
        (count_where
          (λ (t : ProjectToken). t.project_id == project_id && t.description == description) tokens)
        0)
      400 "Token with such a description already exists."
  done (tokens ++ record { id = new_id; project_id = project_id; description = description } ∷ [])

-- Token.delete. `is_uuid` is `validate_uuid4`, which rests on the library uuid.
unfoldable pub delete_token :
    (String → Bool) → String → String → List ProjectToken → Response (List ProjectToken)
delete_token is_uuid project_id token_id tokens = do
  demand (is_uuid token_id) 400 "Invalid project-token uuid"
  demand
      (not (
        eqb
          (count_where (λ (t : ProjectToken). t.project_id == project_id && t.id == token_id)
            tokens)
          0))
      400 "Such token does not exist."
  done (delete_where (λ (t : ProjectToken). t.project_id == project_id && t.id == token_id) tokens)

-- The table "user": ids by username.
unfoldable pub add_collaborator :
    List (String × String) → String → String → List Collaborator → Response (List Collaborator)
add_collaborator users project_id username rows = elim (lookup username users) [
  | none ↦ abort 400 "User not found."
  | some user_id ↦
      if eqb (count_where (is_row_of user_id project_id) rows) 0
      then done (rows ++ record { user_id = user_id; project_id = project_id; owner = false } ∷ [])
      else done rows
]

-- Collaborator.delete; `caller` is the user of the token.
unfoldable pub remove_collaborator :
    String → String → String → List Collaborator → Response (List Collaborator)
remove_collaborator caller project_id user_id rows = do
  demand (not (user_id == caller)) 400
      "It's not allowed to delete the owner of the project from collaborators."
  if eqb (count_where (is_row_of user_id project_id) rows) 0
      then done rows
      else done (delete_where (is_row_of user_id project_id) rows)
