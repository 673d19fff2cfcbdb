-- ===== src/Guards.antt =====
-- src/pyinfraboxutils/ibflask.py: who may call a handler. The signature of a token is checked by the
-- library jwt, which is an argument, as is base64. The tables are those of src/db/migrations.
use infrabox.Texts.{starts_with, split, split_on, text_length}
use infrabox.Jobs.{Table, state_of, Job, is_active}
use infrabox.Http.{Response, Guard, abort, assertion_error, ◌>>◌, ◌>>=◌, done, demand, index_error}
use infrabox.Prelude.{
  String, List, Option, Bool, false, if◌then◌else◌, ◌==◌, contains, none, some, true, not, ◌||◌,
  ◌&&◌, ◌∷◌, any, [], suc,
}
pub mod Access

pub record Collaborator : Type 0 where
  pub user_id : String
  pub project_id : String
  pub owner : Bool

pub record Project : Type 0 where
  pub id : String
  pub name : String
  pub public : Bool

pub record AuthToken : Type 0 where
  pub id : String
  pub project_id : String

pub record Db : Type 0 where
  pub users : List String
  pub collaborators : List Collaborator
  pub projects : List Project
  pub auth_tokens : List AuthToken
  pub jobs : Table

-- What src/pyinfraboxutils/token.py puts into a token. A project's token has the type 'project', or
-- 'project-token' if it is of an earlier version. `other_token` is a token of any other type.
pub data Token : Type 0 where
  user_token : (user_id : String) → Token
  project_token : (earlier : Bool) (id project_id : String) → Token
  job_token : (job_id : String) → Token
  other_token : (type : String) → Token

abbrev pub type_of_token : Token → String
type_of_token (user_token u) = "user"
type_of_token (project_token true i p) = "project-token"
type_of_token (project_token false i p) = "project"
type_of_token (job_token j) = "job"
type_of_token (other_token t) = t

-- The headers of a request that are read, and the arguments of its URL.
pub record Request : Type 0 where
  pub authorization : Option String
  pub cookie : Option String
  pub method : Option String
  pub project_id : Option String
  pub project_name : Option String

-- The libraries: both give none where Python's raise.
pub record Codec : Type 0 where
  pub b64decode : String → Option String
  pub decode : String → Option Token

abbrev pub unauthorized {ℓ} : {A : Type ℓ} → Response A
unauthorized = abort 401 "Unauthorized"

abbrev pub or_unauthorized {ℓ} : {A : Type ℓ} → Option A → Response A
or_unauthorized none = unauthorized
or_unauthorized (some a) = done a

-- `s[1]`
abbrev pub second : List String → Response String
second (a ∷ b ∷ rest) = done b
second _ = index_error

-- The part after 'infrabox:' of what the header has in base64.
abbrev pub password : List String → Response String
password (a ∷ b ∷ []) = done b
password _ = unauthorized

abbrev pub given : Option String → Bool
given none = false
given (some s) = not (s == "")

module _ (codec : Codec) where
  unfoldable pub parse_auth : String → Response Token
  parse_auth auth =
      if starts_with "Basic " auth
      then (do
        word ← second (split b' ' auth)
        decoded ← or_unauthorized (codec.b64decode word)
        s ← password (split_on (suc (text_length decoded)) "infrabox:" decoded)
        or_unauthorized (codec.decode s))
      else if starts_with "token " auth || starts_with "bearer " auth
      then (do word ← second (split b' ' auth); or_unauthorized (codec.decode word))
      else unauthorized

  abbrev pub parse_cookie : Option String → Response Token
  parse_cookie none = unauthorized
  parse_cookie (some c) = if c == "" then unauthorized else or_unauthorized (codec.decode c)

  -- An empty header or cookie is as good as none.
  unfoldable pub get_token : Request → Response Token
  get_token r = elim r.authorization [
    | none ↦ parse_cookie r.cookie
    | some auth ↦ if auth == "" then parse_cookie r.cookie else parse_auth auth
  ]

  unfoldable pub token_required : Request → Response Token
  token_required r = get_token r

-- WHERE id = job_id AND project_id = project_id
abbrev pub is_job_of : String → String → Job → Bool
is_job_of job_id project_id j = j.id == job_id && j.project_id == project_id

unfoldable pub check_job_belongs_to_project : Db → Option String → Option String → Guard
check_job_belongs_to_project db none job_id = assertion_error
check_job_belongs_to_project db (some p) none = assertion_error
check_job_belongs_to_project db (some p) (some j) =
    if p == "" || j == "" then assertion_error else demand (any (is_job_of j p) db.jobs) 404 ""

-- The guard of the handlers that a job calls, and `validate_job_token`.
unfoldable pub validate_job : Db → String → Guard
validate_job db job_id = elim (state_of job_id db.jobs) [
  | none ↦ unauthorized
  | some s ↦ demand (is_active s) 401 "Unauthorized"
]

-- The join with "user" drops a row whose user is gone.
abbrev pub is_row_of : String → String → Collaborator → Bool
is_row_of user_id project_id c = c.user_id == user_id && c.project_id == project_id

unfoldable pub is_collaborator : Db → String → String → Bool
is_collaborator db user_id project_id =
    contains db.users user_id && any (is_row_of user_id project_id) db.collaborators

unfoldable pub is_owner : Db → String → String → Bool
is_owner db user_id project_id =
    contains db.users user_id
    && any (λ c. is_row_of user_id project_id c && c.owner) db.collaborators

unfoldable pub find_public : (Project → Bool) → List Project → Option Bool
find_public test [] = none
find_public test (p ∷ ps) = if test p then some p.public else find_public test ps

abbrev pub or_not_found : Option Bool → Response Bool
or_not_found none = abort 404 "Project not found"
or_not_found (some public) = done public

abbrev pub is_public_by_name : Db → Option String → Response Bool
is_public_by_name db none = unauthorized
is_public_by_name db (some n) =
    if n == "" then unauthorized else or_not_found (find_public (λ p. p.name == n) db.projects)

unfoldable pub is_public : Db → Option String → Option String → Response Bool
is_public db none project_name = is_public_by_name db project_name
is_public db (some p) project_name =
    if p == ""
    then is_public_by_name db project_name
    else or_not_found (find_public (λ q. q.id == p) db.projects)

-- The arguments of `auth_required`.
pub record Options : Type 0 where
  pub types : List String
  pub check_project_access : Bool
  pub check_project_owner : Bool
  pub check_admin : Bool
  pub allow_if_public : Bool

-- A check on the project of the request, if there is one.
abbrev pub on_project : Option String → (String → Bool) → Guard
on_project none check = unauthorized
on_project (some p) check = if p == "" then unauthorized else demand (check p) 401 "Unauthorized"

unfoldable pub validate_user_token : Db → String → Bool → Option String → Bool → Guard
validate_user_token db u check_project_access project_id check_project_owner = do
  demand (contains db.users u) 401 "Unauthorized"
  if check_project_access then on_project project_id (λ p. is_collaborator db u p) else done tt
  if check_project_owner then on_project project_id (λ p. is_owner db u p) else done tt

unfoldable pub validate_project_token : String → Bool → Option String → Guard
validate_project_token own check_project_access project_id =
    if check_project_access
    then elim project_id [ none ↦ unauthorized | some p ↦ demand (p == own) 401 "Unauthorized" ]
    else done tt

abbrev pub admin : String
admin = "00000000-0000-0000-0000-000000000000"

-- The type that is looked up in `types`.
abbrev pub normal_type : Token → String
normal_type (project_token earlier i p) = "project"
normal_type t = type_of_token t

unfoldable pub validate_token : Options → Db → Option String → Token → Guard
validate_token o db project_id (job_token j) =
    if o.check_project_owner then unauthorized else validate_job db j
validate_token o db project_id (user_token u) =
    if u == admin
    then done tt
    else if o.check_admin
    then unauthorized
    else validate_user_token db u o.check_project_access project_id o.check_project_owner
validate_token o db project_id (project_token earlier i p) =
    if o.check_project_owner
    then unauthorized
    else validate_project_token p o.check_project_access project_id
validate_token o db project_id (other_token t) = unauthorized

unfoldable pub authorize : Codec → Options → Db → Request → Guard
authorize codec o db r = do
  token ← get_token codec r
  demand (contains o.types (normal_type token)) 401 "Unauthorized"
  validate_token o db r.project_id token

-- The decorator: the handler runs if this returns.
unfoldable pub auth_required : Codec → Options → Db → Request → Guard
auth_required codec o db r =
    if o.allow_if_public
    then (do
      public ← is_public db r.project_id r.project_name
      if public then done tt else authorize codec o db r)
    else authorize codec o db r
