-- ===== src/Registry.antt =====
-- src/docker-registry/auth/server.py: who may use the docker registry. The proxy passes the method of
-- the request on in the header X-Original-Method.
pub mod Grants
use infrabox.Jobs.Rows.{find_row}
use infrabox.Texts.{split}
use infrabox.Http.{Guard, Response, ◌>>=◌, demand, ◌>>◌, done}
use infrabox.Jobs.{State, Job, running, select, has_id}
use infrabox.Prelude.{
  String, List, Option, Bool, ◌==◌, true, ◌∷◌, ◌&&◌, false, eqb, some, count_where, if◌then◌else◌,
  none, [],
}
use infrabox.Guards.{
  Token, Codec, Db, Request, AuthToken, project_token, token_required, unauthorized, job_token,
}

-- WHERE id = token_id AND project_id = project_id
abbrev pub is_auth_token : String → String → AuthToken → Bool
is_auth_token token_id project_id a = a.id == token_id && a.project_id == project_id

abbrev pub is_running : State → Bool
is_running running = true
is_running _ = false

-- SELECT state FROM job WHERE id = job_id: one row must come back.
abbrev pub one_running : List Job → Guard
one_running (j ∷ []) = demand (is_running j.state) 401 "Unauthorized"
one_running _ = unauthorized

-- The body of `v2`. Only the type 'project' is known here.
unfoldable pub grant : Db → Token → Guard
grant db (project_token false token_id project_id) =
    demand (eqb (count_where (is_auth_token token_id project_id) db.auth_tokens) 1) 401
      "Unauthorized"
grant db (job_token job_id) = one_running (select (has_id job_id) db.jobs)
grant db _ = unauthorized

unfoldable pub v2 : Codec → Db → Request → Guard
v2 codec db r = do token ← token_required codec r; grant db token

-- The end of `v2_path`, for the first part of the path.
unfoldable pub grant_path : Db → String → String → Token → Guard
grant_path db method project_id (project_token false token_id own) = do
  demand (method == "GET") 401 "Unauthorized"
  demand (project_id == own) 401 "Unauthorized"
  demand (eqb (count_where (is_auth_token token_id own) db.auth_tokens) 1) 401 "Unauthorized"
grant_path db method project_id (job_token job_id) = elim (find_row job_id db.jobs) [
  | none ↦ unauthorized
  | some j ↦ (do
    demand (is_running j.state) 401 "Unauthorized"
    demand (project_id == j.project_id) 401 "Unauthorized")
]
grant_path db method project_id _ = unauthorized

-- `p[0]`, if the path has two parts or more.
abbrev pub first_of_two : List String → Response String
first_of_two (a ∷ b ∷ rest) = done a
first_of_two _ = unauthorized

abbrev pub original_method : Option String → Response String
original_method none = unauthorized
original_method (some m) = if m == "" then unauthorized else done m

unfoldable pub v2_path : Codec → Db → String → Request → Guard
v2_path codec db path r = do
  token ← token_required codec r
  method ← original_method r.method
  project_id ← first_of_two (split b'/' path)
  grant_path db method project_id token
