-- ===== src/Registry/Grants.antt =====
-- src/docker-registry/auth/server.py: exactly which requests to a path of the registry are let through.
use infrabox.Jobs.Rows.{find_row}
use infrabox.Texts.{split}
use infrabox.Http.{◌>>◌, bind-done, demand, demand-done}
use infrabox.Prelude.{
  List, String, ◌≡◌, true, count_where, ◌∷◌, ◌↔◌, arith, eq_iff, [], ◌==◌, some, Option-cases, inl,
  false, inr, refl,
}
use infrabox.Registry.{
  grant_path, v2_path, is_running, first_of_two, done, original_method, is_auth_token,
}
use infrabox.Jobs.{
  State, running, queued, Job, scheduled, finished, failure, error, skipped, killed,
}
use infrabox.Guards.{
  Db, Codec, token_required, Token, Request, get_token, project_token, user_token, other_token,
  job_token,
}

-- What a token must have for a request with the method to the project.
abbrev pub MayAccess : Db → String → String → Token → Type 0
MayAccess db method project_id (project_token false token_id own) =
    (method ≡ "GET")
    × (project_id ≡ own)
    × (count_where (is_auth_token token_id own) db.auth_tokens ≡ 1)
MayAccess db method project_id (job_token j) =
    (x : Job) × (find_row j db.jobs ≡ some x) × (x.state ≡ running) × (project_id ≡ x.project_id)
MayAccess db method project_id _ = ⊥

is_running-running : (s : State) → is_running s ≡ true → s ≡ running
is_running-running running h = refl
is_running-running queued h = ground arith
is_running-running scheduled h = ground arith
is_running-running finished h = ground arith
is_running-running failure h = ground arith
is_running-running error h = ground arith
is_running-running skipped h = ground arith
is_running-running killed h = ground arith

grant_path-MayAccess :
    (db : Db) (method project_id : String) (t : Token)
    → grant_path db method project_id t ≡ done tt
    → MayAccess db method project_id t
unfolding grant_path
grant_path-MayAccess db method project_id (user_token u) h = ground arith
grant_path-MayAccess db method project_id (other_token t) h = ground arith
grant_path-MayAccess db method project_id (project_token true i own) h = ground arith
grant_path-MayAccess db method project_id (project_token false i own) h =
    let (_, gets, h₁) = bind-done (demand (method == "GET") 401 "Unauthorized") _ h in
    let (_, same, h₂) = bind-done (demand (project_id == own) 401 "Unauthorized") _ h₁ in
    let got = demand-done _ 401 "Unauthorized" gets in
    let equal = demand-done _ 401 "Unauthorized" same in
    let one = demand-done _ 401 "Unauthorized" h₂ in
    (ground (arith, eq_iff method "GET"), ground (arith, eq_iff project_id own), ground arith)
grant_path-MayAccess db method project_id (job_token j) h =
    elim (Option-cases (find_row j db.jobs)) [
      | inl missing ↦ let e = rw (missing, grant_path) at h in ground arith
      | inr (x, found) ↦
          let h' : (demand (is_running x.state) 401 "Unauthorized"
                >> demand (project_id == x.project_id) 401 "Unauthorized")
              ≡ done tt =
            rw (grant_path, found) at h in
          let (_, runs, h₁) = bind-done (demand (is_running x.state) 401 "Unauthorized") _ h' in
          let running' = is_running-running x.state (demand-done _ 401 "Unauthorized" runs) in
          let same = demand-done _ 401 "Unauthorized" h₁ in
          (x, found, running', ground (arith, eq_iff project_id x.project_id))
    ]

MayAccess-grant_path :
    (db : Db) (method project_id : String) (t : Token)
    → MayAccess db method project_id t
    → grant_path db method project_id t ≡ done tt
unfolding grant_path
MayAccess-grant_path db method project_id (user_token u) h = absurd h
MayAccess-grant_path db method project_id (other_token t) h = absurd h
MayAccess-grant_path db method project_id (project_token true i own) h = absurd h
MayAccess-grant_path db method project_id (project_token false i own) (gets, same, one) =
    ground (arith, eq_iff method "GET", eq_iff project_id own)
MayAccess-grant_path db method project_id (job_token j) (x, found, runs, same) =
    rw (grant_path, found, runs) (ground (arith, eq_iff project_id x.project_id))

-- A token, a method and a path that go together.
abbrev pub Granted : Codec → Db → String → Request → Type 0
Granted codec db path r =
    (t : Token) × (method : String) × (project_id : String) × (part : String) × (rest : List String)
    × (get_token codec r ≡ done t)
    × (original_method r.method ≡ done method)
    × (split b'/' path ≡ project_id ∷ part ∷ rest)
    × MayAccess db method project_id t

first_of_two-done :
    (ws : List String) (a : String)
    → first_of_two ws ≡ done a
    → (b : String) × (rest : List String) × (ws ≡ a ∷ b ∷ rest)
first_of_two-done [] a h = ground arith
first_of_two-done (x ∷ []) a h = ground arith
first_of_two-done (x ∷ b ∷ rest) a h = (b, rest, ground arith)

passed-Granted :
    (codec : Codec) (db : Db) (path : String) (r : Request)
    → v2_path codec db path r ≡ done tt
    → Granted codec db path r
unfolding v2_path token_required
passed-Granted codec db path r h =
    let (t, token, h₁) = bind-done (get_token codec r) _ h in
    let (m, method, h₂) = bind-done (original_method r.method) _ h₁ in
    let (p, first, h₃) = bind-done (first_of_two (split b'/' path)) _ h₂ in
    let (b, rest, parts) = first_of_two-done (split b'/' path) p first in
    (t, m, p, b, rest, token, method, parts, grant_path-MayAccess db m p t h₃)

Granted-passes :
    (codec : Codec) (db : Db) (path : String) (r : Request)
    → Granted codec db path r
    → v2_path codec db path r ≡ done tt
unfolding v2_path token_required
Granted-passes codec db path r (t, m, p, b, rest, token, method, parts, may) =
    rw (token, method, parts) (MayAccess-grant_path db m p t may)

-- A request to a path of the registry is let through exactly if it has a token, a method, and a path of
-- two parts or more, of which the first is the project; and the token is one of that project, which is
-- known and used to GET, or that of a running job of that project.
pub v2_path_iff :
    (codec : Codec) (db : Db) (path : String) (r : Request)
    → (v2_path codec db path r ≡ done tt) ↔ Granted codec db path r
v2_path_iff codec db path r = (passed-Granted codec db path r, Granted-passes codec db path r)
