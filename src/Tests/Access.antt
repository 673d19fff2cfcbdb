-- ===== src/Tests/Access.antt =====
-- src/pyinfraboxutils/ibflask.py, src/docker-registry/auth/server.py and src/pyinfraboxutils/leader.py
-- on small tables.
use infrabox.Registry.Grants.{Granted, v2_path_iff}
use infrabox.Guards.Access.{Authorized, auth_required-Authorized}
use infrabox.Texts.{strip_prefix, split, split_on}
use infrabox.Leader.{is_leader, goes_on, elect_leader, _is_leader, elect_leader-void}
use infrabox.Registry.{v2_path, grant_path}
use infrabox.Prelude.{
  refl, none, some, ◌∷◌, String, ◌≡◌, [], Option, true, false, if◌then◌else◌, ◌==◌, count_where,
  ◌⊎◌, ◌↔◌,
}
use infrabox.Http.{done}
use infrabox.Guards.{
  Db, Codec, Options, Token, is_public, Request, auth_required, authorize, token_required,
  get_token, parse_auth, validate_token, validate_user_token, is_collaborator,
}

abbrev tables : Db
tables = record {
  users = "u1" ∷ [];
  collaborators = record { user_id = "u1"; project_id = "p1"; owner = false } ∷ [];
  projects = record { id = "p1"; name = "first"; public = false } ∷ [];
  auth_tokens = record { id = "t1"; project_id = "p1" } ∷ [];
  jobs = [];
}

abbrev read_token : String → Option Token
read_token s =
    if s == "user"
    then some (Token.user_token "u1")
    else if s == "project"
    then some (Token.project_token false "t1" "p1")
    else none

abbrev codec : Codec
codec = record { b64decode = λ s. some s; decode = read_token }

abbrev members : Options
members = record {
  types = "user" ∷ [];
  check_project_access = true;
  check_project_owner = false;
  check_admin = false;
  allow_if_public = false;
}

abbrev of_user : Request
of_user = record {
  authorization = some "token user";
  cookie = none;
  method = none;
  project_id = some "p1";
  project_name = none;
}

abbrev of_registry : Request
of_registry = record {
  authorization = some "Basic infrabox:project";
  cookie = none;
  method = some "GET";
  project_id = none;
  project_name = none;
}

let_in : auth_required codec members tables of_user ≡ done tt
unfolding auth_required authorize get_token parse_auth strip_prefix split validate_token
    validate_user_token is_collaborator
let_in = refl

auth_required-Authorized_example :
    ((members.allow_if_public ≡ true)
      × (is_public tables of_user.project_id of_user.project_name ≡ done true))
    ⊎ Authorized codec members tables of_user
auth_required-Authorized_example = auth_required-Authorized codec members tables of_user refl let_in

v2_path_iff_example :
    (v2_path codec tables "p1/image/manifests" of_registry ≡ done tt)
    ↔ Granted codec tables "p1/image/manifests" of_registry
v2_path_iff_example = v2_path_iff codec tables "p1/image/manifests" of_registry

reads : v2_path codec tables "p1/image/manifests" of_registry ≡ done tt
unfolding v2_path token_required get_token parse_auth strip_prefix split split_on grant_path
    count_where
reads = refl

-- A second instance, two seconds after the first.
elect_leader-void_example :
    ((is_leader false "scheduler" 12
        (record { service_name = "scheduler"; last_seen_active = 10 } ∷ [])).1
      ≡ goes_on)
    × (elect_leader false "scheduler"
          (12 ∷ [])
          (record { service_name = "scheduler"; last_seen_active = 10 } ∷ [])
        ≡ some
            (_is_leader false "scheduler" 12
              (record { service_name = "scheduler"; last_seen_active = 10 } ∷ [])).0)
elect_leader-void_example =
    elect_leader-void false "scheduler" 12 []
      (record { service_name = "scheduler"; last_seen_active = 10 } ∷ [])
