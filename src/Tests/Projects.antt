-- ===== src/Tests/Projects.antt =====
-- The handlers of src/api/handlers/projects on small tables.
use infrabox.Settings.Inverse.{
  is_token, remove_collaborator-add_collaborator, delete_token-add_token,
}
use infrabox.Texts.{split}
use infrabox.Projects.Owned.{
  ProjectRequest, handle_projects, Owned, add, handle_project, handle_projects-Owned, remove,
}
use infrabox.Projects.{
  RepoApi, NewProject, add_project, count_projects, count_joined, add_typed, connect,
  insert_project, add_github, insert_repository, set_hook, add_gerrit, delete_project, unhook,
  drop_project,
}
use infrabox.Builds.{Tables, ProjectRow}
use infrabox.Http.{◌>>=◌}
use infrabox.Prelude.{none, some, Option, ◌==◌, lookup, ◌≢◌, ◌++◌, eq_iff}
use infrabox.Http.{done}
use infrabox.Settings.Owners.{SoleOwner, owner_row, remove_collaborator-owners}
use infrabox.Settings.{
  name_pattern, remove_collaborator, match_words, add_secret, delete_secret, add_collaborator,
  ProjectToken, add_token, delete_token,
}
use infrabox.Settings.Limits.{post, changes, Kept, Change, change, changes-Kept, delete}
use infrabox.Prelude.{
  refl, List, String, count_where, rows_where, [], true, delete_where, arith, ◌≡◌, ◌∷◌, false,
}
use infrabox.Guards.{Collaborator, is_row_of}

abbrev requests : List Change
requests =
    post "s1" "p1" "TOKEN" "abc"
    ∷ post "s2" "p1" "TOKEN" "def"
    ∷ post "s3" "p1" "no good" "x"
    ∷ post "s4" "p1" "KEY" "y"
    ∷ delete "p1" "s4"
    ∷ []

abbrev same_text : String → String
same_text s = s

one_left :
    changes same_text requests []
    ≡ record { id = "s1"; project_id = "p1"; name = "TOKEN"; value = "abc" } ∷ []
unfolding changes change add_secret delete_secret count_where delete_where name_pattern match_words
one_left = refl

empty-Kept : Kept []
unfolding count_where
empty-Kept = record { few = λ p. omega arith; single = λ p n. omega arith; named = tt }

changes-Kept_example : Kept (changes same_text requests [])
changes-Kept_example = changes-Kept same_text requests [] empty-Kept

-- A line feed at the end of a name passes the test.
line_feed : name_pattern "KEY\n" ≡ true
unfolding name_pattern match_words
line_feed = refl

abbrev rows : List Collaborator
rows =
    record { user_id = "u1"; project_id = "p1"; owner = true }
    ∷ record { user_id = "u2"; project_id = "p1"; owner = false }
    ∷ []

abbrev left : List Collaborator
left = record { user_id = "u1"; project_id = "p1"; owner = true } ∷ []

removed : remove_collaborator "u1" "p1" "u2" rows ≡ done left
unfolding remove_collaborator count_where delete_where
removed = refl

sole : SoleOwner "u1" "p1" rows
sole = (λ e. refl, (λ e. ground arith, tt))

remove_collaborator-owners_example :
    rows_where (owner_row "p1") left ≡ rows_where (owner_row "p1") rows
remove_collaborator-owners_example =
    remove_collaborator-owners "u1" "p1" "u2" "p1" rows left sole removed

differs : (a b : String) → (a == b) ≡ false → a ≢ b
differs a b h e = ground (arith, eq_iff a b)

abbrev known_users : List (String × String)
known_users = ("ann", "u3") ∷ []

ann : lookup "ann" known_users ≡ some "u3"
unfolding lookup
ann = refl

not_yet : count_where (is_row_of "u3" "p1") rows ≡ 0
unfolding count_where
not_yet = refl

remove_collaborator-add_collaborator_example :
    (add_collaborator known_users "p1" "ann" rows >>= remove_collaborator "u1" "p1" "u3")
    ≡ done rows
remove_collaborator-add_collaborator_example =
    remove_collaborator-add_collaborator known_users "u1" "p1" "ann" "u3" rows ann not_yet
      (differs "u3" "u1" refl)

abbrev tokens : List ProjectToken
tokens = record { id = "t1"; project_id = "p1"; description = "ci" } ∷ []

abbrev more_tokens : List ProjectToken
more_tokens = tokens ++ record { id = "t2"; project_id = "p1"; description = "deploy" } ∷ []

no_token : count_where (is_token "p1" "t2") tokens ≡ 0
unfolding count_where
no_token = refl

added : add_token "t2" "p1" "deploy" tokens ≡ done more_tokens
unfolding add_token count_where
added = refl

delete_token-add_token_example : delete_token (λ id. true) "p1" "t2" more_tokens ≡ done tokens
delete_token-add_token_example =
    delete_token-add_token (λ id. true) "t2" "p1" "deploy" tokens more_tokens refl no_token added

-- The administrator, who is no collaborator, may remove the owner.
owner_removed :
    remove_collaborator "00000000-0000-0000-0000-000000000000" "p1" "u1" rows
    ≡ done (record { user_id = "u2"; project_id = "p1"; owner = false } ∷ [])
unfolding remove_collaborator count_where delete_where
owner_removed = refl

abbrev no_tables : Tables
no_tables = record {
  users = record { id = "u1"; github_api_token = some "key" } ∷ [];
  repositories = [];
  projects = [];
  collaborators = [];
  commits = [];
  builds = [];
  jobs = [];
  pull_requests = [];
}

abbrev repo_api : RepoApi
repo_api = record {
  repo = λ owner name token. some record {
    id = 7;
    name = name;
    html_url = "";
    clone_url = "";
    private = false;
    admin = true;
    owner_login = owner;
  };
  hook = λ owner name token. some 3;
}

abbrev new_project : String → String → Option String → NewProject
new_project name type full_name = record {
  name = name;
  type = type;
  private = false;
  github_repo_name = full_name;
}

-- The second project has the name of the first, the third its repository, and the fourth no slash.
abbrev project_requests : List ProjectRequest
project_requests =
    add repo_api "p1" "r1" "u1" (new_project "one" "github" (some "own/infra"))
    ∷ add repo_api "p2" "r2" "u1" (new_project "one" "upload" none)
    ∷ add repo_api "p3" "r3" "u1" (new_project "two" "github" (some "own/infra"))
    ∷ add repo_api "p4" "r4" "u1" (new_project "three" "github" (some "infra"))
    ∷ add repo_api "p5" "r5" "u1" (new_project "four" "gerrit" none)
    ∷ remove "u1" "p1"
    ∷ []

abbrev ids : List ProjectRow → List String
ids [] = []
ids (p ∷ ps) = p.id ∷ ids ps

one_project : ids (handle_projects project_requests no_tables).projects ≡ "p5" ∷ []
unfolding handle_projects handle_project add_project count_projects count_joined count_where
    add_typed connect split rows_where insert_project add_github insert_repository set_hook
    add_gerrit delete_project unhook drop_project delete_where
one_project = refl

none-Owned : Owned no_tables
unfolding count_where
none-Owned = record { names = λ name. omega arith; owners = tt }

handle_projects-Owned_example : Owned (handle_projects project_requests no_tables)
handle_projects-Owned_example = handle_projects-Owned project_requests no_tables none-Owned
