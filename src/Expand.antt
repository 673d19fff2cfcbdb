-- ===== src/Expand.antt =====
-- src/job/job.py: `rewrite_depends_on` and `get_job_list`, which turn an infrabox.json file and the
-- files that it includes into one list of jobs. Left out are the uuid4 ids, `avg_duration`, `repo`
-- and `infrabox_context` of a job, which no decision here reads, and the console output.
pub mod Closed
pub mod Order
pub mod Recursion
use infrabox.Prelude.{
  String, List, ◌∷◌, map, Option, ℕ, [], Bool, none, ◌<>◌, ◌++◌, some, suc, if◌then◌else◌, contains,
  false, ◌==◌, eqb, zero, ◌||◌, ◌&&◌,
}
use Prim.Native.Char.{code}
use infrabox.Python.{
  about, str, Json, Result, ok, err, Check, failure, recursion_error, plain, ◌>>=◌, ◌>>◌, Error,
}

-- An entry of `depends_on` in a file: a name, or a dict with `job` and `on`.
pub data RawDep : Type 0 where
  named : String → RawDep
  conditional : (job : String) (on : List String) → RawDep

pub record Dep : Type 0 where
  pub job : String
  pub on : List String

-- The type of a job, with what `get_job_list` reads of it. `plain_job` is any other type.
pub data Kind : Type 0 where
  git : (clone_url commit : String) (infrabox_file : Option String) → Kind
  workflow : (infrabox_file : String) → Kind
  docker_compose : (docker_compose_file : String) → Kind
  plain_job : (type : String) → Kind

abbrev pub Environment : Type 0
Environment = List (String × Json)

-- A job of a file.
pub record RawJob : Type 0 where
  pub kind : Kind
  pub name : String
  pub depends_on : List RawDep
  pub environment : Environment

-- A job of the list that is created.
pub record Job : Type 0 where
  pub kind : Kind
  pub name : String
  pub depends_on : List Dep
  pub environment : Environment

-- The inner loop of `rewrite_depends_on` on `on`.
abbrev pub rewrite_on : List String → List String
rewrite_on on = if contains on "*" then "finished" ∷ "error" ∷ "failure" ∷ "skipped" ∷ [] else on

unfoldable pub rewrite_dep : RawDep → Dep
rewrite_dep (named d) = record { job = d; on = "finished" ∷ [] }
rewrite_dep (conditional j on) = record { job = j; on = rewrite_on on }

unfoldable pub rewrite_depends_on : RawJob → Job
rewrite_depends_on r = record {
  kind = r.kind;
  name = r.name;
  depends_on = map rewrite_dep r.depends_on;
  environment = r.environment;
}

-- os.path.join of two parts
unfoldable pub ends_with_slash : String → Bool
ends_with_slash String.[] = false
ends_with_slash (String.◌∷◌ c String.[]) = eqb (code c) b'/'
ends_with_slash (String.◌∷◌ c (String.◌∷◌ d s)) = ends_with_slash (String.◌∷◌ d s)

abbrev pub starts_with_slash : String → Bool
starts_with_slash String.[] = false
starts_with_slash (String.◌∷◌ c s) = eqb (code c) b'/'

unfoldable pub join : String → String → String
unfolding ends_with_slash
join a b =
    if starts_with_slash b
    then b
    else if a == "" || ends_with_slash a
    then a <> b
    else a <> "/" <> b

-- The text up to its last slash, that slash included.
unfoldable pub up_to_slash : String → Option String
up_to_slash String.[] = none
up_to_slash (String.◌∷◌ c s) = elim (up_to_slash s) [
  | some h ↦ some (String.◌∷◌ c h)
  | none ↦ if eqb (code c) b'/' then some (String.◌∷◌ c String.[]) else none
]

unfoldable pub strip_slashes : String → String
strip_slashes String.[] = String.[]
strip_slashes (String.◌∷◌ c s) =
    let rest = strip_slashes s in if rest == "" && eqb (code c) b'/' then "" else String.◌∷◌ c rest

-- os.path.dirname: a head of slashes alone stays.
unfoldable pub dirname : String → String
unfolding up_to_slash strip_slashes
dirname p = elim (up_to_slash p) [
  | none ↦ ""
  | some head ↦ if strip_slashes head == "" then head else strip_slashes head
]

-- What the function reads outside of itself: files, and the clone that the git server makes.
-- `load` is `parse_infrabox_json`, `exists` is os.path.exists, `compose` is `create_from`, and
-- `clone` is `clone_repo` into a sub path.
pub record Files : Type 0 where
  pub load : String → Result (List RawJob)
  pub exists : String → Bool
  pub compose : String → Check
  pub clone : (commit clone_url sub_path : String) → Check
  pub mount_repo_dir : String

abbrev pub fail {ℓ} : {A : Type ℓ} → String → Result A
fail message = err (failure (plain message))

-- `e.message` of what `create_from` raises itself; the texts of Python's own exceptions are left out.
abbrev pub message_of : Error → String
message_of (failure (plain m)) = m
message_of (failure (about before (str s) after)) = before <> s <> after
message_of _ = ""

abbrev pub as_failure : Check → String → Check
as_failure (ok _) p = ok tt
as_failure (err e) p = fail (p <> ": " <> message_of e)

module _ (fs : Files) where
  -- The loop of `check_file_exist`. A missing compose file ends it: "might be dynamically generated".
  unfoldable pub check_file_exist : List RawJob → String → Check
  check_file_exist [] context = ok tt
  check_file_exist (j ∷ js) context =
      let rest = check_file_exist js context in
      elim j.kind [
        | docker_compose f ↦
            if fs.exists (join context f)
            then (do as_failure (fs.compose (join context f)) (join context f); rest)
            else ok tt
        | workflow f ↦
            if fs.exists (join context f) then rest else fail (join context f <> " does not exist")
        | _ ↦ rest
      ]

-- The names and dependencies of a job under its parent's name.
abbrev pub prefix_dep : String → Dep → Dep
prefix_dep parent d = record d { job = parent <> "/" <> d.job }

unfoldable pub prefix_job : String → Job → Job
prefix_job parent j = if parent == "" then j else record j {
  name = parent <> "/" <> j.name;
  depends_on = map (prefix_dep parent) j.depends_on;
}

-- `for n, v in job['environment'].iteritems(): s['environment'][n] = v`
unfoldable pub set_variable : String → Json → Environment → Environment
set_variable n v [] = (n, v) ∷ []
set_variable n v ((m, u) ∷ env) = if m == n then (n, v) ∷ env else (m, u) ∷ set_variable n v env

unfoldable pub set_variables : Environment → Environment → Environment
set_variables [] env = env
set_variables ((n, v) ∷ rest) env = set_variables rest (set_variable n v env)

abbrev pub inherit_deps : List Dep → List Dep → List Dep
inherit_deps parents [] = parents
inherit_deps parents (d ∷ ds) = d ∷ ds

-- A sub job without a parent becomes a child of what its workflow waits for.
unfoldable pub adopt : Job → Job → Job
adopt job s = record s {
  depends_on = inherit_deps job.depends_on s.depends_on;
  environment = set_variables job.environment s.environment;
}

abbrev pub dep_names : List Dep → List String
dep_names [] = []
dep_names (d ∷ ds) = d.job ∷ dep_names ds

-- The keys of `job_with_children`.
abbrev pub with_children : List Job → List String
with_children [] = []
with_children (s ∷ ss) = dep_names s.depends_on ++ with_children ss

-- The dependencies of the final job: the sub jobs that no other sub job names.
unfoldable pub final_deps : List String → List Job → List Dep
final_deps parents [] = []
final_deps parents (s ∷ ss) =
    let rest = final_deps parents ss in
    if contains parents s.name then rest else record { job = s.name; on = "finished" ∷ [] } ∷ rest

unfoldable pub final_job : String → List Job → Job
final_job name sub = record {
  kind = plain_job "wait";
  name = name;
  depends_on = final_deps (with_children sub) sub;
  environment = [];
}

-- The jobs of an included file, and the final job that waits for them.
unfoldable pub include : Job → List Job → List Job
include job sub = map (adopt job) sub ++ final_job job.name sub ∷ []

abbrev pub file_or_default : Option String → String
file_or_default none = "infrabox.json"
file_or_default (some f) = f

module _ (fs : Files) where
  -- `get_sub` is the recursive call: parent name, context, paths and jobs.
  abbrev pub GetSub : Type 0
  GetSub = String → String → List String → List RawJob → Result (List Job)

  -- What both branches do with the path `p` of the included file.
  unfoldable pub include_file : GetSub → List String → Job → String → Result (List Job)
  include_file get_sub paths job p = do
    yml ← fs.load p
    check_file_exist fs yml (dirname p)
    sub ← get_sub job.name (dirname p) paths yml
    ok (include job sub)

  abbrev pub not_included : List String → String → Check
  not_included paths p = if contains paths p then fail "Recursive include detected" else ok tt

  abbrev pub sub_path : Job → String
  sub_path job = join (join ".infrabox" "tmp") job.name

  -- The git branch: the clone lands under .infrabox/tmp/<job name>.
  unfoldable pub include_git :
      GetSub → List String → Job → String → String → Option String → Result (List Job)
  include_git get_sub paths job clone_url commit file = do
    let ib_path = join (join fs.mount_repo_dir (sub_path job)) (file_or_default file)
    fs.clone commit clone_url (sub_path job)
    not_included paths ib_path
    include_file get_sub (ib_path ∷ paths) job ib_path

  -- The workflow branch: `infrabox_paths` is not handed to the recursive call, which starts anew.
  unfoldable pub include_workflow : GetSub → String → List String → Job → String → Result (List Job)
  include_workflow get_sub context paths job file = do
    not_included paths (join context file)
    include_file get_sub [] job (join context file)

  -- The body of the loop: the jobs that one job of the file adds to the list.
  unfoldable pub expand_kind : GetSub → String → List String → Job → Kind → Result (List Job)
  expand_kind get_sub context paths job (git clone_url commit file) =
      include_git get_sub paths job clone_url commit file
  expand_kind get_sub context paths job (workflow file) =
      include_workflow get_sub context paths job file
  expand_kind get_sub context paths job _ = ok (job ∷ [])

  abbrev pub expand_job : GetSub → String → List String → Job → Result (List Job)
  expand_job get_sub context paths job = expand_kind get_sub context paths job job.kind

  unfoldable pub expand_jobs :
      GetSub → String → String → List String → List RawJob → Result (List Job)
  expand_jobs get_sub parent context paths [] = ok []
  expand_jobs get_sub parent context paths (r ∷ rs) = do
    js ← expand_job get_sub context paths (prefix_job parent (rewrite_depends_on r))
    rest ← expand_jobs get_sub parent context paths rs
    ok (js ++ rest)

  -- An empty context stands for none too.
  abbrev pub context_or_default : String → String
  context_or_default context = if context == "" then fs.mount_repo_dir else context

  -- The first argument is the number of nested calls that Python still allows.
  unfoldable pub get_job_list : ℕ → String → String → List String → List RawJob → Result (List Job)
  get_job_list zero parent context paths jobs = err recursion_error
  get_job_list (suc depth) parent context paths jobs =
      expand_jobs (λ p c ps js. get_job_list depth p c ps js) parent (context_or_default context)
        paths jobs
