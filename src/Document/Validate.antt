-- ===== src/Document/Validate.antt =====
-- src/pyinfrabox/infrabox/__init__.py: `parse_jobs`, `parse_document` and `validate_json`.
use infrabox.Prelude.{
  String, ◌<>◌, ◌+◌, Bool, true, ℕ, List, [], ◌∷◌, ◌==◌, contains, if◌then◌else◌,
}
use infrabox.Python.{
  Json, str, arr, obj, items, invalid, about, type_error, ok, err, Check, Result, reject, has, item,
  optional, on_item, steps, for_from, ◌>>=◌, ◌>>◌,
}
use infrabox.Checks.{
  is_text, type_of, unsupported, check_allowed_properties, check_required_properties, check_version,
  at_index,
}
use infrabox.Document.Jobs.{
  parse_git, parse_workflow, parse_wait, parse_docker, parse_docker_image, parse_docker_compose,
}

-- The chain of `elif` on the type of a job.
unfoldable pub parse_typed : Json → Json → String → Check
parse_typed t elem p =
    if is_text t "git"
    then parse_git elem p
    else if is_text t "wait"
    then parse_wait elem p
    else if is_text t "workflow"
    then parse_workflow elem p
    else if is_text t "docker"
    then parse_docker elem p
    else if is_text t "docker-image"
    then parse_docker_image elem p
    else if is_text t "docker-compose"
    then parse_docker_compose elem p
    else unsupported t p

unfoldable pub parse_job : Json → String → Check
parse_job elem p = do t ← type_of elem p; parse_typed t elem p

unfoldable pub parse_jobs : Json → String → Check
parse_jobs (arr xs) path = for_from (λ i elem. parse_job elem (at_index path i)) 0 (items xs)
parse_jobs _ path = reject path "must be an array"

unfoldable pub parse_document : Json → Check
parse_document d = steps (
    check_allowed_properties d "#" ("version" ∷ "jobs" ∷ [])
    ∷ check_required_properties d "#" ("version" ∷ "jobs" ∷ [])
    ∷ on_item d "version" (λ v. check_version v "#version")
    ∷ optional d "jobs" (λ v. parse_jobs v "#jobs")
    ∷ [])

-- A value that `parse_document` has found to be a text.
abbrev pub as_text : Json → Result String
as_text (str s) = ok s
as_text _ = err type_error

abbrev pub as_list : Json → Result (List Json)
as_list (arr xs) = ok (items xs)
as_list _ = err type_error

-- `depends_on['job']` of a dict, otherwise `depends_on` itself.
abbrev pub parent_name : Json → Result String
parent_name (obj fs) = do name ← item (obj fs) "job"; as_text name
parent_name v = as_text v

-- The loop over `job['depends_on']`: `jobs` and `deps` are the keys of the two dicts.
unfoldable pub check_parents : String → List String → String → List String → List Json → Check
check_parents path jobs job_name deps [] = ok tt
check_parents path jobs job_name deps (depends_on ∷ rest) = do
  parent ← parent_name depends_on
  if job_name == parent
      then err (invalid path (about "Job '" (str parent) "' may not depend on itself"))
      else ok tt
  if contains jobs parent
      then ok tt
      else err (invalid (path <> ".depends_on") (about "Job '" (str parent) "' not found"))
  if contains deps parent
      then err (invalid (path <> ".depends_on") (about "'" (str parent) "' duplicate dependencies"))
      else ok tt
  check_parents path jobs job_name (parent ∷ deps) rest

unfoldable pub check_job_parents : String → List String → String → Json → Check
check_job_parents path jobs job_name job =
    optional job "depends_on" (λ v. do ds ← as_list v; check_parents path jobs job_name [] ds)

-- The loop over `d['jobs']`; `jobs` holds the keys of the dict of that name. A stored job is a dict
-- with a name, so `jobs.get(job_name, None)` is true of each key.
unfoldable pub check_order : List String → ℕ → List Json → Check
check_order jobs i [] = ok tt
check_order jobs i (job ∷ rest) = do
  name ← item job "name"
  job_name ← as_text name
  if contains jobs job_name
      then err (
          invalid (at_index "#jobs" i <> ".name")
            (about "Job name '" (str job_name) "' already exists"))
      else ok tt
  if job_name == "Create Jobs"
      then reject (at_index "#jobs" i <> ".name") "Job name may not be 'Create Jobs'"
      else ok tt
  check_job_parents (at_index "#jobs" i) (job_name ∷ jobs) job_name job
  check_order (job_name ∷ jobs) (i + 1) rest

unfoldable pub validate_json : Json → Result Bool
validate_json d = do
  parse_document d
  present ← has "jobs" d
  if present then (do v ← item d "jobs"; js ← as_list v; check_order [] 0 js; ok true) else ok true
