-- ===== src/Tests/Expansion.antt =====
-- `get_job_list` on small files.
use infrabox.Expand.Recursion.{get_job_list-recursion_error}
use infrabox.Python.{Result, ok, err, recursion_error, failure, plain}
use infrabox.Expand.Order.{get_job_list-IsClosed}
use infrabox.Expand.Closed.{IsFileClosed, IsClosed}
use infrabox.Expand.{
  Files, rewrite_dep, get_job_list, RawJob, join, check_file_exist, Kind, plain_job,
  rewrite_depends_on, Dep, Job, workflow, dirname, RawDep, named, ends_with_slash, up_to_slash,
  strip_slashes, prefix_job, set_variable, set_variables, adopt, final_deps, final_job, include,
  include_file, include_git, include_workflow, expand_kind, expand_jobs, context_or_default,
}
use infrabox.Prelude.{
  String, List, if◌then◌else◌, [], ◌≡◌, ◌∷◌, true, ◌==◌, inl, Bool-cases, arith, inr, refl,
}

abbrev raw : String → Kind → List RawDep → RawJob
raw name kind deps = record { kind = kind; name = name; depends_on = deps; environment = [] }

-- The file /flow/a.json.
abbrev sub_file : List RawJob
sub_file = raw "x" (plain_job "docker") [] ∷ raw "y" (plain_job "docker") (named "x" ∷ []) ∷ []

abbrev main_file : List RawJob
main_file =
    raw "build" (plain_job "docker") []
    ∷ raw "flow" (workflow "a.json") (named "build" ∷ [])
    ∷ raw "end" (plain_job "wait") (named "flow" ∷ [])
    ∷ []

abbrev files_with : (String → Result (List RawJob)) → Files
files_with load = record {
  load = load;
  exists = λ p. true;
  compose = λ p. ok tt;
  clone = λ c u s. ok tt;
  mount_repo_dir = "/repo";
}

abbrev files : Files
files = files_with (λ p. if p == "/flow/a.json" then ok sub_file else ok [])

run : Unit {0}
unfolding rewrite_dep rewrite_depends_on ends_with_slash join up_to_slash strip_slashes dirname
    check_file_exist prefix_job set_variable set_variables adopt final_deps final_job include
    include_file include_git include_workflow expand_kind expand_jobs get_job_list
run = tt

abbrev on_finished : String → List Dep
on_finished name = record { job = name; on = "finished" ∷ [] } ∷ []

abbrev entry : String → Kind → List Dep → Job
entry name kind deps = record { kind = kind; name = name; depends_on = deps; environment = [] }

abbrev expanded : List Job
expanded =
    entry "build" (plain_job "docker") []
    ∷ entry "flow/x" (plain_job "docker") (on_finished "build")
    ∷ entry "flow/y" (plain_job "docker") (on_finished "flow/x")
    ∷ entry "flow" (plain_job "wait") (on_finished "flow/y")
    ∷ entry "end" (plain_job "wait") (on_finished "flow")
    ∷ []

expansion : get_job_list files 3 "" "/flow" [] main_file ≡ ok expanded
unfolding run
expansion = refl

sub_file-IsFileClosed : IsFileClosed [] sub_file
sub_file-IsFileClosed = (tt, ((inl refl, tt), tt))

files-IsFileClosed : (p : String) (js : List RawJob) → files.load p ≡ ok js → IsFileClosed [] js
files-IsFileClosed p js loaded = elim (Bool-cases (p == "/flow/a.json")) [
  | inl e ↦ let same : sub_file ≡ js = ground arith in rw (← same) sub_file-IsFileClosed
  | inr e ↦ let same : [] ≡ js = ground arith in rw (← same) tt
]

get_job_list-IsClosed_example : IsClosed [] expanded
get_job_list-IsClosed_example =
    get_job_list-IsClosed files 3 "" "/flow" [] main_file expanded files-IsFileClosed
      (tt, ((inl refl, tt), ((inl refl, tt), tt))) expansion

-- The file /repo/flow/a.json includes itself, and the entry /repo/infrabox.json includes it.
abbrev loop : RawJob
loop = raw "again" (workflow "a.json") []

abbrev loop_files : Files
loop_files = files_with (λ p. ok (loop ∷ []))

loop_join :
    join (context_or_default loop_files (dirname "/repo/flow/a.json")) "a.json"
    ≡ "/repo/flow/a.json"
unfolding run
loop_join = refl

loop_exist : check_file_exist loop_files (loop ∷ []) (dirname "/repo/flow/a.json") ≡ ok tt
unfolding run
loop_exist = refl

abbrev entry_job : RawJob
entry_job = raw "flow" (workflow "flow/a.json") []

entry_join : join (context_or_default loop_files "") "flow/a.json" ≡ "/repo/flow/a.json"
unfolding run
entry_join = refl

-- An entry that includes itself is seen.
detected :
    get_job_list files 3 "" ""
      ("/repo/infrabox.json" ∷ [])
      (raw "again" (workflow "infrabox.json") [] ∷ [])
    ≡ err (failure (plain "Recursive include detected"))
unfolding run
detected = refl

get_job_list-recursion_error_example :
    get_job_list loop_files 1000 "" "" ("/repo/infrabox.json" ∷ []) (entry_job ∷ [])
    ≡ err recursion_error
get_job_list-recursion_error_example =
    get_job_list-recursion_error loop_files "/repo/flow/a.json" "a.json" loop [] refl refl loop_join
      loop_exist 1000 "" "" "flow/a.json" ("/repo/infrabox.json" ∷ []) entry_job [] refl entry_join
      refl
