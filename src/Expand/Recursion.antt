-- ===== src/Expand/Recursion.antt =====
-- A workflow file that includes itself: `get_job_list` of src/job/job.py sees it only where the entry is
-- that file, since a workflow's recursive call starts with no paths.
use infrabox.Python.{Error}
use infrabox.Prelude.{String, ◌≡◌, List, arith, ◌∷◌, ℕ, [], zero, refl, sym, ◌∙◌, contains, false}
use mathlib.Core.Path.{subst}
use infrabox.Expand.{
  GetSub, RawJob, Files, workflow, join, dirname, prefix_job, rewrite_depends_on, check_file_exist,
  expand_kind, expand_jobs, get_job_list, include_workflow, include_file, ok, err, recursion_error,
  suc, Job, context_or_default,
}

prefixed_kind :
    (parent : String) (r : RawJob) → (prefix_job parent (rewrite_depends_on r)).kind ≡ r.kind
unfolding prefix_job rewrite_depends_on
prefixed_kind parent r = ground arith

-- The workflow branch fails as its recursive call does, if nothing before the call fails.
include-raises :
    (fs : Files) (get_sub : GetSub fs) (p g context : String) (paths : List String)
    (yml : List RawJob) (job : Job) (e : Error)
    → fs.load p ≡ ok yml
    → join context g ≡ p
    → contains paths p ≡ false
    → check_file_exist fs yml (dirname p) ≡ ok tt
    → get_sub job.name (dirname p) [] yml ≡ err e
    → expand_kind fs get_sub context paths job (workflow g) ≡ err e
unfolding expand_kind include_workflow include_file
include-raises fs get_sub p g context paths yml job e loaded here new exist raised =
    rw (here, new, loaded, exist, raised)

-- The file at `p` begins with a workflow job whose file is `p` again, and the files that it names exist.
-- Then a list of jobs that begins with a workflow job on `p`, where `p` is not among the files that are
-- being included, runs into Python's limit on nested calls, however large the limit is.
pub get_job_list-recursion_error :
    (fs : Files) (p f : String) (r : RawJob) (rest : List RawJob)
    → fs.load p ≡ ok (r ∷ rest)
    → r.kind ≡ workflow f
    → join (context_or_default fs (dirname p)) f ≡ p
    → check_file_exist fs (r ∷ rest) (dirname p) ≡ ok tt
    → (depth : ℕ) (parent context g : String) (paths : List String) (first : RawJob)
      (others : List RawJob)
    → first.kind ≡ workflow g
    → join (context_or_default fs context) g ≡ p
    → contains paths p ≡ false
    → get_job_list fs depth parent context paths (first ∷ others) ≡ err recursion_error
unfolding get_job_list expand_jobs
get_job_list-recursion_error fs p f r rest loaded again_kind again exist zero parent context g paths
      first others kind here new =
    refl
get_job_list-recursion_error fs p f r rest loaded again_kind again exist (suc depth) parent context
      g paths first others kind here new =
    let job = prefix_job parent (rewrite_depends_on first) in
    let get_sub : GetSub fs = λ q c ps js. get_job_list fs depth q c ps js in
    let in_context = context_or_default fs context in
    let ih =
      get_job_list-recursion_error fs p f r rest loaded again_kind again exist depth job.name
        (dirname p) f [] r rest again_kind again refl in
    let raises =
      include-raises fs get_sub p g in_context paths (r ∷ rest) job recursion_error loaded here new
        exist ih in
    let fails : expand_kind fs get_sub in_context paths job job.kind ≡ err recursion_error =
      subst (λ k. expand_kind fs get_sub in_context paths job k ≡ err recursion_error)
        (sym (prefixed_kind parent first ∙ kind)) raises in
    rw fails
