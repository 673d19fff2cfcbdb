-- ===== src/Expand/Order.antt =====
-- `get_job_list` of src/job/job.py keeps the order of dependencies: in the list that it returns each
-- job depends on jobs before it.
use infrabox.Expand.Closed.{
  IsFileClosed, IsClosed, include-IsClosed, Covers, after, include-named, prefix_job-All,
  rewritten-deps, under, rewritten-name, Covers-cons, Within-after, append-IsClosed,
}
use infrabox.Python.Laws.{bind-ok, then-ok}
use infrabox.Prelude.{List, String, OneOf, ◌∷◌, All, ◌++◌, ◌≡◌, [], inl, refl, arith, ℕ, zero}
use infrabox.Expand.{
  RawJob, Job, Dep, include, prefix_job, Files, ok, GetSub, include_file, expand_job,
  check_file_exist, dirname, rewrite_depends_on, expand_kind, expand_jobs, get_job_list,
  include_git, suc, include_workflow, Kind, git, join, sub_path, file_or_default, not_included,
  workflow, docker_compose, plain_job, context_or_default,
}

module _ (fs : Files)
    (loads : (p : String) (js : List RawJob) → fs.load p ≡ ok js → IsFileClosed [] js) where
  -- The recursive call returns closed lists for closed files.
  abbrev KeepsClosed : GetSub fs → Type 0
  KeepsClosed get_sub =
      (parent context : String) (paths : List String) (rs : List RawJob) (out : List Job)
      → IsFileClosed [] rs
      → get_sub parent context paths rs ≡ ok out
      → IsClosed [] out

  -- What one job of the file adds is closed, and has the name of the job.
  abbrev AddsClosed : List String → Job → List Job → Type 0
  AddsClosed seen job out = IsClosed seen out × OneOf job.name (after seen out)

  include_file-AddsClosed :
      (get_sub : GetSub fs) (seen paths : List String) (job : Job) (p : String) (out : List Job)
      → KeepsClosed get_sub
      → All (λ (d : Dep). OneOf (d.job) seen) job.depends_on
      → include_file fs get_sub paths job p ≡ ok out
      → AddsClosed seen job out
  unfolding include_file
  include_file-AddsClosed get_sub seen paths job p out keeps deps run =
      let (yml, run₁, loaded) = bind-ok (fs.load p) _ run in
      let (_, run₂) = then-ok (check_file_exist fs yml (dirname p)) _ run₁ in
      let (sub, run₃, expanded) = bind-ok (get_sub job.name (dirname p) paths yml) _ run₂ in
      let closed = keeps job.name (dirname p) paths yml sub (loads p yml loaded) expanded in
      let same : include job sub ≡ out = ground arith in
      rw (← same) (include-IsClosed job sub seen deps closed, include-named job sub seen)

  -- A job of another type is added as it is.
  single-AddsClosed :
      (seen : List String) (job : Job) (out : List Job)
      → All (λ (d : Dep). OneOf (d.job) seen) job.depends_on
      → ok (job ∷ []) ≡ ok out
      → AddsClosed seen job out
  single-AddsClosed seen job out deps run =
      let same : job ∷ [] ≡ out = ground arith in rw (← same) ((deps, tt), inl refl)

  expand_kind-AddsClosed :
      (get_sub : GetSub fs) (seen paths : List String) (context : String) (job : Job) (kind : Kind)
      (out : List Job)
      → KeepsClosed get_sub
      → All (λ (d : Dep). OneOf (d.job) seen) job.depends_on
      → expand_kind fs get_sub context paths job kind ≡ ok out
      → AddsClosed seen job out
  unfolding expand_kind include_git include_workflow
  expand_kind-AddsClosed get_sub seen paths context job (git url commit file) out keeps deps run =
      let p = join (join fs.mount_repo_dir (sub_path fs job)) (file_or_default file) in
      let (_, run₁) = then-ok (fs.clone commit url (sub_path fs job)) _ run in
      let (_, run₂) = then-ok (not_included fs paths p) _ run₁ in
      include_file-AddsClosed get_sub seen (p ∷ paths) job p out keeps deps run₂
  expand_kind-AddsClosed get_sub seen paths context job (workflow file) out keeps deps run =
      let (_, run₁) = then-ok (not_included fs paths (join context file)) _ run in
      include_file-AddsClosed get_sub seen [] job (join context file) out keeps deps run₁
  expand_kind-AddsClosed get_sub seen paths context job (docker_compose f) out keeps deps run =
      single-AddsClosed seen job out deps run
  expand_kind-AddsClosed get_sub seen paths context job (plain_job t) out keeps deps run =
      single-AddsClosed seen job out deps run

  expand_jobs-IsClosed :
      (get_sub : GetSub fs) (parent context : String) (paths seen more : List String)
      (rs : List RawJob) (out : List Job)
      → KeepsClosed get_sub
      → Covers parent seen more
      → IsFileClosed seen rs
      → expand_jobs fs get_sub parent context paths rs ≡ ok out
      → IsClosed more out
  unfolding expand_jobs
  expand_jobs-IsClosed get_sub parent context paths seen more [] out keeps covers h run =
      let same : [] ≡ out = ground arith in rw (← same) tt
  expand_jobs-IsClosed get_sub parent context paths seen more (r ∷ rs) out keeps covers (deps, h)
        run =
      let job = prefix_job parent (rewrite_depends_on r) in
      let (js, run₁, added) = bind-ok (expand_job fs get_sub context paths job) _ run in
      let (rest, run₂, later) = bind-ok (expand_jobs fs get_sub parent context paths rs) _ run₁ in
      let parents =
        prefix_job-All parent more (rewrite_depends_on r)
          (rewritten-deps parent seen more r covers deps) in
      let (closed, has_name) =
        expand_kind-AddsClosed get_sub more paths context job job.kind js keeps parents added in
      let name : OneOf (under parent r.name) (after more js) =
        rw (rewritten-name parent r) at has_name in
      let wider =
        Covers-cons parent r.name seen (after more js)
          (λ a m. Within-after js more (under parent a) (covers a m)) name in
      let ih =
        expand_jobs-IsClosed get_sub parent context paths (r.name ∷ seen) (after more js) rs rest
          keeps wider h later in
      let same : js ++ rest ≡ out = ground arith in
      rw (← same) (append-IsClosed js rest more closed ih)

  get_job_list-KeepsClosed :
      (depth : ℕ) → KeepsClosed (λ p c ps js. get_job_list fs depth p c ps js)
  unfolding get_job_list
  get_job_list-KeepsClosed zero parent context paths rs out h run = ground arith
  get_job_list-KeepsClosed (suc depth) parent context paths rs out h run =
      expand_jobs-IsClosed (λ p c ps js. get_job_list fs depth p c ps js) parent
        (context_or_default fs context) paths [] [] rs out (get_job_list-KeepsClosed depth)
        (λ a m. absurd m) h run

-- If in the given file and in each file that `load` returns every job depends on jobs before it, then
-- so it is in the list that `get_job_list` returns, with all files expanded.
pub get_job_list-IsClosed :
    (fs : Files) (depth : ℕ) (parent context : String) (paths : List String) (jobs : List RawJob)
    (out : List Job)
    → ((p : String) (js : List RawJob) → fs.load p ≡ ok js → IsFileClosed [] js)
    → IsFileClosed [] jobs
    → get_job_list fs depth parent context paths jobs ≡ ok out
    → IsClosed [] out
get_job_list-IsClosed fs depth parent context paths jobs out loads h run =
    get_job_list-KeepsClosed fs loads depth parent context paths jobs out h run
