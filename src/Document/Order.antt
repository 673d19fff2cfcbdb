-- ===== src/Document/Order.antt =====
-- `validate_json` of src/pyinfrabox/infrabox/__init__.py accepts exactly the well-formed documents
-- whose jobs are in an order that runs each job after its parents.
use infrabox.Document.Parents.{
  IsOrdered, read_jobs-nil, read_jobs-cons, read_job-found, job_parents_iff,
}
use infrabox.Document.Shape.Types.{parse_job-IsJob}
use infrabox.Checks.Laws.{check_allowed_properties-ok, required_entries-ok}
use infrabox.Checks.{at_index, check_required_properties}
use infrabox.Document.Parts.{special_match}
use mathlib.Core.Option.{none}
use infrabox.Python.Laws.{
  item-found, then-ok, then_all, steps-ok, for_from-ok, optional-ok, has-found,
}
use infrabox.Document.Validate.{
  check_job_parents, check_order, parse_document, parse_jobs, validate_json,
}
use infrabox.Prelude.{
  String, ◌<>◌, ◌≡◌, ◌↔◌, List, [], ◌∷◌, OneOf, arith, if◌then◌else◌, ◌==◌, eq_iff, contains,
  not-OneOf→contains, ◌≢◌, some, inl, inr, lookup, Option, refl, ℕ, All, false, ◌+◌,
  contains→not-OneOf, true, sym, ◌∙◌,
}
use infrabox.Python.{
  arr, str, ok, err, invalid, Check, ◌>>◌, about, Json, obj, bool, int, float, Fields, entries,
  null, reject, items, Items, optional,
}
use infrabox.Document.Shape.{Entry, read_jobs, IsName, IsJob}

-- The two tests on the name of a job that has a proper name.
name_tests :
    (path name : String) (seen : List String) (rest : Check)
    → IsName name
    → ((do
      if contains seen name
          then err (invalid (path <> ".name") (about "Job name '" (str name) "' already exists"))
          else ok tt
      if name == "Create Jobs"
          then reject (path <> ".name") "Job name may not be 'Create Jobs'"
          else ok tt
      rest)
        ≡ ok tt)
      ↔ (¬ OneOf name seen × (rest ≡ ok tt))
unfolding special_match
name_tests path name seen rest (_, matched) =
    let differ : name ≢ "Create Jobs" = λ e. let m : false ≡ true = rw e at matched in cc in
    (
      λ h. (
        contains→not-OneOf seen name (ground (arith, eq_iff name "Create Jobs")),
        ground (arith, eq_iff name "Create Jobs"),
      ),
      λ (fresh, go).
          let c = not-OneOf→contains seen name fresh in ground (arith, eq_iff name "Create Jobs"),
    )

check_order_iff :
    (seen : List String) (i : ℕ) (js : List Json) (es : List Entry)
    → read_jobs js ≡ some es
    → All (λ e. IsName e.name) es
    → (check_order seen i js ≡ ok tt) ↔ IsOrdered seen es
unfolding check_order
check_order_iff seen i [] es h names = rw (read_jobs-nil es h) (λ _. tt, λ _. refl)
check_order_iff seen i (j ∷ js) es h names =
    let (e, fs, split, found, more) = read_jobs-cons j js es h in
    let (entry, is_obj, named, depends) = read_job-found j e found in
    let path = at_index "#jobs" i in
    let good : All (λ e. IsName e.name) (e ∷ fs) = rw split at names in
    let ih = check_order_iff (e.name ∷ seen) (i + 1) js fs more (good.1) in
    let later = check_order (e.name ∷ seen) (i + 1) js in
    let parents = check_job_parents path (e.name ∷ seen) e.name (obj entry) in
    let tests = name_tests path e.name seen (parents >> later) (good.0) in
    let deps = λ (fresh : ¬ OneOf e.name seen).
      job_parents_iff path e.name seen entry e.parents fresh depends in
    rw (split, is_obj, item-found entry "name" named)
      (
        λ run.
            let (fresh, both) = tests.0 run in
            let (p, q) = then-ok parents later both in (fresh, (deps fresh).0 p, ih.0 q),
        λ (fresh, p, q). tests.1 (fresh, then_all parents later ((deps fresh).1 p) (ih.1 q)),
      )

read_jobs-checked :
    (js : List Json)
    → All IsJob js
    → (es : List Entry) × (read_jobs js ≡ some es) × All (λ e. IsName e.name) es
unfolding read_jobs
read_jobs-checked [] h = ([], refl, tt)
read_jobs-checked (j ∷ js) ((e, found, is_name), h) =
    let (es, more, names) = read_jobs-checked js h in (e ∷ es, ground arith, (is_name, names))

-- The jobs of a document, read without the validator.
abbrev pub read_document : Json → Option (List Entry)
read_document (obj fs) = elim (lookup "jobs" (entries fs)) [
  | some (arr js) ↦ read_jobs (items js)
  | _ ↦ none
]
read_document _ = none

parse_jobs-ok :
    (v : Json) (path : String)
    → parse_jobs v path ≡ ok tt
    → (js : Items) × (v ≡ arr js) × All IsJob (items js)
unfolding parse_jobs
parse_jobs-ok (arr js) path h =
    (js, refl, for_from-ok IsJob _ (λ i d p. parse_job-IsJob d (at_index path i) p) 0 (items js) h)
parse_jobs-ok null path h = ground arith
parse_jobs-ok (bool b) path h = ground arith
parse_jobs-ok (int z) path h = ground arith
parse_jobs-ok (float m k) path h = ground arith
parse_jobs-ok (str s) path h = ground arith
parse_jobs-ok (obj fs) path h = ground arith

jobs_entry :
    (fs : Fields)
    → check_required_properties (obj fs) "#" ("version" ∷ "jobs" ∷ []) ≡ ok tt
    → optional (obj fs) "jobs" (λ v. parse_jobs v "#jobs") ≡ ok tt
    → (js : Items) × (lookup "jobs" (entries fs) ≡ some (arr js)) × All IsJob (items js)
jobs_entry fs required h =
    let present = required_entries-ok fs "#" _ required in
    elim (optional-ok fs "jobs" _ h) [
      | inl gone ↦ absurd (present.1.0 gone)
      | inr (v, found, good) ↦
          let (js, e, each) = parse_jobs-ok v "#jobs" good in (js, rw e at found, each)
    ]

-- A document that passes the first pass has a list of jobs, each of which can be read.
document-jobs :
    (d : Json)
    → parse_document d ≡ ok tt
    → (fs : Fields) × (js : Items) × (d ≡ obj fs)
      × (lookup "jobs" (entries fs) ≡ some (arr js))
      × All IsJob (items js)
unfolding parse_document
document-jobs d h =
    let good = steps-ok _ h in
    let (fs, e, _) = check_allowed_properties-ok d "#" _ (good.0) in
    let (js, found, each) = jobs_entry fs (rw e at (good.1.0)) (rw e at (good.1.1.1.0)) in
    (fs, js, e, found, each)

-- The second pass, on a document that passed the first.
second_pass :
    (fs : Fields) (js : Items)
    → parse_document (obj fs) ≡ ok tt
    → lookup "jobs" (entries fs) ≡ some (arr js)
    → validate_json (obj fs) ≡ (check_order [] 0 (items js) >> ok true)
unfolding validate_json
second_pass fs js h found = rw (h, has-found fs "jobs" found, item-found fs "jobs" found)

first_pass : (d : Json) → validate_json d ≡ ok true → parse_document d ≡ ok tt
unfolding validate_json
first_pass d run = (then-ok (parse_document d) _ run).0

-- The second pass in terms of what was read.
second_pass_iff :
    (fs : Fields) (js : Items) (es : List Entry)
    → parse_document (obj fs) ≡ ok tt
    → lookup "jobs" (entries fs) ≡ some (arr js)
    → read_jobs (items js) ≡ some es
    → All (λ e. IsName e.name) es
    → (validate_json (obj fs) ≡ ok true) ↔ IsOrdered [] es
second_pass_iff fs js es h found all_read names =
    let order = check_order_iff [] 0 (items js) es all_read names in
    let run = second_pass fs js h found in
    (
      λ e. order.0 ((then-ok (check_order [] 0 (items js)) (ok true) (sym run ∙ e)).0),
      λ o. run ∙ then_all (check_order [] 0 (items js)) (ok true) (order.1 o) refl,
    )

-- `validate_json` returns exactly on the documents that pass `parse_document` and whose jobs are in
-- order: no name stands twice, and each job's parents are distinct jobs before it.
pub validate_json_iff :
    (d : Json)
    → (validate_json d ≡ ok true) ↔ (
        (parse_document d ≡ ok tt)
        × ((es : List Entry) × (read_document d ≡ some es) × IsOrdered [] es))
validate_json_iff d = (
  λ run.
      let parsed = first_pass d run in
      let (fs, js, is_obj, found, each) = document-jobs d parsed in
      let (es, all_read, names) = read_jobs-checked (items js) each in
      let order = second_pass_iff fs js es (rw is_obj at parsed) found all_read names in
      (parsed, (es, rw is_obj (ground arith), order.0 (rw is_obj at run))),
  λ (parsed, (es, all_read, ordered)).
      let (fs, js, is_obj, found, each) = document-jobs d parsed in
      let (es', all_read', names) = read_jobs-checked (items js) each in
      let same : es ≡ es' = ground arith in
      let order = second_pass_iff fs js es' (rw is_obj at parsed) found all_read' names in
      rw is_obj (order.1 (rw same at ordered)),
)
