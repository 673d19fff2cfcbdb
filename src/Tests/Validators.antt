-- ===== src/Tests/Validators.antt =====
-- The validators under src/pyinfrabox on small documents.
use infrabox.Document.Jobs.{parse_docker}
use infrabox.Document.Order.{read_document, validate_json_iff}
use infrabox.Document.Parents.{IsOrdered}
use infrabox.Document.Shape.{Entry}
use infrabox.Document.Parts.{
  special_match, check_name, check_on, parse_depends_on_condition, parse_depends_on, parse_limits,
  parse_resources,
}
use infrabox.Checks.Laws.{
  check_strings_path, IsText, check_string_array_iff, HasOnly, HasEach, check_properties_iff,
}
use infrabox.Document.Validate.{
  validate_json, parse_document, parse_typed, parse_job, parse_jobs, check_parents,
  check_job_parents, check_order,
}
use infrabox.Checks.{
  check_text, check_version, check_allowed_properties, check_string_array, check_strings,
  check_required_properties, check_boolean, check_number, type_of,
}
use infrabox.Prelude.{
  lookup, show_nat, String, ◌≢◌, ◌≡◌, ◌∷◌, arith, true, [], eq_iff, ◌↔◌, refl, List, All, some,
}
use infrabox.Python.{
  has, item, optional, on_item, steps, for_from, for_each, json_eq, Json, obj, Fields, end, field,
  bool, arr, null, str, int, cons, ok, err, reject, pos, nil, invalid, about, items, ◌>>◌, Items,
}

-- An object of two, three and four entries.
abbrev limits : Json
limits = obj (field "cpu" (int (pos 1)) (field "memory" (int (pos 1024)) end))

abbrev job_named : String → Fields → Json
job_named name rest = obj (
    field "type" (str "docker") (
      field "name" (str name) (
        field "docker_file" (str "Dockerfile")
          (field "resources" (obj (field "limits" limits end)) rest))))

abbrev build_job : Json
build_job = job_named "build" end

-- Waits for `build`, whatever its end.
abbrev test_job : Json
test_job = job_named "test" (
    field "depends_on"
      (arr (cons (obj (field "job" (str "build") (field "on" (arr (cons (str "*") nil)) end))) nil))
      end)

abbrev two_jobs : Json
two_jobs =
    obj
      (field "version" (int (pos 1)) (field "jobs" (arr (cons build_job (cons test_job nil))) end))

abbrev wrong_order : Json
wrong_order =
    obj
      (field "version" (int (pos 1)) (field "jobs" (arr (cons test_job (cons build_job nil))) end))

-- All that a run of the validator computes with.
program : Unit {0}
unfolding lookup show_nat has item optional on_item steps for_from for_each json_eq check_text
    check_allowed_properties check_required_properties check_strings check_string_array
    check_boolean check_number check_version type_of special_match check_name check_on
    parse_depends_on_condition parse_depends_on parse_limits parse_resources parse_docker
    parse_typed parse_job parse_jobs parse_document check_parents check_job_parents check_order
    validate_json
program = tt

accepted : validate_json two_jobs ≡ ok true
unfolding program
accepted = refl

unknown_parent :
    validate_json wrong_order
    ≡ err (invalid "#jobs[0].depends_on" (about "Job '" (str "build") "' not found"))
unfolding program
unknown_parent = refl

-- A bool passes for an int, so `true` is a version.
version_true : check_version (bool true) "#version" ≡ ok tt
unfolding check_version
version_true = refl

validate_json_iff_example : (validate_json two_jobs ≡ ok true) ↔ (
    (parse_document two_jobs ≡ ok tt)
    × ((es : List Entry) × (read_document two_jobs ≡ some es) × IsOrdered [] es))
validate_json_iff_example = validate_json_iff two_jobs

check_properties_iff_example :
    ((check_allowed_properties limits "#" ("memory" ∷ "cpu" ∷ [])
        >> check_required_properties limits "#" ("cpu" ∷ []))
      ≡ ok tt)
    ↔ (HasOnly ("memory" ∷ "cpu" ∷ []) limits × HasEach ("cpu" ∷ []) limits)
check_properties_iff_example = check_properties_iff limits "#" ("memory" ∷ "cpu" ∷ []) ("cpu" ∷ [])

abbrev one_text : Json
one_text = arr (cons (str "a") nil)

check_string_array_iff_example :
    (check_string_array one_text "#" ≡ ok tt)
    ↔ ((xs : Items) × (one_text ≡ arr xs) × (items xs ≢ []) × All IsText (items xs))
check_string_array_iff_example = check_string_array_iff one_text "#"

a_not_empty : ◌≢◌ {A = String} "a" ""
a_not_empty = ground (arith, eq_iff "a" "")

null_refused : (p : String) → check_text null p ≡ reject p "is not a string"
unfolding check_text
null_refused p = refl

check_strings_path_example :
    check_strings "#c" 0 (str "a" ∷ null ∷ []) ≡ reject "#c[0][1]" "is not a string"
unfolding show_nat
check_strings_path_example =
    check_strings_path "#c" 0 (str "a" ∷ []) null [] (("a", refl, a_not_empty), tt) null_refused
