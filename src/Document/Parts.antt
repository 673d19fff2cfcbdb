-- ===== src/Document/Parts.antt =====
-- src/pyinfrabox/infrabox/__init__.py: names, dependencies and the settings inside of a job.
use Prim.Native.Char.{code}
use infrabox.Prelude.{
  ℕ, ◌+◌, String, ◌<>◌, Bool, true, false, not, ◌&&◌, ◌||◌, List, [], ◌∷◌, ◌++◌, leb, eqb, contains,
  any, if◌then◌else◌,
}
use infrabox.Python.{
  Json, bool, int, str, arr, obj, items, entries, pos, negsuc, invalid, about, type_error, ok, err,
  Check, Result, reject, require, has, item, optional, on_item, steps, for_each, for_from, json_eq,
  ◌>>=◌, ◌>>◌,
}
use infrabox.Checks.{
  check_text, check_allowed_properties, check_required_properties, check_string_array,
  check_boolean, check_number, at_index, is_empty,
}

-- A character of [a-z0-9_-].
abbrev pub is_name_char : ℕ → Bool
is_name_char c =
    (leb b'a' c && leb c b'z') || (leb b'0' c && leb c b'9') || eqb c b'_' || eqb c b'-'

-- No character is outside of the class: `not bool(search(strg))`.
unfoldable pub special_match : String → Bool
special_match String.[] = true
special_match (String.◌∷◌ c s) = is_name_char (code c) && special_match s

abbrev pub match_name : Json → String → Check
match_name (str s) path =
    if special_match s then ok tt else err (invalid path (about "'" (str s) "' not a valid value"))
match_name _ path = err type_error

unfoldable pub check_name : Json → String → Check
check_name n path = steps (check_text n path ∷ match_name n path ∷ [])

unfoldable pub parse_repository : Json → String → Check
parse_repository d path = steps (
    check_allowed_properties d path ("clone" ∷ "submodules" ∷ [])
    ∷ optional d "clone" (λ v. check_boolean v (path <> ".clone"))
    ∷ optional d "submodules" (λ v. check_boolean v (path <> ".submodules"))
    ∷ [])

unfoldable pub parse_cluster : Json → String → Check
parse_cluster d path = steps (
    check_allowed_properties d path ("selector" ∷ [])
    ∷ on_item d "selector" (λ v. check_string_array v (path <> ".selector"))
    ∷ [])

abbrev pub conditions : List String
conditions = "finished" ∷ "error" ∷ "failure" ∷ "*" ∷ []

-- The loop over `on`; `used` holds the keys of `on_used`.
unfoldable pub check_on : String → List String → List Json → Check
check_on path used [] = ok tt
check_on path used (str s ∷ rest) =
    let more = check_on path (s ∷ used) rest in
    if contains conditions s
    then (if contains used s then err (invalid path (about "" (str s) " used twice")) else more)
    else err (invalid path (about "" (str s) " is not a valid value"))
check_on path used (i ∷ rest) = err (invalid path (about "" i " is not a valid value"))

abbrev pub on_list : Json → String → Check
on_list (arr xs) path = do
  require (not (is_empty (items xs))) path "must not be empty"
  check_on path [] (items xs)
on_list _ path = reject path "must be a list"

unfoldable pub parse_depends_on_condition : Json → String → Check
parse_depends_on_condition d path = steps (
    check_allowed_properties d path ("job" ∷ "on" ∷ [])
    ∷ check_required_properties d path ("job" ∷ "on" ∷ [])
    ∷ on_item d "job" (λ v. check_name v (path <> ".job"))
    ∷ on_item d "on" (λ v. on_list v (path <> ".on"))
    ∷ [])

abbrev pub parse_dependency : String → Json → Check
parse_dependency path (obj fs) = parse_depends_on_condition (obj fs) path
parse_dependency path n = check_name n path

unfoldable pub parse_depends_on : Json → String → Check
parse_depends_on (arr xs) path = do
  require (not (is_empty (items xs))) path "must not be empty"
  for_from (λ i n. parse_dependency (at_index path i) n) 0 (items xs)
parse_depends_on _ path = reject path "must be an list"

unfoldable pub parse_build_args : Json → String → Check
parse_build_args (obj fs) path =
    for_each (λ (key, v). check_text v (path <> "." <> key)) (entries fs)
parse_build_args _ path = reject path "must be an object"

unfoldable pub parse_secret_ref : Json → String → Check
parse_secret_ref (obj fs) path = do
  present ← has "$secret" (obj fs)
  require present path "must contain a $secret"
  on_item (obj fs) "$secret" (λ v. check_text v (path <> ".$secret"))
parse_secret_ref _ path = reject path "must be an object"

-- The bare `except` turns each exception into the one message.
abbrev pub caught : Check → String → Check
caught (ok _) path = ok tt
caught (err _) path = reject path "must be a string or object"

abbrev pub parse_variable : Json → String → Check
parse_variable (obj fs) path = parse_secret_ref (obj fs) path
parse_variable v path = caught (check_text v path) path

unfoldable pub parse_environment : Json → String → Check
parse_environment (obj fs) path =
    for_each (λ (key, v). parse_variable v (path <> "." <> key)) (entries fs)
parse_environment _ path = reject path "must be an object"

unfoldable pub parse_cache : Json → String → Check
parse_cache d path = steps (
    check_allowed_properties d path ("data" ∷ "image" ∷ "after_image" ∷ [])
    ∷ optional d "data" (λ v. check_boolean v (path <> ".data"))
    ∷ optional d "image" (λ v. check_boolean v (path <> ".image"))
    ∷ optional d "after_image" (λ v. check_boolean v (path <> ".after_image"))
    ∷ [])

-- `v <= bound` for an int, a bool included.
abbrev pub at_most : Json → ℕ → Result Bool
at_most (int (pos n)) bound = ok (leb n bound)
at_most (int (negsuc n)) bound = ok true
at_most (bool true) bound = ok (leb 1 bound)
at_most (bool false) bound = ok true
at_most _ bound = err type_error

abbrev pub require_above : ℕ → String → String → Json → Check
require_above bound path message v = do low ← at_most v bound; require (not low) path message

unfoldable pub parse_limits : Json → String → Check
parse_limits d path = steps (
    check_allowed_properties d path ("memory" ∷ "cpu" ∷ [])
    ∷ check_required_properties d path ("memory" ∷ "cpu" ∷ [])
    ∷ on_item d "cpu" (λ v. check_number v (path <> ".cpu"))
    ∷ on_item d "memory" (λ v. check_number v (path <> ".memory"))
    ∷ on_item d "cpu" (require_above 0 (path <> ".cpu") "must be greater than 0")
    ∷ on_item d "memory" (require_above 255 (path <> ".memory") "must be greater than 255")
    ∷ [])

-- The same text as `parse_limits`; nothing in the module calls it.
unfoldable pub parse_kubernetes_limits : Json → String → Check
parse_kubernetes_limits d path = steps (
    check_allowed_properties d path ("memory" ∷ "cpu" ∷ [])
    ∷ check_required_properties d path ("memory" ∷ "cpu" ∷ [])
    ∷ on_item d "cpu" (λ v. check_number v (path <> ".cpu"))
    ∷ on_item d "memory" (λ v. check_number v (path <> ".memory"))
    ∷ on_item d "cpu" (require_above 0 (path <> ".cpu") "must be greater than 0")
    ∷ on_item d "memory" (require_above 255 (path <> ".memory") "must be greater than 255")
    ∷ [])

unfoldable pub parse_add_capabilities : Json → String → Check
parse_add_capabilities d path = check_string_array d path

unfoldable pub parse_capabilities : Json → String → Check
parse_capabilities d path = steps (
    check_allowed_properties d path ("add" ∷ [])
    ∷ optional d "add" (λ v. parse_add_capabilities v (path <> ".add"))
    ∷ [])

unfoldable pub parse_security_context : Json → String → Check
parse_security_context d path = steps (
    check_allowed_properties d path ("capabilities" ∷ "privileged" ∷ [])
    ∷ optional d "capabilities" (λ v. parse_capabilities v (path <> ".capabilities"))
    ∷ optional d "privileged" (λ v. check_boolean v (path <> ".privileged"))
    ∷ [])

unfoldable pub parse_service_spec : Json → String → Check
parse_service_spec (obj fs) path =
    for_each (λ (key, v). check_text v (path <> "." <> key)) (entries fs)
parse_service_spec _ path = reject path "must be an object"

-- The checks of one service up to its name.
unfoldable pub service_name : Json → String → Result Json
service_name elem p = do
  check_allowed_properties elem p ("apiVersion" ∷ "kind" ∷ "metadata" ∷ "spec" ∷ [])
  check_required_properties elem p ("apiVersion" ∷ "kind" ∷ "metadata" ∷ [])
  on_item elem "metadata" (λ m. check_required_properties m (p <> ".metadata") ("name" ∷ []))
  metadata ← item elem "metadata"
  item metadata "name"

-- The loop of `parse_services`; `names` are those met so far.
unfoldable pub check_services : String → ℕ → List Json → List Json → Check
check_services path i names [] = ok tt
check_services path i names (elem ∷ rest) = do
  name ← service_name elem (at_index path i)
  if any (json_eq name) names
      then err (invalid (at_index path i) (about "duplicate service name found: " name ""))
      else ok tt
  optional elem "spec" (λ v. parse_service_spec v (at_index path i <> ".spec"))
  check_services path (i + 1) (names ++ name ∷ []) rest

unfoldable pub parse_services : Json → String → Check
parse_services (arr xs) path = check_services path 0 [] (items xs)
parse_services _ path = reject path "must be an array"

unfoldable pub parse_resources : Json → String → Check
parse_resources d path = steps (
    check_allowed_properties d path ("limits" ∷ "kubernetes" ∷ [])
    ∷ check_required_properties d path ("limits" ∷ [])
    ∷ on_item d "limits" (λ v. parse_limits v (path <> ".limits"))
    ∷ [])
