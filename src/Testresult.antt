-- ===== src/Testresult.antt =====
-- src/pyinfrabox/testresult/__init__.py: the validator of a test result.
use infrabox.Prelude.{String, ℕ, List, ◌∷◌, [], ◌<>◌, ◌+◌, not}
use infrabox.Python.{
  Json, Check, steps, arr, ok, items, reject, on_item, optional, ◌>>◌, require, for_from,
}
use infrabox.Checks.{
  check_text, check_allowed_properties, check_required_properties, check_number, check_version,
  at_index, is_empty,
}

unfoldable pub parse_measurement : Json → String → Check
parse_measurement d path = steps (
    check_allowed_properties d path ("name" ∷ "unit" ∷ "value" ∷ [])
    ∷ check_required_properties d path ("name" ∷ "unit" ∷ "value" ∷ [])
    ∷ on_item d "unit" (λ v. check_text v (path <> ".unit"))
    ∷ on_item d "name" (λ v. check_text v (path <> ".name"))
    ∷ on_item d "value" (λ v. check_text v (path <> ".value"))
    ∷ [])

-- The loop assigns `path` itself, so the path grows with each element.
unfoldable pub check_measurements : String → ℕ → List Json → Check
check_measurements path i [] = ok tt
check_measurements path i (x ∷ xs) = do
  parse_measurement x (at_index path i)
  check_measurements (at_index path i) (i + 1) xs

unfoldable pub parse_measurements : Json → String → Check
parse_measurements (arr xs) path = check_measurements path 0 (items xs)
parse_measurements _ path = reject path "must be an array"

unfoldable pub parse_t : Json → String → Check
parse_t d path = steps (
    check_allowed_properties d path
      ("suite" ∷ "name" ∷ "status" ∷ "duration" ∷ "message" ∷ "stack" ∷ "measurements" ∷ [])
    ∷ check_required_properties d path ("suite" ∷ "name" ∷ "status" ∷ "duration" ∷ [])
    ∷ on_item d "suite" (λ v. check_text v (path <> ".suite"))
    ∷ on_item d "name" (λ v. check_text v (path <> ".name"))
    ∷ on_item d "status" (λ v. check_text v (path <> ".status"))
    ∷ on_item d "duration" (λ v. check_number v (path <> ".duration"))
    ∷ optional d "message" (λ v. check_text v (path <> ".message"))
    ∷ optional d "stack" (λ v. check_text v (path <> ".stack"))
    ∷ optional d "measurements" (λ v. parse_measurements v (path <> ".measurements"))
    ∷ [])

unfoldable pub parse_ts : Json → String → Check
parse_ts (arr xs) path = do
  require (not (is_empty (items xs))) path "must not be empty"
  for_from (λ i elem. parse_t elem (at_index path i)) 0 (items xs)
parse_ts _ path = reject path "must be an array"

unfoldable pub parse_document : Json → Check
parse_document d = steps (
    check_allowed_properties d "#" ("version" ∷ "tests" ∷ [])
    ∷ check_required_properties d "#" ("version" ∷ "tests" ∷ [])
    ∷ on_item d "version" (λ v. check_version v "#version")
    ∷ on_item d "tests" (λ v. parse_ts v "#tests")
    ∷ [])

unfoldable pub validate_result : Json → Check
validate_result d = parse_document d
