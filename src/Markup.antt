-- ===== src/Markup.antt =====
-- src/pyinfrabox/markup/__init__.py: the validator of a markup document. Its functions call each
-- other on the parts of the document, so they take the number of nested calls that Python still
-- allows; at zero the call raises its "maximum recursion depth exceeded".
use Prim.Native.Nat.{zero}
use infrabox.Prelude.{
  String, ℕ, List, Bool, [], ◌||◌, ◌∷◌, length, ◌<>◌, suc, if◌then◌else◌, not, eqb,
}
use infrabox.Python.{
  Json, Check, Result, steps, optional, err, arr, str, ok, recursion_error, on_item, items, require,
  obj, entries, field, key_error, type_error, end, ◌>>=◌, ◌>>◌, for_from, reject,
}
use infrabox.Checks.{
  check_text, check_allowed_properties, check_required_properties, check_number, check_color,
  check_version, at_index, is_empty, is_text, type_of, unsupported, is_one_of,
}

unfoldable pub parse_heading : Json → String → Check
parse_heading d path = steps (
    check_allowed_properties d path ("type" ∷ "text" ∷ [])
    ∷ check_required_properties d path ("type" ∷ "text" ∷ [])
    ∷ on_item d "text" (λ v. check_text v (path <> ".text"))
    ∷ [])

unfoldable pub parse_hline : Json → String → Check
parse_hline d path = steps (
    check_allowed_properties d path ("type" ∷ [])
    ∷ check_required_properties d path ("type" ∷ [])
    ∷ [])

unfoldable pub parse_text : Json → String → Check
parse_text d path = steps (
    check_allowed_properties d path ("type" ∷ "text" ∷ "emphasis" ∷ "color" ∷ [])
    ∷ check_required_properties d path ("type" ∷ "text" ∷ [])
    ∷ on_item d "text" (λ v. check_text v (path <> ".text"))
    ∷ optional d "emphasis" (λ v.
      require (is_one_of v ("bold" ∷ "italic" ∷ [])) (path <> ".emphasis") "not a valid value")
    ∷ optional d "color" (λ v. check_color v (path <> ".color"))
    ∷ [])

unfoldable pub parse_icon : Json → String → Check
parse_icon d path = steps (
    check_allowed_properties d path ("type" ∷ "name" ∷ "color" ∷ [])
    ∷ check_required_properties d path ("type" ∷ "name" ∷ [])
    ∷ on_item d "name" (λ v. check_text v (path <> ".name"))
    ∷ optional d "color" (λ v. check_color v (path <> ".color"))
    ∷ [])

unfoldable pub parse_slice : Json → String → Check
parse_slice elem p = steps (
    check_allowed_properties elem p ("label" ∷ "value" ∷ "color" ∷ [])
    ∷ check_required_properties elem p ("label" ∷ "value" ∷ "color" ∷ [])
    ∷ on_item elem "label" (λ v. check_text v (p <> ".label"))
    ∷ on_item elem "value" (λ v. check_number v (p <> ".value"))
    ∷ on_item elem "color" (λ v. check_color v (p <> ".color"))
    ∷ [])

abbrev pub characters : String → List Json
characters String.[] = []
characters (String.◌∷◌ c s) = str (String.◌∷◌ c String.[]) ∷ characters s

-- The values `v[i]` for `i in range(0, len(v))`: of a list its items, of a text its characters; a
-- dict that is not empty has no key 0.
abbrev pub indexed : Json → Result (List Json)
indexed (arr xs) = ok (items xs)
indexed (str s) = ok (characters s)
indexed (obj end) = ok []
indexed (obj (field k v fs)) = err (key_error "0")
indexed _ = err type_error

unfoldable pub parse_pie : Json → String → Check
parse_pie d path = steps (
    check_allowed_properties d path ("type" ∷ "data" ∷ "name" ∷ [])
    ∷ check_required_properties d path ("type" ∷ "data" ∷ "name" ∷ [])
    ∷ on_item d "name" (λ v. check_text v (path <> ".name"))
    ∷ on_item d "data" (λ v. do
      slices ← indexed v
      for_from (λ i elem. parse_slice elem (at_index (path <> ".data") i)) 0 slices)
    ∷ [])

-- `len(v)`
abbrev pub len_of : Json → Result ℕ
len_of (arr xs) = ok (length (items xs))
len_of (str s) = ok (length (characters s))
len_of (obj fs) = ok (length (entries fs))
len_of _ = err type_error

abbrev pub headers_list : Json → String → Check
headers_list (arr hs) path = do
  require (not (eqb (length (items hs)) 0)) path "must not be empty"
  for_from (λ i h. parse_text h (at_index path i)) 0 (items hs)
headers_list _ path = reject path "must be an array"

-- `len(r) != col_count`, where the table has headers.
abbrev pub check_columns : Json → Json → String → Check
check_columns d r p = optional d "headers" (λ hs. do
  columns ← len_of r
  col_count ← len_of hs
  require (eqb columns col_count) p "does not have the correct number of columns")

abbrev pub is_heading : Json → Bool
is_heading t =
    is_text t "h1" || is_text t "h2" || is_text t "h3" || is_text t "h4" || is_text t "h5"

-- The element types that hold elements, over the recursive call.
module _ (parse_elements : Json → String → Check) where
  unfoldable pub parse_ordered_list : Json → String → Check
  parse_ordered_list d path = steps (
      check_allowed_properties d path ("type" ∷ "elements" ∷ [])
      ∷ check_required_properties d path ("type" ∷ "elements" ∷ [])
      ∷ on_item d "elements" (λ v. parse_elements v (path <> ".elements"))
      ∷ [])

  unfoldable pub parse_unordered_list : Json → String → Check
  parse_unordered_list d path = steps (
      check_allowed_properties d path ("type" ∷ "elements" ∷ [])
      ∷ check_required_properties d path ("type" ∷ "elements" ∷ [])
      ∷ on_item d "elements" (λ v. parse_elements v (path <> ".elements"))
      ∷ [])

  unfoldable pub parse_group : Json → String → Check
  parse_group d path = steps (
      check_allowed_properties d path ("type" ∷ "elements" ∷ [])
      ∷ check_required_properties d path ("type" ∷ "elements" ∷ [])
      ∷ on_item d "elements" (λ v. parse_elements v (path <> ".elements"))
      ∷ [])

  unfoldable pub parse_paragraph : Json → String → Check
  parse_paragraph d path = steps (
      check_allowed_properties d path ("type" ∷ "elements" ∷ [])
      ∷ check_required_properties d path ("type" ∷ "elements" ∷ [])
      ∷ on_item d "elements" (λ v. parse_elements v (path <> ".elements"))
      ∷ [])

  abbrev pub grid_rows : Json → String → Check
  grid_rows (arr rows) path = do
    require (not (is_empty (items rows))) path "must not be empty"
    for_from (λ i r. parse_elements r (at_index path i)) 0 (items rows)
  grid_rows _ path = reject path "must be an array"

  unfoldable pub parse_grid : Json → String → Check
  parse_grid d path = steps (
      check_allowed_properties d path ("type" ∷ "rows" ∷ [])
      ∷ check_required_properties d path ("type" ∷ "rows" ∷ [])
      ∷ on_item d "rows" (λ v. grid_rows v (path <> ".rows"))
      ∷ [])

  abbrev pub table_rows : Json → Json → String → Check
  table_rows d (arr rows) path = do
    require (not (is_empty (items rows))) path "must not be empty"
    for_from (λ i r. do check_columns d r (at_index path i); parse_elements r (at_index path i)) 0
        (items rows)
  table_rows d _ path = reject path "must be an array"

  unfoldable pub parse_table : Json → String → Check
  parse_table d path = steps (
      check_allowed_properties d path ("type" ∷ "rows" ∷ "headers" ∷ [])
      ∷ check_required_properties d path ("type" ∷ "rows" ∷ [])
      ∷ optional d "headers" (λ v. headers_list v (path <> ".headers"))
      ∷ on_item d "rows" (λ v. table_rows d v (path <> ".rows"))
      ∷ [])

  -- The chain of `elif` on the type of an element.
  unfoldable pub parse_typed : Json → Json → String → Check
  parse_typed t elem p =
      if is_heading t
      then parse_heading elem p
      else if is_text t "hline"
      then parse_hline elem p
      else if is_text t "paragraph"
      then parse_paragraph elem p
      else if is_text t "text"
      then parse_text elem p
      else if is_text t "ordered_list"
      then parse_ordered_list elem p
      else if is_text t "unordered_list"
      then parse_unordered_list elem p
      else if is_text t "group"
      then parse_group elem p
      else if is_text t "pie"
      then parse_pie elem p
      else if is_text t "grid"
      then parse_grid elem p
      else if is_text t "table"
      then parse_table elem p
      else if is_text t "icon"
      then parse_icon elem p
      else unsupported t p

  unfoldable pub parse_element : Json → String → Check
  parse_element elem p = do t ← type_of elem p; parse_typed t elem p

  abbrev pub elements_list : Json → String → Check
  elements_list (arr xs) path = do
    require (not (is_empty (items xs))) path "must not be empty"
    for_from (λ i elem. parse_element elem (at_index path i)) 0 (items xs)
  elements_list _ path = reject path "must be an array"

unfoldable pub parse_elements : ℕ → Json → String → Check
parse_elements zero e path = err recursion_error
parse_elements (suc depth) e path = elements_list (λ v p. parse_elements depth v p) e path

unfoldable pub parse_document : ℕ → Json → Check
parse_document depth d = steps (
    check_allowed_properties d "#" ("version" ∷ "title" ∷ "elements" ∷ [])
    ∷ check_required_properties d "#" ("version" ∷ "title" ∷ "elements" ∷ [])
    ∷ on_item d "version" (λ v. check_version v "#version")
    ∷ on_item d "title" (λ v. check_text v "#title")
    ∷ on_item d "elements" (λ v. parse_elements depth v "#elements")
    ∷ [])

unfoldable pub validate_markup : ℕ → Json → Check
validate_markup depth d = parse_document depth d
