-- ===== src/Checks.antt =====
-- src/pyinfrabox/utils.py: the checks that all validators are made of.
pub mod Laws
use infrabox.Prelude.{
  ℕ, ◌+◌, String, ◌<>◌, Bool, true, false, not, List, [], ◌∷◌, ◌==◌, eqb, contains, show_nat,
  if◌then◌else◌,
}
use infrabox.Python.{
  item, ◌>>=◌, ◌>>◌, about, invalid, Json, bool, int, str, arr, obj, items, entries, pos, invalid,
  about, ok, err, Check, reject, require, has, for_each, ◌>>=◌, ◌>>◌, Result,
}

unfoldable pub check_text : Json → String → Check
check_text (str s) path = require (not (s == "")) path "empty string not allowed"
check_text _ path = reject path "is not a string"

-- The path of the i-th element: "%s[%s]" % (path, i)
abbrev pub at_index : String → ℕ → String
at_index path i = path <> "[" <> show_nat i <> "]"

unfoldable pub check_allowed_properties : Json → String → List String → Check
check_allowed_properties (obj fs) path allowed =
    for_each
      (λ (key, v).
        if contains allowed key
        then ok tt
        else err (invalid path (about "invalid property '" (str key) "'")))
      (entries fs)
check_allowed_properties _ path allowed = reject path "must be an object"

unfoldable pub check_required_properties : Json → String → List String → Check
check_required_properties (obj fs) path required =
    for_each
      (λ key. do
        present ← has key (obj fs)
        if present
            then ok tt
            else err (invalid path (about "property '" (str key) "' is required")))
      required
check_required_properties _ path required = reject path "must be an object"

-- The loop assigns `path` itself, so the path grows with each element.
unfoldable pub check_strings : String → ℕ → List Json → Check
check_strings path i [] = ok tt
check_strings path i (x ∷ xs) = do
  check_text x (at_index path i)
  check_strings (at_index path i) (i + 1) xs

abbrev pub is_empty : List Json → Bool
is_empty [] = true
is_empty (x ∷ xs) = false

unfoldable pub check_string_array : Json → String → Check
check_string_array (arr xs) path = do
  require (not (is_empty (items xs))) path "must not be empty"
  check_strings path 0 (items xs)
check_string_array _ path = reject path "must be an array"

unfoldable pub check_boolean : Json → String → Check
check_boolean (bool b) path = ok tt
check_boolean _ path = reject path "must be a boolean"

-- `isinstance(d, int)` holds of a bool too.
unfoldable pub check_number : Json → String → Check
check_number (int z) path = ok tt
check_number (bool b) path = ok tt
check_number _ path = reject path "must be a number"

abbrev pub colors : List String
colors = "red" ∷ "green" ∷ "blue" ∷ "yellow" ∷ "orange" ∷ "white" ∷ "black" ∷ "grey" ∷ []

-- `v in (texts)`
abbrev pub is_one_of : Json → List String → Bool
is_one_of (str s) texts = contains texts s
is_one_of _ texts = false

unfoldable pub check_color : Json → String → Check
check_color d path = require (is_one_of d colors) path "not a valid value"

-- The `check_version` of the validators: an int, a bool included, that equals 1.
unfoldable pub check_version : Json → String → Check
check_version (int (pos n)) path = require (eqb n 1) path "unsupported version"
check_version (int _) path = reject path "unsupported version"
check_version (bool b) path = require b path "unsupported version"
check_version _ path = reject path "must be an int"

-- `t == text`
abbrev pub is_text : Json → String → Bool
is_text (str s) t = s == t
is_text _ t = false

-- The guard and the read of `type` that start each of the loops below.
unfoldable pub type_of : Json → String → Result Json
type_of elem p = do
  present ← has "type" elem
  require present p "does not contain a 'type'"
  item elem "type"

abbrev pub unsupported : Json → String → Check
unsupported t p = err (invalid p (about "type '" t "' not supported"))
