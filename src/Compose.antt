-- ===== src/Compose.antt =====
-- src/pyinfrabox/docker_compose/__init__.py: the filter of a docker-compose file. `yaml.load` is
-- not modelled: `parse` starts from the value that it returned, of texts, numbers, lists and dicts
-- with text keys.
pub mod Filter
use infrabox.Python.{
  Message, ℤ, Json, null, bool, int, arr, Fields, Result, err, ok, pos, str, obj, failure, entries,
  attribute_error, float, negsuc, ◌>>=◌, ◌>>◌, item, truthy, plain, about, has,
}
use infrabox.Prelude.{
  Option, List, String, none, ◌∷◌, ℕ, Bool, [], ◌*◌, ◌==◌, ◌++◌, ◌^◌, leb, false, ◌-◌, ◌+◌,
  if◌then◌else◌, contains, some, ◌<>◌,
}

-- What `parse` returns: the version, the services with their fields, and the networks.
pub record Compose : Type 0 where
  pub version : Option String
  pub services : Option (List (String × List (String × Json)))
  pub networks : Option Json

abbrev pub allowed_fields : List String
allowed_fields =
    "links" ∷ "environment" ∷ "networks" ∷ "tty" ∷ "volumes" ∷ "ports" ∷ "restart" ∷ "build"
    ∷ "command" ∷ "image" ∷ "container_name" ∷ "depends_on" ∷ "entrypoint" ∷ "links" ∷ []

-- `raise Exception(message)`
abbrev pub raise {ℓ} : {A : Type ℓ} → Message → Result A
raise message = err (failure message)

-- `str` of a float has twelve significant digits, so it is "3.2" when m / 2 ^ k is no further from
-- 16 / 5 than 5 / 10 ^ 12.
abbrev pub prints_3_2 : ℤ → ℕ → Bool
prints_3_2 (pos n) k =
    let a = 5 * n in let b = 16 * 2 ^ k in leb ((a - b + (b - a)) * 1_000_000_000_000) (25 * 2 ^ k)
prints_3_2 (negsuc n) k = false

-- `str(value)`. Of a float this is its text where that is "3.2", and else a text that stands for all others.
unfoldable pub str_of : Json → String
str_of (str s) = s
str_of (float m k) = if prints_3_2 m k then "3.2" else "a float"
str_of null = "None"
str_of (bool b) = if b then "True" else "False"
str_of (int z) = "an int"
str_of (arr xs) = "a list"
str_of (obj fs) = "a dict"

unfoldable pub handle_version : Fields → Compose → Result Compose
handle_version d r = do
  v ← item (obj d) "version"
  if str_of v == "3.2"
      then ok (record r { version = some (str_of v) })
      else raise (plain "version not supported, supported version is 3.2")

-- The loop over the fields of a service; `kept` holds those that were copied.
unfoldable pub copy_fields :
    String → List (String × Json) → List (String × Json) → Result (List (String × Json))
copy_fields name kept [] = ok kept
copy_fields name kept ((key, value) ∷ rest) =
    let more = copy_fields name (kept ++ (key, value) ∷ []) rest in
    if contains allowed_fields key
    then more
    else raise (about ("[services][" <> name <> "][") (str key) "] not supported")

-- `d[name].items()`
abbrev pub dict_items : Json → Result (List (String × Json))
dict_items (obj fs) = ok (entries fs)
dict_items _ = err attribute_error

unfoldable pub handle_service : String → Json → Result (List (String × Json))
handle_service name service = do fields ← dict_items service; copy_fields name [] fields

abbrev pub Services : Type 0
Services = List (String × List (String × Json))

unfoldable pub handle_each : Services → List (String × Json) → Result Services
handle_each done [] = ok done
handle_each done ((key, service) ∷ rest) = do
  fields ← handle_service key service
  handle_each (done ++ (key, fields) ∷ []) rest

unfoldable pub handle_services : Fields → Compose → Result Compose
handle_services d r = do
  v ← item (obj d) "services"
  services ← dict_items v
  done ← handle_each [] services
  ok (record r { services = some done })

unfoldable pub handle_key : Fields → String → Json → Compose → Result Compose
handle_key d key value r =
    if key == "version"
    then handle_version d r
    else if key == "services"
    then handle_services d r
    else if key == "networks"
    then ok (record r { networks = some value })
    else raise (about "[" (str key) "] not supported")

unfoldable pub handle_keys : Fields → List (String × Json) → Compose → Result Compose
handle_keys d [] r = ok r
handle_keys d ((key, value) ∷ rest) r = do r' ← handle_key d key value r; handle_keys d rest r'

abbrev pub nothing_yet : Compose
nothing_yet = record { version = none; services = none; networks = none }

-- `for key in d.keys()`
abbrev pub handle_dict : Json → Result Compose
handle_dict (obj fs) = handle_keys fs (entries fs) nothing_yet
handle_dict _ = err attribute_error

unfoldable pub parse : Json → Result Compose
parse d = do
  if truthy d then ok tt else raise (plain "invalid file")
  versioned ← has "version" d
  if versioned then ok tt else raise (plain "version not found")
  serviced ← has "services" d
  if serviced then ok tt else raise (plain "services not found")
  handle_dict d
