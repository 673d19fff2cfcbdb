-- ===== src/Tests/Filtering.antt =====
-- src/pyinfrabox/docker_compose/__init__.py on a small file.
use infrabox.Compose.Filter.{IsFiltered, parse-filters}
use infrabox.Prelude.{lookup, String, some, ◌≡◌, ◌∷◌, none, All, [], refl}
use infrabox.Compose.{
  Services, Compose, copy_fields, handle_service, handle_each, handle_services, handle_version,
  str_of, handle_key, handle_keys, parse,
}
use infrabox.Python.{Json, obj, str, has, field, item, end, truthy, ok}

abbrev compose_file : Json
compose_file = obj (
    field "version" (str "3.2")
      (field "services" (obj (field "web" (obj (field "image" (str "nginx") end)) end)) end))

abbrev kept : Services
kept = ("web", ("image", str "nginx") ∷ []) ∷ []

abbrev result : Compose
result = record { version = some "3.2"; services = some kept; networks = none }

accepted : parse compose_file ≡ ok result
unfolding lookup has item truthy copy_fields handle_service handle_each handle_services
    handle_version str_of handle_key handle_keys parse
accepted = refl

parse-filters_example :
    ((v : String) → result.version ≡ some v → v ≡ "3.2")
    × ((ss : Services) → result.services ≡ some ss → All IsFiltered ss)
parse-filters_example = parse-filters compose_file result accepted
