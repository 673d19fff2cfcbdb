-- ===== src/Compose/Filter.antt =====
-- src/pyinfrabox/docker_compose/__init__.py: what `parse` lets pass.
use infrabox.Python.Laws.{bind-ok, then-ok}
use infrabox.Python.{Json, Fields, item, entries, truthy, bool, int, has, arr, null}
use infrabox.Compose.{
  copy_fields, handle_service, handle_each, Compose, handle_key, Services, handle_version,
  handle_services, handle_keys, ok, allowed_fields, dict_items, obj, str_of, handle_dict, parse,
  nothing_yet, raise, plain, float, str,
}
use infrabox.Prelude.{
  ◌∷◌, String, List, ◌≡◌, OneOf, All, some, arith, Bool-cases, ◌==◌, [], inl, inr, contains, ◌++◌,
  All-append, contains→OneOf, eq_iff, if◌then◌else◌,
}

abbrev pub IsAllowed : String × Json → Type 0
IsAllowed (key, value) = OneOf key allowed_fields

-- A service has allowed fields only.
abbrev pub IsFiltered : String × List (String × Json) → Type 0
IsFiltered (name, fields) = All IsAllowed fields

copy_fields-All :
    (name : String) (kept fs out : List (String × Json))
    → All IsAllowed kept
    → copy_fields name kept fs ≡ ok out
    → All IsAllowed out
unfolding copy_fields
copy_fields-All name kept [] out h run = let same : kept ≡ out = ground arith in rw (← same) h
copy_fields-All name kept ((key, value) ∷ fs) out h run =
    elim (Bool-cases (contains allowed_fields key)) [
      | inl allowed ↦
          copy_fields-All name (kept ++ (key, value) ∷ []) fs out
            (All-append IsAllowed kept ((key, value) ∷ []) h
              (contains→OneOf allowed_fields key allowed, tt))
            (rw allowed at run)
      | inr other ↦ ground (arith, other, run)
    ]

handle_service-IsFiltered :
    (name : String) (service : Json) (out : List (String × Json))
    → handle_service name service ≡ ok out
    → IsFiltered (name, out)
unfolding handle_service
handle_service-IsFiltered name service out run =
    let (fields, run₁, _) = bind-ok (dict_items service) _ run in
    copy_fields-All name [] fields out tt run₁

handle_each-All :
    (done : Services) (ss : List (String × Json)) (out : Services)
    → All IsFiltered done
    → handle_each done ss ≡ ok out
    → All IsFiltered out
unfolding handle_each
handle_each-All done [] out h run = let same : done ≡ out = ground arith in rw (← same) h
handle_each-All done ((key, service) ∷ ss) out h run =
    let (fields, run₁, handled) = bind-ok (handle_service key service) _ run in
    handle_each-All (done ++ (key, fields) ∷ []) ss out
      (All-append IsFiltered done ((key, fields) ∷ []) h
        (handle_service-IsFiltered key service fields handled, tt))
      run₁

-- What holds of the result while the loop over the keys goes on.
abbrev Partial : Compose → Type 0
Partial r =
    ((v : String) → r.version ≡ some v → v ≡ "3.2")
    × ((ss : Services) → r.services ≡ some ss → All IsFiltered ss)

handle_version-Partial :
    (d : Fields) (r r' : Compose) → Partial r → handle_version d r ≡ ok r' → Partial r'
unfolding handle_version
handle_version-Partial d r r' (version, services) run =
    let (v, run₁, _) = bind-ok (item (obj d) "version") _ run in
    elim (Bool-cases (str_of v == "3.2")) [
      | inl good ↦
          let same : record r { version = some (str_of v) } ≡ r' =
            let e = rw good at run₁ in ground arith in
          let read : str_of v ≡ "3.2" = ground (arith, eq_iff (str_of v) "3.2") in
          rw (← same) (λ text e. ground arith, services)
      | inr bad ↦ let e = rw bad at run₁ in ground arith
    ]

handle_services-Partial :
    (d : Fields) (r r' : Compose) → Partial r → handle_services d r ≡ ok r' → Partial r'
unfolding handle_services
handle_services-Partial d r r' (version, services) run =
    let (v, run₁, _) = bind-ok (item (obj d) "services") _ run in
    let (ss, run₂, _) = bind-ok (dict_items v) _ run₁ in
    let (done, run₃, handled) = bind-ok (handle_each [] ss) _ run₂ in
    let same : record r { services = some done } ≡ r' = ground arith in
    rw (← same) (
      version,
      λ ss' e.
          let e' : done ≡ ss' = ground arith in rw (← e') (handle_each-All [] ss done tt handled),
    )

handle_key-Partial :
    (d : Fields) (key : String) (value : Json) (r r' : Compose)
    → Partial r
    → handle_key d key value r ≡ ok r'
    → Partial r'
unfolding handle_key
handle_key-Partial d key value r r' h run = elim (Bool-cases (key == "version")) [
  | inl is_version ↦ handle_version-Partial d r r' h (rw is_version at run)
  | inr other ↦ elim (Bool-cases (key == "services")) [
    | inl is_services ↦ handle_services-Partial d r r' h (rw (other, is_services) at run)
    | inr third ↦ elim (Bool-cases (key == "networks")) [
      | inl is_networks ↦
          let same : record r { networks = some value } ≡ r' =
            let e = rw (other, third, is_networks) at run in ground arith in
          rw (← same) h
      | inr fourth ↦ let e = rw (other, third, fourth) at run in ground arith
    ]
  ]
]

handle_keys-Partial :
    (d : Fields) (fs : List (String × Json)) (r r' : Compose)
    → Partial r
    → handle_keys d fs r ≡ ok r'
    → Partial r'
unfolding handle_keys
handle_keys-Partial d [] r r' h run = let same : r ≡ r' = ground arith in rw (← same) h
handle_keys-Partial d ((key, value) ∷ fs) r r' h run =
    let (r₁, run₁, handled) = bind-ok (handle_key d key value r) _ run in
    handle_keys-Partial d fs r₁ r' (handle_key-Partial d key value r r₁ h handled) run₁

handle_dict-filters : (d : Json) (r : Compose) → handle_dict d ≡ ok r → Partial r
handle_dict-filters (obj fs) r run =
    handle_keys-Partial fs (entries fs) nothing_yet r (λ v e. ground arith, λ ss e. ground arith)
      run
handle_dict-filters null r run = ground arith
handle_dict-filters (bool b) r run = ground arith
handle_dict-filters (int n) r run = ground arith
handle_dict-filters (float m k) r run = ground arith
handle_dict-filters (str s) r run = ground arith
handle_dict-filters (arr xs) r run = ground arith

-- If `parse` returns, a version that it read is 3.2, and each service that it returns has fields of
-- `allowed_fields` only.
pub parse-filters :
    (d : Json) (r : Compose)
    → parse d ≡ ok r
    → ((v : String) → r.version ≡ some v → v ≡ "3.2")
      × ((ss : Services) → r.services ≡ some ss → All IsFiltered ss)
unfolding parse
parse-filters d r run =
    let (_, run₁) = then-ok (if truthy d then ok tt else raise (plain "invalid file")) _ run in
    let (_, run₂, _) = bind-ok (has "version" d) _ run₁ in
    let (_, run₃) = then-ok (if _ then ok tt else raise (plain "version not found")) _ run₂ in
    let (_, run₄, _) = bind-ok (has "services" d) _ run₃ in
    let (_, run₅) = then-ok (if _ then ok tt else raise (plain "services not found")) _ run₄ in
    handle_dict-filters d r run₅
