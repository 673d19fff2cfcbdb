-- ===== src/Badge.antt =====
-- src/pyinfrabox/badge/__init__.py: the validator of a badge.
use infrabox.Prelude.{◌∷◌, []}
use infrabox.Python.{Json, Check, steps, on_item}
use infrabox.Checks.{
  check_text, check_allowed_properties, check_required_properties, check_color, check_version,
}

unfoldable pub parse_badge : Json → Check
parse_badge d = steps (
    check_allowed_properties d "#" ("version" ∷ "subject" ∷ "status" ∷ "color" ∷ [])
    ∷ check_required_properties d "#" ("version" ∷ "subject" ∷ "status" ∷ "color" ∷ [])
    ∷ on_item d "version" (λ v. check_version v "#version")
    ∷ on_item d "subject" (λ v. check_text v "#subject")
    ∷ on_item d "status" (λ v. check_text v "#status")
    ∷ on_item d "color" (λ v. check_color v "#color")
    ∷ [])

unfoldable pub validate_badge : Json → Check
validate_badge d = parse_badge d
