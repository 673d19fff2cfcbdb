-- ===== src/Document/Jobs.antt =====
-- src/pyinfrabox/infrabox/__init__.py: registries, deployments, the job types and the document.
use infrabox.Prelude.{String, ◌<>◌, not, [], ◌∷◌, if◌then◌else◌}
use infrabox.Python.{
  Json, arr, items, Check, reject, require, optional, on_item, steps, for_from, ◌>>=◌, ◌>>◌,
}
use infrabox.Checks.{
  is_text, type_of, unsupported, check_text, check_allowed_properties, check_required_properties,
  check_string_array, check_boolean, check_number, at_index, is_empty,
}
use infrabox.Document.Parts.{
  check_name, parse_repository, parse_cluster, parse_depends_on, parse_build_args, parse_secret_ref,
  parse_environment, parse_cache, parse_security_context, parse_services, parse_resources,
}

unfoldable pub parse_git : Json → String → Check
parse_git d path = steps (
    check_allowed_properties d path (
      "type" ∷ "name" ∷ "commit" ∷ "clone_url" ∷ "depends_on" ∷ "environment" ∷ "infrabox_file"
      ∷ [])
    ∷ check_required_properties d path ("type" ∷ "name" ∷ "commit" ∷ "clone_url" ∷ [])
    ∷ on_item d "name" (λ v. check_name v (path <> ".name"))
    ∷ on_item d "commit" (λ v. check_text v (path <> ".commit"))
    ∷ on_item d "clone_url" (λ v. check_text v (path <> ".clone_url"))
    ∷ optional d "depends_on" (λ v. parse_depends_on v (path <> ".depends_on"))
    ∷ optional d "environment" (λ v. parse_environment v (path <> ".environment"))
    ∷ optional d "infrabox_file" (λ v. check_text v (path <> ".infrabox_file"))
    ∷ [])

unfoldable pub parse_workflow : Json → String → Check
parse_workflow d path = steps (
    check_allowed_properties d path ("type" ∷ "name" ∷ "infrabox_file" ∷ "depends_on" ∷ [])
    ∷ check_required_properties d path ("type" ∷ "name" ∷ "infrabox_file" ∷ [])
    ∷ on_item d "name" (λ v. check_name v (path <> ".name"))
    ∷ on_item d "infrabox_file" (λ v. check_text v (path <> ".infrabox_file"))
    ∷ optional d "depends_on" (λ v. parse_depends_on v (path <> ".depends_on"))
    ∷ [])

unfoldable pub parse_wait : Json → String → Check
parse_wait d path = steps (
    check_allowed_properties d path ("type" ∷ "name" ∷ "depends_on" ∷ [])
    ∷ check_required_properties d path ("type" ∷ "name" ∷ [])
    ∷ on_item d "name" (λ v. check_name v (path <> ".name"))
    ∷ optional d "depends_on" (λ v. parse_depends_on v (path <> ".depends_on"))
    ∷ [])

unfoldable pub parse_docker_compose : Json → String → Check
parse_docker_compose d path = steps (
    check_allowed_properties d path (
      "type" ∷ "name" ∷ "docker_compose_file" ∷ "depends_on" ∷ "environment" ∷ "resources" ∷ "cache"
      ∷ "timeout" ∷ "cluster" ∷ [])
    ∷ check_required_properties d path ("type" ∷ "name" ∷ "docker_compose_file" ∷ "resources" ∷ [])
    ∷ on_item d "name" (λ v. check_name v (path <> ".name"))
    ∷ on_item d "docker_compose_file" (λ v. check_text v (path <> ".docker_compose_file"))
    ∷ on_item d "resources" (λ v. parse_resources v (path <> ".resources"))
    ∷ optional d "cluster" (λ v. parse_cluster v (path <> ".cluster"))
    ∷ optional d "timeout" (λ v. check_number v (path <> ".timeout"))
    ∷ optional d "cache" (λ v. parse_cache v (path <> ".cache"))
    ∷ optional d "depends_on" (λ v. parse_depends_on v (path <> ".depends_on"))
    ∷ optional d "environment" (λ v. parse_environment v (path <> ".environment"))
    ∷ [])

unfoldable pub parse_deployment_docker_registry : Json → String → Check
parse_deployment_docker_registry d path = steps (
    check_allowed_properties d path
      ("type" ∷ "host" ∷ "repository" ∷ "username" ∷ "password" ∷ "tag" ∷ [])
    ∷ check_required_properties d path ("type" ∷ "host" ∷ "repository" ∷ [])
    ∷ on_item d "host" (λ v. check_text v (path <> ".host"))
    ∷ on_item d "repository" (λ v. check_text v (path <> ".repository"))
    ∷ optional d "username" (λ v. check_text v (path <> ".username"))
    ∷ optional d "tag" (λ v. check_text v (path <> ".tag"))
    ∷ optional d "password" (λ v. parse_secret_ref v (path <> ".password"))
    ∷ [])

unfoldable pub parse_registry_docker_registry : Json → String → Check
parse_registry_docker_registry d path = steps (
    check_required_properties d path ("type" ∷ "host" ∷ "repository" ∷ "username" ∷ "password" ∷ [])
    ∷ on_item d "host" (λ v. check_text v (path <> ".host"))
    ∷ on_item d "repository" (λ v. check_text v (path <> ".repository"))
    ∷ on_item d "username" (λ v. check_text v (path <> ".username"))
    ∷ on_item d "password" (λ v. parse_secret_ref v (path <> ".password"))
    ∷ [])

unfoldable pub parse_registry_ecr : Json → String → Check
parse_registry_ecr d path = steps (
    check_required_properties d path
      ("type" ∷ "access_key_id" ∷ "secret_access_key" ∷ "region" ∷ "host" ∷ [])
    ∷ on_item d "host" (λ v. check_text v (path <> ".host"))
    ∷ on_item d "region" (λ v. check_text v (path <> ".region"))
    ∷ on_item d "secret_access_key" (λ v. parse_secret_ref v (path <> ".secret_access_key"))
    ∷ on_item d "access_key_id" (λ v. parse_secret_ref v (path <> ".access_key_id"))
    ∷ [])

unfoldable pub parse_deployment_ecr : Json → String → Check
parse_deployment_ecr d path = steps (
    check_allowed_properties d path (
      "type" ∷ "access_key_id" ∷ "secret_access_key" ∷ "region" ∷ "repository" ∷ "host" ∷ "tag"
      ∷ [])
    ∷ check_required_properties d path
        ("type" ∷ "access_key_id" ∷ "secret_access_key" ∷ "region" ∷ "repository" ∷ "host" ∷ [])
    ∷ on_item d "host" (λ v. check_text v (path <> ".host"))
    ∷ on_item d "repository" (λ v. check_text v (path <> ".repository"))
    ∷ on_item d "region" (λ v. check_text v (path <> ".region"))
    ∷ on_item d "secret_access_key" (λ v. parse_secret_ref v (path <> ".secret_access_key"))
    ∷ on_item d "access_key_id" (λ v. parse_secret_ref v (path <> ".access_key_id"))
    ∷ optional d "tag" (λ v. check_text v (path <> ".tag"))
    ∷ [])

unfoldable pub parse_registry : Json → String → Check
parse_registry elem p = do
  t ← type_of elem p
  if is_text t "docker-registry"
      then parse_registry_docker_registry elem p
      else if is_text t "ecr"
      then parse_registry_ecr elem p
      else unsupported t p

unfoldable pub parse_registries : Json → String → Check
parse_registries (arr xs) path = do
  require (not (is_empty (items xs))) path "must not be empty"
  for_from (λ i elem. parse_registry elem (at_index path i)) 0 (items xs)
parse_registries _ path = reject path "must be an array"

unfoldable pub parse_deployment : Json → String → Check
parse_deployment elem p = do
  t ← type_of elem p
  if is_text t "docker-registry"
      then parse_deployment_docker_registry elem p
      else if is_text t "ecr"
      then parse_deployment_ecr elem p
      else unsupported t p

unfoldable pub parse_deployments : Json → String → Check
parse_deployments (arr xs) path = do
  require (not (is_empty (items xs))) path "must not be empty"
  for_from (λ i elem. parse_deployment elem (at_index path i)) 0 (items xs)
parse_deployments _ path = reject path "must be an array"

unfoldable pub parse_docker_image : Json → String → Check
parse_docker_image d path = steps (
    check_allowed_properties d path (
      "type" ∷ "name" ∷ "image" ∷ "depends_on" ∷ "resources" ∷ "environment" ∷ "timeout"
      ∷ "security_context" ∷ "build_context" ∷ "cache" ∷ "repository" ∷ "command" ∷ "cluster"
      ∷ "registries" ∷ "services" ∷ [])
    ∷ check_required_properties d path ("type" ∷ "name" ∷ "image" ∷ "resources" ∷ [])
    ∷ on_item d "name" (λ v. check_name v (path <> ".name"))
    ∷ on_item d "image" (λ v. check_text v (path <> ".image"))
    ∷ on_item d "resources" (λ v. parse_resources v (path <> ".resources"))
    ∷ optional d "services" (λ v. parse_services v (path <> ".services"))
    ∷ optional d "cluster" (λ v. parse_cluster v (path <> ".cluster"))
    ∷ optional d "command" (λ v. check_string_array v (path <> ".command"))
    ∷ optional d "repository" (λ v. parse_repository v (path <> ".repository"))
    ∷ optional d "cache" (λ v. parse_cache v (path <> ".cache"))
    ∷ optional d "depends_on" (λ v. parse_depends_on v (path <> ".depends_on"))
    ∷ optional d "environment" (λ v. parse_environment v (path <> ".environment"))
    ∷ optional d "timeout" (λ v. check_number v (path <> ".timeout"))
    ∷ optional d "security_context" (λ v. parse_security_context v (path <> ".security_context"))
    ∷ optional d "registries" (λ v. parse_registries v (path <> ".registries"))
    ∷ optional d "build_context" (λ v. check_text v (path <> ".build_context"))
    ∷ [])

unfoldable pub parse_docker : Json → String → Check
parse_docker d path = steps (
    check_allowed_properties d path (
      "type" ∷ "name" ∷ "docker_file" ∷ "depends_on" ∷ "resources" ∷ "build_only" ∷ "environment"
      ∷ "build_arguments" ∷ "deployments" ∷ "timeout" ∷ "security_context" ∷ "build_context"
      ∷ "cache" ∷ "repository" ∷ "cluster" ∷ "services" ∷ [])
    ∷ check_required_properties d path ("type" ∷ "name" ∷ "docker_file" ∷ "resources" ∷ [])
    ∷ on_item d "name" (λ v. check_name v (path <> ".name"))
    ∷ on_item d "docker_file" (λ v. check_text v (path <> ".docker_file"))
    ∷ on_item d "resources" (λ v. parse_resources v (path <> ".resources"))
    ∷ optional d "services" (λ v. parse_services v (path <> ".services"))
    ∷ optional d "cluster" (λ v. parse_cluster v (path <> ".cluster"))
    ∷ optional d "repository" (λ v. parse_repository v (path <> ".repository"))
    ∷ optional d "build_only" (λ v. check_boolean v (path <> ".build_only"))
    ∷ optional d "cache" (λ v. parse_cache v (path <> ".cache"))
    ∷ optional d "depends_on" (λ v. parse_depends_on v (path <> ".depends_on"))
    ∷ optional d "environment" (λ v. parse_environment v (path <> ".environment"))
    ∷ optional d "build_arguments" (λ v. parse_build_args v (path <> ".build_arguments"))
    ∷ optional d "deployments" (λ v. parse_deployments v (path <> ".deployments"))
    ∷ optional d "timeout" (λ v. check_number v (path <> ".timeout"))
    ∷ optional d "security_context" (λ v. parse_security_context v (path <> ".security_context"))
    ∷ optional d "build_context" (λ v. check_text v (path <> ".build_context"))
    ∷ [])
