-- ===== src/Document/Shape/Types.antt =====
-- Each type of job: what passes its checks can be read, and has a proper name.
use infrabox.Checks.{is_text, type_of}
use infrabox.Document.Shape.{IsJob, checked-IsJob}
use infrabox.Document.Validate.{parse_typed, parse_job}
use infrabox.Document.Jobs.{
  parse_git, parse_wait, parse_workflow, parse_docker, parse_docker_image, parse_docker_compose,
}
use infrabox.Prelude.{String, ◌≡◌, arith, Bool-cases, inl, inr}
use infrabox.Python.{Json, ok}
use infrabox.Python.Laws.{steps-ok, bind-ok}

parse_git-IsJob : (d : Json) (path : String) → parse_git d path ≡ ok tt → IsJob d
unfolding parse_git
parse_git-IsJob d path h =
    let good = steps-ok _ h in checked-IsJob d path _ (good.0) (good.1.1.0) (good.1.1.1.1.1.0)

parse_wait-IsJob : (d : Json) (path : String) → parse_wait d path ≡ ok tt → IsJob d
unfolding parse_wait
parse_wait-IsJob d path h =
    let good = steps-ok _ h in checked-IsJob d path _ (good.0) (good.1.1.0) (good.1.1.1.0)

parse_workflow-IsJob : (d : Json) (path : String) → parse_workflow d path ≡ ok tt → IsJob d
unfolding parse_workflow
parse_workflow-IsJob d path h =
    let good = steps-ok _ h in checked-IsJob d path _ (good.0) (good.1.1.0) (good.1.1.1.1.0)

parse_docker-IsJob : (d : Json) (path : String) → parse_docker d path ≡ ok tt → IsJob d
unfolding parse_docker
parse_docker-IsJob d path h =
    let good = steps-ok _ h in
    checked-IsJob d path _ (good.0) (good.1.1.0) (good.1.1.1.1.1.1.1.1.1.1.0)

parse_docker_image-IsJob : (d : Json) (path : String) → parse_docker_image d path ≡ ok tt → IsJob d
unfolding parse_docker_image
parse_docker_image-IsJob d path h =
    let good = steps-ok _ h in
    checked-IsJob d path _ (good.0) (good.1.1.0) (good.1.1.1.1.1.1.1.1.1.1.0)

parse_docker_compose-IsJob :
    (d : Json) (path : String) → parse_docker_compose d path ≡ ok tt → IsJob d
unfolding parse_docker_compose
parse_docker_compose-IsJob d path h =
    let good = steps-ok _ h in checked-IsJob d path _ (good.0) (good.1.1.0) (good.1.1.1.1.1.1.1.1.0)

parse_typed-IsJob : (t d : Json) (path : String) → parse_typed t d path ≡ ok tt → IsJob d
unfolding parse_typed
parse_typed-IsJob t d path h = elim (Bool-cases (is_text t "git")) [
  | inl e ↦ parse_git-IsJob d path (ground arith)
  | inr n₁ ↦ elim (Bool-cases (is_text t "wait")) [
    | inl e ↦ parse_wait-IsJob d path (ground arith)
    | inr n₂ ↦ elim (Bool-cases (is_text t "workflow")) [
      | inl e ↦ parse_workflow-IsJob d path (ground arith)
      | inr n₃ ↦ elim (Bool-cases (is_text t "docker")) [
        | inl e ↦ parse_docker-IsJob d path (ground arith)
        | inr n₄ ↦ elim (Bool-cases (is_text t "docker-image")) [
          | inl e ↦ parse_docker_image-IsJob d path (ground arith)
          | inr n₅ ↦ parse_docker_compose-IsJob d path (ground arith)
        ]
      ]
    ]
  ]
]

pub parse_job-IsJob : (d : Json) (path : String) → parse_job d path ≡ ok tt → IsJob d
unfolding parse_job
parse_job-IsJob d path h =
    let (t, typed, _) = bind-ok (type_of d path) _ h in parse_typed-IsJob t d path typed
