-- ===== src/Aborts.antt =====
-- src/api/handlers/projects/build.py and jobs.py: a user aborts a build or a job. The table `abort` is
-- the list of its job ids. `auth_required` stands before each handler.
use infrabox.Jobs.Rows.{row_ids}
use infrabox.Jobs.{Table, Job, select}
use infrabox.Prelude.{String, List, ◌++◌, Bool, ◌∷◌, ◌==◌, [], ◌&&◌}
pub mod Ended

-- WHERE build_id = build_id AND project_id = project_id
abbrev pub of_build : String → String → Job → Bool
of_build build_id project_id j = j.build_id == build_id && j.project_id == project_id

-- BuildAbort.get: an INSERT for each job of the build.
unfoldable pub abort_build : String → String → Table → List String → List String
abort_build build_id project_id jobs aborts =
    aborts ++ row_ids (select (of_build build_id project_id) jobs)

-- JobAbort.get
unfoldable pub abort_one : String → List String → List String
abort_one job_id aborts = aborts ++ job_id ∷ []
