-- ===== src/Lib.antt =====
-- InfraBox: a model of the continuous integration server's core in antt.
--
-- A user's infrabox.json file names jobs and their dependencies. The job runner validates the file,
-- expands the files that it includes into one list of jobs, and sends the list to the API, which
-- inserts rows into the table `job`. The scheduler reads the queued rows and starts a job on
-- Kubernetes once its parents have ended as the job asks. The running job sets its state by the API.
--
-- Which file models which part:
-- Python: the values of json.load and Python's operations on them; a validator returns a `Result`
--   whose errors are the ValidationError of src/pyinfrabox/__init__.py and Python's own exceptions.
--   Floats are exact fractions. The value that `%s` puts into a message is kept as a value.
-- Checks: src/pyinfrabox/utils.py. Document: src/pyinfrabox/infrabox/__init__.py, of which Parts has
--   the settings inside of a job, Jobs the job types, and Validate the two passes. Document.Shape
--   reads jobs without the validator, and Document.Parents and Document.Order lead
--   to the theorem on `validate_json`.
-- Testresult, Badge, Markup, Compose: the other validators under src/pyinfrabox. Compose.Filter has
--   the theorem on docker-compose files. Markup takes the number of nested calls that Python allows,
--   and raises its recursion error at zero.
-- Jobs: the table `job` (src/db/migrations) as a list of rows. Scheduler and Scheduler.Cleanup:
--   src/scheduler/kubernetes/scheduler.py. Each SQL statement is a function on the table, and the
--   answers of the Kubernetes API server are an oracle, which gives none where the library requests raises
--   an exception; exceptions of the database are not modelled.
-- Jobs.Rows has lemmas on rows by their key, and Scheduler.Queue, Scheduler.Parents,
--   Scheduler.Conditions and Scheduler.Decisions lead to the theorem on a round. Scheduler.Progress and
--   Scheduler.Drained are on what leaves the queue, and Scheduler.Round has `handle`, one turn.
-- Expand: `rewrite_depends_on`, `check_file_exist` and `get_job_list` of src/job/job.py. Files and
--   the git clone are an argument. The recursion takes the number of nested calls that Python allows.
--   Expand.Closed, Expand.Order and Expand.Recursion have its theorems.
-- JobApi: CreateJobs of src/api/handlers/job_api.py, with theorems in JobApi.Clusters and
--   JobApi.Leaves. Lifecycle: SetRunning and SetFinished, the guard of
--   src/pyinfraboxutils/ibflask.py, and JobRestart of src/api/handlers/projects/jobs.py; its
--   loop takes as many passes as the build has jobs, and one more. Lifecycle.Calm, Lifecycle.Ended,
--   Lifecycle.Orphans and Lifecycle.Steps lead to the theorem on jobs that have ended, with Lifecycle.Ends and
--   Lifecycle.Turns on a turn of the scheduler; Lifecycle.Restart is on the loop, and Lifecycle.Races on
--   a request between two statements of the scheduler. JobApi.Inserts has the lemmas on CreateJobs.
-- Texts: Python's operations on texts. Http: what a handler answers, an abort or an exception included;
--   a request runs in one transaction, so that only one that is done changes the tables.
-- Guards: src/pyinfraboxutils/ibflask.py, which stands before the handlers, with jwt and base64 as
--   arguments; Guards.Access has its theorem. Registry: src/docker-registry/auth/server.py, which asks
--   the same tokens. Leader: src/pyinfraboxutils/leader.py, with its theorem.
-- Settings: the secrets, tokens and collaborators of a project (src/api/handlers/projects);
--   Settings.Limits, Settings.Owners and Settings.Inverse have their theorems.
-- Builds: the tables of a trigger and the numbers of builds. Github and PullRequests: the webhook of
--   src/github/trigger/trigger.py, with theorems in Github.Refs, Github.Pushes and PullRequests.Webhook.
--   GitHub's answers are an argument, and so is the HMAC. Trigger and Trigger.Requests:
--   src/api/handlers/trigger.py and restart_build of src/api/handlers/projects/build.py; Trigger.Adds,
--   Trigger.Unique and Trigger.Shas have the theorems, with Builds.Queues and Builds.Numbers.
-- Pages: the loop over the pages of GitHub's list of commits in src/github/trigger/trigger.py. It takes
--   a unit of fuel for each page after the first; a test runs it.
-- Projects: src/api/handlers/projects/projects.py, with a theorem in Projects.Owned.
-- Aborts: the handlers that abort a build or a job, with a theorem in Aborts.Ended.
-- Review: src/github/review/review.py, with a theorem in Review.Final.
-- Migrate: src/db/migrate.py, whose scripts are arguments. Migrate.Order is on the sort and
--   Migrate.Versions has the theorems.
-- Tests: runs on small inputs.
--
-- Not modelled: the docker, git and tar commands of src/job/job.py, what Gerrit triggers and reviews, the
-- handlers that only query, storage and the installer; these are input and output around libraries. The
-- payloads of requests to Kubernetes and log lines are left out.
pub mod Prelude
pub mod Python
pub mod Checks
pub mod Document
pub mod Testresult
pub mod Badge
pub mod Compose
pub mod Markup
pub mod Jobs
pub mod Scheduler
pub mod Expand
pub mod Texts
pub mod Http
pub mod Guards
pub mod Settings
pub mod Leader
pub mod Builds
pub mod Github
pub mod PullRequests
pub mod Pages
pub mod Trigger
pub mod Review
pub mod Aborts
pub mod Projects
pub mod Registry
pub mod Migrate
pub mod JobApi
pub mod Lifecycle
pub mod Tests
