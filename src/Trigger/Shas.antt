-- ===== src/Trigger/Shas.antt =====
-- src/api/handlers/trigger.py: a trigger by the sha of a commit. Such a commit comes without a branch.
use infrabox.Prelude.{String, ◌<>◌}

-- The address of a commit, as `get_github_commit` makes it.
abbrev pub commit_url : String → String → String → String
commit_url owner repo sha = "/repos/" <> (owner <> ("/" <> (repo <> ("/commits/" <> sha))))
