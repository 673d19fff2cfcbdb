-- ===== src/Pages.antt =====
-- src/github/trigger/trigger.py: the pages of GitHub's list of commits. `fetch` is the answer to a
-- request of an address, and the loop takes fuel, a unit for each page after the first.
use infrabox.PullRequests.{ListedCommit}
use infrabox.Texts.{find, first, skip, rfind, text_length}
use infrabox.Github.{given}
use infrabox.Prelude.{
  none, some, Option, String, List, ℕ, ◌+◌, if◌then◌else◌, ◌<>◌, ◌-◌, ◌==◌, suc, ◌++◌, zero,
}

pub record Page : Type 0 where
  pub link : Option String
  pub commits : List ListedCommit

-- `link[n2:n3]`, where n3 is -1 if there is no '>;': the text up to there, or up to its last character.
abbrev pub up_to : String → Option ℕ → String
up_to rest none = first (text_length rest - 1) rest
up_to rest (some n) = first n rest

abbrev pub after_bracket : String → Option ℕ → Option String
after_bracket link none = none
after_bracket link (some n) = some (up_to (skip (n + 1) link) (find ">;" (skip (n + 1) link)))

abbrev pub before_next : String → Option ℕ → Option String
before_next link none = none
before_next link (some n) = after_bracket link (rfind b'<' link n)

-- `if not link` is also true of an empty header.
unfoldable pub get_next_page : Page → Option String
get_next_page r = elim (given r.link) [
  | none ↦ none
  | some link ↦ before_next link (find "rel=\"next\"" link)
]

-- `while p`, which ends at an empty address too.
unfoldable pub follow :
    (String → Page) → ℕ → Option String → List ListedCommit → Option (List ListedCommit)
follow fetch fuel none result = some result
follow fetch zero (some p) result = if p == "" then some result else none
follow fetch (suc fuel) (some p) result =
    let rest = follow fetch fuel (get_next_page (fetch p)) (result ++ (fetch p).commits) in
    if p == "" then some result else rest

unfoldable pub get_commits : (String → Page) → ℕ → String → Option (List ListedCommit)
get_commits fetch fuel url =
    follow fetch fuel (get_next_page (fetch (url <> "?per_page=100")))
      (fetch (url <> "?per_page=100")).commits
