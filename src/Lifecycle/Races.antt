-- ===== src/Lifecycle/Races.antt =====
-- src/scheduler/kubernetes/scheduler.py: what `handle_timeouts` does to a job that ends between its SELECT
-- and its UPDATE, which asks for no state.
use infrabox.Jobs.{Job, State}
use infrabox.Prelude.{String, ℕ, Option, some}

abbrev finished_row : State → Option String → String → ℕ → Job → Job
finished_row s message output now r = record r {
  state = s;
  console = some output;
  end_date = some now;
  message = message;
}
