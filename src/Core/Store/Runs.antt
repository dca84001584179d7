-- ===== src/Core/Store/Runs.antt =====
-- The table `factory_runs` of crates/wanax-core/src/store.rs. The time of a call is an argument, and a
-- run that a method changes in place is returned as the call leaves it.
use wanax.Prelude.{String, Bool, Option, some, str_eq, if◌then◌else◌}
use wanax.Core.RunState
use wanax.Core.RunState.{RunState, is_terminal}
use wanax.Core.State.{transition}
use wanax.Core.Error.{Result, ok, err, ◌>>=◌}
use wanax.Core.Types.{FactoryRun}
use wanax.Core.Store.Rows.{RunRow, run_columns, row_to_run}
use wanax.Core.Store.Tables.{Table, insert, update, select}

-- `WHERE id = ?`
abbrev pub is_run : String → RunRow → Bool
is_run id row = str_eq row.id id

unfoldable pub insert_run : FactoryRun → Table RunRow → Table RunRow × Result {0} Unit
unfolding insert run_columns
insert_run r t = insert (is_run r.id) (run_columns r) t

unfoldable pub get_run : String → Table RunRow → Result FactoryRun
unfolding select row_to_run
get_run id t = select (is_run id) t >>= λ row. row_to_run row

-- The columns that `set_state` writes.
unfoldable pub state_columns : FactoryRun → RunRow → RunRow
state_columns run row = record row {
  state = RunState.as_str run.state;
  updated_at = run.updated_at;
  finished_at = run.finished_at;
  last_error = run.last_error;
  spent_usd_micros = run.spent_usd_micros;
  spent_inner_turns = run.spent_inner_turns;
  worker_pid = run.worker_pid;
}

-- The run as `set_state` leaves it in memory, once the transition is legal.
unfoldable pub moved : String → FactoryRun → RunState → Option String → FactoryRun
moved now run next last_error = record run {
  state = next;
  updated_at = now;
  last_error = last_error;
  finished_at = if is_terminal next then some now else run.finished_at;
}

-- What follows `transition(..)?`.
unfoldable pub commit :
    String
    → Table RunRow
    → FactoryRun
    → Option String
    → Result RunState
    → Table RunRow × FactoryRun × Result {0} Unit
unfolding update state_columns moved
commit now t run last_error (err e) = (t, run, err e)
commit now t run last_error (ok next) =
    let after = moved now run next last_error in
    let (stored, answer) = update (is_run run.id) (state_columns after) t in (stored, after, answer)

unfoldable pub set_state :
    String
    → Table RunRow
    → FactoryRun
    → RunState
    → Option String
    → Table RunRow × FactoryRun × Result {0} Unit
unfolding transition commit
set_state now t run to last_error = commit now t run last_error (transition run.state to)

-- The columns that `save_run_progress` writes.
unfoldable pub progress_columns : String → FactoryRun → RunRow → RunRow
progress_columns now run row = record row {
  updated_at = now;
  spent_usd_micros = run.spent_usd_micros;
  spent_inner_turns = run.spent_inner_turns;
  worker_pid = run.worker_pid;
  start_pid = run.start_pid;
  last_error = run.last_error;
}

unfoldable pub save_run_progress :
    String → Table RunRow → FactoryRun → Table RunRow × Result {0} Unit
unfolding update progress_columns
save_run_progress now t run = update (is_run run.id) (progress_columns now run) t
