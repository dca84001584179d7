-- ===== src/Scenarios/Runs.antt =====
-- The theorems on runs, their budget, their rows and their verdicts at concrete inputs.
use wanax.Prelude.{◌≡◌, ◌⊎◌, refl, true, false, none, some, List, [], ◌∷◌, arith}
use wanax.Prelude.Int.{ℤ, pos, ◌+ℤ◌, quot, ◌*ℤ◌}
use wanax.Core.RunState.{RunState, RunState-discrete, is_terminal, outer_reviewing, accepted}
use wanax.Core.State.{can_transition, transition, eq_state}
use wanax.Core.WorkerAdapterKind.{fake}
use wanax.Core.WorkUnitState
use wanax.Core.WorkUnitState.{queued}
use wanax.Core.VerdictDecision.{VerdictDecision}
use wanax.Core.Money.{estimate_cost_micros}
use wanax.Core.Error.{ok}
use wanax.Core.Types.{FactoryRun, WorkUnit}
use wanax.Core.Accept.{can_accept}
use wanax.Core.Accept.Decision.{IsAcceptable}
use wanax.Core.Budget.{is_budget_exhausted}
use wanax.Core.Budget.Spending.{
  Charge, units, usd, turns, AreCosts, IsCost, charge_all, exhausted-charge_all,
}
use wanax.Core.Store.Tables.{Table}
use wanax.Core.Store.Rows.{RunRow, UnitRow}
use wanax.Core.Store.Runs.{insert_run, get_run, set_state}
use wanax.Core.Store.Units.{insert_work_unit, get_work_unit}
use wanax.Core.Store.Kept.{
  get_run-insert, get_work_unit-insert, get_run-set_state, IsEndRecorded, set_state-IsEndRecorded,
  IsWrittenThrough,
}
use wanax.Engine.Dag.{is_accepted, is_settled, next_ready_dag}
use wanax.Engine.Verdict.{Loop, Turn, decide, rework_arm}
use wanax.Engine.Verdict.Turns.{
  dag_turn, no_unit_left, IsProposed, IsAllAccepted, dag_turn-accepted,
}
use wanax.Engine.Verdict.Accepted.{decide-accepted}
use wanax.Engine.Verdict.Reworked.{OnNext, IsRequeued, rework-IsRequeued}
use wanax.Scenarios.Codec.{codec, codec-IsJson}
use wanax.Scenarios.Dags.{unit_at}
use wanax.Scenarios.Decisions.{open_gates_at}

abbrev run_at : RunState → FactoryRun
run_at state = record {
  id = "run";
  repo_root = "/repo";
  contract_id = "c";
  contract_sha256 = "s";
  state = state;
  base_sha = "b";
  inner_branch = "wanax/run/inner";
  outer_branch = "wanax/run/outer";
  commander_model = "m";
  inner_model = "m";
  reviewer_model = none;
  max_usd_micros = pos 5000000;
  max_inner_turns = 40;
  spent_usd_micros = pos 100;
  spent_inner_turns = 3;
  worker_adapter = fake;
  created_at = "t0";
  updated_at = "t0";
  finished_at = none;
  last_error = none;
  worker_pid = none;
  start_pid = none;
}

abbrev no_rows : Table RunRow
no_rows = record { rows = []; fault = none; refusals = []; conflict = "UNIQUE" }

abbrev pub no_units : Table UnitRow
no_units = record { rows = []; fault = none; refusals = []; conflict = "UNIQUE" }

abbrev pub reviewed : FactoryRun
reviewed = run_at outer_reviewing

abbrev stored_runs : Table RunRow
stored_runs = (insert_run reviewed no_rows).0

get_run-insert_example : get_run "run" (insert_run reviewed no_rows).0 ≡ ok reviewed
unfolding insert_run
get_run-insert_example = get_run-insert reviewed no_rows (omega arith) (omega arith) refl

abbrev a_unit : WorkUnit
a_unit = unit_at "u1" queued (some ("a.rs" ∷ [])) ("u0" ∷ [])

get_work_unit-insert_example :
    get_work_unit codec "u1" (insert_work_unit codec a_unit no_units).0 ≡ ok a_unit
unfolding insert_work_unit
get_work_unit-insert_example =
    get_work_unit-insert codec a_unit no_units codec-IsJson (omega arith) (omega arith) refl

get_run-set_state_example :
    IsWrittenThrough stored_runs reviewed reviewed true
      (set_state "t1" stored_runs reviewed accepted none)
unfolding can_transition eq_state RunState-discrete is_terminal
get_run-set_state_example =
    get_run-set_state "t1" stored_runs reviewed reviewed accepted none (omega arith)
      get_run-insert_example

set_state-IsEndRecorded_example :
    IsEndRecorded (set_state "t1" stored_runs reviewed accepted none).1
unfolding is_terminal
set_state-IsEndRecorded_example =
    set_state-IsEndRecorded "t1" stored_runs reviewed accepted none refl

abbrev charges : List Charge
charges = units 1000000 0 (pos 10000000) (pos 0) true ∷ usd (pos 5) ∷ turns 2 ∷ []

abbrev spent_run : FactoryRun
spent_run = record reviewed { spent_usd_micros = pos 5000000 }

exhausted-charge_all_example : is_budget_exhausted (charge_all spent_run charges) ≡ true
unfolding AreCosts IsCost estimate_cost_micros is_budget_exhausted ◌+ℤ◌ quot ◌*ℤ◌
exhausted-charge_all_example =
    exhausted-charge_all spent_run charges
      (record { spent = (omega arith, omega arith); turns = omega arith })
      (omega arith, (omega arith, (tt, tt))) refl

abbrev turn_of : VerdictDecision → ℤ → Turn
turn_of proposed exit_code = record {
  now = "t1";
  json = codec;
  gates = open_gates_at exit_code;
  proposed = proposed;
  reason = "looks right";
  verdict_id = "v1";
  receipt = record {
    id = "p1";
    work_unit_id = "u1";
    changed_files = "a.rs" ∷ [];
    diffstat = "1 file";
    commit_sha = "abc";
    test_command = "cargo test";
    test_exit_code = pos 0;
    test_excerpt = "";
    claimed_pass = true;
    duration_ms = 10;
    adapter = "fake";
    raw_artifact_path = none;
  };
  violating = [];
  recorded = ok tt;
  published = ok tt;
  reset = ok tt;
}

abbrev loop_start : Loop
loop_start = record {
  runs = stored_runs;
  units = no_units;
  run = reviewed;
  unit = some a_unit;
  dag_units = some (a_unit ∷ []);
  wave_ids = [];
  wave_pre_sha = none;
  wave_rework = 0;
}

decide-accepted_example :
    (VerdictDecision.accept ≡ VerdictDecision.accept)
    × IsAcceptable (open_gates_at (pos 0))
    × (is_budget_exhausted reviewed ≡ false)
unfolding decide can_accept is_budget_exhausted transition can_transition eq_state RunState-discrete
    is_terminal is_accepted insert_run
decide-accepted_example =
    decide-accepted (turn_of VerdictDecision.accept (pos 0)) loop_start (λ e. cc) refl

rework-IsRequeued_example :
    OnNext
      (IsRequeued a_unit (some (a_unit ∷ [])))
      (rework_arm (turn_of VerdictDecision.rework (pos 1)) loop_start)
rework-IsRequeued_example =
    rework-IsRequeued (turn_of VerdictDecision.rework (pos 1)) loop_start a_unit refl refl

-- A run under review whose only unit is accepted already, as after a resume.
abbrev done_unit : WorkUnit
done_unit = unit_at "u1" WorkUnitState.accepted none []

abbrev work_rejected : WorkUnit → Turn × Loop
work_rejected u = (turn_of VerdictDecision.reject (pos 1), loop_start)

-- It is accepted although a rejection stands for the next unit.
dag_turn-accepted_example :
    (is_budget_exhausted reviewed ≡ false)
    × (IsProposed work_rejected (done_unit ∷ []) ⊎ IsAllAccepted (done_unit ∷ []))
unfolding dag_turn no_unit_left next_ready_dag is_settled is_accepted transition can_transition
    eq_state RunState-discrete is_terminal insert_run is_budget_exhausted
dag_turn-accepted_example =
    dag_turn-accepted work_rejected (turn_of VerdictDecision.reject (pos 1)) (done_unit ∷ [])
      loop_start (λ e. cc) (λ u e. cc) refl
