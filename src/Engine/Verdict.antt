-- ===== src/Engine/Verdict.antt =====
-- What drive_factory of crates/wanax-cli/src/engine.rs does with a proposed verdict: the enforcement, and the
-- arm of each decision, on the variables that its loop keeps. Events, notices and the text that is printed
-- are left out; the answers of what writes a verdict or the result, and of git, are arguments.
pub mod Accepted
pub mod Reworked
pub mod Turns
use Prim.Native.String.{◌++◌ as append}
use wanax.Prelude.{
  ℕ, ◌+◌, String, Bool, true, false, not, ◌&&◌, ◌||◌, Option, none, some, List, [], ◌∷◌, str_eq,
  any, ltb, is_empty, if◌then◌else◌, map,
}
use wanax.Core.RunState.{RunState, escalate, budget_exhausted, failed, dispatched}
use wanax.Core.RunState
use wanax.Core.WorkUnitState
use wanax.Core.VerdictDecision.{VerdictDecision}
use wanax.Core.VerdictDecision
use wanax.Core.ErrorCode.{ErrorCode, db, boundary, escalated, rework_limit, default_message}
use wanax.Core.ErrorCode
use wanax.Core.Error
use wanax.Core.Error.{WanaxError, Result, ok, err, ◌>>=◌}
use wanax.Core.Types.{FactoryRun, WorkUnit, Receipt, max_rework}
use wanax.Core.Accept.{AcceptGates, can_accept, enforce_decision, is_accept}
use wanax.Core.Budget.{is_budget_exhausted, budget_error}
use wanax.Core.Store.Rows.{RunRow, UnitRow, Json}
use wanax.Core.Store.Tables.{Table}
use wanax.Core.Store.Runs.{set_state}
use wanax.Core.Store.Units.{update_work_unit}
use wanax.Engine.Dag.{is_accepted, contains}

-- The database and the variables of the loop.
pub record Loop : Type 0 where
  pub runs : Table RunRow
  pub units : Table UnitRow
  pub run : FactoryRun
  pub unit : Option WorkUnit
  pub dag_units : Option (List WorkUnit)
  pub wave_ids : List String
  pub wave_pre_sha : Option String
  pub wave_rework : ℕ

-- What surrounds a turn: the time, the JSON of lists, the proposal, and the answers of the outside.
pub record Turn : Type 0 where
  pub now : String
  pub json : Json
  pub gates : AcceptGates
  pub proposed : VerdictDecision
  pub reason : String
  pub verdict_id : String
  pub receipt : Receipt
  pub violating : List String
  pub recorded : Result {0} Unit
  pub published : Result {0} Unit
  pub reset : Result {0} Unit

-- The loop goes on, or ends with an answer.
pub data Flow : Type 0 where
  next : Loop → Flow
  stop : Loop → Result {0} Unit → Flow

-- The operator `?` on the answer of a call.
abbrev pub and_then : Result {0} Unit → Loop → (Loop → Flow) → Flow
and_then (err e) s k = stop s (err e)
and_then (ok _) s k = k s

unfoldable pub set_run : Turn → RunState → Option String → Loop → (Loop → Flow) → Flow
unfolding set_state
set_run turn to last_error s k =
    let (runs, run, answer) = set_state turn.now s.runs s.run to last_error in
    and_then answer (record s { runs = runs; run = run }) k

unfoldable pub save_unit : Turn → WorkUnit → Loop → (Loop → Flow) → Flow
unfolding update_work_unit
save_unit turn u s k =
    let (units, answer) = update_work_unit turn.json u s.units in
    and_then answer (record s { units = units }) k

unfoldable pub fail_budget : Turn → Loop → Flow
unfolding set_run budget_error
fail_budget turn s =
    let e = budget_error s.run in
    set_run turn budget_exhausted (some e.message) s λ t. stop t (err e)

unfoldable pub fail_run : Turn → WanaxError → Loop → Flow
unfolding set_run
fail_run turn e s = set_run turn failed (some e.message) s λ t. stop t (err e)

-- The unit of the loop, when it has one, is changed and saved.
unfoldable pub change_unit : Turn → (WorkUnit → WorkUnit) → Loop → (Loop → Flow) → Flow
unfolding save_unit
change_unit turn change s k = elim s.unit [
  | none ↦ k s
  | some u ↦ save_unit turn (change u) (record s { unit = some (change u) }) k
]

-- The units of the wave are changed and saved one after the other.
unfoldable pub change_wave :
    Turn
    → (WorkUnit → WorkUnit)
    → List String
    → List WorkUnit
    → Loop
    → (List WorkUnit → Loop → Flow)
    → Flow
unfolding save_unit
change_wave turn change ids [] s k = k [] s
change_wave turn change ids (d ∷ dags) s k =
    if contains ids d.id
    then save_unit turn (change d) s
        (λ t. change_wave turn change ids dags t (λ rest. k (change d ∷ rest)))
    else change_wave turn change ids dags s (λ rest. k (d ∷ rest))

-- The copy of the current unit among those of the DAG is brought up to date.
unfoldable pub sync_unit : Option WorkUnit → List WorkUnit → List WorkUnit
sync_unit none dags = dags
sync_unit (some cur) dags = map (λ d. if str_eq d.id cur.id then cur else d) dags

abbrev pub covered : Receipt → WorkUnit → WorkUnit
covered receipt d = record d {
  state = WorkUnitState.accepted;
  receipt_id = some receipt.id;
  inner_commit_sha = some receipt.commit_sha;
}

unfoldable pub finish_accept : Turn → Loop → Flow
unfolding set_run
finish_accept turn s = set_run turn RunState.accepted none s λ t. stop t turn.published

-- The end of the accept arm for the units of a DAG: the next one, or the end of the run.
unfoldable pub next_or_finish : Turn → List WorkUnit → Loop → Flow
unfolding finish_accept
next_or_finish turn dags s =
    let t = record s { dag_units = some dags } in
    if any (λ d. not (is_accepted d.state)) dags
    then set_run turn dispatched none t (λ u. next u)
    else finish_accept turn t

unfoldable pub accept_dags : Turn → List WorkUnit → Loop → Flow
unfolding change_wave sync_unit next_or_finish
accept_dags turn dags s =
    let synced = sync_unit s.unit dags in
    if is_empty s.wave_ids
    then next_or_finish turn synced s
    else change_wave turn (covered turn.receipt) s.wave_ids synced s
        λ done t. next_or_finish turn done (record t { wave_rework = 0 })

unfoldable pub accept_unit : Turn → Loop → Flow
unfolding change_unit accept_dags
accept_unit turn s =
    change_unit turn (λ u. record u { state = WorkUnitState.accepted }) s
      λ t. elim t.dag_units [ none ↦ finish_accept turn t | some dags ↦ accept_dags turn dags t ]

-- The gates are tested once more before the arm is taken.
unfoldable pub accept_arm : Turn → Loop → Flow
unfolding can_accept fail_run accept_unit Error.new
accept_arm turn s =
    if can_accept turn.gates
    then accept_unit turn s
    else fail_run turn (Error.new db "accept gates failed after enforce") s

abbrev join : List String → String
join [] = ""
join (s ∷ []) = s
join (s ∷ t ∷ rest) = append s (append ", " (join (t ∷ rest)))

unfoldable pub reject_arm : Turn → Loop → Flow
unfolding set_run Error.new
reject_arm turn s =
    let e =
      if turn.gates.boundary_ok
      then Error.new ErrorCode.rejected turn.reason
      else Error.new boundary (append "boundary check failed: " (join turn.violating)) in
    set_run turn RunState.rejected none s λ t. stop t (turn.published >>= λ _. err e)

unfoldable pub escalate_arm : Turn → Loop → Flow
unfolding set_run Error.new
escalate_arm turn s =
    set_run turn escalate (some turn.reason) s λ t. stop t (err (Error.new escalated turn.reason))

unfoldable pub limit_reached : Turn → Loop → Flow
unfolding set_run Error.from_code default_message
limit_reached turn s =
    set_run turn escalate (some (default_message rework_limit)) s
      λ t. stop t (err (Error.from_code rework_limit))

abbrev pub counted : WorkUnit → WorkUnit
counted u = record u { rework_count = u.rework_count + 1 }

abbrev pub requeued : WorkUnit → WorkUnit
requeued u = record u { rework_count = u.rework_count + 1; state = WorkUnitState.queued }

abbrev pub reset_answer : Turn → Option String → Result {0} Unit
reset_answer turn none = ok tt
reset_answer turn (some sha) = turn.reset

-- A wave that is reworked: its tree is rolled back, and the wave and its units are charged.
unfoldable pub rework_wave : Turn → Loop → (Loop → Flow) → Flow
unfolding change_wave limit_reached
rework_wave turn s k =
    let t = record s { wave_pre_sha = none; wave_rework = s.wave_rework + 1 } in
    if is_empty s.wave_ids
    then k s
    else and_then (reset_answer turn s.wave_pre_sha) s λ _.
      if ltb max_rework t.wave_rework then limit_reached turn t else elim t.dag_units [
        | none ↦ k (record t { wave_ids = [] })
        | some dags ↦
            change_wave turn counted t.wave_ids dags t
              λ done u. k (record u { dag_units = some done; wave_ids = [] })
      ]

unfoldable pub rework_unit : Turn → Loop → (Loop → Flow) → Flow
unfolding save_unit limit_reached
rework_unit turn s k = elim s.unit [
  | none ↦ k s
  | some u ↦
      if ltb max_rework (u.rework_count + 1)
      then limit_reached turn (record s { unit = some (counted u) })
      else save_unit turn (requeued u) (record s { unit = some (requeued u) }) k
]

unfoldable pub rework_arm : Turn → Loop → Flow
unfolding rework_wave rework_unit set_run
rework_arm turn s = rework_wave turn s λ t.
    rework_unit turn t
      λ u. set_run turn RunState.rework none u λ v. set_run turn dispatched none v λ w. next w

unfoldable pub arm : VerdictDecision → Turn → Loop → Flow
unfolding accept_arm reject_arm escalate_arm rework_arm
arm VerdictDecision.accept turn s = accept_arm turn s
arm VerdictDecision.reject turn s = reject_arm turn s
arm VerdictDecision.rework turn s = rework_arm turn s
arm VerdictDecision.escalate turn s = escalate_arm turn s

abbrev pub is_budget : Option ErrorCode → Bool
is_budget (some ErrorCode.budget) = true
is_budget _ = false

-- The verdict is written, and its id put into the unit.
unfoldable pub record_verdict : Turn → Loop → (Loop → Flow) → Flow
unfolding change_unit
record_verdict turn s k =
    and_then turn.recorded s
      λ t. change_unit turn (λ u. record u { verdict_id = some turn.verdict_id }) t k

-- The rest of the turn, for the decision and the note of the enforcement.
unfoldable pub settle : VerdictDecision × Option ErrorCode → Turn → Loop → Flow
unfolding fail_budget record_verdict arm is_budget_exhausted
settle (decision, remark) turn s =
    if is_budget remark || (is_accept decision && is_budget_exhausted s.run)
    then fail_budget turn s
    else record_verdict turn s λ t. arm decision turn t

unfoldable pub decide : Turn → Loop → Flow
unfolding enforce_decision settle
decide turn s = settle (enforce_decision turn.proposed turn.gates) turn s
