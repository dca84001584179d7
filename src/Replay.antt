-- ===== src/Replay.antt =====
-- The state of a run rebuilt from the events of its envelope, crates/wanax-cli/src/replay.rs. The maps of
-- `envelope_snapshot` are lists of entries; `by_id` gives the index of a unit in the list of units.
pub mod Json
pub mod Index
pub mod Units
pub mod Upserted
pub mod Refined
pub mod Outcome
pub mod Pending
pub mod Diverged
use wanax.Prelude.{
  ◌||◌, ℕ, zero, suc, ◌+◌, ◌%◌, ◌^◌, String, Bool, true, false, not, Option, none, some, List, [],
  ◌∷◌, ◌++◌, str_eq, length, get_elem?, is_empty, any, holds, if◌then◌else◌, ◌==◌, map,
}
use wanax.Prelude.Int.{ℤ, pos}
use wanax.Prelude.Map.{get?, get_or, insert}
use wanax.Core.AssigneeRole.{AssigneeRole, goal}
use wanax.Core.AssigneeRole
use wanax.Core.Types.{WorkUnit, Receipt}
use wanax.Core.WorkUnitState.{
  WorkUnitState, WorkUnitState-discrete, queued, implementing, receipt_ready, accepted, rejected,
}
use wanax.Tombstone.{
  Values, EventKind, unit_seeded, unit_dispatched, receipt_submitted, verdict, TombstoneEvent,
  TombstoneEnvelope,
}
use wanax.Replay.Json.{
  or_else, unwrap_or, set_some, put_some, strings, as_u32, as_i32, some_text, same_text,
}

pub record ReceiptStub : Type 0 where
  pub receipt_id : String
  pub work_unit_id : String
  pub commit_sha : String
  pub changed_files : List String
  pub test_exit_code : ℤ
  pub claimed_pass : Bool

unfoldable pub blank_unit : String → WorkUnit
blank_unit run_id = record {
  id = "";
  run_id = run_id;
  seq = 0;
  title = "";
  instruction = "";
  state = queued;
  assignee_role = goal;
  parent_id = none;
  allowed_globs = none;
  depends_on = [];
  test_command = none;
  local_key = none;
  rework_count = 0;
  inner_commit_sha = none;
  receipt_id = none;
  verdict_id = none;
}

-- The variables of `envelope_snapshot`.
pub record Replay : Type 0 where
  pub units : List WorkUnit
  pub receipts : List (String × ReceiptStub)
  pub by_id : List (String × ℕ)
  pub covers : List (String × List String)
  pub last_dispatched : Option String
  pub last_receipt_unit : Option String
  pub saw_units : Bool

abbrev pub start : Replay
start = record {
  units = [];
  receipts = [];
  by_id = [];
  covers = [];
  last_dispatched = none;
  last_receipt_unit = none;
  saw_units = false;
}

-- The entry at an index, changed by a function.
abbrev pub modify : ℕ → (WorkUnit → WorkUnit) → List WorkUnit → List WorkUnit
modify i f [] = []
modify zero f (u ∷ units) = f u ∷ units
modify (suc i) f (u ∷ units) = u ∷ modify i f units

abbrev pub id_at : List WorkUnit → ℕ → String
id_at [] i = ""
id_at (u ∷ units) zero = u.id
id_at (u ∷ units) (suc i) = id_at units i

-- The list that `covers` names, if there is one, is kept for the unit.
unfoldable pub add_covers : String → Option (List String) → Replay → Replay
add_covers id none s = s
add_covers id (some covered) s = record s { covers = insert id covered s.covers }

unfoldable pub with_receipt : ReceiptStub → WorkUnit → WorkUnit
unfolding some_text
with_receipt stub u = record u {
  state = receipt_ready;
  receipt_id = some_text stub.receipt_id;
  inner_commit_sha = some_text stub.commit_sha;
}

-- The units with the one of an id changed, if the map has the id.
unfoldable pub modify_at : Option ℕ → (WorkUnit → WorkUnit) → List WorkUnit → List WorkUnit
modify_at none f units = units
modify_at (some i) f units = modify i f units

unfoldable pub decided : String → WorkUnit → WorkUnit
decided decision u =
    if str_eq decision "accept"
    then record u { state = accepted }
    else if str_eq decision "reject"
    then record u { state = rejected }
    else if str_eq decision "rework"
    then record u { state = queued; rework_count = (u.rework_count + 1) % 2 ^ 32 }
    else u

unfoldable pub apply_verdict_to : String → String → Replay → Replay
unfolding decided modify_at
apply_verdict_to decision id s = record s {
  units = modify_at (get? id s.by_id) (decided decision) s.units;
}

unfoldable pub apply_verdicts : String → List String → Replay → Replay
unfolding apply_verdict_to
apply_verdicts decision [] s = s
apply_verdicts decision (id ∷ ids) s = apply_verdicts decision ids (apply_verdict_to decision id s)

module _ (J : Values) where
  unfoldable pub apply_unit_fields : J.Value → WorkUnit → WorkUnit
  unfolding strings as_u32
  apply_unit_fields p u = record u {
    id = unwrap_or u.id (J.as_str (J.field p "work_unit_id"));
    seq = unwrap_or u.seq (as_u32 (J.as_u64 (J.field p "seq")));
    title = unwrap_or u.title (J.as_str (J.field p "title"));
    instruction = unwrap_or u.instruction (J.as_str (J.field p "instruction"));
    assignee_role =
        unwrap_or u.assignee_role (put_some AssigneeRole.parse (J.as_str (J.field p "role")));
    local_key = or_else (J.as_str (J.field p "local_key")) u.local_key;
    allowed_globs =
        or_else (set_some (strings J) (J.as_array (J.field p "allowed_globs"))) u.allowed_globs;
    depends_on =
        unwrap_or u.depends_on (set_some (strings J) (J.as_array (J.field p "depends_on")));
    test_command = or_else (J.as_str (J.field p "test_command")) u.test_command;
    parent_id = or_else (J.as_str (J.field p "parent_id")) u.parent_id;
  }

  -- What `upsert` makes of a unit that is there, or of the blank one.
  unfoldable pub written : J.Value → WorkUnitState → WorkUnit → WorkUnit
  unfolding apply_unit_fields
  written p state u = record (apply_unit_fields p u) { state = state }

  -- `upsert` for an id that is not in the map, and for one that is.
  unfoldable pub upsert_at :
      String → J.Value → WorkUnitState → String → Option ℕ → Replay → Replay × ℕ
  unfolding blank_unit written
  upsert_at run_id p state id (some i) s =
      (record s { units = modify i (written p state) s.units }, i)
  upsert_at run_id p state id none s = (
    record s {
      units =
          modify (length s.units) (written p state)
            (s.units ++ (record (blank_unit run_id) { id = id }) ∷ []);
      by_id = insert id (length s.units) s.by_id;
    },
    length s.units,
  )

  unfoldable pub seed_unit : String → J.Value → Option String → Replay → Replay
  unfolding upsert_at
  seed_unit run_id p none s = s
  seed_unit run_id p (some id) s = record (upsert_at run_id p queued id (get? id s.by_id) s).0 {
    saw_units = true;
  }

  unfoldable pub note_dispatch : J.Value → Replay × ℕ → Replay
  unfolding add_covers strings
  note_dispatch p (s, i) =
      add_covers (id_at s.units i) (set_some (strings J) (J.as_array (J.field p "covers")))
        (record s { saw_units = true; last_dispatched = some (id_at s.units i) })

  unfoldable pub dispatch_unit : String → J.Value → Option String → Replay → Replay
  unfolding upsert_at note_dispatch
  dispatch_unit run_id p none s = s
  dispatch_unit run_id p (some id) s =
      note_dispatch p (upsert_at run_id p implementing id (get? id s.by_id) s)

  unfoldable pub stub_of : J.Value → String → ReceiptStub
  unfolding strings as_i32
  stub_of p unit_id = record {
    receipt_id = unwrap_or "" (J.as_str (J.field p "receipt_id"));
    work_unit_id = unit_id;
    commit_sha = unwrap_or "" (J.as_str (J.field p "commit_sha"));
    changed_files = unwrap_or [] (set_some (strings J) (J.as_array (J.field p "changed_files")));
    test_exit_code = as_i32 (unwrap_or (pos 0) (J.as_i64 (J.field p "test_exit_code")));
    claimed_pass = unwrap_or false (J.as_bool (J.field p "claimed_pass"));
  }

  unfoldable pub submit_receipt : J.Value → Option String → Replay → Replay
  unfolding stub_of with_receipt modify_at
  submit_receipt p none s = s
  submit_receipt p (some unit_id) s = record s {
    last_receipt_unit = some unit_id;
    units = modify_at (get? unit_id s.by_id) (with_receipt (stub_of p unit_id)) s.units;
    receipts = insert unit_id (stub_of p unit_id) s.receipts;
  }

  unfoldable pub verdict_on : J.Value → Option String → Replay → Replay
  unfolding apply_verdicts
  verdict_on p none s = s
  verdict_on p (some target) s =
      apply_verdicts (unwrap_or "" (J.as_str (J.field p "decision")))
        (target ∷ get_or [] target s.covers) s

  unfoldable pub replay_event : String → EventKind → J.Value → Replay → Replay
  unfolding seed_unit dispatch_unit submit_receipt verdict_on
  replay_event run_id unit_seeded p s = seed_unit run_id p (J.as_str (J.field p "work_unit_id")) s
  replay_event run_id unit_dispatched p s =
      dispatch_unit run_id p (J.as_str (J.field p "work_unit_id")) s
  replay_event run_id receipt_submitted p s =
      submit_receipt p (or_else (J.as_str (J.field p "work_unit_id")) s.last_dispatched) s
  replay_event run_id verdict p s =
      verdict_on p (or_else (J.as_str (J.field p "work_unit_id")) s.last_receipt_unit) s
  replay_event run_id _ p s = s

  unfoldable pub replay_events : String → List (TombstoneEvent J.Value) → Replay → Replay
  unfolding replay_event
  replay_events run_id [] s = s
  replay_events run_id (e ∷ events) s =
      replay_events run_id events (replay_event run_id e.kind e.payload s)
