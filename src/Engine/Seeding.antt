-- ===== src/Engine/Seeding.antt =====
-- The units of a DAG that a model proposes are created, stored and put into the envelope: seed_dag_units
-- of crates/wanax-cli/src/engine.rs.
pub mod Replayed
pub mod Made
pub mod Ordered
use wanax.Prelude.{
  ℕ, suc, ◌+◌, ◌^◌, String, Option, none, some, List, [], ◌∷◌, ◌++◌, str_eq, find, map, ltb,
  if◌then◌else◌,
}
use wanax.Prelude.Map.{get?, insert}
use wanax.Core.AssigneeRole
use wanax.Core.AssigneeRole.{goal}
use wanax.Core.Dag.{Node, topo_sort}
use wanax.Core.Error.{WanaxError, Result, err, ok, ◌>>=◌, from_code}
use wanax.Core.ErrorCode.{commander_schema}
use wanax.Core.Store.Rows.{Json, UnitRow}
use wanax.Core.Store.Tables.{Table}
use wanax.Core.Store.Units.{insert_work_unit}
use wanax.Core.Types.{WorkUnit}
use wanax.Core.WorkUnitState.{queued}

pub record DagUnitDraft : Type 0 where
  pub id : String
  pub title : String
  pub instruction : String
  pub depends_on : List String
  pub allowed_globs : Option (List String)
  pub test_command : Option String

unfoldable pub draft_nodes : List DagUnitDraft → List Node
draft_nodes [] = []
draft_nodes (d ∷ drafts) = (d.id, d.depends_on) ∷ draft_nodes drafts

-- `u32::try_from(idx + 1).unwrap_or(1)`
abbrev pub seq_of : ℕ → ℕ
seq_of i = if ltb (i + 1) (2 ^ 32) then i + 1 else 1

unfoldable pub unit_of_draft : String → String → ℕ → DagUnitDraft → WorkUnit
unit_of_draft run_id id i d = record {
  id = id;
  run_id = run_id;
  seq = seq_of i;
  title = d.title;
  instruction = d.instruction;
  state = queued;
  assignee_role = goal;
  parent_id = none;
  allowed_globs = d.allowed_globs;
  depends_on = [];
  test_command = d.test_command;
  local_key = some d.id;
  rework_count = 0;
  inner_commit_sha = none;
  receipt_id = none;
  verdict_id = none;
}

-- `by_key` and `created`.
pub record Created : Type 0 where
  pub by_key : List (String × String)
  pub created : List (List String × WorkUnit)

-- One turn of the first loop, with the draft that was found, and the `i`-th of the new ids.
unfoldable pub create_unit :
    String → (ℕ → String) → ℕ → Option DagUnitDraft → Created → Result Created
unfolding unit_of_draft
create_unit run_id new_id i none s = err (from_code commander_schema)
create_unit run_id new_id i (some d) s = ok record {
  by_key = insert d.id (new_id i) s.by_key;
  created = s.created ++ (d.depends_on, unit_of_draft run_id (new_id i) i d) ∷ [];
}

unfoldable pub create_units :
    String → (ℕ → String) → List DagUnitDraft → ℕ → List String → Created → Result Created
unfolding create_unit
create_units run_id new_id drafts i [] s = ok s
create_units run_id new_id drafts i (key ∷ keys) s =
    create_unit run_id new_id i (find (λ d. str_eq d.id key) drafts) s
    >>= create_units run_id new_id drafts (suc i) keys

-- The ids of the dependencies: a key without a unit is left out.
unfoldable pub resolve : List (String × String) → List String → List String
resolve by_key [] = []
resolve by_key (k ∷ deps) =
    let rest = resolve by_key deps in elim (get? k by_key) [ none ↦ rest | some id ↦ id ∷ rest ]

-- What `json!` is given.
pub data Field : Type 0 where
  null : Field
  text : String → Field
  number : ℕ → Field
  texts : List String → Field

abbrev pub text_or_null : Option String → Field
text_or_null none = null
text_or_null (some s) = text s

abbrev pub texts_or_null : Option (List String) → Field
texts_or_null none = null
texts_or_null (some ss) = texts ss

-- The payload of the event `unit_seeded`.
unfoldable pub seed_fields : WorkUnit → List (String × Field)
seed_fields u =
    ("work_unit_id", text u.id)
    ∷ ("seq", number u.seq)
    ∷ ("title", text u.title)
    ∷ ("instruction", text u.instruction)
    ∷ ("role", text (AssigneeRole.as_str u.assignee_role))
    ∷ ("local_key", text_or_null u.local_key)
    ∷ ("depends_on", texts u.depends_on)
    ∷ ("allowed_globs", texts_or_null u.allowed_globs)
    ∷ ("test_command", text_or_null u.test_command)
    ∷ []

-- What is stored, and the payloads of the events that are appended to the envelope. After an error the rows
-- that were stored before it stay, which the result does not show.
pub record Seeded : Type 0 where
  pub table : Table UnitRow
  pub payloads : List (List (String × Field))
  pub out : List WorkUnit

-- The second loop, with the answer of the database for each unit.
unfoldable pub store_unit : Table UnitRow × Result (Unit {0}) → WorkUnit → Seeded → Result Seeded
unfolding seed_fields
store_unit (table, err e) u s = err e
store_unit (table, ok _) u s =
    ok record { table = table; payloads = s.payloads ++ seed_fields u ∷ []; out = s.out ++ u ∷ [] }

unfoldable pub seed_units :
    Json → List (String × String) → List (List String × WorkUnit) → Seeded → Result Seeded
unfolding store_unit resolve insert_work_unit
seed_units json by_key [] s = ok s
seed_units json by_key ((deps, u) ∷ created) s =
    let unit : WorkUnit = record u { depends_on = resolve by_key deps } in
    store_unit (insert_work_unit json unit s.table) unit s >>= seed_units json by_key created

unfoldable pub seed_ordered :
    Json → String → (ℕ → String) → List DagUnitDraft → Table UnitRow → List String → Result Seeded
unfolding create_units seed_units
seed_ordered json run_id new_id drafts table order =
    create_units run_id new_id drafts 0 order record { by_key = []; created = [] } >>= λ s.
    seed_units json s.by_key s.created record { table = table; payloads = []; out = [] }

abbrev pub seed_after :
    Json
    → String
    → (ℕ → String)
    → List DagUnitDraft
    → Table UnitRow
    → Option (Result (List String))
    → Option (Result Seeded)
seed_after json run_id new_id drafts table none = none
seed_after json run_id new_id drafts table (some order) =
    some (order >>= seed_ordered json run_id new_id drafts table)

-- As for `topo_sort`, `none` stands for a sort that does not end.
unfoldable pub seed_dag_units :
    Json → String → (ℕ → String) → List DagUnitDraft → Table UnitRow → Option (Result Seeded)
unfolding seed_ordered draft_nodes topo_sort
seed_dag_units json run_id new_id drafts table =
    seed_after json run_id new_id drafts table (topo_sort (draft_nodes drafts))
