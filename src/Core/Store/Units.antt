-- ===== src/Core/Store/Units.antt =====
-- The table `work_units` of crates/wanax-core/src/store.rs.
use wanax.Prelude.{String, Bool, some, str_eq}
use wanax.Core.WorkUnitState
use wanax.Core.AssigneeRole
use wanax.Core.Error.{Result, ◌>>=◌}
use wanax.Core.Types.{WorkUnit}
use wanax.Core.Store.Rows.{UnitRow, Json, unit_columns, row_to_unit}
use wanax.Core.Store.Tables.{Table, insert, update, select}

abbrev pub is_unit : String → UnitRow → Bool
is_unit id row = str_eq row.id id

unfoldable pub insert_work_unit : Json → WorkUnit → Table UnitRow → Table UnitRow × Result {0} Unit
unfolding insert unit_columns
insert_work_unit json u t = insert (is_unit u.id) (unit_columns json u) t

unfoldable pub get_work_unit : Json → String → Table UnitRow → Result WorkUnit
unfolding select row_to_unit
get_work_unit json id t = select (is_unit id) t >>= λ row. row_to_unit json row

-- The columns that `update_work_unit` writes: not the run, the place in it, the parent or the globs.
unfoldable pub changed_columns : Json → WorkUnit → UnitRow → UnitRow
changed_columns json u row = record row {
  title = u.title;
  instruction = u.instruction;
  state = WorkUnitState.as_str u.state;
  assignee_role = AssigneeRole.as_str u.assignee_role;
  rework_count = u.rework_count;
  inner_commit_sha = u.inner_commit_sha;
  receipt_id = u.receipt_id;
  verdict_id = u.verdict_id;
  depends_on = some (json.write u.depends_on);
  test_command = u.test_command;
  local_key = u.local_key;
}

unfoldable pub update_work_unit : Json → WorkUnit → Table UnitRow → Table UnitRow × Result {0} Unit
unfolding update changed_columns
update_work_unit json u t = update (is_unit u.id) (changed_columns json u) t
