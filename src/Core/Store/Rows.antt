-- ===== src/Core/Store/Rows.antt =====
-- The rows of crates/wanax-core/src/store.rs: how a run and a work unit are written into columns, and read
-- back. A `u32` is stored as an integer and cut to 32 bits when it is read; a list of texts is stored as
-- JSON, which serde_json writes and reads.
use wanax.Prelude.{
  ℕ, ◌%◌, ◌^◌, ◌<◌, ◌≡◌, refl, String, Option, none, some, List, [], ◌⊎◌, inl, inr, arith,
}
use wanax.Prelude.Int.{ℤ}
use wanax.Core.RunState
use wanax.Core.RunState.{RunState}
use wanax.Core.WorkUnitState
use wanax.Core.AssigneeRole
use wanax.Core.WorkerAdapterKind
use wanax.Core.WorkerAdapterKind.{WorkerAdapterKind}
use wanax.Core.ErrorCode.{db}
use wanax.Core.Error
use wanax.Core.Error.{Result, ok, err, ◌>>=◌}
use wanax.Core.Types.{FactoryRun, WorkUnit}

pub record RunRow : Type 0 where
  pub id : String
  pub repo_root : String
  pub contract_id : String
  pub contract_sha256 : String
  pub state : String
  pub base_sha : String
  pub inner_branch : String
  pub outer_branch : String
  pub commander_model : String
  pub inner_model : String
  pub reviewer_model : Option String
  pub max_usd_micros : ℤ
  pub max_inner_turns : ℕ
  pub spent_usd_micros : ℤ
  pub spent_inner_turns : ℕ
  pub worker_adapter : String
  pub created_at : String
  pub updated_at : String
  pub finished_at : Option String
  pub last_error : Option String
  pub worker_pid : Option ℤ
  pub start_pid : Option ℤ

pub record UnitRow : Type 0 where
  pub id : String
  pub run_id : String
  pub seq : ℕ
  pub title : String
  pub instruction : String
  pub state : String
  pub assignee_role : String
  pub parent_id : Option String
  pub allowed_globs : Option String
  pub depends_on : Option String
  pub test_command : Option String
  pub local_key : Option String
  pub rework_count : ℕ
  pub inner_commit_sha : Option String
  pub receipt_id : Option String
  pub verdict_id : Option String

-- `parse(..).ok_or_else(..)`
abbrev pub ok_or {ℓ} : {A : Type ℓ} → Option A → String → Result A
ok_or none detail = err (Error.with_detail db detail)
ok_or (some a) detail = ok a

-- The values that `insert_run` binds.
unfoldable pub run_columns : FactoryRun → RunRow
run_columns r = record {
  id = r.id;
  repo_root = r.repo_root;
  contract_id = r.contract_id;
  contract_sha256 = r.contract_sha256;
  state = RunState.as_str r.state;
  base_sha = r.base_sha;
  inner_branch = r.inner_branch;
  outer_branch = r.outer_branch;
  commander_model = r.commander_model;
  inner_model = r.inner_model;
  reviewer_model = r.reviewer_model;
  max_usd_micros = r.max_usd_micros;
  max_inner_turns = r.max_inner_turns;
  spent_usd_micros = r.spent_usd_micros;
  spent_inner_turns = r.spent_inner_turns;
  worker_adapter = WorkerAdapterKind.as_str r.worker_adapter;
  created_at = r.created_at;
  updated_at = r.updated_at;
  finished_at = r.finished_at;
  last_error = r.last_error;
  worker_pid = r.worker_pid;
  start_pid = r.start_pid;
}

-- The run of a row whose two names are read.
unfoldable pub run_of_row : RunRow → RunState → WorkerAdapterKind → FactoryRun
run_of_row row state adapter = record {
  id = row.id;
  repo_root = row.repo_root;
  contract_id = row.contract_id;
  contract_sha256 = row.contract_sha256;
  state = state;
  base_sha = row.base_sha;
  inner_branch = row.inner_branch;
  outer_branch = row.outer_branch;
  commander_model = row.commander_model;
  inner_model = row.inner_model;
  reviewer_model = row.reviewer_model;
  max_usd_micros = row.max_usd_micros;
  max_inner_turns = row.max_inner_turns % 2 ^ 32;
  spent_usd_micros = row.spent_usd_micros;
  spent_inner_turns = row.spent_inner_turns % 2 ^ 32;
  worker_adapter = adapter;
  created_at = row.created_at;
  updated_at = row.updated_at;
  finished_at = row.finished_at;
  last_error = row.last_error;
  worker_pid = row.worker_pid;
  start_pid = row.start_pid;
}

unfoldable pub row_to_run : RunRow → Result FactoryRun
unfolding Error.with_detail run_of_row
row_to_run row = ok_or (RunState.parse row.state) "bad state" >>= λ state.
    ok_or (WorkerAdapterKind.parse row.worker_adapter) "bad adapter" >>= λ adapter.
    ok (run_of_row row state adapter)

-- serde_json on a list of texts: what it writes, and what it reads or the error it gives.
pub record Json : Type 0 where
  pub write : List String → String
  pub read : String → String ⊎ List String

-- What was written is read back.
abbrev pub IsJson : Json → Type 0
IsJson j = (xs : List String) → j.read (j.write xs) ≡ inr xs

unfoldable pub from_json : Json → String → Result (List String)
unfolding Error.with_detail
from_json json s = elim (json.read s) [ inl why ↦ err (Error.with_detail db why) | inr xs ↦ ok xs ]

unfoldable pub optional_json : Json → Option (List String) → Option String
optional_json json none = none
optional_json json (some xs) = some (json.write xs)

-- `.map(from_json).transpose()?`
unfoldable pub read_optional : Json → Option String → Result (Option (List String))
unfolding from_json
read_optional json none = ok none
read_optional json (some s) = from_json json s >>= λ xs. ok (some xs)

abbrev pub or_empty : Option (List String) → List String
or_empty none = []
or_empty (some xs) = xs

-- The values that `insert_work_unit` binds.
unfoldable pub unit_columns : Json → WorkUnit → UnitRow
unfolding optional_json
unit_columns json u = record {
  id = u.id;
  run_id = u.run_id;
  seq = u.seq;
  title = u.title;
  instruction = u.instruction;
  state = WorkUnitState.as_str u.state;
  assignee_role = AssigneeRole.as_str u.assignee_role;
  parent_id = u.parent_id;
  allowed_globs = optional_json json u.allowed_globs;
  depends_on = some (json.write u.depends_on);
  test_command = u.test_command;
  local_key = u.local_key;
  rework_count = u.rework_count;
  inner_commit_sha = u.inner_commit_sha;
  receipt_id = u.receipt_id;
  verdict_id = u.verdict_id;
}

unfoldable pub row_to_unit : Json → UnitRow → Result WorkUnit
unfolding Error.with_detail read_optional
row_to_unit json row = ok_or (WorkUnitState.parse row.state) "bad unit state" >>= λ state.
    ok_or (AssigneeRole.parse row.assignee_role) "bad role" >>= λ role.
    read_optional json row.allowed_globs >>= λ globs. read_optional json row.depends_on >>= λ deps.
    ok (record {
      id = row.id;
      run_id = row.run_id;
      seq = row.seq % 2 ^ 32;
      title = row.title;
      instruction = row.instruction;
      state = state;
      assignee_role = role;
      parent_id = row.parent_id;
      allowed_globs = globs;
      depends_on = or_empty deps;
      test_command = row.test_command;
      local_key = row.local_key;
      rework_count = row.rework_count % 2 ^ 32;
      inner_commit_sha = row.inner_commit_sha;
      receipt_id = row.receipt_id;
      verdict_id = row.verdict_id;
    })

pub mod_small : (n : ℕ) → n < 2 ^ 32 → n % 2 ^ 32 ≡ n
mod_small n h = omega arith

-- A run whose counters are `u32`s is read back from its columns.
pub row_to_run-columns :
    (r : FactoryRun)
    → r.max_inner_turns < 2 ^ 32
    → r.spent_inner_turns < 2 ^ 32
    → row_to_run (run_columns r) ≡ ok r
unfolding row_to_run run_columns
row_to_run-columns r h k =
    rw
      (
        RunState.parse-as_str r.state,
        WorkerAdapterKind.parse-as_str r.worker_adapter,
        mod_small r.max_inner_turns h,
        mod_small r.spent_inner_turns k,
      )
      refl

read_optional-json :
    (json : Json)
    → IsJson json
    → (o : Option (List String)) → read_optional json (optional_json json o) ≡ ok o
unfolding read_optional optional_json from_json
read_optional-json json h none = refl
read_optional-json json h (some xs) = ground (arith, h xs)

-- A work unit whose counters are `u32`s is read back from its columns.
pub row_to_unit-columns :
    (json : Json)
    → IsJson json
    → (u : WorkUnit) → u.seq < 2 ^ 32
    → u.rework_count < 2 ^ 32
    → row_to_unit json (unit_columns json u) ≡ ok u
unfolding row_to_unit unit_columns
row_to_unit-columns json h u small_seq small_count =
    rw
      (
        WorkUnitState.parse-as_str u.state,
        AssigneeRole.parse-as_str u.assignee_role,
        read_optional-json json h u.allowed_globs,
        read_optional-json json h (some u.depends_on),
        mod_small u.seq small_seq,
        mod_small u.rework_count small_count,
      )
      refl
