-- ===== src/Core/Types.antt =====
-- The records and constants of crates/wanax-core/src/types.rs. Money (`i64`) and exit codes (`i32`) are
-- integers, counters (`u32`, `u64`) are numbers; an RFC 3339 time is a text.
use Prim.Native.String.{◌++◌}
use wanax.Prelude.{ℕ, String, Bool, Option, List}
use wanax.Prelude.Int.{ℤ, pos}
use wanax.Core.RunState.{RunState}
use wanax.Core.WorkUnitState.{WorkUnitState}
use wanax.Core.AssigneeRole.{AssigneeRole}
use wanax.Core.WorkerAdapterKind.{WorkerAdapterKind}
use wanax.Core.VerdictDecision.{VerdictDecision}

pub record CompletionCriterion : Type 0 where
  pub id : String
  pub statement : String
  pub bound_test : Option String
  pub must_have_files : List String

pub record Contract : Type 0 where
  pub id : String
  pub path : String
  pub content_sha256 : String
  pub intent : String
  pub decisions : List String
  pub allowed_globs : List String
  pub forbidden_globs : List String
  pub forbidden_rules : List String
  pub completion_criteria : List CompletionCriterion
  pub test_command : String
  pub test_timeout_secs : ℕ
  pub name : Option String
  pub agent_spec : Option String

pub record FactoryRun : Type 0 where
  pub id : String
  pub repo_root : String
  pub contract_id : String
  pub contract_sha256 : String
  pub state : RunState
  pub base_sha : String
  pub inner_branch : String
  pub outer_branch : String
  pub commander_model : String
  pub inner_model : String
  pub reviewer_model : Option String
  pub max_usd_micros : ℤ
  pub max_inner_turns : ℕ
  pub spent_usd_micros : ℤ
  pub spent_inner_turns : ℕ
  pub worker_adapter : WorkerAdapterKind
  pub created_at : String
  pub updated_at : String
  pub finished_at : Option String
  pub last_error : Option String
  pub worker_pid : Option ℤ
  pub start_pid : Option ℤ

pub record WorkUnit : Type 0 where
  pub id : String
  pub run_id : String
  pub seq : ℕ
  pub title : String
  pub instruction : String
  pub state : WorkUnitState
  pub assignee_role : AssigneeRole
  pub parent_id : Option String
  pub allowed_globs : Option (List String)
  pub depends_on : List String
  pub test_command : Option String
  pub local_key : Option String
  pub rework_count : ℕ
  pub inner_commit_sha : Option String
  pub receipt_id : Option String
  pub verdict_id : Option String

pub record Receipt : Type 0 where
  pub id : String
  pub work_unit_id : String
  pub changed_files : List String
  pub diffstat : String
  pub commit_sha : String
  pub test_command : String
  pub test_exit_code : ℤ
  pub test_excerpt : String
  pub claimed_pass : Bool
  pub duration_ms : ℕ
  pub adapter : String
  pub raw_artifact_path : Option String

pub record Verdict : Type 0 where
  pub id : String
  pub work_unit_id : String
  pub decision : VerdictDecision
  pub reason : String
  pub outer_test_exit_code : ℤ
  pub outer_test_excerpt : String
  pub boundary_ok : Bool
  pub files_reviewed : List String
  pub commander_model : String
  pub created_at : String

abbrev pub max_rework : ℕ
max_rework = 3

abbrev pub max_goal_iters : ℕ
max_goal_iters = 8

abbrev pub default_max_usd_micros : ℤ
default_max_usd_micros = pos 5000000

abbrev pub default_max_inner_turns : ℕ
default_max_inner_turns = 40

abbrev pub default_test_timeout_secs : ℕ
default_test_timeout_secs = 300

unfoldable pub inner_branch_name : String → String
inner_branch_name run_id = "wanax/" ++ (run_id ++ "/inner")

unfoldable pub outer_branch_name : String → String
outer_branch_name run_id = "wanax/" ++ (run_id ++ "/outer")
