-- ===== src/Core/ErrorCode.antt =====
-- ErrorCode of crates/wanax-core/src/error.rs: the stable codes, their texts and the exit codes.
pub mod Texts
use wanax.Prelude.{ℕ, String}

pub data ErrorCode : Type 0 where
  not_git already_init contract_invalid dirty_worktree repo_locked run_not_found : ErrorCode
  adapter_missing missing_api_key db test_command_forbidden worker_crash : ErrorCode
  worker_timeout outer_test_timeout boundary accept_override commander_schema budget : ErrorCode
  rework_limit contract_mutated contract_tests_writable push_attempt peer_overlap : ErrorCode
  lock_stale protected_ref resume dag_cycle plugin rejected escalated secret_leak : ErrorCode
  audit : ErrorCode

unfoldable pub as_str : ErrorCode → String
as_str not_git = "E_NOT_GIT"
as_str already_init = "E_ALREADY_INIT"
as_str contract_invalid = "E_CONTRACT_INVALID"
as_str dirty_worktree = "E_DIRTY_WORKTREE"
as_str repo_locked = "E_REPO_LOCKED"
as_str run_not_found = "E_RUN_NOT_FOUND"
as_str adapter_missing = "E_ADAPTER_MISSING"
as_str missing_api_key = "E_MISSING_API_KEY"
as_str db = "E_DB"
as_str test_command_forbidden = "E_TEST_COMMAND_FORBIDDEN"
as_str worker_crash = "E_WORKER_CRASH"
as_str worker_timeout = "E_WORKER_TIMEOUT"
as_str outer_test_timeout = "E_OUTER_TEST_TIMEOUT"
as_str boundary = "E_BOUNDARY"
as_str accept_override = "E_ACCEPT_OVERRIDE"
as_str commander_schema = "E_COMMANDER_SCHEMA"
as_str budget = "E_BUDGET"
as_str rework_limit = "E_REWORK_LIMIT"
as_str contract_mutated = "E_CONTRACT_MUTATED"
as_str contract_tests_writable = "E_CONTRACT_TESTS_WRITABLE"
as_str push_attempt = "E_PUSH_ATTEMPT"
as_str peer_overlap = "E_PEER_OVERLAP"
as_str lock_stale = "E_LOCK_STALE"
as_str protected_ref = "E_PROTECTED_REF"
as_str resume = "E_RESUME"
as_str dag_cycle = "E_DAG_CYCLE"
as_str plugin = "E_PLUGIN"
as_str rejected = "E_REJECTED"
as_str escalated = "E_ESCALATE"
as_str secret_leak = "E_SECRET_LEAK"
as_str audit = "E_AUDIT"

-- i32, and all of them are small
unfoldable pub exit_code : ErrorCode → ℕ
exit_code not_git = 2
exit_code already_init = 3
exit_code contract_invalid = 4
exit_code test_command_forbidden = 4
exit_code contract_tests_writable = 4
exit_code dirty_worktree = 5
exit_code repo_locked = 6
exit_code run_not_found = 7
exit_code adapter_missing = 8
exit_code missing_api_key = 8
exit_code db = 9
exit_code _ = 1

unfoldable pub default_message : ErrorCode → String
default_message not_git = "not a git repository"
default_message already_init = "already initialized"
default_message contract_invalid = "invalid contract"
default_message dirty_worktree = "dirty worktree; commit, stash, or pass --allow-dirty"
default_message repo_locked = "repo locked by run"
default_message run_not_found = "run not found"
default_message adapter_missing = "adapter binary not found"
default_message missing_api_key = "missing WANAX_COMMANDER_API_KEY"
default_message db = "database error"
default_message test_command_forbidden = "test_command rejected"
default_message worker_crash = "worker crashed without receipt"
default_message worker_timeout = "worker timeout"
default_message outer_test_timeout = "outer test timeout"
default_message boundary = "boundary check failed"
default_message accept_override = "accept overridden; tests did not pass"
default_message commander_schema = "commander schema invalid"
default_message budget = "budget exhausted"
default_message rework_limit = "max rework exceeded"
default_message contract_mutated = "contract mutated on disk; run still uses frozen hash"
default_message contract_tests_writable =
    "allowed_globs include binding tests; a worker can rewrite them"
default_message push_attempt = "push denied"
default_message peer_overlap = "peer file sets overlap"
default_message lock_stale = "stale lock"
default_message protected_ref = "protected ref"
default_message resume = "cannot resume run"
default_message dag_cycle = "work unit DAG has a cycle"
default_message plugin = "verifier plugin failed"
default_message rejected = "verdict rejected"
default_message escalated = "escalated to human"
default_message secret_leak = "secret material detected in diff"
default_message audit = "tombstone integrity check failed"

pub ErrorCode-discrete : Discrete ErrorCode
ErrorCode-discrete = hlevel
