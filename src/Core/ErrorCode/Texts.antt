-- ===== src/Core/ErrorCode/Texts.antt =====
-- The codes of error.rs are told apart by their texts, and each is a failure to the shell.
use wanax.Prelude.{◌<◌, String, ◌≡◌, refl, ap, Option, none, some, arith, str_eq, if◌then◌else◌}
use wanax.Core.ErrorCode.{
  ErrorCode, as_str, exit_code, not_git, already_init, contract_invalid, dirty_worktree,
  repo_locked, run_not_found, adapter_missing, missing_api_key, db, test_command_forbidden,
  worker_crash, worker_timeout, outer_test_timeout, boundary, accept_override, commander_schema,
  budget, rework_limit, contract_mutated, contract_tests_writable, push_attempt, peer_overlap,
  lock_stale, protected_ref, resume, dag_cycle, plugin, rejected, escalated, secret_leak, audit,
}

-- The code that a text stands for, if any.
code_of : String → Option ErrorCode
code_of s =
    if str_eq s "E_NOT_GIT"
    then some not_git
    else if str_eq s "E_ALREADY_INIT"
    then some already_init
    else if str_eq s "E_CONTRACT_INVALID"
    then some contract_invalid
    else if str_eq s "E_DIRTY_WORKTREE"
    then some dirty_worktree
    else if str_eq s "E_REPO_LOCKED"
    then some repo_locked
    else if str_eq s "E_RUN_NOT_FOUND"
    then some run_not_found
    else if str_eq s "E_ADAPTER_MISSING"
    then some adapter_missing
    else if str_eq s "E_MISSING_API_KEY"
    then some missing_api_key
    else if str_eq s "E_DB"
    then some db
    else if str_eq s "E_TEST_COMMAND_FORBIDDEN"
    then some test_command_forbidden
    else if str_eq s "E_WORKER_CRASH"
    then some worker_crash
    else if str_eq s "E_WORKER_TIMEOUT"
    then some worker_timeout
    else if str_eq s "E_OUTER_TEST_TIMEOUT"
    then some outer_test_timeout
    else if str_eq s "E_BOUNDARY"
    then some boundary
    else if str_eq s "E_ACCEPT_OVERRIDE"
    then some accept_override
    else if str_eq s "E_COMMANDER_SCHEMA"
    then some commander_schema
    else if str_eq s "E_BUDGET"
    then some budget
    else if str_eq s "E_REWORK_LIMIT"
    then some rework_limit
    else if str_eq s "E_CONTRACT_MUTATED"
    then some contract_mutated
    else if str_eq s "E_CONTRACT_TESTS_WRITABLE"
    then some contract_tests_writable
    else if str_eq s "E_PUSH_ATTEMPT"
    then some push_attempt
    else if str_eq s "E_PEER_OVERLAP"
    then some peer_overlap
    else if str_eq s "E_LOCK_STALE"
    then some lock_stale
    else if str_eq s "E_PROTECTED_REF"
    then some protected_ref
    else if str_eq s "E_RESUME"
    then some resume
    else if str_eq s "E_DAG_CYCLE"
    then some dag_cycle
    else if str_eq s "E_PLUGIN"
    then some plugin
    else if str_eq s "E_REJECTED"
    then some rejected
    else if str_eq s "E_ESCALATE"
    then some escalated
    else if str_eq s "E_SECRET_LEAK"
    then some secret_leak
    else if str_eq s "E_AUDIT"
    then some audit
    else none

code_of-as_str : (c : ErrorCode) → code_of (as_str c) ≡ some c
unfolding code_of as_str
code_of-as_str not_git = refl
code_of-as_str already_init = refl
code_of-as_str contract_invalid = refl
code_of-as_str dirty_worktree = refl
code_of-as_str repo_locked = refl
code_of-as_str run_not_found = refl
code_of-as_str adapter_missing = refl
code_of-as_str missing_api_key = refl
code_of-as_str db = refl
code_of-as_str test_command_forbidden = refl
code_of-as_str worker_crash = refl
code_of-as_str worker_timeout = refl
code_of-as_str outer_test_timeout = refl
code_of-as_str boundary = refl
code_of-as_str accept_override = refl
code_of-as_str commander_schema = refl
code_of-as_str budget = refl
code_of-as_str rework_limit = refl
code_of-as_str contract_mutated = refl
code_of-as_str contract_tests_writable = refl
code_of-as_str push_attempt = refl
code_of-as_str peer_overlap = refl
code_of-as_str lock_stale = refl
code_of-as_str protected_ref = refl
code_of-as_str resume = refl
code_of-as_str dag_cycle = refl
code_of-as_str plugin = refl
code_of-as_str rejected = refl
code_of-as_str escalated = refl
code_of-as_str secret_leak = refl
code_of-as_str audit = refl

-- Two codes with the same text are the same code.
as_str-injective : (c d : ErrorCode) → as_str c ≡ as_str d → c ≡ d
as_str-injective c d e = cc (code_of-as_str c, ap code_of e, code_of-as_str d)

-- No code ends the process with the success status.
pub exit_code-pos : (c : ErrorCode) → 0 < exit_code c
unfolding exit_code
exit_code-pos not_git = omega arith
exit_code-pos _ = omega arith
