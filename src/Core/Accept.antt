-- ===== src/Core/Accept.antt =====
-- The accept gates and the enforcement of a proposed verdict: crates/wanax-core/src/accept.rs.
pub mod Decision
use wanax.Prelude.{
  ℕ, String, Bool, true, false, not, ◌&&◌, ◌||◌, Option, none, some, ltb, leb, str_eq, is_empty,
  if◌then◌else◌,
}
use wanax.Prelude.Int.{ℤ, pos, eq_ℤ}
use wanax.Core.VerdictDecision.{VerdictDecision, accept, reject, rework, escalate}
use wanax.Core.ErrorCode.{
  ErrorCode, budget, boundary, secret_leak, plugin, rework_limit, accept_override,
}
use wanax.Core.Types.{Receipt, max_rework}

pub record AcceptGates : Type 0 where
  pub outer_test_exit_code : ℤ
  pub boundary_ok : Bool
  pub receipt_test_command : String
  pub contract_test_command : String
  pub inner_is_descendant : Bool
  pub changed_files_nonempty : Bool
  pub budget_exhausted : Bool
  pub rework_count : ℕ
  pub plugin_ok : Bool
  pub bound_tests_ok : Bool
  pub secrets_ok : Bool
  pub must_have_ok : Bool

unfoldable pub from_parts : Receipt → String → ℤ → Bool → Bool → Bool → ℕ → AcceptGates
from_parts receipt contract_test_command exit_code boundary_ok descendant exhausted reworks =
    record {
      outer_test_exit_code = exit_code;
      boundary_ok = boundary_ok;
      receipt_test_command = receipt.test_command;
      contract_test_command = contract_test_command;
      inner_is_descendant = descendant;
      changed_files_nonempty = not (is_empty receipt.changed_files);
      budget_exhausted = exhausted;
      rework_count = reworks;
      plugin_ok = true;
      bound_tests_ok = true;
      secrets_ok = true;
      must_have_ok = true;
    }

unfoldable pub with_plugin : AcceptGates → Bool → AcceptGates
with_plugin g answer = record g { plugin_ok = answer }

unfoldable pub with_bound_tests : AcceptGates → Bool → AcceptGates
with_bound_tests g answer = record g { bound_tests_ok = answer }

unfoldable pub with_secrets : AcceptGates → Bool → AcceptGates
with_secrets g answer = record g { secrets_ok = answer }

unfoldable pub with_must_have : AcceptGates → Bool → AcceptGates
with_must_have g answer = record g { must_have_ok = answer }

-- `self.outer_test_exit_code == 0`
abbrev pub is_green : AcceptGates → Bool
is_green g = eq_ℤ g.outer_test_exit_code (pos 0)

abbrev pub same_command : AcceptGates → Bool
same_command g = str_eq g.receipt_test_command g.contract_test_command

unfoldable pub can_accept : AcceptGates → Bool
can_accept g =
    is_green g
    && g.boundary_ok
    && same_command g
    && g.inner_is_descendant
    && g.changed_files_nonempty
    && not g.budget_exhausted
    && leb g.rework_count max_rework
    && g.plugin_ok
    && g.bound_tests_ok
    && g.secrets_ok
    && g.must_have_ok

abbrev pub is_accept : VerdictDecision → Bool
is_accept accept = true
is_accept _ = false

abbrev pub is_rework : VerdictDecision → Bool
is_rework rework = true
is_rework _ = false

abbrev pub unwrap_or : Option ErrorCode → ErrorCode → ErrorCode
unwrap_or none c = c
unwrap_or (some d) c = d

-- The ladder for an accept whose gates are not all open, after the test of the budget.
unfoldable pub demote : Option ErrorCode → AcceptGates → VerdictDecision × Option ErrorCode
demote note g =
    if not g.boundary_ok
    then (reject, some (unwrap_or note boundary))
    else if not g.secrets_ok
    then (reject, some (unwrap_or note secret_leak))
    else if not g.changed_files_nonempty || not (same_command g) || not g.inner_is_descendant
    then (reject, note)
    else if not g.bound_tests_ok || not g.must_have_ok
    then (rework, note)
    else if not g.plugin_ok
    then (rework, some plugin)
    else if ltb max_rework g.rework_count
    then (escalate, some rework_limit)
    else (rework, note)

-- The last test: a rework beyond the limit is an escalation.
unfoldable pub cap_rework :
    AcceptGates → VerdictDecision × Option ErrorCode → VerdictDecision × Option ErrorCode
cap_rework g (decision, note) =
    if is_rework decision && leb max_rework g.rework_count
    then (escalate, some rework_limit)
    else (decision, note)

-- The first test: an accept over a red outer test becomes a rework.
unfoldable pub override_red : VerdictDecision → AcceptGates → VerdictDecision × Option ErrorCode
override_red proposed g =
    if not (is_green g) && is_accept proposed
    then (rework, some accept_override)
    else (proposed, none)

unfoldable pub enforce_decision : VerdictDecision → AcceptGates → VerdictDecision × Option ErrorCode
unfolding override_red demote cap_rework
enforce_decision proposed g =
    let (decision, note) = override_red proposed g in
    if is_accept decision && not (can_accept g)
    then if g.budget_exhausted then (decision, some budget) else cap_rework g (demote note g)
    else cap_rework g (decision, note)
