-- ===== src/Scenarios/Decisions.antt =====
-- The theorems on verdicts, money, states and error codes at concrete inputs.
use wanax.Prelude.{◌≡◌, ◌↔◌, ◌⊎◌, refl, true, false, none, some, List, [], ◌∷◌, arith}
use wanax.Prelude.Int.{ℤ, pos, negsuc}
use wanax.Core.VerdictDecision.{accept, reject, rework}
use wanax.Core.ErrorCode.{budget, accept_override}
use wanax.Core.RunState.{
  RunState, RunState-discrete, is_terminal, draft, contract_ready, dispatched, inner_working,
  receipt_ready, outer_reviewing, accepted, cancelled,
}
use wanax.Core.State.{can_transition, transition, eq_state}
use wanax.Core.State.Prd.{PrdEdge, ExtraEdge, can_transition_iff_PrdEdge}
use wanax.Core.State.Path.{follow, Subsequence, needs, follow-accepted, follow-terminal}
use wanax.Core.Accept.{AcceptGates, enforce_decision, can_accept}
use wanax.Core.Accept.Decision.{
  IsAcceptable, IsHardFailure, accept_needs_gates, enforce_accept_iff, reject_iff_IsHardFailure,
  red_accept,
}
use wanax.Core.Money.{parse_usd_decimal, format_usd, estimate_cost_micros, i64_max, Parsed}
use wanax.Core.Money
use wanax.Core.Money.RoundTrip.{parse-format_usd}

abbrev pub open_gates_at : ℤ → AcceptGates
open_gates_at exit_code = record {
  outer_test_exit_code = exit_code;
  boundary_ok = true;
  receipt_test_command = "cargo test";
  contract_test_command = "cargo test";
  inner_is_descendant = true;
  changed_files_nonempty = true;
  budget_exhausted = false;
  rework_count = 1;
  plugin_ok = true;
  bound_tests_ok = true;
  secrets_ok = true;
  must_have_ok = true;
}

abbrev green_gates : AcceptGates
green_gates = open_gates_at (pos 0)

abbrev out_of_bounds : AcceptGates
out_of_bounds = record green_gates { boundary_ok = false }

accept_needs_gates_example :
    (accept ≡ accept)
    × (IsAcceptable green_gates
        ⊎ ((green_gates.budget_exhausted ≡ true)
            × (green_gates.outer_test_exit_code ≡ pos 0)
            × ((enforce_decision accept green_gates).1 ≡ some budget)))
unfolding enforce_decision can_accept
accept_needs_gates_example = accept_needs_gates accept green_gates refl

enforce_accept_iff_example :
    (enforce_decision accept green_gates ≡ (accept, none)) ↔ IsAcceptable green_gates
enforce_accept_iff_example = enforce_accept_iff green_gates

reject_iff_IsHardFailure_example :
    ((enforce_decision accept out_of_bounds).0 ≡ reject) ↔ IsHardFailure out_of_bounds
reject_iff_IsHardFailure_example = reject_iff_IsHardFailure out_of_bounds refl refl

red_accept_example :
    enforce_decision accept (open_gates_at (pos 101)) ≡ (rework, some accept_override)
red_accept_example = red_accept (open_gates_at (pos 101)) (λ e. cc)

abbrev straight : List RunState
straight =
    contract_ready ∷ dispatched ∷ inner_working ∷ receipt_ready ∷ outer_reviewing ∷ dispatched
    ∷ inner_working ∷ receipt_ready ∷ outer_reviewing ∷ accepted ∷ []

follow-accepted_example : Subsequence (needs draft) straight
unfolding follow transition can_transition eq_state RunState-discrete is_terminal
follow-accepted_example = follow-accepted draft straight refl

follow-terminal_example : cancelled ≡ cancelled
unfolding follow transition can_transition eq_state RunState-discrete is_terminal
follow-terminal_example = follow-terminal cancelled (cancelled ∷ []) refl refl

can_transition_iff_PrdEdge_example : (can_transition outer_reviewing dispatched ≡ true) ↔ (
    (outer_reviewing ≡ dispatched)
    ⊎ (PrdEdge outer_reviewing dispatched ⊎ ExtraEdge outer_reviewing dispatched))
can_transition_iff_PrdEdge_example = can_transition_iff_PrdEdge outer_reviewing dispatched

parse-format_usd_example :
    parse_usd_decimal (format_usd (negsuc 1499999)) ≡ Money.ok (negsuc 1499999)
parse-format_usd_example = parse-format_usd (negsuc 1499999) (omega arith) (omega arith)
