-- ===== src/Core/State.antt =====
-- The run's state machine: crates/wanax-core/src/state.rs.
pub mod Diagram
pub mod Prd
pub mod Path
use Prim.Native.String.{◌++◌}
use wanax.Prelude.{Bool, true, false, not, ◌≡◌, refl, ◌↔◌, if◌then◌else◌, holds, holds_iff}
use wanax.Core.RunState
use wanax.Core.RunState.{
  RunState, draft, contract_ready, dispatched, inner_working, receipt_ready, outer_reviewing,
  accepted, rejected, rework, escalate, canceling, cancelled, budget_exhausted, failed,
  RunState-discrete, is_terminal,
}
use wanax.Core.ErrorCode.{db}
use wanax.Core.Error
use wanax.Core.Error.{Result, ok, err}

-- `from == to`
unfoldable pub eq_state : RunState → RunState → Bool
eq_state a b = holds (RunState-discrete a b)

pub eq_state_iff : (a b : RunState) → (eq_state a b ≡ true) ↔ (a ≡ b)
unfolding eq_state
eq_state_iff a b = holds_iff (RunState-discrete a b)

-- The `match` of `can_transition`, its last arm included.
unfoldable pub legal : RunState → RunState → Bool
unfolding is_terminal
legal draft contract_ready = true
legal contract_ready dispatched = true
legal dispatched inner_working = true
legal inner_working receipt_ready = true
legal receipt_ready outer_reviewing = true
legal outer_reviewing accepted = true
legal outer_reviewing rejected = true
legal outer_reviewing rework = true
legal outer_reviewing escalate = true
legal outer_reviewing dispatched = true
legal rework dispatched = true
legal from canceling = not (is_terminal from)
legal canceling cancelled = true
legal from budget_exhausted = not (is_terminal from)
legal from failed = not (is_terminal from)
legal from escalate = not (is_terminal from)
legal _ _ = false

unfoldable pub can_transition : RunState → RunState → Bool
unfolding legal is_terminal
can_transition from to =
    if eq_state from to then true else if is_terminal from then false else legal from to

unfoldable pub transition : RunState → RunState → Result RunState
unfolding Error.new
transition from to =
    if can_transition from to
    then ok to
    else err (
        Error.new db
          ("illegal state transition " ++ (RunState.as_str from ++ (" → " ++ RunState.as_str to))))

pub transition-legal :
    (from to : RunState) → can_transition from to ≡ true → transition from to ≡ ok to
unfolding transition
transition-legal from to h = rw h refl

pub transition-illegal :
    (from to : RunState)
    → can_transition from to ≡ false
    → (e : Error.WanaxError) × (transition from to ≡ err e) × (e.code ≡ db)
unfolding transition Error.new
transition-illegal from to h = (
  Error.new db
      ("illegal state transition " ++ (RunState.as_str from ++ (" → " ++ RunState.as_str to))),
  rw h refl,
  refl,
)
