-- ===== src/Core/State/Prd.antt =====
-- The transition diagram of a run in docs/PRD.md (FactoryRun.state), beside `can_transition` of
-- crates/wanax-core/src/state.rs.
use wanax.Prelude.{◌≡◌, ◌↔◌, ◌⊎◌, inl, inr, true}
use wanax.Core.RunState.{
  RunState, draft, contract_ready, dispatched, inner_working, receipt_ready, outer_reviewing,
  accepted, rejected, rework, escalate, canceling, cancelled, budget_exhausted, failed,
}
use wanax.Core.State.{can_transition}
use wanax.Core.State.Diagram.{
  Live, live_outer_reviewing, Edge, ready, dispatch, work, submit, review, accept, reject,
  send_back, next_unit, redispatch, cancel, confirm, exhaust, fail, give_up,
  can_transition_iff_Edge,
}

-- The arrows of the diagram: the chain and its four ends, the way back from rework, and the three arrows
-- that leave every state that is not an end.
pub data PrdEdge : RunState → RunState → Type 0 where
  to_ready : PrdEdge draft contract_ready
  to_dispatched : PrdEdge contract_ready dispatched
  to_working : PrdEdge dispatched inner_working
  to_receipt : PrdEdge inner_working receipt_ready
  to_review : PrdEdge receipt_ready outer_reviewing
  to_accepted : PrdEdge outer_reviewing accepted
  to_rejected : PrdEdge outer_reviewing rejected
  to_rework : PrdEdge outer_reviewing rework
  to_escalate : PrdEdge outer_reviewing escalate
  rework_again : PrdEdge rework dispatched
  any_canceling : {s : RunState} → Live s → PrdEdge s canceling
  to_cancelled : PrdEdge canceling cancelled
  any_exhausted : {s : RunState} → Live s → PrdEdge s budget_exhausted
  any_failed : {s : RunState} → Live s → PrdEdge s failed

-- What the code allows beside the diagram: the next unit of a DAG after a review, and giving up in any
-- state that is not an end.
pub data ExtraEdge : RunState → RunState → Type 0 where
  after_review : ExtraEdge outer_reviewing dispatched
  any_escalate : {s : RunState} → Live s → ExtraEdge s escalate

drawn : {a b : RunState} → Edge a b → PrdEdge a b ⊎ ExtraEdge a b
drawn ready = inl to_ready
drawn dispatch = inl to_dispatched
drawn work = inl to_working
drawn submit = inl to_receipt
drawn review = inl to_review
drawn accept = inl to_accepted
drawn reject = inl to_rejected
drawn send_back = inl to_rework
drawn next_unit = inr after_review
drawn redispatch = inl rework_again
drawn (cancel l) = inl (any_canceling l)
drawn confirm = inl to_cancelled
drawn (exhaust l) = inl (any_exhausted l)
drawn (fail l) = inl (any_failed l)
drawn (give_up l) = inr (any_escalate l)

Edge-of_PrdEdge : {a b : RunState} → PrdEdge a b → Edge a b
Edge-of_PrdEdge to_ready = ready
Edge-of_PrdEdge to_dispatched = dispatch
Edge-of_PrdEdge to_working = work
Edge-of_PrdEdge to_receipt = submit
Edge-of_PrdEdge to_review = review
Edge-of_PrdEdge to_accepted = accept
Edge-of_PrdEdge to_rejected = reject
Edge-of_PrdEdge to_rework = send_back
Edge-of_PrdEdge to_escalate = give_up live_outer_reviewing
Edge-of_PrdEdge rework_again = redispatch
Edge-of_PrdEdge (any_canceling l) = cancel l
Edge-of_PrdEdge to_cancelled = confirm
Edge-of_PrdEdge (any_exhausted l) = exhaust l
Edge-of_PrdEdge (any_failed l) = fail l

Edge-of_ExtraEdge : {a b : RunState} → ExtraEdge a b → Edge a b
Edge-of_ExtraEdge after_review = next_unit
Edge-of_ExtraEdge (any_escalate l) = give_up l

-- `can_transition` allows staying in the same state, the arrows of the diagram of docs/PRD.md, the way from
-- a review to `dispatched`, and the way from every live state to `escalate`, and nothing else.
pub can_transition_iff_PrdEdge :
    (a b : RunState) → (can_transition a b ≡ true) ↔ ((a ≡ b) ⊎ (PrdEdge a b ⊎ ExtraEdge a b))
can_transition_iff_PrdEdge a b = (
  λ h. elim ((can_transition_iff_Edge a b).0 h) [
    | inl same ↦ inl same
    | inr edge ↦ inr (drawn edge)
  ],
  λ move. (can_transition_iff_Edge a b).1 (elim move [
    | inl same ↦ inl same
    | inr (inl edge) ↦ inr (Edge-of_PrdEdge edge)
    | inr (inr edge) ↦ inr (Edge-of_ExtraEdge edge)
  ]),
)
