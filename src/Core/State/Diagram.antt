-- ===== src/Core/State/Diagram.antt =====
-- The transition diagram of a run, beside `can_transition` of crates/wanax-core/src/state.rs.
use wanax.Prelude.{◌≡◌, ◌↔◌, ◌⊎◌, inl, inr, refl, subst, true, false, arith, Bool-cases}
use wanax.Core.RunState.{
  RunState, draft, contract_ready, dispatched, inner_working, receipt_ready, outer_reviewing,
  accepted, rejected, rework, escalate, canceling, cancelled, budget_exhausted, failed, is_terminal,
}
use wanax.Core.State.{eq_state, eq_state_iff, legal, can_transition}

-- A state in which the factory still works on the run.
pub data Live : RunState → Type 0 where
  live_draft : Live draft
  live_contract_ready : Live contract_ready
  live_dispatched : Live dispatched
  live_inner_working : Live inner_working
  live_receipt_ready : Live receipt_ready
  live_outer_reviewing : Live outer_reviewing
  live_rework : Live rework
  live_canceling : Live canceling

-- The edges between two different states.
pub data Edge : RunState → RunState → Type 0 where
  ready : Edge draft contract_ready
  dispatch : Edge contract_ready dispatched
  work : Edge dispatched inner_working
  submit : Edge inner_working receipt_ready
  review : Edge receipt_ready outer_reviewing
  accept : Edge outer_reviewing accepted
  reject : Edge outer_reviewing rejected
  send_back : Edge outer_reviewing rework
  next_unit : Edge outer_reviewing dispatched
  redispatch : Edge rework dispatched
  cancel : {s : RunState} → Live s → Edge s canceling
  confirm : Edge canceling cancelled
  exhaust : {s : RunState} → Live s → Edge s budget_exhausted
  fail : {s : RunState} → Live s → Edge s failed
  give_up : {s : RunState} → Live s → Edge s escalate

ruleset live_states = (
  live_draft, live_contract_ready, live_dispatched, live_inner_working, live_receipt_ready,
  live_outer_reviewing, live_rework, live_canceling,
)

ruleset edges = (
  ready, dispatch, work, submit, review, accept, reject, send_back, next_unit, redispatch, cancel,
  confirm, exhaust, fail, give_up,
)

-- The machine never leaves a state that it calls terminal, and Live are the others.
Live-not_terminal : {s : RunState} → Live s → is_terminal s ≡ false
unfolding is_terminal
Live-not_terminal live_draft = refl
Live-not_terminal live_contract_ready = refl
Live-not_terminal live_dispatched = refl
Live-not_terminal live_inner_working = refl
Live-not_terminal live_receipt_ready = refl
Live-not_terminal live_outer_reviewing = refl
Live-not_terminal live_rework = refl
Live-not_terminal live_canceling = refl

Edge-of_can_transition : (a b : RunState) → can_transition a b ≡ true → (a ≡ b) ⊎ Edge a b
unfolding can_transition
Edge-of_can_transition a b h = grind (arith, edges, live_states, eq_state_iff a b)

Live-legal :
    {s : RunState}
    → Live s
    → (legal s canceling ≡ true)
      × (legal s budget_exhausted ≡ true)
      × (legal s failed ≡ true)
      × (legal s escalate ≡ true)
unfolding legal
Live-legal live_draft = (refl, refl, refl, refl)
Live-legal live_contract_ready = (refl, refl, refl, refl)
Live-legal live_dispatched = (refl, refl, refl, refl)
Live-legal live_inner_working = (refl, refl, refl, refl)
Live-legal live_receipt_ready = (refl, refl, refl, refl)
Live-legal live_outer_reviewing = (refl, refl, refl, refl)
Live-legal live_rework = (refl, refl, refl, refl)
Live-legal live_canceling = (refl, refl, refl, refl)

can_transition_of_legal :
    (a b : RunState) → is_terminal a ≡ false → legal a b ≡ true → can_transition a b ≡ true
unfolding can_transition
can_transition_of_legal a b live move = elim (Bool-cases (eq_state a b)) [
  | inl same ↦ rw same
  | inr other ↦ rw (other, live, move)
]

can_transition_of_Edge : {a b : RunState} → Edge a b → can_transition a b ≡ true
unfolding legal
can_transition_of_Edge ready = can_transition_of_legal _ _ refl refl
can_transition_of_Edge dispatch = can_transition_of_legal _ _ refl refl
can_transition_of_Edge work = can_transition_of_legal _ _ refl refl
can_transition_of_Edge submit = can_transition_of_legal _ _ refl refl
can_transition_of_Edge review = can_transition_of_legal _ _ refl refl
can_transition_of_Edge accept = can_transition_of_legal _ _ refl refl
can_transition_of_Edge reject = can_transition_of_legal _ _ refl refl
can_transition_of_Edge send_back = can_transition_of_legal _ _ refl refl
can_transition_of_Edge next_unit = can_transition_of_legal _ _ refl refl
can_transition_of_Edge redispatch = can_transition_of_legal _ _ refl refl
can_transition_of_Edge confirm = can_transition_of_legal _ _ refl refl
can_transition_of_Edge (cancel l) =
    can_transition_of_legal _ _ (Live-not_terminal l) (Live-legal l).0
can_transition_of_Edge (exhaust l) =
    can_transition_of_legal _ _ (Live-not_terminal l) (Live-legal l).1
can_transition_of_Edge (fail l) = can_transition_of_legal _ _ (Live-not_terminal l) (Live-legal l).2
can_transition_of_Edge (give_up l) =
    can_transition_of_legal _ _ (Live-not_terminal l) (Live-legal l).3

can_transition_refl : (a : RunState) → can_transition a a ≡ true
unfolding can_transition
can_transition_refl a = rw ((eq_state_iff a a).1 refl)

-- `can_transition` allows exactly the edges of the diagram, and staying in the same state.
pub can_transition_iff_Edge : (a b : RunState) → (can_transition a b ≡ true) ↔ ((a ≡ b) ⊎ Edge a b)
can_transition_iff_Edge a b = (
  Edge-of_can_transition a b,
  λ move. elim move [
    | inl same ↦ subst (λ c. can_transition a c ≡ true) same (can_transition_refl a)
    | inr edge ↦ can_transition_of_Edge edge
  ],
)

-- No edge leaves a terminal state.
pub Edge-from_live : {a b : RunState} → Edge a b → is_terminal a ≡ false
unfolding is_terminal
Edge-from_live (cancel l) = Live-not_terminal l
Edge-from_live (exhaust l) = Live-not_terminal l
Edge-from_live (fail l) = Live-not_terminal l
Edge-from_live (give_up l) = Live-not_terminal l
Edge-from_live ready = refl
Edge-from_live dispatch = refl
Edge-from_live work = refl
Edge-from_live submit = refl
Edge-from_live review = refl
Edge-from_live accept = refl
Edge-from_live reject = refl
Edge-from_live send_back = refl
Edge-from_live next_unit = refl
Edge-from_live redispatch = refl
Edge-from_live confirm = refl
