-- ===== src/Engine/Verdict/Turns.antt =====
-- A turn of drive_factory (crates/wanax-cli/src/engine.rs) on a DAG without a wave and without a pending
-- receipt: the test of the budget, the unit that is picked, or the end of the run, and the verdict on the
-- unit. What is between them, the work and the review of the
-- unit, is an argument, which gives the loop and the proposal that the verdict meets.
use wanax.Prelude.{
  ◌≡◌, ◌≢◌, ◌⊎◌, inl, inr, refl, subst, true, false, Option, none, some, List, all, all_at,
  Bool-cases, if◌then◌else◌,
}
use mathlib.Core.List.{Memᴰ}
use wanax.Core.RunState.{RunState}
use wanax.Core.VerdictDecision
use wanax.Core.ErrorCode.{dag_cycle}
use wanax.Core.Error
use wanax.Core.Error.{ok}
use wanax.Core.Types.{WorkUnit}
use wanax.Core.Accept.Decision.{IsAcceptable}
use wanax.Core.Budget.{is_budget_exhausted}
use wanax.Engine.Dag.{is_accepted, next_ready_dag}
use wanax.Engine.Verdict.{Loop, Turn, Flow, stop, set_run, fail_run, fail_budget, decide}
use wanax.Engine.Verdict.Accepted.{run_of, decide-accepted, fail_run-Sound, fail_budget-Sound}

-- No unit is ready: the run is accepted if every unit is, and else has a cycle.
unfoldable pub no_unit_left : Turn → List WorkUnit → Loop → Flow
unfolding set_run fail_run Error.from_code
no_unit_left turn dags s =
    if all (λ d. is_accepted d.state) dags
    then set_run turn RunState.accepted none s (λ t. stop t (ok tt))
    else fail_run turn (Error.from_code dag_cycle) s

-- The outcome of the unit that was picked, if one was.
abbrev pub on_picked :
    (WorkUnit → Turn × Loop) → Turn → List WorkUnit → Loop → Option WorkUnit → Flow
on_picked work turn dags s none = no_unit_left turn dags s
on_picked work turn dags s (some u) = let (judged, t) = work u in decide judged t

-- The run is tested for its budget before a unit is picked.
unfoldable pub dag_turn : (WorkUnit → Turn × Loop) → Turn → List WorkUnit → Loop → Flow
unfolding next_ready_dag no_unit_left decide fail_budget is_budget_exhausted
dag_turn work turn dags s =
    if is_budget_exhausted s.run
    then fail_budget turn s
    else on_picked work turn dags s (next_ready_dag dags)

-- The unit that is picked has an acceptance proposed after the work, every gate open, and a budget that is not
-- exhausted.
abbrev pub IsProposed : (WorkUnit → Turn × Loop) → List WorkUnit → Type 0
IsProposed work dags =
    (u : WorkUnit) × (next_ready_dag dags ≡ some u)
    × ((work u).0.proposed ≡ VerdictDecision.accept)
    × IsAcceptable (work u).0.gates
    × (is_budget_exhausted (work u).1.run ≡ false)

-- Every unit is accepted already, and none is ready.
abbrev pub IsAllAccepted : List WorkUnit → Type 0
IsAllAccepted dags =
    (next_ready_dag dags ≡ none) × ((d : WorkUnit) → Memᴰ d dags → is_accepted d.state ≡ true)

no_unit_left-accepted :
    (turn : Turn) (dags : List WorkUnit) (s : Loop)
    → s.run.state ≢ RunState.accepted
    → (run_of (no_unit_left turn dags s)).state ≡ RunState.accepted
    → (d : WorkUnit) → Memᴰ d dags
    → is_accepted d.state ≡ true
unfolding no_unit_left
no_unit_left-accepted turn dags s before acc =
    elim (Bool-cases (all (λ d. is_accepted d.state) dags)) [
      | inl each ↦ λ d m. all_at (λ d. is_accepted d.state) each m
      | inr other ↦
          let done = set_run turn RunState.accepted none s (λ t. stop t (ok tt)) in
          let failed = fail_run turn (Error.from_code dag_cycle) s in
          absurd (
            fail_run-Sound ⊥ turn (Error.from_code dag_cycle) s before (
              subst (λ b. (run_of (if b then done else failed)).state ≡ RunState.accepted) other
                acc))
    ]

picked-accepted :
    (work : WorkUnit → Turn × Loop) (turn : Turn) (dags : List WorkUnit) (s : Loop)
    (o : Option WorkUnit)
    → next_ready_dag dags ≡ o
    → s.run.state ≢ RunState.accepted
    → ((u : WorkUnit) → (work u).1.run.state ≢ RunState.accepted)
    → (run_of (on_picked work turn dags s o)).state ≡ RunState.accepted
    → IsProposed work dags ⊎ IsAllAccepted dags
picked-accepted work turn dags s none gone before apart acc =
    inr (gone, no_unit_left-accepted turn dags s before acc)
picked-accepted work turn dags s (some u) picked before apart acc =
    let (proposed, gates, left) = decide-accepted (work u).0 (work u).1 (apart u) acc in
    inl (u, picked, proposed, gates, left)

-- A turn on a DAG, without a wave and without a pending receipt, that leaves the run accepted, which it was
-- neither before the turn nor after the work on a unit, began with a budget that was not exhausted; and the
-- unit that was picked had an acceptance proposed, every gate open and the budget not exhausted, or no unit
-- was picked and every unit of the DAG was accepted already. In the second case nothing is proposed and no
-- gate is tested.
pub dag_turn-accepted :
    (work : WorkUnit → Turn × Loop) (turn : Turn) (dags : List WorkUnit) (s : Loop)
    → s.run.state ≢ RunState.accepted
    → ((u : WorkUnit) → (work u).1.run.state ≢ RunState.accepted)
    → (run_of (dag_turn work turn dags s)).state ≡ RunState.accepted
    → (is_budget_exhausted s.run ≡ false) × (IsProposed work dags ⊎ IsAllAccepted dags)
unfolding dag_turn
dag_turn-accepted work turn dags s before apart acc =
    let goes_on = on_picked work turn dags s (next_ready_dag dags) in
    elim (Bool-cases (is_budget_exhausted s.run)) [
      | inl spent ↦ absurd (
          fail_budget-Sound ⊥ turn s before (
            subst
              (λ b. (run_of (if b then fail_budget turn s else goes_on)).state ≡ RunState.accepted)
              spent acc))
      | inr left ↦ (
        left,
        picked-accepted work turn dags s (next_ready_dag dags) refl before apart (
            subst
              (λ b. (run_of (if b then fail_budget turn s else goes_on)).state ≡ RunState.accepted)
              left acc),
      )
    ]
