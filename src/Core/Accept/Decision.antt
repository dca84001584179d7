-- ===== src/Core/Accept/Decision.antt =====
-- The decisions that the enforcement of crates/wanax-core/src/accept.rs lets through.
use wanax.Prelude.{
  ◌<◌, ◌≤◌, ◌≡◌, ◌≢◌, ◌↔◌, ◌⊎◌, inl, inr, true, false, none, some, arith, eq_iff, ltb,
  if◌then◌else◌,
}
use wanax.Prelude.Int.{pos, eq_ℤ_iff}
use wanax.Core.VerdictDecision.{VerdictDecision, accept, reject, rework, escalate}
use wanax.Core.ErrorCode.{budget, accept_override, rework_limit}
use wanax.Core.Types.{max_rework}
use wanax.Core.Accept.{AcceptGates, can_accept, enforce_decision, is_green}

-- What an acceptance rests on.
pub record IsAcceptable (g : AcceptGates) : Type 0 where
  pub green : g.outer_test_exit_code ≡ pos 0
  pub within : g.boundary_ok ≡ true
  pub same_command : g.receipt_test_command ≡ g.contract_test_command
  pub descendant : g.inner_is_descendant ≡ true
  pub changes : g.changed_files_nonempty ≡ true
  pub budget_left : g.budget_exhausted ≡ false
  pub reworks : g.rework_count ≤ max_rework
  pub plugin : g.plugin_ok ≡ true
  pub bound_tests : g.bound_tests_ok ≡ true
  pub secrets : g.secrets_ok ≡ true
  pub must_have : g.must_have_ok ≡ true

pub can_accept-IsAcceptable : (g : AcceptGates) → can_accept g ≡ true → IsAcceptable g
unfolding can_accept
can_accept-IsAcceptable g h = ground (
  arith,
  eq_ℤ_iff g.outer_test_exit_code (pos 0),
  eq_iff g.receipt_test_command g.contract_test_command,
)

IsAcceptable-can_accept : (g : AcceptGates) → IsAcceptable g → can_accept g ≡ true
unfolding can_accept
IsAcceptable-can_accept g h = ground (
  arith,
  eq_ℤ_iff g.outer_test_exit_code (pos 0),
  eq_iff g.receipt_test_command g.contract_test_command,
)

accept_gates :
    (p : VerdictDecision) (g : AcceptGates)
    → (enforce_decision p g).0 ≡ accept
    → (p ≡ accept)
      × (is_green g ≡ true)
      × ((can_accept g ≡ true)
          ⊎ ((g.budget_exhausted ≡ true) × ((enforce_decision p g).1 ≡ some budget)))
unfolding enforce_decision
accept_gates p g h = ground arith

accepted_gates : (g : AcceptGates) → enforce_decision accept g ≡ (accept, none) → IsAcceptable g
unfolding enforce_decision
accepted_gates g h = can_accept-IsAcceptable g (ground arith)

open_gates : (g : AcceptGates) → IsAcceptable g → enforce_decision accept g ≡ (accept, none)
unfolding enforce_decision
open_gates g h =
    ground (arith, IsAcceptable-can_accept g h, eq_ℤ_iff g.outer_test_exit_code (pos 0))

-- A proposed accept stands, with no note, exactly when every gate is open.
pub enforce_accept_iff :
    (g : AcceptGates) → (enforce_decision accept g ≡ (accept, none)) ↔ IsAcceptable g
enforce_accept_iff g = (accepted_gates g, λ h. open_gates g h)

-- Whatever is proposed, an acceptance was proposed and every gate is open; or the budget is
-- exhausted, the outer test is green, and the note says so.
pub accept_needs_gates :
    (p : VerdictDecision) (g : AcceptGates)
    → (enforce_decision p g).0 ≡ accept
    → (p ≡ accept)
      × (IsAcceptable g
          ⊎ ((g.budget_exhausted ≡ true)
              × (g.outer_test_exit_code ≡ pos 0)
              × ((enforce_decision p g).1 ≡ some budget)))
accept_needs_gates p g h =
    let (proposed, green, why) = accept_gates p g h in
    (
      proposed,
      elim why [
        | inl both ↦ inl (can_accept-IsAcceptable g both)
        | inr spent ↦ inr (spent.0, (eq_ℤ_iff g.outer_test_exit_code (pos 0)).0 green, spent.1)
      ],
    )

-- A rework is granted only while fewer than `max_rework` have been counted.
rework-lt-max :
    (p : VerdictDecision) (g : AcceptGates)
    → (enforce_decision p g).0 ≡ rework
    → g.rework_count < max_rework
unfolding enforce_decision
rework-lt-max p g h = ground arith

-- A proposal to reject or to escalate is never softened, and gets no note.
strict_kept :
    (p : VerdictDecision) (g : AcceptGates)
    → (p ≡ reject) ⊎ (p ≡ escalate)
    → enforce_decision p g ≡ (p, none)
unfolding enforce_decision
strict_kept p g h = ground arith

-- Over a red outer test a proposed accept is a rework with the override noted, and at the limit of
-- reworks an escalation.
pub red_accept :
    (g : AcceptGates)
    → g.outer_test_exit_code ≢ pos 0
    → enforce_decision accept g ≡ (
        if ltb g.rework_count max_rework
        then (rework, some accept_override)
        else (escalate, some rework_limit))
unfolding enforce_decision
red_accept g red = ground (arith, eq_ℤ_iff g.outer_test_exit_code (pos 0))

-- The gates that no rework can open: a file out of bounds, a leaked secret, no change at all, another
-- test command than the contract's, or a commit that does not descend from the base.
abbrev pub IsHardFailure : AcceptGates → Type 0
IsHardFailure g =
    (g.boundary_ok ≡ false)
    ⊎ (g.secrets_ok ≡ false)
    ⊎ (g.changed_files_nonempty ≡ false)
    ⊎ (g.receipt_test_command ≢ g.contract_test_command)
    ⊎ (g.inner_is_descendant ≡ false)

hard_failure_rejects :
    (g : AcceptGates)
    → g.outer_test_exit_code ≡ pos 0
    → g.budget_exhausted ≡ false
    → IsHardFailure g
    → (enforce_decision accept g).0 ≡ reject
unfolding enforce_decision can_accept
hard_failure_rejects g green left h = ground (
  arith,
  eq_ℤ_iff g.outer_test_exit_code (pos 0),
  eq_iff g.receipt_test_command g.contract_test_command,
)

reject-IsHardFailure : (g : AcceptGates) → (enforce_decision accept g).0 ≡ reject → IsHardFailure g
unfolding enforce_decision
reject-IsHardFailure g h = ground (arith, eq_iff g.receipt_test_command g.contract_test_command)

-- With a green outer test and budget left, a proposed accept becomes a rejection exactly on a hard
-- failure: what a rework could mend is never rejected.
pub reject_iff_IsHardFailure :
    (g : AcceptGates)
    → g.outer_test_exit_code ≡ pos 0
    → g.budget_exhausted ≡ false
    → ((enforce_decision accept g).0 ≡ reject) ↔ IsHardFailure g
reject_iff_IsHardFailure g green left =
    (λ h. reject-IsHardFailure g h, λ h. hard_failure_rejects g green left h)
