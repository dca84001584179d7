-- ===== src/Engine/Verdict/Accepted.antt =====
-- The runs that drive_factory (crates/wanax-cli/src/engine.rs) leaves accepted after a proposed verdict.
use wanax.Prelude.{
  ◌≡◌, ◌≢◌, inl, inr, refl, sym, ap, ◌∙◌, subst, String, Bool, true, false, ◌&&◌, ◌||◌, Option,
  none, some, List, [], ◌∷◌, arith, Bool-cases, if◌then◌else◌, is_empty, ltb, ◌+◌,
}
use wanax.Core.RunState.{RunState, accepted}
use wanax.Core.VerdictDecision.{VerdictDecision}
use wanax.Core.ErrorCode.{ErrorCode, db}
use wanax.Core.Error
use wanax.Core.Error.{WanaxError, Result, ok, err}
use wanax.Core.Types.{FactoryRun, WorkUnit, max_rework}
use wanax.Core.Accept.{can_accept, enforce_decision, is_accept}
use wanax.Core.Accept.Decision.{IsAcceptable, can_accept-IsAcceptable, accept_needs_gates}
use wanax.Core.Budget.{is_budget_exhausted}
use wanax.Core.Store.Runs.{set_state}
use wanax.Core.Store.Units.{update_work_unit}
use wanax.Core.Store.Kept.{set_state-outcome}
use wanax.Engine.Dag.{contains}
use wanax.Engine.Verdict.{
  Loop, Turn, Flow, next, stop, and_then, set_run, save_unit, fail_budget, fail_run, change_unit,
  change_wave, counted, requeued, accept_unit, accept_arm, reject_arm, escalate_arm, limit_reached,
  rework_wave, rework_unit, rework_arm, reset_answer, arm, record_verdict, settle, decide,
  is_budget,
}

abbrev pub run_of : Flow → FactoryRun
run_of (next s) = s.run
run_of (stop s answer) = s.run

budget_left :
    (decision : VerdictDecision) (remark : Option ErrorCode) {exhausted : Bool}
    → decision ≡ VerdictDecision.accept
    → (is_budget remark || (is_accept decision && exhausted)) ≡ false
    → exhausted ≡ false
budget_left decision remark same h = ground (arith, ap is_accept same)

module _ (G : Type 0) where
  -- A state that is accepted only if `G`.
  abbrev Safe : Loop → Type 0
  Safe s = s.run.state ≡ accepted → G

  abbrev Sound : Flow → Type 0
  Sound f = (run_of f).state ≡ accepted → G

  and_then-Sound :
      (answer : Result {0} Unit) (s : Loop) (k : Loop → Flow)
      → Safe s
      → ((t : Loop) → Safe t → Sound (k t))
      → Sound (and_then answer s k)
  and_then-Sound (err e) s k h later = h
  and_then-Sound (ok tt) s k h later = later s h

  set_run-Sound :
      (turn : Turn) (to : RunState) (last_error : Option String) (s : Loop) (k : Loop → Flow)
      → (to ≡ accepted → G)
      → Safe s
      → ((t : Loop) → Safe t → Sound (k t))
      → Sound (set_run turn to last_error s k)
  unfolding set_run
  set_run-Sound turn to last_error s k target h later =
      let r = set_state turn.now s.runs s.run to last_error in
      and_then-Sound r.2 (record s { runs = r.0; run = r.1 }) k
        (elim (set_state-outcome turn.now s.runs s.run to last_error) [
          | inl moved ↦ λ acc. target (sym moved ∙ acc)
          | inr same ↦ λ acc. h (sym (ap (λ x. x.state) same.0) ∙ acc)
        ])
        later

  save_unit-Sound :
      (turn : Turn) (u : WorkUnit) (s : Loop) (k : Loop → Flow)
      → Safe s
      → ((t : Loop) → Safe t → Sound (k t))
      → Sound (save_unit turn u s k)
  unfolding save_unit
  save_unit-Sound turn u s k h later =
      let r = update_work_unit turn.json u s.units in
      and_then-Sound r.1 (record s { units = r.0 }) k h later

  change_unit-Sound :
      (turn : Turn) (change : WorkUnit → WorkUnit) (s : Loop) (k : Loop → Flow)
      → Safe s
      → ((t : Loop) → Safe t → Sound (k t))
      → Sound (change_unit turn change s k)
  unfolding change_unit
  change_unit-Sound turn change s k h later =
      elim s.unit
        as (λ o. Sound (elim o [
          | none ↦ k s
          | some u ↦ save_unit turn (change u) (record s { unit = some (change u) }) k
        ])) [
          | none ↦ later s h
          | some u ↦ save_unit-Sound turn (change u) (record s { unit = some (change u) }) k h later
        ]

  change_wave-Sound :
      (turn : Turn) (change : WorkUnit → WorkUnit) (ids : List String) (dags : List WorkUnit)
      (s : Loop) (k : List WorkUnit → Loop → Flow)
      → Safe s
      → ((done : List WorkUnit) (t : Loop) → Safe t → Sound (k done t))
      → Sound (change_wave turn change ids dags s k)
  unfolding change_wave
  change_wave-Sound turn change ids [] s k h later = later [] s h
  change_wave-Sound turn change ids (d ∷ dags) s k h later =
      let saved =
        save_unit turn (change d) s
          (λ t. change_wave turn change ids dags t (λ rest. k (change d ∷ rest))) in
      let passed = change_wave turn change ids dags s (λ rest. k (d ∷ rest)) in
      elim (contains ids d.id) as (λ b. Sound (if b then saved else passed)) [
        | true ↦
            save_unit-Sound turn (change d) s
              (λ t. change_wave turn change ids dags t (λ rest. k (change d ∷ rest))) h
              (λ t safe.
                change_wave-Sound turn change ids dags t (λ rest. k (change d ∷ rest)) safe
                  (λ done. later (change d ∷ done)))
        | false ↦
            change_wave-Sound turn change ids dags s (λ rest. k (d ∷ rest)) h
              (λ done. later (d ∷ done))
      ]

  pub fail_budget-Sound : (turn : Turn) (s : Loop) → Safe s → Sound (fail_budget turn s)
  unfolding fail_budget
  fail_budget-Sound turn s h = set_run-Sound turn _ _ s _ (λ e. cc) h (λ t safe. safe)

  pub fail_run-Sound :
      (turn : Turn) (e : WanaxError) (s : Loop) → Safe s → Sound (fail_run turn e s)
  unfolding fail_run
  fail_run-Sound turn e s h = set_run-Sound turn _ _ s _ (λ e. cc) h (λ t safe. safe)

  limit_reached-Sound : (turn : Turn) (s : Loop) → Safe s → Sound (limit_reached turn s)
  unfolding limit_reached
  limit_reached-Sound turn s h = set_run-Sound turn _ _ s _ (λ e. cc) h (λ t safe. safe)

  reject_arm-Sound : (turn : Turn) (s : Loop) → Safe s → Sound (reject_arm turn s)
  unfolding reject_arm
  reject_arm-Sound turn s h = set_run-Sound turn _ _ s _ (λ e. cc) h (λ t safe. safe)

  escalate_arm-Sound : (turn : Turn) (s : Loop) → Safe s → Sound (escalate_arm turn s)
  unfolding escalate_arm
  escalate_arm-Sound turn s h = set_run-Sound turn _ _ s _ (λ e. cc) h (λ t safe. safe)

  rework_unit-Sound :
      (turn : Turn) (s : Loop) (k : Loop → Flow)
      → Safe s
      → ((t : Loop) → Safe t → Sound (k t))
      → Sound (rework_unit turn s k)
  unfolding rework_unit
  rework_unit-Sound turn s k h later =
      let over = λ (u : WorkUnit). limit_reached turn (record s { unit = some (counted u) }) in
      let again =
        λ (u : WorkUnit). save_unit turn (requeued u) (record s { unit = some (requeued u) }) k in
      elim s.unit
        as (λ o. Sound (elim o [
          | none ↦ k s
          | some u ↦ if ltb max_rework (u.rework_count + 1) then over u else again u
        ])) [
          | none ↦ later s h
          | some u ↦
              elim (ltb max_rework (u.rework_count + 1))
                as (λ b. Sound (if b then over u else again u)) [
                  | true ↦ limit_reached-Sound turn (record s { unit = some (counted u) }) h
                  | false ↦
                      save_unit-Sound turn (requeued u) (record s { unit = some (requeued u) }) k h
                        later
                ]
        ]

  rework_wave-Sound :
      (turn : Turn) (s : Loop) (k : Loop → Flow)
      → Safe s
      → ((t : Loop) → Safe t → Sound (k t))
      → Sound (rework_wave turn s k)
  unfolding rework_wave
  rework_wave-Sound turn s k h later =
      let t : Loop = record s { wave_pre_sha = none; wave_rework = s.wave_rework + 1 } in
      let charge = λ (o : Option (List WorkUnit)). elim o as (λ _. Flow) [
        | none ↦ k (record t { wave_ids = [] })
        | some dags ↦
            change_wave turn (λ u. counted u) t.wave_ids dags t
              (λ done u. k (record u { dag_units = some done; wave_ids = [] }))
      ] in
      let rest =
        and_then (reset_answer turn s.wave_pre_sha) s (λ _.
          if ltb max_rework t.wave_rework then limit_reached turn t else charge t.dag_units) in
      elim (is_empty s.wave_ids) as (λ b. Sound (if b then k s else rest)) [
        | true ↦ later s h
        | false ↦ and_then-Sound (reset_answer turn s.wave_pre_sha) s _ h (λ _ _.
            elim (ltb max_rework t.wave_rework)
              as (λ b. Sound (if b then limit_reached turn t else charge t.dag_units)) [
                | true ↦ limit_reached-Sound turn t h
                | false ↦ elim t.dag_units as (λ o. Sound (charge o)) [
                  | none ↦ later (record t { wave_ids = [] }) h
                  | some dags ↦
                      change_wave-Sound turn (λ u. counted u) t.wave_ids dags t _ h
                        (λ done u safe.
                          later (record u { dag_units = some done; wave_ids = [] }) safe)
                ]
              ])
      ]

  rework_arm-Sound : (turn : Turn) (s : Loop) → Safe s → Sound (rework_arm turn s)
  unfolding rework_arm
  rework_arm-Sound turn s h =
      let third = λ (v : Loop). set_run turn RunState.dispatched none v (λ w. next w) in
      let second = λ (u : Loop). set_run turn RunState.rework none u (λ v. third v) in
      rework_wave-Sound turn s (λ t. rework_unit turn t (λ u. second u)) h
        (λ t ht.
          rework_unit-Sound turn t (λ u. second u) ht
            (λ u hu.
              set_run-Sound turn RunState.rework none u (λ v. third v) (λ e. cc) hu
                (λ v hv.
                  set_run-Sound turn RunState.dispatched none v (λ w. next w) (λ e. cc) hv
                    (λ w safe. safe))))

  accept_arm-Sound :
      (turn : Turn) (s : Loop)
      → (can_accept turn.gates ≡ true → G)
      → Safe s
      → Sound (accept_arm turn s)
  unfolding accept_arm
  accept_arm-Sound turn s opened h =
      let e = Error.new db "accept gates failed after enforce" in
      elim (Bool-cases (can_accept turn.gates)) [
        | inl through ↦ λ _. opened through
        | inr shut ↦
            subst (λ b. Sound (if b then accept_unit turn s else fail_run turn e s)) (sym shut)
              (fail_run-Sound turn e s h)
      ]

  change_after :
      (turn : Turn) (s : Loop) (k : Loop → Flow)
      → Safe s
      → ((t : Loop) → Safe t → Sound (k t))
      → Sound (record_verdict turn s k)
  unfolding record_verdict
  change_after turn s k h later =
      and_then-Sound turn.recorded s _ h (λ t ht. change_unit-Sound turn _ t k ht later)

  arm-Sound :
      (turn : Turn) (decision : VerdictDecision) (s : Loop)
      → (decision ≡ VerdictDecision.accept → can_accept turn.gates ≡ true → G)
      → Safe s
      → Sound (arm decision turn s)
  unfolding arm
  arm-Sound turn VerdictDecision.accept s opened h = accept_arm-Sound turn s (opened refl) h
  arm-Sound turn VerdictDecision.reject s opened h = reject_arm-Sound turn s h
  arm-Sound turn VerdictDecision.rework s opened h = rework_arm-Sound turn s h
  arm-Sound turn VerdictDecision.escalate s opened h = escalate_arm-Sound turn s h

  settle-Sound :
      (turn : Turn) (decision : VerdictDecision) (remark : Option ErrorCode) (s : Loop)
      → (decision ≡ VerdictDecision.accept
          → is_budget_exhausted s.run ≡ false
          → can_accept turn.gates ≡ true
          → G)
      → Safe s
      → Sound (settle (decision, remark) turn s)
  unfolding settle
  settle-Sound turn decision remark s opened h =
      let over = fail_budget turn s in
      let goes_on = record_verdict turn s (λ t. arm decision turn t) in
      elim (Bool-cases (is_budget remark || (is_accept decision && is_budget_exhausted s.run))) [
        | inl spent ↦
            subst (λ b. Sound (if b then over else goes_on)) (sym spent)
              (fail_budget-Sound turn s h)
        | inr left ↦
            subst (λ b. Sound (if b then over else goes_on)) (sym left)
              (change_after turn s (λ t. arm decision turn t) h
                (λ t ht.
                  arm-Sound turn decision t
                    (λ same through. opened same (budget_left decision remark same left) through)
                    ht))
      ]

-- When the handling of a proposed verdict leaves the run accepted, which it was not before: an acceptance was proposed,
-- every gate was open, and the run's own budget was not exhausted.
pub decide-accepted :
    (turn : Turn) (s : Loop)
    → s.run.state ≢ accepted
    → (run_of (decide turn s)).state ≡ accepted
    → (turn.proposed ≡ VerdictDecision.accept)
      × IsAcceptable turn.gates
      × (is_budget_exhausted s.run ≡ false)
unfolding decide
decide-accepted turn s before =
    settle-Sound _ turn (enforce_decision turn.proposed turn.gates).0
      (enforce_decision turn.proposed turn.gates).1 s
      (λ same left through. (
        (accept_needs_gates turn.proposed turn.gates same).0,
        can_accept-IsAcceptable turn.gates through,
        left,
      ))
      (λ acc. absurd (before acc))
