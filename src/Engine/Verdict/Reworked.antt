-- ===== src/Engine/Verdict/Reworked.antt =====
-- What a rework leaves in the loop of drive_factory (engine.rs), when the turn was not a wave.
use wanax.Prelude.{
  ◌≡◌, ◌≤◌, refl, String, Option, none, some, List, [], arith, Bool-cases, inl, inr, sym, subst,
  if◌then◌else◌, ltb, ◌+◌,
}
use wanax.Core.RunState.{RunState}
use wanax.Core.Error.{Result, ok, err}
use wanax.Core.Types.{WorkUnit, max_rework}
use wanax.Core.Store.Runs.{set_state}
use wanax.Core.Store.Units.{update_work_unit}
use wanax.Engine.Verdict.{
  Loop, Turn, Flow, next, stop, and_then, set_run, save_unit, counted, requeued, limit_reached,
  rework_wave, rework_unit, rework_arm,
}

-- What holds of the loop, if it goes on.
abbrev pub OnNext : (Loop → Type 0) → Flow → Type 0
OnNext P (next s) = P s
OnNext P (stop s answer) = Unit

-- The unit, the units of the DAG and the ids of the wave.
record IsLeft (unit : Option WorkUnit) (dags : Option (List WorkUnit)) (s : Loop) : Type 0 where
  same_unit : s.unit ≡ unit
  same_dags : s.dag_units ≡ dags

and_then-OnNext :
    (P Q : Loop → Type 0) (answer : Result {0} Unit) (s : Loop) (k : Loop → Flow)
    → Q s
    → ((t : Loop) → Q t → OnNext P (k t))
    → OnNext P (and_then answer s k)
and_then-OnNext P Q (err e) s k h later = tt
and_then-OnNext P Q (ok tt) s k h later = later s h

module _ (P : Loop → Type 0) (unit : Option WorkUnit) (dags : Option (List WorkUnit)) where
  set_run-OnNext :
      (turn : Turn) (to : RunState) (last_error : Option String) (s : Loop) (k : Loop → Flow)
      → IsLeft unit dags s
      → ((t : Loop) → IsLeft unit dags t → OnNext P (k t))
      → OnNext P (set_run turn to last_error s k)
  unfolding set_run
  set_run-OnNext turn to last_error s k h later =
      let r = set_state turn.now s.runs s.run to last_error in
      and_then-OnNext P (IsLeft unit dags) r.2 (record s { runs = r.0; run = r.1 }) k
        (record { same_unit = h.same_unit; same_dags = h.same_dags }) later

  save_unit-OnNext :
      (turn : Turn) (u : WorkUnit) (s : Loop) (k : Loop → Flow)
      → IsLeft unit dags s
      → ((t : Loop) → IsLeft unit dags t → OnNext P (k t))
      → OnNext P (save_unit turn u s k)
  unfolding save_unit
  save_unit-OnNext turn u s k h later =
      let r = update_work_unit turn.json u s.units in
      and_then-OnNext P (IsLeft unit dags) r.1 (record s { units = r.0 }) k
        (record { same_unit = h.same_unit; same_dags = h.same_dags }) later

limit_reached-OnNext :
    (P : Loop → Type 0) (turn : Turn) (s : Loop) → OnNext P (limit_reached turn s)
unfolding limit_reached
limit_reached-OnNext P turn s =
    set_run-OnNext P s.unit s.dag_units turn _ _ s _ (record { same_unit = refl; same_dags = refl })
      (λ t _. tt)

-- What is left of a unit that is sent back.
abbrev pub IsRequeued : WorkUnit → Option (List WorkUnit) → Loop → Type 0
IsRequeued u dags t =
    (t.unit ≡ some (requeued u)) × (u.rework_count + 1 ≤ max_rework) × (t.dag_units ≡ dags)

rework_unit-OnNext :
    (turn : Turn) (s : Loop) (u : WorkUnit) (k : Loop → Flow)
    → s.unit ≡ some u
    → ((t : Loop) → IsRequeued u s.dag_units t → OnNext (IsRequeued u s.dag_units) (k t))
    → OnNext (IsRequeued u s.dag_units) (rework_unit turn s k)
unfolding rework_unit
rework_unit-OnNext turn s u k here later =
    let over = λ (v : WorkUnit). limit_reached turn (record s { unit = some (counted v) }) in
    let again =
      λ (v : WorkUnit). save_unit turn (requeued v) (record s { unit = some (requeued v) }) k in
    subst
      (λ o. OnNext (IsRequeued u s.dag_units) (elim o [
        | none ↦ k s
        | some v ↦ if ltb max_rework (v.rework_count + 1) then over v else again v
      ]))
      (sym here)
      (elim (Bool-cases (ltb max_rework (u.rework_count + 1))) [
        | inl beyond ↦
            subst (λ b. OnNext (IsRequeued u s.dag_units) (if b then over u else again u))
              (sym beyond)
              (limit_reached-OnNext (IsRequeued u s.dag_units) turn
                (record s { unit = some (counted u) }))
        | inr within ↦
            subst (λ b. OnNext (IsRequeued u s.dag_units) (if b then over u else again u))
              (sym within)
              (save_unit-OnNext (IsRequeued u s.dag_units) (some (requeued u)) s.dag_units turn
                (requeued u) (record s { unit = some (requeued u) }) k
                (record { same_unit = refl; same_dags = refl })
                (λ t h. later t (h.same_unit, ground arith, h.same_dags)))
      ])

no_wave_rework :
    (turn : Turn) (s : Loop) (k : Loop → Flow) → s.wave_ids ≡ [] → rework_wave turn s k ≡ k s
unfolding rework_wave
no_wave_rework turn s k h = rw h refl

-- After a rework of a turn without a wave, if the loop goes on, the loop's unit is queued with one more
-- rework counted, at most `max_rework` in all; but the units of the DAG are as they were, with the count
-- that they had.
pub rework-IsRequeued :
    (turn : Turn) (s : Loop) (u : WorkUnit)
    → s.wave_ids ≡ []
    → s.unit ≡ some u
    → OnNext (IsRequeued u s.dag_units) (rework_arm turn s)
unfolding rework_arm
rework-IsRequeued turn s u no_wave here =
    let third = λ (v : Loop). set_run turn RunState.dispatched none v (λ w. next w) in
    let second = λ (t : Loop). set_run turn RunState.rework none t (λ v. third v) in
    let P : Loop → Type 0 = IsRequeued u s.dag_units in
    subst (OnNext P) (sym (no_wave_rework turn s (λ t. rework_unit turn t (λ v. second v)) no_wave))
      (rework_unit-OnNext turn s u (λ t. second t) here
        (λ t left.
          set_run-OnNext P (some (requeued u)) s.dag_units turn RunState.rework none t
            (λ v. third v) (record { same_unit = left.0; same_dags = left.2 })
            (λ v hv.
              set_run-OnNext P (some (requeued u)) s.dag_units turn RunState.dispatched none v
                (λ w. next w) hv (λ w hw. (hw.same_unit, left.1, hw.same_dags)))))
