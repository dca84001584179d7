-- ===== src/Engine/Seeding/Replayed.antt =====
-- The event unit_seeded of seed_dag_units (crates/wanax-cli/src/engine.rs) carries the unit to a replay
-- (crates/wanax-cli/src/replay.rs).
use wanax.Prelude.{
  ◌≡◌, refl, sym, ap, ◌∙◌, ℕ, ◌<◌, ◌^◌, String, Option, none, some, List, [], ◌∷◌, ◌++◌, eq_refl,
  if◌then◌else◌, arith,
}
use wanax.Prelude.Map.{get?}
use wanax.Core.AssigneeRole
use wanax.Core.AssigneeRole.{goal}
use wanax.Core.Types.{WorkUnit}
use wanax.Core.WorkUnitState.{queued}
use wanax.Tombstone.{Values, unit_seeded, TombstoneEvent}
use wanax.Replay.{
  Replay, start, blank_unit, apply_unit_fields, written, replay_event, replay_events, seed_unit,
}
use wanax.Replay.Index.{unit_of}
use wanax.Replay.Json.{or_else, unwrap_or, set_some, put_some, strings, as_u32}
use wanax.Replay.Refined.{seed-Refines, replay-Refines}
use wanax.Replay.Units.{map_events, blank_map, new_unit}
use wanax.Engine.Seeding.{Field, text, number, texts, text_or_null, texts_or_null, seed_fields}

abbrev pub text_in : Option Field → Option String
text_in (some (text s)) = some s
text_in _ = none

abbrev pub number_in : Option Field → Option ℕ
number_in (some (number n)) = some n
number_in _ = none

abbrev pub texts_in : Option Field → Option (List String)
texts_in (some (texts ss)) = some ss
texts_in _ = none

-- An object that `json!` builds is read back member by member.
pub record IsBuilder (J : Values) (json : List (String × Field) → J.Value) : Type 0 where
  pub str :
      (fields : List (String × Field)) (key : String)
      → J.as_str (J.field (json fields) key) ≡ text_in (get? key fields)
  pub u64 :
      (fields : List (String × Field)) (key : String)
      → J.as_u64 (J.field (json fields) key) ≡ number_in (get? key fields)
  pub array :
      (fields : List (String × Field)) (key : String)
      → set_some (strings J) (J.as_array (J.field (json fields) key)) ≡ texts_in (get? key fields)

-- A unit as `seed_dag_units` makes them: queued, without a parent, and not worked on.
pub record IsNew (u : WorkUnit) : Type 0 where
  pub state : u.state ≡ queued
  pub seq : u.seq < 2 ^ 32
  pub parent : u.parent_id ≡ none
  pub reworks : u.rework_count ≡ 0
  pub commit : u.inner_commit_sha ≡ none
  pub receipt : u.receipt_id ≡ none
  pub verdict : u.verdict_id ≡ none

text_back : (o : Option String) → or_else (text_in (some (text_or_null o))) none ≡ o
text_back none = refl
text_back (some s) = refl

texts_back : (o : Option (List String)) → or_else (texts_in (some (texts_or_null o))) none ≡ o
texts_back none = refl
texts_back (some ss) = refl

module _ (J : Values) (json : List (String × Field) → J.Value) (builds : IsBuilder J json) where
  written-seed :
      (u : WorkUnit)
      → IsNew u
      → written J (json (seed_fields u)) queued (new_unit J u.run_id u.id) ≡ u
  unfolding written apply_unit_fields blank_unit seed_fields as_u32
  written-seed u new =
      let f = seed_fields u in
      let id = ap (unwrap_or u.id) (builds.str f "work_unit_id") in
      let seq : unwrap_or 0 (as_u32 (J.as_u64 (J.field (json f) "seq"))) ≡ u.seq =
        ap (λ o. unwrap_or 0 (as_u32 o)) (builds.u64 f "seq")
        ∙ (let small = new.seq in ground arith) in
      let title = ap (unwrap_or "") (builds.str f "title") in
      let instruction = ap (unwrap_or "") (builds.str f "instruction") in
      let role =
        ap (λ o. unwrap_or goal (put_some AssigneeRole.parse o)) (builds.str f "role")
        ∙ ap (unwrap_or goal) (AssigneeRole.parse-as_str u.assignee_role) in
      let key = ap (λ o. or_else o none) (builds.str f "local_key") ∙ text_back u.local_key in
      let globs =
        ap (λ o. or_else o none) (builds.array f "allowed_globs") ∙ texts_back u.allowed_globs in
      let deps = ap (unwrap_or []) (builds.array f "depends_on") in
      let command =
        ap (λ o. or_else o none) (builds.str f "test_command") ∙ text_back u.test_command in
      let parent = ap (λ o. or_else o none) (builds.str f "parent_id") ∙ sym new.parent in
      λ i. record {
        id = id i;
        run_id = u.run_id;
        seq = seq i;
        title = title i;
        instruction = instruction i;
        state = sym new.state i;
        assignee_role = role i;
        parent_id = parent i;
        allowed_globs = globs i;
        depends_on = deps i;
        test_command = command i;
        local_key = key i;
        rework_count = sym new.reworks i;
        inner_commit_sha = sym new.commit i;
        receipt_id = sym new.receipt i;
        verdict_id = sym new.verdict i;
      }

  replay_events-append :
      (run_id : String) (xs ys : List (TombstoneEvent J.Value)) (s : Replay)
      → replay_events J run_id (xs ++ ys) s
        ≡ replay_events J run_id ys (replay_events J run_id xs s)
  unfolding replay_events
  replay_events-append run_id [] ys s = refl
  replay_events-append run_id (e ∷ xs) ys s =
      replay_events-append run_id xs ys (replay_event J run_id e.kind e.payload s)

  seed_step :
      (events : List (TombstoneEvent J.Value)) (u : WorkUnit)
      → IsNew u
      → unit_of u.id (replay_events J u.run_id events start).units ≡ none
      → unit_of u.id
          (replay_event J u.run_id unit_seeded
            (json (seed_fields u))
            (replay_events J u.run_id events start)).units
        ≡ some u
  unfolding replay_event seed_fields
  seed_step events u new absent =
      let p = json (seed_fields u) in
      let before = replay_events J u.run_id events start in
      let map = map_events J u.run_id events blank_map in
      let refines = replay-Refines J u.run_id events in
      let named : J.as_str (J.field p "work_unit_id") ≡ some u.id =
        builds.str (seed_fields u) "work_unit_id" in
      let after = seed-Refines J u.run_id p (some u.id) before map named refines in
      let fresh : map.unit u.id ≡ none = sym (refines.same_unit u.id) ∙ absent in
      ap (λ o. unit_of u.id (seed_unit J u.run_id p o before).units) named
      ∙ after.same_unit u.id
      ∙ ap
          (λ b.
            if b
            then some (written J p queued (unwrap_or (new_unit J u.run_id u.id) (map.unit u.id)))
            else map.unit u.id)
          (eq_refl u.id)
      ∙ ap (λ o. some (written J p queued (unwrap_or (new_unit J u.run_id u.id) o))) fresh
      ∙ ap some (written-seed u new)

  -- A new unit whose event follows any events that say nothing of its id is in the replay as it was made.
  pub seeded_replay :
      (events : List (TombstoneEvent J.Value)) (e : TombstoneEvent J.Value) (u : WorkUnit)
      → IsNew u
      → e.kind ≡ unit_seeded
      → e.payload ≡ json (seed_fields u)
      → unit_of u.id (replay_events J u.run_id events start).units ≡ none
      → unit_of u.id (replay_events J u.run_id (events ++ e ∷ []) start).units ≡ some u
  unfolding replay_events seed_fields
  seeded_replay events e u new kind payload absent =
      let before = replay_events J u.run_id events start in
      ap (λ (t : Replay). unit_of u.id t.units)
        (replay_events-append u.run_id events (e ∷ []) start)
      ∙ ap (λ k. unit_of u.id (replay_event J u.run_id k e.payload before).units) kind
      ∙ ap (λ p. unit_of u.id (replay_event J u.run_id unit_seeded p before).units) payload
      ∙ seed_step events u new absent
