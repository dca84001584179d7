-- ===== src/Replay/Refined.antt =====
-- The events of envelope_snapshot (crates/wanax-cli/src/replay.rs), each against its effect on maps.
use wanax.Prelude.{
  ◌≡◌, inl, inr, refl, sym, ap, ◌∙◌, subst, ℕ, String, true, Option, none, some, List, [], ◌∷◌,
  eq_iff, arith, Option-cases,
}
use wanax.Prelude.Map.{get?, get_or, get?-insert, get_or-insert}
use wanax.Core.Types.{WorkUnit}
use wanax.Core.WorkUnitState.{WorkUnitState, queued, implementing}
use wanax.Tombstone.{
  Values, EventKind, unit_seeded, unit_dispatched, receipt_submitted, verdict, TombstoneEvent,
}
use wanax.Replay.{
  Replay, ReceiptStub, start, written, upsert_at, seed_unit, add_covers, note_dispatch,
  dispatch_unit, stub_of, with_receipt, modify_at, submit_receipt, decided, apply_verdict_to,
  apply_verdicts, verdict_on, replay_event, replay_events,
}
use wanax.Replay.Json.{or_else, unwrap_or, set_some, strings}
use wanax.Replay.Index.{
  index_of, unit_of, IsIndexed, KeepsId, index_of-modify, unit_of-modify, unit_of-absent,
}
use wanax.Replay.Units.{
  RunMap, blank_map, set_at, decide_unit, decide_units, cover, new_unit, put_unit, seed_map,
  dispatch_map, submit_map, verdict_map, map_event, map_events, Refines,
}
use wanax.Replay.Upserted.{IsUpserted, put_in, upsert_at-IsUpserted}

-- The units of a list after those with an id are changed.
pub record IsChanged (id : String) (f : WorkUnit → WorkUnit) (before after : List WorkUnit)
    : Type 0 where
  pub same_index : (j : String) → index_of j after ≡ index_of j before
  pub changed :
      (j : String)
      → unit_of j after ≡ set_at id (set_some f (unit_of id before)) (λ k. unit_of k before) j

modify_at-IsChanged :
    (id : String) (f : WorkUnit → WorkUnit) (units : List WorkUnit)
    → KeepsId id f
    → IsChanged id f units (modify_at (index_of id units) f units)
unfolding modify_at
modify_at-IsChanged id f units keeps = elim (Option-cases (index_of id units)) [
  | inl e ↦
      subst (λ o. IsChanged id f units (modify_at o f units)) (sym e)
        record {
          same_index = λ j. refl;
          changed = λ j. ground (arith, unit_of-absent id units e, eq_iff j id);
        }
  | inr (i, e) ↦
      subst (λ o. IsChanged id f units (modify_at o f units)) (sym e)
        record {
          same_index = λ j. index_of-modify id f keeps j units i e;
          changed = λ j. ground (arith, unit_of-modify id f keeps j units i e, eq_iff j id);
        }
]

-- A change of the unit that the map finds.
module _ (id : String) (f : WorkUnit → WorkUnit) (s : Replay) where
  index-modify_at :
      IsIndexed s.units s.by_id
      → KeepsId id f
      → IsIndexed (modify_at (get? id s.by_id) f s.units) s.by_id
  index-modify_at indexed keeps j =
      indexed j
      ∙ sym (
          ap (λ o. index_of j (modify_at o f s.units)) (indexed id)
          ∙ (modify_at-IsChanged id f s.units keeps).same_index j)

  unit-modify_at :
      (a : RunMap)
      → Refines s a
      → KeepsId id f
      → (j : String)
      → unit_of j (modify_at (get? id s.by_id) f s.units)
        ≡ set_at id (set_some f (a.unit id)) a.unit j
  unit-modify_at a r keeps j =
      let changed = (modify_at-IsChanged id f s.units keeps).changed j in
      let same_id = r.same_unit id in
      let same_j = r.same_unit j in
      ap (λ o. unit_of j (modify_at o f s.units)) (r.indexed id) ∙ changed ∙ ground arith

decided-KeepsId : (decision id : String) → KeepsId id (decided decision)
unfolding decided
decided-KeepsId decision id u e = ground arith

with_receipt-KeepsId : (stub : ReceiptStub) (id : String) → KeepsId id (with_receipt stub)
unfolding with_receipt
with_receipt-KeepsId stub id u e = e

apply_verdicts-Refines :
    (decision : String) (ids : List String) (s : Replay) (a : RunMap)
    → Refines s a
    → Refines (apply_verdicts decision ids s) (decide_units decision ids a)
unfolding apply_verdicts apply_verdict_to
apply_verdicts-Refines decision [] s a r = r
apply_verdicts-Refines decision (id ∷ ids) s a r =
    let keeps = decided-KeepsId decision id in
    apply_verdicts-Refines decision ids (apply_verdict_to decision id s) (decide_unit decision id a)
      record {
        indexed = λ j. index-modify_at id (decided decision) s r.indexed keeps j;
        same_unit = λ j. unit-modify_at id (decided decision) s a r keeps j;
        same_receipt = r.same_receipt;
        same_covered = r.same_covered;
        same_dispatched = r.same_dispatched;
        same_receipt_unit = r.same_receipt_unit;
        same_saw = r.same_saw;
      }

submit-Refines :
    (J : Values) (run_id : String) (p : J.Value) (o : Option String) (s : Replay) (a : RunMap)
    → Refines s a
    → Refines (submit_receipt J p o s) (submit_map J run_id p o a)
unfolding submit_receipt
submit-Refines J run_id p none s a r = r
submit-Refines J run_id p (some id) s a r =
    let keeps : KeepsId id (with_receipt (stub_of J p id)) =
      with_receipt-KeepsId (stub_of J p id) id in
    record {
      indexed = λ j. index-modify_at id (with_receipt (stub_of J p id)) s r.indexed keeps j;
      same_unit = λ j. unit-modify_at id (with_receipt (stub_of J p id)) s a r keeps j;
      same_receipt = λ j.
          let same = r.same_receipt j in
          ground (arith, get?-insert j id (stub_of J p id) s.receipts);
      same_covered = r.same_covered;
      same_dispatched = r.same_dispatched;
      same_receipt_unit = refl;
      same_saw = r.same_saw;
    }

verdict-Refines :
    (J : Values) (run_id : String) (p : J.Value) (o : Option String) (s : Replay) (a : RunMap)
    → Refines s a
    → Refines (verdict_on J p o s) (verdict_map J run_id p o a)
unfolding verdict_on
verdict-Refines J run_id p none s a r = r
verdict-Refines J run_id p (some id) s a r =
    let decision = unwrap_or "" (J.as_str (J.field p "decision")) in
    rw (r.same_covered id) (apply_verdicts-Refines decision (id ∷ a.covered id) s a r)

add_covers-Refines :
    (id : String) (o : Option (List String)) (s : Replay) (a : RunMap)
    → Refines s a
    → Refines (add_covers id o s) (cover id o a)
unfolding add_covers
add_covers-Refines id none s a r = r
add_covers-Refines id (some covered) s a r = record {
  indexed = r.indexed;
  same_unit = r.same_unit;
  same_receipt = r.same_receipt;
  same_covered =
      λ j. let same = r.same_covered j in ground (arith, get_or-insert [] j id covered s.covers);
  same_dispatched = r.same_dispatched;
  same_receipt_unit = r.same_receipt_unit;
  same_saw = r.same_saw;
}

module _ (J : Values) (run_id : String) (p : J.Value) where
  -- The unit of `upsert` is that of the map.
  upserted-Refines :
      (state : WorkUnitState) (id : String) (last : Option String) (s : Replay) (a : RunMap)
      (r : Replay × ℕ)
      → Refines s a
      → IsUpserted id (put_in J run_id p state id s.units) s r
      → Refines
          (record r.0 { saw_units = true; last_dispatched = last })
          (record (put_unit J run_id p state id a) { last_dispatched = last })
  upserted-Refines state id last s a r h u = record {
    indexed = u.indexed;
    same_unit = λ j.
        u.unit j
        ∙ ap
            (λ o.
              set_at id (some (written J p state (unwrap_or (new_unit J run_id id) o)))
                (λ k. unit_of k s.units) j)
            (h.same_unit id)
        ∙ (let same = h.same_unit j in ground arith);
    same_receipt = λ j. ap (get? j) u.same_receipts ∙ h.same_receipt j;
    same_covered = λ j. ap (get_or [] j) u.same_covers ∙ h.same_covered j;
    same_dispatched = refl;
    same_receipt_unit = u.same_last ∙ h.same_receipt_unit;
    same_saw = refl;
  }

  pub seed-Refines :
      (o : Option String) (s : Replay) (a : RunMap)
      → J.as_str (J.field p "work_unit_id") ≡ o
      → Refines s a
      → Refines (seed_unit J run_id p o s) (seed_map J run_id p o a)
  unfolding seed_unit
  seed-Refines none s a e r = r
  seed-Refines (some id) s a e r =
      let u = upsert_at-IsUpserted J run_id p queued id e s r.indexed in
      let done =
        upserted-Refines queued id a.last_dispatched s a
          (upsert_at J run_id p queued id (get? id s.by_id) s) r u in
      record {
        indexed = done.indexed;
        same_unit = done.same_unit;
        same_receipt = done.same_receipt;
        same_covered = done.same_covered;
        same_dispatched = u.same_dispatched ∙ r.same_dispatched;
        same_receipt_unit = done.same_receipt_unit;
        same_saw = refl;
      }

  dispatch-Refines :
      (o : Option String) (s : Replay) (a : RunMap)
      → J.as_str (J.field p "work_unit_id") ≡ o
      → Refines s a
      → Refines (dispatch_unit J run_id p o s) (dispatch_map J run_id p o a)
  unfolding dispatch_unit note_dispatch
  dispatch-Refines none s a e r = r
  dispatch-Refines (some id) s a e r =
      let after = upsert_at J run_id p implementing id (get? id s.by_id) s in
      let u = upsert_at-IsUpserted J run_id p implementing id e s r.indexed in
      rw u.named (
        add_covers-Refines id (set_some (strings J) (J.as_array (J.field p "covers")))
          (record after.0 { saw_units = true; last_dispatched = some id })
          (record (put_unit J run_id p implementing id a) { last_dispatched = some id })
          (upserted-Refines implementing id (some id) s a after r u))

  event-Refines :
      (kind : EventKind) (s : Replay) (a : RunMap)
      → Refines s a
      → Refines (replay_event J run_id kind p s) (map_event J run_id kind p a)
  unfolding replay_event
  event-Refines unit_seeded s a r = seed-Refines (J.as_str (J.field p "work_unit_id")) s a refl r
  event-Refines unit_dispatched s a r =
      dispatch-Refines (J.as_str (J.field p "work_unit_id")) s a refl r
  event-Refines receipt_submitted s a r =
      let named = J.as_str (J.field p "work_unit_id") in
      subst
        (λ last.
          Refines (submit_receipt J p (or_else named s.last_dispatched) s)
            (submit_map J run_id p (or_else named last) a))
        r.same_dispatched (submit-Refines J run_id p (or_else named s.last_dispatched) s a r)
  event-Refines verdict s a r =
      let named = J.as_str (J.field p "work_unit_id") in
      subst
        (λ last.
          Refines (verdict_on J p (or_else named s.last_receipt_unit) s)
            (verdict_map J run_id p (or_else named last) a))
        r.same_receipt_unit (verdict-Refines J run_id p (or_else named s.last_receipt_unit) s a r)
  event-Refines _ s a r = r

module _ (J : Values) (run_id : String) where
  events-Refines :
      (events : List (TombstoneEvent J.Value)) (s : Replay) (a : RunMap)
      → Refines s a
      → Refines (replay_events J run_id events s) (map_events J run_id events a)
  unfolding replay_events
  events-Refines [] s a r = r
  events-Refines (e ∷ events) s a r =
      events-Refines events (replay_event J run_id e.kind e.payload s)
        (map_event J run_id e.kind e.payload a) (event-Refines J run_id e.payload e.kind s a r)

  -- Whatever the events, the replay has the units, the receipts and the rest that the events make of
  -- empty maps, and its index has the place of every unit in the list.
  pub replay-Refines :
      (events : List (TombstoneEvent J.Value))
      → Refines (replay_events J run_id events start) (map_events J run_id events blank_map)
  replay-Refines events = events-Refines events start blank_map record {
    indexed = λ j. refl;
    same_unit = λ j. refl;
    same_receipt = λ j. refl;
    same_covered = λ j. refl;
    same_dispatched = refl;
    same_receipt_unit = refl;
    same_saw = refl;
  }
