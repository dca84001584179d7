-- ===== src/Replay/Units.antt =====
-- The replay of crates/wanax-cli/src/replay.rs, event by event on a map from ids to units.
use wanax.Prelude.{
  ◌≡◌, String, Bool, true, false, Option, none, some, List, [], ◌∷◌, str_eq, if◌then◌else◌,
}
use wanax.Prelude.Map.{get?, get_or}
use wanax.Core.Types.{WorkUnit}
use wanax.Core.WorkUnitState.{WorkUnitState, queued, implementing}
use wanax.Tombstone.{
  Values, EventKind, unit_seeded, unit_dispatched, receipt_submitted, verdict, TombstoneEvent,
}
use wanax.Replay.{Replay, ReceiptStub, blank_unit, written, stub_of, with_receipt, decided}
use wanax.Replay.Json.{or_else, unwrap_or, set_some, strings}
use wanax.Replay.Index.{unit_of, IsIndexed}

-- The run as maps, with no indices.
pub record RunMap : Type 0 where
  pub unit : String → Option WorkUnit
  pub receipt : String → Option ReceiptStub
  pub covered : String → List String
  pub last_dispatched : Option String
  pub last_receipt_unit : Option String
  pub saw_units : Bool

abbrev pub blank_map : RunMap
blank_map = record {
  unit = λ j. none;
  receipt = λ j. none;
  covered = λ j. [];
  last_dispatched = none;
  last_receipt_unit = none;
  saw_units = false;
}

abbrev pub set_at {ℓ} : {V : Type ℓ} → String → V → (String → V) → String → V
set_at j v m k = if str_eq k j then v else m k

abbrev pub decide_unit : String → String → RunMap → RunMap
decide_unit decision id a = record a {
  unit = set_at id (set_some (decided decision) (a.unit id)) a.unit;
}

abbrev pub decide_units : String → List String → RunMap → RunMap
decide_units decision [] a = a
decide_units decision (id ∷ ids) a = decide_units decision ids (decide_unit decision id a)

abbrev pub cover : String → Option (List String) → RunMap → RunMap
cover id none a = a
cover id (some covered) a = record a { covered = set_at id covered a.covered }

module _ (J : Values) (run_id : String) where
  abbrev pub new_unit : String → WorkUnit
  new_unit id = record (blank_unit run_id) { id = id }

  abbrev pub put_unit : J.Value → WorkUnitState → String → RunMap → RunMap
  put_unit p state id a = record a {
    unit = set_at id (some (written J p state (unwrap_or (new_unit id) (a.unit id)))) a.unit;
    saw_units = true;
  }

  abbrev pub seed_map : J.Value → Option String → RunMap → RunMap
  seed_map p none a = a
  seed_map p (some id) a = put_unit p queued id a

  abbrev pub dispatch_map : J.Value → Option String → RunMap → RunMap
  dispatch_map p none a = a
  dispatch_map p (some id) a =
      cover id (set_some (strings J) (J.as_array (J.field p "covers")))
        (record (put_unit p implementing id a) { last_dispatched = some id })

  abbrev pub submit_map : J.Value → Option String → RunMap → RunMap
  submit_map p none a = a
  submit_map p (some id) a = record a {
    last_receipt_unit = some id;
    unit = set_at id (set_some (with_receipt (stub_of J p id)) (a.unit id)) a.unit;
    receipt = set_at id (some (stub_of J p id)) a.receipt;
  }

  abbrev pub verdict_map : J.Value → Option String → RunMap → RunMap
  verdict_map p none a = a
  verdict_map p (some id) a =
      decide_units (unwrap_or "" (J.as_str (J.field p "decision"))) (id ∷ a.covered id) a

  abbrev pub map_event : EventKind → J.Value → RunMap → RunMap
  map_event unit_seeded p a = seed_map p (J.as_str (J.field p "work_unit_id")) a
  map_event unit_dispatched p a = dispatch_map p (J.as_str (J.field p "work_unit_id")) a
  map_event receipt_submitted p a =
      submit_map p (or_else (J.as_str (J.field p "work_unit_id")) a.last_dispatched) a
  map_event verdict p a =
      verdict_map p (or_else (J.as_str (J.field p "work_unit_id")) a.last_receipt_unit) a
  map_event _ p a = a

  abbrev pub map_events : List (TombstoneEvent J.Value) → RunMap → RunMap
  map_events [] a = a
  map_events (e ∷ events) a = map_events events (map_event e.kind e.payload a)

-- A replay whose index is that of its units, and which has the units, the receipts and the rest of a map.
pub record Refines (s : Replay) (a : RunMap) : Type 0 where
  pub indexed : IsIndexed s.units s.by_id
  pub same_unit : (j : String) → unit_of j s.units ≡ a.unit j
  pub same_receipt : (j : String) → get? j s.receipts ≡ a.receipt j
  pub same_covered : (j : String) → get_or [] j s.covers ≡ a.covered j
  pub same_dispatched : s.last_dispatched ≡ a.last_dispatched
  pub same_receipt_unit : s.last_receipt_unit ≡ a.last_receipt_unit
  pub same_saw : s.saw_units ≡ a.saw_units
