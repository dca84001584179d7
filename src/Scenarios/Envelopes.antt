-- ===== src/Scenarios/Envelopes.antt =====
-- The theorems on replay and audit at a concrete envelope.
use wanax.Prelude.{
  ℕ, ◌≡◌, ◌↔◌, refl, String, true, false, Option, none, some, List, [], ◌∷◌, ◌++◌, map, length,
}
use mathlib.Core.List.{Memᴰ}
use wanax.Prelude.Map.{get?}
use wanax.Core.Error.{ok, is_ok}
use wanax.Core.RunState
use wanax.Core.Types.{WorkUnit}
use wanax.Core.WorkUnitState.{implementing, accepted}
use wanax.Tombstone.{
  Values, EventKind, run_started, unit_seeded, unit_dispatched, receipt_submitted, verdict, system,
  TombstoneEvent, TombstoneEnvelope, make_event,
}
use wanax.Replay.{replay_events, start}
use wanax.Replay.Outcome.{ReplayOutcome, envelope_snapshot}
use wanax.Replay.Json.{unwrap_or}
use wanax.Replay.Units.{Refines, map_events, blank_map}
use wanax.Replay.Refined.{replay-Refines}
use wanax.Replay.Pending.{IsPending, envelope_snapshot-IsPending}
use wanax.Replay.Diverged.{units_diverged, Agrees, units_diverged-false}
use wanax.Audit.{run_audit}
use wanax.Audit.Intact.{IsIntact, run_audit_iff}
use wanax.Scenarios.Dags.{unit_at}
use wanax.Scenarios.Runs.{reviewed}

-- Payloads that are objects of texts and of lists of texts.
pub data Leaf : Type 0 where
  text : String → Leaf
  texts : List String → Leaf
  number : ℕ → Leaf
  nothing : Leaf

pub data Sample : Type 0 where
  null : Sample
  leaf : Leaf → Sample
  members : List (String × Leaf) → Sample

abbrev pub member : Option Leaf → Sample
member none = null
member (some l) = leaf l

abbrev pub sample_field : Sample → String → Sample
sample_field (members m) key = member (get? key m)
sample_field _ key = null

abbrev pub sample_get : Sample → String → Option Sample
sample_get v key = elim (sample_field v key) [
  | null ↦ none
  | leaf l ↦ some (leaf l)
  | members m ↦ none
]

abbrev pub sample_str : Sample → Option String
sample_str (leaf (text s)) = some s
sample_str _ = none

abbrev pub sample_array : Sample → Option (List Sample)
sample_array (leaf (texts ss)) = some (map (λ s. leaf (text s)) ss)
sample_array _ = none

abbrev pub sample_u64 : Sample → Option ℕ
sample_u64 (leaf (number n)) = some n
sample_u64 _ = none

abbrev pub samples : Values
samples = record {
  Value = Sample;
  field = sample_field;
  get = sample_get;
  as_str = sample_str;
  as_u64 = sample_u64;
  as_i64 = λ v. none;
  as_bool = λ v. none;
  as_array = sample_array;
}

-- In place of a hash, the id of the unit.
abbrev pub sample_hash : Sample → String
sample_hash v = unwrap_or "" (sample_str (sample_field v "work_unit_id"))

abbrev unit_payload : String → List (String × Leaf) → Sample
unit_payload id rest = members (("work_unit_id", text id) ∷ rest)

unfoldable pub event : String → EventKind → Sample → TombstoneEvent Sample
unfolding make_event
event id kind payload = make_event sample_hash id "2026-01-01T00:00:00Z" system kind payload

abbrev pub events : List (TombstoneEvent Sample)
events =
    event "e1" run_started (members [])
    ∷ event "e2" unit_seeded (unit_payload "u1" (("title", text "first") ∷ []))
    ∷ event "e3" unit_seeded (unit_payload "u2" [])
    ∷ event "e4" unit_dispatched (unit_payload "u1" (("covers", texts ("u2" ∷ [])) ∷ []))
    ∷ event "e5" receipt_submitted (members (("receipt_id", text "r1") ∷ []))
    ∷ []

abbrev accept_event : TombstoneEvent Sample
accept_event = event "e6" verdict (members (("decision", text "accept") ∷ []))

abbrev envelope : TombstoneEnvelope Sample
envelope = record {
  schema_version = "1.0.0";
  run_id = "run";
  contract_sha256 = "sha";
  current_state = "receipt_ready";
  events = events;
}

abbrev no_outcome : ReplayOutcome
no_outcome = record { units = []; receipts = []; pending = none }

abbrev outcome : ReplayOutcome
unfolding envelope_snapshot
outcome = unwrap_or no_outcome (envelope_snapshot samples "run" (some envelope))

outcome_pending : outcome.pending ≡ some ("u1", "r1")
unfolding outcome event
outcome_pending = refl

-- A verdict without an id is for the unit of the last receipt, and for the units that it covers.
covered_verdict :
    map (λ u. u.state) (replay_events samples "run" (events ++ accept_event ∷ []) start).units
    ≡ accepted ∷ accepted ∷ []
unfolding replay_events event
covered_verdict = refl

replay-Refines_example :
    Refines (replay_events samples "run" events start) (map_events samples "run" events blank_map)
replay-Refines_example = replay-Refines samples "run" events

envelope_snapshot-IsPending_example : IsPending outcome.receipts outcome.units outcome.pending
unfolding envelope_snapshot outcome event
envelope_snapshot-IsPending_example =
    envelope_snapshot-IsPending samples "run" (some envelope) {o = outcome} refl

abbrev db_units : List WorkUnit
db_units = unit_at "u2" accepted none [] ∷ unit_at "u1" implementing none [] ∷ []

abbrev replayed_units : List WorkUnit
replayed_units = unit_at "u1" implementing none ("u2" ∷ []) ∷ unit_at "u2" accepted none [] ∷ []

units_diverged-false_example :
    (length db_units ≡ length replayed_units)
    × ((s : WorkUnit) → Memᴰ s replayed_units → (d : WorkUnit) × Memᴰ d db_units × Agrees d s)
unfolding units_diverged
units_diverged-false_example = units_diverged-false db_units replayed_units refl

run_audit_iff_example :
    (is_ok
        (run_audit samples sample_hash (λ s. s) (ok reviewed) (λ _. ok envelope) (some outcome) [])
      ≡ true)
    ↔ IsIntact samples sample_hash envelope × (envelope.contract_sha256 ≡ reviewed.contract_sha256)
run_audit_iff_example =
    run_audit_iff samples sample_hash (λ s. s) reviewed envelope (some outcome) []

-- A run that ended with its budget exhausted, and whose envelope is otherwise as it should be.
exhausted_fails :
    is_ok (
      run_audit samples sample_hash
        (λ s. s)
        (ok (record reviewed { contract_sha256 = "sha" }))
        (λ _. ok (record envelope { current_state = "budget_exhausted" }))
        (some outcome)
        [])
    ≡ false
unfolding run_audit event outcome RunState.parse RunState.is_terminal RunState.as_str
exhausted_fails = refl

working_passes :
    is_ok (
      run_audit samples sample_hash
        (λ s. s)
        (ok (record reviewed { contract_sha256 = "sha" }))
        (λ _. ok envelope)
        (some outcome)
        [])
    ≡ true
unfolding run_audit event outcome RunState.parse RunState.is_terminal RunState.as_str
working_passes = refl
