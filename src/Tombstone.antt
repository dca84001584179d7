-- ===== src/Tombstone.antt =====
-- The events and the envelope of crates/wanax-tombstone/src/lib.rs. A payload is a value of serde_json,
-- known by the functions that read it.
use wanax.Prelude.{ℕ, String, Bool, Option, List, []}
use wanax.Prelude.Int.{ℤ}

-- `serde_json::Value`: `field p key` is `p[key]`, which is null if there is no such key.
pub record Values : Type 1 where
  pub Value : Type 0
  pub field : Value → String → Value
  pub get : Value → String → Option Value
  pub as_str : Value → Option String
  pub as_u64 : Value → Option ℕ
  pub as_i64 : Value → Option ℤ
  pub as_bool : Value → Option Bool
  pub as_array : Value → Option (List Value)

abbrev pub schema_version_1 : String
schema_version_1 = "1.0.0"

pub data Actor : Type 0 where
  human commander master goal peer verifier system : Actor

pub data EventKind : Type 0 where
  run_started unit_seeded unit_dispatched receipt_submitted outer_test_started : EventKind
  outer_test_finished baseline_test bound_test must_have verdict budget_tick : EventKind
  state_changed error cancelled : EventKind

unfoldable pub as_str : EventKind → String
as_str run_started = "run_started"
as_str unit_seeded = "unit_seeded"
as_str unit_dispatched = "unit_dispatched"
as_str receipt_submitted = "receipt_submitted"
as_str outer_test_started = "outer_test_started"
as_str outer_test_finished = "outer_test_finished"
as_str baseline_test = "baseline_test"
as_str bound_test = "bound_test"
as_str must_have = "must_have"
as_str verdict = "verdict"
as_str budget_tick = "budget_tick"
as_str state_changed = "state_changed"
as_str error = "error"
as_str cancelled = "cancelled"

pub record TombstoneEvent (V : Type 0) : Type 0 where
  pub id : String
  pub at : String
  pub actor : Actor
  pub kind : EventKind
  pub payload : V
  pub payload_sha256 : String

pub record TombstoneEnvelope (V : Type 0) : Type 0 where
  pub schema_version : String
  pub run_id : String
  pub contract_sha256 : String
  pub current_state : String
  pub events : List (TombstoneEvent V)

module _ {V : Type 0} where
  -- The id and the time of a new event are the arguments `id` and `at`, its hash is that of `hash`.
  unfoldable pub make_event :
      (V → String) → String → String → Actor → EventKind → V → TombstoneEvent V
  make_event hash id at actor kind payload = record {
    id = id;
    at = at;
    actor = actor;
    kind = kind;
    payload = payload;
    payload_sha256 = hash payload;
  }

  unfoldable pub new : String → String → String → TombstoneEnvelope V
  new run_id contract_sha256 current_state = record {
    schema_version = schema_version_1;
    run_id = run_id;
    contract_sha256 = contract_sha256;
    current_state = current_state;
    events = [];
  }
