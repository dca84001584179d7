-- ===== src/Replay/Outcome.antt =====
-- What envelope_snapshot (crates/wanax-cli/src/replay.rs) returns of its variables, and the receipt made of a
-- stub.
use wanax.Prelude.{String, Bool, true, false, Option, none, some, List, [], ◌∷◌, if◌then◌else◌}
use wanax.Prelude.Map.{get?}
use wanax.Core.Types.{WorkUnit, Receipt}
use wanax.Core.WorkUnitState.{WorkUnitState, receipt_ready}
use wanax.Tombstone.{Values, TombstoneEnvelope}
use wanax.Replay.Json.{or_else}
use wanax.Replay.{ReceiptStub, Replay, start, replay_events}

pub record ReplayOutcome : Type 0 where
  pub units : List WorkUnit
  pub receipts : List (String × ReceiptStub)
  pub pending : Option (String × String)

unfoldable pub is_ready : WorkUnitState → Bool
is_ready receipt_ready = true
is_ready _ = false

unfoldable pub pair_of : String → Option String → Option ReceiptStub → Option (String × String)
pair_of id (some rid) (some stub) = some (id, rid)
pair_of id _ _ = none

-- The pair for a unit that awaits a verdict.
unfoldable pub awaiting : List (String × ReceiptStub) → WorkUnit → Option (String × String)
unfolding is_ready pair_of
awaiting receipts u =
    if is_ready u.state then pair_of u.id u.receipt_id (get? u.id receipts) else none

-- The loop from the last unit to the first, up to a unit that awaits a verdict.
unfoldable pub last_awaiting :
    List (String × ReceiptStub) → List WorkUnit → Option (String × String)
unfolding awaiting
last_awaiting receipts [] = none
last_awaiting receipts (u ∷ units) = or_else (last_awaiting receipts units) (awaiting receipts u)

unfoldable pub finish : Replay → Option ReplayOutcome
unfolding last_awaiting
finish s =
    if s.saw_units
    then some record {
      units = s.units;
      receipts = s.receipts;
      pending = last_awaiting s.receipts s.units;
    }
    else none

-- The envelope is the argument: `none` if it cannot be loaded.
unfoldable pub envelope_snapshot :
    (J : Values) → String → Option (TombstoneEnvelope J.Value) → Option ReplayOutcome
unfolding finish replay_events
envelope_snapshot J run_id none = none
envelope_snapshot J run_id (some env) = finish (replay_events J run_id env.events start)

unfoldable pub synthesize_receipt : ReceiptStub → String → String → Receipt
synthesize_receipt stub test_command adapter = record {
  id = stub.receipt_id;
  work_unit_id = stub.work_unit_id;
  changed_files = stub.changed_files;
  diffstat = "";
  commit_sha = stub.commit_sha;
  test_command = test_command;
  test_exit_code = stub.test_exit_code;
  test_excerpt = "";
  claimed_pass = stub.claimed_pass;
  duration_ms = 0;
  adapter = adapter;
  raw_artifact_path = none;
}
