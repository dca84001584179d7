-- ===== src/Audit.antt =====
-- The integrity check of an envelope, `wanax audit`: crates/wanax-cli/src/audit.rs. What is printed is
-- left out, the issues and the result are kept. The hash of a payload and the quoted form of a text (`{:?}`)
-- are arguments.
pub mod Intact
use Prim.Native.String.{◌++◌ as str_append, slice}
use wanax.Prelude.{
  ℕ, suc, String, Bool, true, false, not, ◌&&◌, ◌||◌, Option, none, some, List, [], ◌∷◌, ◌++◌,
  str_eq, any, length, if◌then◌else◌, ◌==◌,
}
use wanax.Prelude.Sort.{str_le}
use wanax.Prelude.Text.{numeral}
use wanax.Core.Decimal.{print}
use wanax.Core.Error.{WanaxError, Result, err, ok, ◌>>=◌}
use wanax.Core.Error
use wanax.Core.ErrorCode.{audit}
use wanax.Core.RunState
use wanax.Core.RunState.{RunState}
use wanax.Core.Types.{FactoryRun, WorkUnit}
use wanax.Tombstone
use wanax.Tombstone.{
  Values, EventKind, run_started, verdict, cancelled, TombstoneEvent, TombstoneEnvelope,
  schema_version_1,
}
use wanax.Replay.Outcome.{ReplayOutcome}

pub record Issue : Type 0 where
  pub fail : Bool
  pub what : String

-- A list with the issue if the test holds.
abbrev pub issue_if : Bool → Bool → String → List Issue
issue_if test fail what = if test then (record { fail = fail; what = what }) ∷ [] else []

abbrev pub is_run_started : EventKind → Bool
is_run_started run_started = true
is_run_started _ = false

abbrev pub is_cancelled : EventKind → Bool
is_cancelled cancelled = true
is_cancelled _ = false

abbrev pub is_verdict : EventKind → Bool
is_verdict verdict = true
is_verdict _ = false

abbrev concat : List String → String
concat [] = ""
concat (s ∷ ss) = str_append s (concat ss)

abbrev shown : ℕ → String
shown n = numeral (print n)

-- Whether a time was seen, and the new one is before it.
abbrev pub moved_back : Option String → String → Bool
moved_back none at = false
moved_back (some prev) at = not (str_le prev at)

module _ (J : Values) (hash : J.Value → String) where
  -- The body of the loop on the events, for the event of an index.
  unfoldable pub check_event : ℕ → List String → Option String → TombstoneEvent J.Value → List Issue
  check_event i ids last ev =
      issue_if (not (str_eq (hash ev.payload) ev.payload_sha256)) true (
        concat
          ("event " ∷ shown i ∷ " " ∷ Tombstone.as_str ev.kind ∷ ": payload_sha256 mismatch" ∷ []))
      ++ issue_if (any (λ id. str_eq ev.id id) ids) true
          (concat ("event " ∷ shown i ∷ ": duplicate id " ∷ ev.id ∷ []))
      ++ issue_if (moved_back last ev.at) false (
          concat (
            "event "
            ∷ shown i
            ∷ " "
            ∷ Tombstone.as_str ev.kind
            ∷ ": timestamp moved backwards"
            ∷ []))

  unfoldable pub check_events :
      ℕ → List String → Option String → List (TombstoneEvent J.Value) → List Issue
  unfolding check_event
  check_events i ids last [] = []
  check_events i ids last (ev ∷ events) =
      check_event i ids last ev ++ check_events (suc i) (ev.id ∷ ids) (some ev.at) events

module _ (J : Values) where
  abbrev pub is_final_decision : Option J.Value → Bool
  is_final_decision none = false
  is_final_decision (some v) = elim (J.as_str v) [
    | none ↦ false
    | some d ↦ str_eq d "accept" || str_eq d "reject"
  ]

  -- An event that gives evidence of the end of a run.
  unfoldable pub is_evidence : TombstoneEvent J.Value → Bool
  is_evidence e =
      is_cancelled e.kind || (is_verdict e.kind && is_final_decision (J.get e.payload "decision"))

  unfoldable pub state_issues :
      (String → String) → TombstoneEnvelope J.Value → Option RunState → List Issue
  unfolding is_evidence
  state_issues debug env none =
      record {
        fail = true;
        what =
            concat ("current_state " ∷ debug env.current_state ∷ " is not a valid run state" ∷ []);
      }
      ∷ []
  state_issues debug env (some s) =
      issue_if (RunState.is_terminal s && not (any is_evidence env.events)) true (
        concat (
          "current_state=" ∷ env.current_state
          ∷ " is terminal but no accept/reject/cancel event exists" ∷ []))

module _ (J : Values) (hash : J.Value → String) (debug : String → String) where
  unfoldable pub event_issues :
      TombstoneEnvelope J.Value → List (TombstoneEvent J.Value) → List Issue
  unfolding check_events state_issues
  event_issues env [] = (record { fail = true; what = "envelope has no events" }) ∷ []
  event_issues env (first ∷ events) =
      issue_if (not (is_run_started first.kind)) true
        (concat ("first event is " ∷ Tombstone.as_str first.kind ∷ ", not run_started" ∷ []))
      ++ check_events J hash 0 [] none (first ∷ events)
      ++ state_issues J debug env (RunState.parse env.current_state)

  unfoldable pub verify_envelope : TombstoneEnvelope J.Value → List Issue
  unfolding event_issues
  verify_envelope env =
      issue_if (not (str_eq env.schema_version schema_version_1)) false
        (concat ("schema_version " ∷ env.schema_version ∷ " != " ∷ schema_version_1 ∷ []))
      ++ event_issues env env.events

abbrev pub has_unit : List WorkUnit → String → Bool
has_unit units id = any (λ u. str_eq u.id id) units

unfoldable pub unit_issues : List WorkUnit → List WorkUnit → List Issue
unit_issues db [] = []
unit_issues db (u ∷ units) =
    issue_if (not (has_unit db u.id)) false
      (concat ("unit " ∷ u.id ∷ " present in envelope replay but missing from DB" ∷ []))
    ++ unit_issues db units

unfoldable pub snapshot_issues : List WorkUnit → Option ReplayOutcome → List Issue
unfolding unit_issues
snapshot_issues db none = []
snapshot_issues db (some snap) = unit_issues db snap.units

unfoldable pub count_fails : List Issue → ℕ
count_fails [] = 0
count_fails (i ∷ issues) = let rest = count_fails issues in if i.fail then suc rest else rest

unfoldable pub count_warns : List Issue → ℕ
count_warns [] = 0
count_warns (i ∷ issues) = let rest = count_warns issues in if i.fail then rest else suc rest

unfoldable pub conclude : List Issue → Result (Unit {0})
unfolding count_fails count_warns
conclude issues =
    if count_fails issues == 0
    then ok tt
    else err (
        Error.new audit (
          concat (
            shown (count_fails issues)
            ∷ " integrity failure(s), "
            ∷ shown (count_warns issues)
            ∷ " warning(s)"
            ∷ [])))

-- The checks against the row of the run and the units of the database.
unfoldable pub db_issues :
    {V : Type 0}
    → FactoryRun
    → TombstoneEnvelope V
    → Option ReplayOutcome
    → List WorkUnit
    → List Issue
unfolding snapshot_issues
db_issues run env snap db_units =
    issue_if (not (str_eq env.contract_sha256 run.contract_sha256)) true (
      concat (
        "contract_sha256 mismatch: envelope="
        ∷ slice env.contract_sha256 0 12
        ∷ " db="
        ∷ slice run.contract_sha256 0 12
        ∷ []))
    ++ issue_if (not (str_eq env.current_state (RunState.as_str run.state))) false (
        concat (
          "state divergence: envelope="
          ∷ env.current_state
          ∷ " db="
          ∷ RunState.as_str run.state
          ∷ []))
    ++ snapshot_issues db_units snap

module _ (J : Values) (hash : J.Value → String) (debug : String → String) where
  -- `run`, with what the database and the file give: the run, its envelope, the replay and the units.
  unfoldable pub run_audit :
      Result FactoryRun
      → (FactoryRun → Result (TombstoneEnvelope J.Value))
      → Option ReplayOutcome
      → List WorkUnit
      → Result (Unit {0})
  unfolding verify_envelope db_issues conclude
  run_audit get_run load snap db_units = get_run >>= λ run. load run >>= λ env.
      conclude (verify_envelope J hash debug env ++ db_issues run env snap db_units)
