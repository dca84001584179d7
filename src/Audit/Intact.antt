-- ===== src/Audit/Intact.antt =====
-- When `wanax audit` (crates/wanax-cli/src/audit.rs) reports no failure.
use wanax.Prelude.{
  ◌≡◌, ◌↔◌, ◌⊎◌, inl, inr, refl, sym, ap, ◌∙◌, ℕ, suc, String, Bool, true, false, not, ◌&&◌, ◌||◌,
  Option, none, some, List, [], ◌∷◌, ◌++◌, str_eq, eq_iff, any, All, Distinct, ◌==◌, arith,
  Bool-cases, ||-eq-false,
}
use mathlib.Core.List.{Memᴰ}
use wanax.Core.Error.{ok, is_ok}
use wanax.Core.RunState
use wanax.Core.RunState.{RunState}
use wanax.Core.Types.{FactoryRun, WorkUnit}
use wanax.Tombstone.{Values, TombstoneEvent, TombstoneEnvelope}
use wanax.Replay.Outcome.{ReplayOutcome}
use wanax.Audit.{
  Issue, issue_if, is_run_started, check_event, check_events, is_evidence, state_issues,
  event_issues, verify_envelope, unit_issues, snapshot_issues, count_fails, conclude, db_issues,
  run_audit, has_unit,
}

abbrev fails : List Issue → Bool
fails issues = any (λ i. i.fail) issues

fails-append : (xs ys : List Issue) → fails (xs ++ ys) ≡ (fails xs || fails ys)
fails-append [] ys = refl
fails-append (x ∷ xs) ys = ground (arith, fails-append xs ys)

fails-issue_if :
    (test fail : Bool) (what : String) → fails (issue_if test fail what) ≡ (test && fail)
fails-issue_if test fail what = ground arith

-- The issues that may be reported do not fail the audit: only the rest counts.
fails-if_true :
    (test : Bool) (what : String) (rest : List Issue)
    → fails (issue_if test true what ++ rest) ≡ (test || fails rest)
fails-if_true test what rest = ground arith

fails-if_false :
    (test : Bool) (what : String) (rest : List Issue)
    → fails (issue_if test false what ++ rest) ≡ fails rest
fails-if_false test what rest = ground arith

module _ (J : Values) (hash : J.Value → String) where
  abbrev HashIsRight : TombstoneEvent J.Value → Type 0
  HashIsRight e = hash e.payload ≡ e.payload_sha256

  abbrev event_ids : List (TombstoneEvent J.Value) → List String
  event_ids [] = []
  event_ids (e ∷ events) = e.id ∷ event_ids events

  abbrev seen_id : List String → TombstoneEvent J.Value → Bool
  seen_id ids e = any (λ id. str_eq e.id id) ids

  fails-check_event :
      (i : ℕ) (ids : List String) (last : Option String) (e : TombstoneEvent J.Value)
      → fails (check_event J hash i ids last e)
        ≡ (not (str_eq (hash e.payload) e.payload_sha256) || seen_id ids e)
  unfolding check_event
  fails-check_event i ids last e = ground arith

  abbrev IsFresh : List String → List (TombstoneEvent J.Value) → Type 0
  IsFresh ids events =
      All HashIsRight events × All (λ e. seen_id ids e ≡ false) events × Distinct (event_ids events)

  All-seen_cons :
      (x : String) (ids : List String) (events : List (TombstoneEvent J.Value))
      → All (λ e. seen_id (x ∷ ids) e ≡ false) events
        ↔ All (λ e. seen_id ids e ≡ false) events × (¬ Memᴰ x (event_ids events))
  All-seen_cons x ids [] = (λ h. (tt, λ m. elim m [ ]), λ h. tt)
  All-seen_cons x ids (e ∷ events) =
      let (there, back) = All-seen_cons x ids events in
      (
        λ h.
            let (rest, absent) = there h.1 in
            let (other, unseen) = ||-eq-false (str_eq e.id x) (seen_id ids e) h.0 in
            (
              (unseen, rest),
              λ m. elim m [
                | Memᴰ.head same ↦ absurd (ground (arith, (eq_iff e.id x).1 (sym same)))
                | Memᴰ.tail below ↦ absent below
              ],
            ),
        λ h.
            let others = back (h.0.1, λ m. h.1 (Memᴰ.tail m)) in
            let unseen = h.0.0 in
            (
              elim (Bool-cases (str_eq e.id x)) [
                | inl same ↦ absurd (h.1 (Memᴰ.head (sym ((eq_iff e.id x).0 same))))
                | inr other ↦ ground arith
              ],
              others,
            ),
      )

  check_events_iff :
      (i : ℕ) (ids : List String) (last : Option String) (events : List (TombstoneEvent J.Value))
      → (fails (check_events J hash i ids last events) ≡ false) ↔ IsFresh ids events
  unfolding check_events
  check_events_iff i ids last [] = (λ h. (tt, tt, tt), λ h. refl)
  check_events_iff i ids last (e ∷ events) =
      let (there, back) = check_events_iff (suc i) (e.id ∷ ids) (some e.at) events in
      let (apart, join) = All-seen_cons e.id ids events in
      let both =
        fails-append (check_event J hash i ids last e)
          (check_events J hash (suc i) (e.id ∷ ids) (some e.at) events) in
      let one = fails-check_event i ids last e in
      (
        λ h.
            let (hashes, unseen, distinct) = there (ground arith) in
            let (rest, absent) = apart unseen in
            (
              ((eq_iff (hash e.payload) e.payload_sha256).0 (ground arith), hashes),
              (ground arith, rest),
              (absent, distinct),
            ),
        λ h.
            let (hashes, unseen, distinct) = h in
            let right = (eq_iff (hash e.payload) e.payload_sha256).1 hashes.0 in
            let fresh = unseen.0 in
            let rest = back (hashes.1, join (unseen.1, distinct.0), distinct.1) in ground arith,
      )

  All-fresh : (events : List (TombstoneEvent J.Value)) → All (λ e. seen_id [] e ≡ false) events
  All-fresh [] = tt
  All-fresh (e ∷ events) = (refl, All-fresh events)

abbrev starts : {V : Type 0} → List (TombstoneEvent V) → Bool
starts [] = false
starts (e ∷ events) = is_run_started e.kind

module _ (J : Values) (hash : J.Value → String) where
  -- The envelope begins with the start of the run, its hashes are those of its payloads, no id is repeated,
  -- its state is one of a run, and if that is terminal an event gives evidence of the end.
  pub record IsIntact (env : TombstoneEnvelope J.Value) : Type 0 where
    pub begins : starts env.events ≡ true
    pub hashes : All (HashIsRight J hash) env.events
    pub distinct : Distinct (event_ids J hash env.events)
    pub state : RunState
    pub parsed : RunState.parse env.current_state ≡ some state
    pub ended : (RunState.is_terminal state ≡ false) ⊎ (any (is_evidence J) env.events ≡ true)

module _ (J : Values) (hash : J.Value → String) (debug : String → String) where
  -- What is wanted of a state that may not be one.
  abbrev StateIsRight : TombstoneEnvelope J.Value → Option RunState → Type 0
  StateIsRight env o =
      (s : RunState) × (o ≡ some s)
      × ((RunState.is_terminal s ≡ false) ⊎ (any (is_evidence J) env.events ≡ true))

  state_issues_iff :
      (env : TombstoneEnvelope J.Value) (o : Option RunState)
      → (fails (state_issues J debug env o) ≡ false) ↔ StateIsRight env o
  unfolding state_issues
  state_issues_iff env none = (λ h. cc, λ h. let (s, e, _) = h in absurd cc)
  state_issues_iff env (some s) = (
    λ h. elim (Bool-cases (RunState.is_terminal s)) [
      | inl e ↦ (s, refl, inr (ground arith))
      | inr e ↦ (s, refl, inl e)
    ],
    λ h.
        let (t, e, right) = h in
        let same : RunState.is_terminal s ≡ RunState.is_terminal t =
          ap RunState.is_terminal (ground arith) in
        elim right [ inl open_state ↦ ground arith | inr evidence ↦ ground arith ],
  )

  event_issues_iff :
      (env : TombstoneEnvelope J.Value) (events : List (TombstoneEvent J.Value))
      → (fails (event_issues J hash debug env events) ≡ false)
        ↔ (starts events ≡ true)
          × IsFresh J hash [] events
          × StateIsRight env (RunState.parse env.current_state)
  unfolding event_issues
  event_issues_iff env [] = (λ h. cc, λ h. cc)
  event_issues_iff env (e ∷ events) =
      let (fresh, unfresh) = check_events_iff J hash 0 [] none (e ∷ events) in
      let (right, unright) = state_issues_iff env (RunState.parse env.current_state) in
      let both =
        fails-append (check_events J hash 0 [] none (e ∷ events))
          (state_issues J debug env (RunState.parse env.current_state)) in
      (
        λ h. (ground arith, fresh (ground arith), right (ground arith)),
        λ h. let (first, f, r) = h in let a = unfresh f in let b = unright r in ground arith,
      )

  -- No failure is among the issues exactly when the envelope is intact.
  pub verify_envelope_iff :
      (env : TombstoneEnvelope J.Value)
      → (fails (verify_envelope J hash debug env) ≡ false) ↔ IsIntact J hash env
  unfolding verify_envelope
  verify_envelope_iff env =
      let (there, back) = event_issues_iff env env.events in
      (
        λ h.
            let (first, fresh, right) = there (ground arith) in
            record {
              begins = first;
              hashes = fresh.0;
              distinct = fresh.2;
              state = right.0;
              parsed = right.1;
              ended = right.2;
            },
        λ h.
            let clean = back (
              h.begins,
              (h.hashes, All-fresh J hash env.events, h.distinct),
              (h.state, h.parsed, h.ended),
            ) in
            ground arith,
      )

fails-unit_issues : (db units : List WorkUnit) → fails (unit_issues db units) ≡ false
unfolding unit_issues
fails-unit_issues db [] = refl
fails-unit_issues db (u ∷ units) =
    fails-if_false (not (has_unit db u.id)) _ (unit_issues db units) ∙ fails-unit_issues db units

fails-snapshot_issues :
    (db : List WorkUnit) (snap : Option ReplayOutcome) → fails (snapshot_issues db snap) ≡ false
unfolding snapshot_issues
fails-snapshot_issues db none = refl
fails-snapshot_issues db (some snap) = fails-unit_issues db snap.units

count_fails-fails : (issues : List Issue) → (count_fails issues == 0) ≡ not (fails issues)
unfolding count_fails
count_fails-fails [] = refl
count_fails-fails (i ∷ issues) = ground (arith, count_fails-fails issues)

is_ok-conclude : (issues : List Issue) → is_ok (conclude issues) ≡ not (fails issues)
unfolding conclude
is_ok-conclude issues = ground (arith, count_fails-fails issues)

fails-db_issues :
    {V : Type 0} (run : FactoryRun) (env : TombstoneEnvelope V) (snap : Option ReplayOutcome)
    (db_units : List WorkUnit)
    → fails (db_issues run env snap db_units) ≡ not (str_eq env.contract_sha256 run.contract_sha256)
unfolding db_issues
fails-db_issues run env snap db_units =
    let replayed = fails-snapshot_issues db_units snap in ground arith

-- For a run and an envelope that are found, the audit succeeds exactly when the envelope is intact and has
-- the hash of the contract that the database has for the run; the schema version, times that go backwards,
-- and the state and the units of the database are not asked for.
pub run_audit_iff :
    (J : Values) (hash : J.Value → String) (debug : String → String) (run : FactoryRun)
    (env : TombstoneEnvelope J.Value) (snap : Option ReplayOutcome) (db_units : List WorkUnit)
    → (is_ok (run_audit J hash debug (ok run) (λ _. ok env) snap db_units) ≡ true)
      ↔ IsIntact J hash env × (env.contract_sha256 ≡ run.contract_sha256)
unfolding run_audit
run_audit_iff J hash debug run env snap db_units =
    let issues = verify_envelope J hash debug env in
    let (there, back) = verify_envelope_iff J hash debug env in
    let verified = is_ok-conclude (issues ++ db_issues run env snap db_units) in
    let whole = fails-append issues (db_issues run env snap db_units) in
    let rest = fails-db_issues run env snap db_units in
    (
      λ h.
          (there (ground arith), (eq_iff env.contract_sha256 run.contract_sha256).0 (ground arith)),
      λ h.
          let clean = back h.0 in
          let same = (eq_iff env.contract_sha256 run.contract_sha256).1 h.1 in ground arith,
    )
