-- ===== src/Replay/Pending.antt =====
-- The receipt that waits for its verdict, which envelope_snapshot (crates/wanax-cli/src/replay.rs) finds.
use wanax.Prelude.{
  ◌≡◌, refl, sym, ap, subst, inl, inr, String, true, Option, none, some, List, [], ◌∷◌, ◌++◌, All,
  arith, Bool-cases, Option-cases,
}
use wanax.Prelude.Map.{get?}
use wanax.Core.Types.{WorkUnit}
use wanax.Core.WorkUnitState.{WorkUnitState, receipt_ready}
use wanax.Tombstone.{Values, TombstoneEnvelope}
use wanax.Replay.{ReceiptStub, Replay, replay_events, start}
use wanax.Replay.Outcome.{
  ReplayOutcome, is_ready, pair_of, awaiting, last_awaiting, finish, envelope_snapshot,
}

is_ready_eq : (s : WorkUnitState) → is_ready s ≡ true → s ≡ receipt_ready
unfolding is_ready
is_ready_eq s h = ground arith

-- A unit in `receipt_ready` with a receipt id and a stub.
abbrev pub IsAwaiting : List (String × ReceiptStub) → WorkUnit → String × String → Type 0
IsAwaiting receipts u pair =
    (u.id ≡ pair.0)
    × (u.state ≡ receipt_ready)
    × (u.receipt_id ≡ some pair.1)
    × ((stub : ReceiptStub) × (get? u.id receipts ≡ some stub))

pair_of-some :
    (id : String) (o : Option String) (stub : Option ReceiptStub) {pair : String × String}
    → pair_of id o stub ≡ some pair
    → (id ≡ pair.0) × (o ≡ some pair.1) × ((s : ReceiptStub) × (stub ≡ some s))
unfolding pair_of
pair_of-some id none stub h = cc
pair_of-some id (some rid) none h = cc
pair_of-some id (some rid) (some s) h = (ground arith, ground arith, (s, refl))

awaiting-some :
    (receipts : List (String × ReceiptStub)) (u : WorkUnit) {pair : String × String}
    → awaiting receipts u ≡ some pair
    → IsAwaiting receipts u pair
unfolding awaiting
awaiting-some receipts u h = elim (Bool-cases (is_ready u.state)) [
  | inl e ↦
      let (id, rid, stub) = pair_of-some u.id u.receipt_id (get? u.id receipts) (ground arith) in
      (id, is_ready_eq u.state e, rid, stub)
  | inr e ↦ absurd (ground arith)
]

-- No pair is that of the unit.
abbrev pub IsIdle : List (String × ReceiptStub) → WorkUnit → Type 0
IsIdle receipts u = (pair : String × String) → ¬ IsAwaiting receipts u pair

awaiting-IsIdle :
    (receipts : List (String × ReceiptStub)) (u : WorkUnit)
    → awaiting receipts u ≡ none
    → IsIdle receipts u
unfolding awaiting is_ready pair_of
awaiting-IsIdle receipts u h pair (id, state, rid, (stub, kept)) =
    let found : awaiting receipts u ≡ some (u.id, pair.1) = rw (state, rid, kept) refl in cc

-- The last unit of the list that awaits a verdict.
abbrev pub IsLastAwaiting : List (String × ReceiptStub) → List WorkUnit → String × String → Type 0
IsLastAwaiting receipts units pair =
    (before : List WorkUnit) × (u : WorkUnit) × (after : List WorkUnit) × (units
      ≡ before ++ u ∷ after)
    × IsAwaiting receipts u pair
    × All (λ v. IsIdle receipts v) after

last_awaiting-none :
    (receipts : List (String × ReceiptStub)) (units : List WorkUnit)
    → last_awaiting receipts units ≡ none
    → All (λ v. IsIdle receipts v) units
unfolding last_awaiting
last_awaiting-none receipts [] h = tt
last_awaiting-none receipts (u ∷ units) h = elim (Option-cases (last_awaiting receipts units)) [
  | inl e ↦ (awaiting-IsIdle receipts u (ground arith), last_awaiting-none receipts units e)
  | inr (p, e) ↦ absurd (ground arith)
]

last_awaiting-some :
    (receipts : List (String × ReceiptStub)) (units : List WorkUnit) {pair : String × String}
    → last_awaiting receipts units ≡ some pair
    → IsLastAwaiting receipts units pair
unfolding last_awaiting
last_awaiting-some receipts [] h = cc
last_awaiting-some receipts (u ∷ units) h = elim (Option-cases (last_awaiting receipts units)) [
  | inl e ↦ (
    [],
    u,
    units,
    refl,
    awaiting-some receipts u (ground arith),
    last_awaiting-none receipts units e,
  )
  | inr (p, e) ↦
      let (before, v, after, same, waits, idle) =
        last_awaiting-some receipts units (ground arith) in
      (u ∷ before, v, after, ap (λ l. u ∷ l) same, waits, idle)
]

-- What may be pending: the pair of the last unit that awaits a verdict, or nothing if no unit does.
abbrev pub IsPending :
    List (String × ReceiptStub) → List WorkUnit → Option (String × String) → Type 0
IsPending receipts units none = All (λ v. IsIdle receipts v) units
IsPending receipts units (some pair) = IsLastAwaiting receipts units pair

last_awaiting-IsPending :
    (receipts : List (String × ReceiptStub)) (units : List WorkUnit)
    → IsPending receipts units (last_awaiting receipts units)
last_awaiting-IsPending receipts units = elim (Option-cases (last_awaiting receipts units)) [
  | inl e ↦ subst (IsPending receipts units) (sym e) (last_awaiting-none receipts units e)
  | inr (pair, e) ↦ subst (IsPending receipts units) (sym e) (last_awaiting-some receipts units e)
]

finish-IsPending :
    (s : Replay) {o : ReplayOutcome} → finish s ≡ some o → IsPending o.receipts o.units o.pending
unfolding finish
finish-IsPending s {o} h = elim (Bool-cases s.saw_units) [
  | inl e ↦
      subst (λ (o : ReplayOutcome). IsPending o.receipts o.units o.pending) (ground arith)
        (last_awaiting-IsPending s.receipts s.units)
  | inr e ↦ absurd (ground arith)
]

-- The pending pair of a snapshot is the id and the receipt id of the last unit, in the order of the list,
-- that is in the state `receipt_ready` with a receipt id and a stub; without a pair no unit is.
pub envelope_snapshot-IsPending :
    (J : Values) (run_id : String) (env : Option (TombstoneEnvelope J.Value)) {o : ReplayOutcome}
    → envelope_snapshot J run_id env ≡ some o
    → IsPending o.receipts o.units o.pending
unfolding envelope_snapshot
envelope_snapshot-IsPending J run_id none h = cc
envelope_snapshot-IsPending J run_id (some env) h =
    finish-IsPending (replay_events J run_id env.events start) h
