-- ===== src/Core/Store/Kept.antt =====
-- The tables of crates/wanax-core/src/store.rs before and after an operation.
use wanax.Prelude.{
  String, Bool, true, false, Option, none, some, ◌≡◌, ◌<◌, ◌^◌, refl, sym, ap, ◌∙◌, ◌⊎◌, arith,
  eq_refl, Bool-cases, inl, inr, subst,
}
use wanax.Core.RunState.{RunState, is_terminal}
use wanax.Core.WorkerAdapterKind
use wanax.Core.WorkerAdapterKind.{WorkerAdapterKind}
use wanax.Core.RunState
use wanax.Core.State.{transition-legal, transition-illegal, can_transition, eq_state_iff}
use wanax.Core.ErrorCode.{db}
use wanax.Core.Error
use wanax.Core.Error.{WanaxError, Result, ok, err, ◌>>=◌, >>=-eq-ok}
use wanax.Core.Types.{FactoryRun, WorkUnit}
use wanax.Core.Store.Rows.{
  RunRow, run_columns, row_to_run, run_of_row, ok_or, mod_small, row_to_run-columns, UnitRow, Json,
  IsJson, unit_columns, row_to_unit, row_to_unit-columns,
}
use wanax.Core.Store.Tables.{Table, IsRefusal, select, select-update, select-insert}
use wanax.Core.Store.Runs.{is_run, insert_run, get_run, state_columns, moved, commit, set_state}
use wanax.Core.Store.Units.{is_unit, insert_work_unit, get_work_unit}

-- A run whose counters are `u32`s and that is inserted without an error is read back whole.
pub get_run-insert :
    (r : FactoryRun) (t : Table RunRow)
    → r.max_inner_turns < 2 ^ 32
    → r.spent_inner_turns < 2 ^ 32
    → (insert_run r t).1 ≡ ok tt
    → get_run r.id (insert_run r t).0 ≡ ok r
unfolding insert_run get_run
get_run-insert r t max spent h =
    ap (λ row. row >>= λ r'. row_to_run r')
      (select-insert (is_run r.id) (run_columns r) t (eq_refl r.id) h)
    ∙ row_to_run-columns r max spent

-- A work unit whose counters are `u32`s and that is inserted without an error is read back whole, whatever
-- JSON its lists become, as long as that JSON is read back.
pub get_work_unit-insert :
    (json : Json) (u : WorkUnit) (t : Table UnitRow)
    → IsJson json
    → u.seq < 2 ^ 32
    → u.rework_count < 2 ^ 32
    → (insert_work_unit json u t).1 ≡ ok tt
    → get_work_unit json u.id (insert_work_unit json u t).0 ≡ ok u
unfolding insert_work_unit get_work_unit
get_work_unit-insert json u t law seq count h =
    ap (λ row. row >>= λ r'. row_to_unit json r')
      (select-insert (is_unit u.id) (unit_columns json u) t (eq_refl u.id) h)
    ∙ row_to_unit-columns json law u seq count

-- A run that is over has its end recorded, and no other run has one.
abbrev pub is_some {ℓ} : {A : Type ℓ} → Option A → Bool
is_some none = false
is_some (some a) = true

abbrev pub IsEndRecorded : FactoryRun → Type 0
IsEndRecorded run = is_terminal run.state ≡ is_some run.finished_at

moved-IsEndRecorded :
    (now : String) (run : FactoryRun) (next : RunState) (last_error : Option String)
    → can_transition run.state next ≡ true
    → IsEndRecorded run
    → IsEndRecorded (moved now run next last_error)
unfolding moved can_transition
moved-IsEndRecorded now run next last_error h k = ground (arith, eq_state_iff run.state next)

-- `set_state` keeps it so, whether or not the transition is legal and the database answers.
pub set_state-IsEndRecorded :
    (now : String) (t : Table RunRow) (run : FactoryRun) (to : RunState)
    (last_error : Option String)
    → IsEndRecorded run
    → IsEndRecorded (set_state now t run to last_error).1
unfolding set_state commit
set_state-IsEndRecorded now t run to last_error k =
    elim (Bool-cases (can_transition run.state to)) [
      | inl legal ↦
          subst (λ r. IsEndRecorded (commit now t run last_error r).1)
            (sym (transition-legal run.state to legal))
            (moved-IsEndRecorded now run to last_error legal k)
      | inr illegal ↦
          let (e, refused, _) = transition-illegal run.state to illegal in
          subst (λ r. IsEndRecorded (commit now t run last_error r).1) (sym refused) k
    ]

-- The run `stored`, with the columns that `set_state` writes taken from `run`.
abbrev pub with_state : FactoryRun → FactoryRun → FactoryRun
with_state run stored = record stored {
  state = run.state;
  updated_at = run.updated_at;
  finished_at = run.finished_at;
  last_error = run.last_error;
  spent_usd_micros = run.spent_usd_micros;
  spent_inner_turns = run.spent_inner_turns;
  worker_pid = run.worker_pid;
}

run_of_row-state_columns :
    (run : FactoryRun) (row : RunRow) (state : RunState) (adapter : WorkerAdapterKind)
    → run.spent_inner_turns < 2 ^ 32
    → run_of_row (state_columns run row) run.state adapter
      ≡ with_state run (run_of_row row state adapter)
unfolding run_of_row state_columns
run_of_row-state_columns run row state adapter h = rw (mod_small run.spent_inner_turns h) refl

mapped : FactoryRun → Result FactoryRun → Result FactoryRun
mapped run (ok r) = ok (with_state run r)
mapped run (err e) = err e

row_to_run-state_columns :
    (run : FactoryRun) (row : RunRow) {stored : FactoryRun}
    → run.spent_inner_turns < 2 ^ 32
    → row_to_run row ≡ ok stored
    → row_to_run (state_columns run row) ≡ ok (with_state run stored)
unfolding row_to_run state_columns mapped
row_to_run-state_columns run row {stored} h read =
    let (state, _, rest) =
      >>=-eq-ok (ok_or (RunState.parse row.state) "bad state")
        (λ state. ok_or (WorkerAdapterKind.parse row.worker_adapter) "bad adapter" >>= λ adapter.
          ok (run_of_row row state adapter))
        read in
    let (adapter, named, built) =
      >>=-eq-ok (ok_or (WorkerAdapterKind.parse row.worker_adapter) "bad adapter")
        (λ adapter. ok (run_of_row row state adapter)) rest in
    rw (RunState.parse-as_str run.state, named)
      (ap ok (run_of_row-state_columns run row state adapter h) ∙ ap (mapped run) built)

-- The row of the run `stored`, once a `set_state` that left `in_memory` has answered: with the run's new
-- columns when the answer is ok, and else as before, for a transition that is illegal or a write that the
-- database refuses, with the database's error.
abbrev pub IsWrittenThrough :
    Table RunRow
    → FactoryRun
    → FactoryRun
    → Bool
    → Table RunRow × FactoryRun × Result {0} Unit
    → Type 0
IsWrittenThrough t run stored allowed (after, in_memory, answer) =
    ((answer ≡ ok tt)
      × (allowed ≡ true)
      × (get_run run.id after ≡ ok (with_state in_memory stored)))
    ⊎ ((e : WanaxError) × (answer ≡ err e)
        × (e.code ≡ db)
        × (get_run run.id after ≡ ok stored)
        × ((allowed ≡ false) ⊎ ((why : String) × IsRefusal t why × (e ≡ Error.with_detail db why))))

get_run-commit :
    (now : String) (t : Table RunRow) (run stored : FactoryRun) (to : RunState)
    (last_error : Option String)
    → run.spent_inner_turns < 2 ^ 32
    → get_run run.id t ≡ ok stored
    → IsWrittenThrough t run stored true (commit now t run last_error (ok to))
unfolding get_run commit moved Error.with_detail
get_run-commit now t run stored to last_error h read =
    let (row, found, as_read) = >>=-eq-ok (select (is_run run.id) t) (λ row. row_to_run row) read in
    let in_memory = moved now run to last_error in
    elim (select-update (is_run run.id) (state_columns in_memory) (λ r. refl) t found) [
      | inl (answered, selected) ↦ inl (
        answered,
        refl,
        ap (λ r. r >>= λ row. row_to_run row) selected
            ∙ row_to_run-state_columns in_memory row h as_read,
      )
      | inr (why, refused, failing, selected) ↦ inr (
        Error.with_detail db why,
        refused,
        refl,
        ap (λ r. r >>= λ row. row_to_run row) selected ∙ as_read,
        inr (why, failing, refl),
      )
    ]

-- A `set_state` of a run whose turns are a `u32` and whose row is there is written through or changes no
-- row: it answers ok only if the transition is allowed, and then the row is read with the new state, error,
-- end, spending and process of the run in memory; it fails, with a database error, only if the transition
-- is not allowed or the database refuses the write, and then the row is read as before.
pub get_run-set_state :
    (now : String) (t : Table RunRow) (run stored : FactoryRun) (to : RunState)
    (last_error : Option String)
    → run.spent_inner_turns < 2 ^ 32
    → get_run run.id t ≡ ok stored
    → IsWrittenThrough t run stored
        (can_transition run.state to)
        (set_state now t run to last_error)
unfolding set_state commit
get_run-set_state now t run stored to last_error h read =
    elim (Bool-cases (can_transition run.state to)) [
      | inl legal ↦
          subst (λ b. IsWrittenThrough t run stored b (set_state now t run to last_error))
            (sym legal)
            (subst
              (λ moved_to.
                IsWrittenThrough t run stored true (commit now t run last_error moved_to))
              (sym (transition-legal run.state to legal))
              (get_run-commit now t run stored to last_error h read))
      | inr illegal ↦
          let (e, refused, code) = transition-illegal run.state to illegal in
          subst
            (λ moved_to.
              IsWrittenThrough t run stored (can_transition run.state to)
                (commit now t run last_error moved_to))
            (sym refused) (inr (e, refl, code, read, inl illegal))
    ]

-- After `set_state` the run in memory is in the asked state, or it is unchanged and the call failed.
pub set_state-outcome :
    (now : String) (t : Table RunRow) (run : FactoryRun) (to : RunState)
    (last_error : Option String)
    → ((set_state now t run to last_error).1.state ≡ to)
      ⊎ (((set_state now t run to last_error).1 ≡ run)
          × ((e : WanaxError) × ((set_state now t run to last_error).2 ≡ err e)))
unfolding set_state commit moved
set_state-outcome now t run to last_error = elim (Bool-cases (can_transition run.state to)) [
  | inl legal ↦
      inl (ap (λ r. (commit now t run last_error r).1.state) (transition-legal run.state to legal))
  | inr illegal ↦
      let (e, refused, _) = transition-illegal run.state to illegal in
      inr (
        ap (λ r. (commit now t run last_error r).1) refused,
        (e, ap (λ r. (commit now t run last_error r).2) refused),
      )
]
