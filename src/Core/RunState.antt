-- ===== src/Core/RunState.antt =====
-- RunState of crates/wanax-core/src/types.rs: the states of a factory run, their stored names and the way back.
use wanax.Prelude.{Bool, true, false, String, ◌≡◌, refl, Option, none, some, str_eq, if◌then◌else◌}
use wanax.Prelude.Text.{read_name}

pub data RunState : Type 0 where
  draft contract_ready dispatched inner_working receipt_ready outer_reviewing : RunState
  accepted rejected rework escalate canceling cancelled budget_exhausted failed : RunState

unfoldable pub as_str : RunState → String
as_str draft = "draft"
as_str contract_ready = "contract_ready"
as_str dispatched = "dispatched"
as_str inner_working = "inner_working"
as_str receipt_ready = "receipt_ready"
as_str outer_reviewing = "outer_reviewing"
as_str accepted = "accepted"
as_str rejected = "rejected"
as_str rework = "rework"
as_str escalate = "escalate"
as_str canceling = "canceling"
as_str cancelled = "cancelled"
as_str budget_exhausted = "budget_exhausted"
as_str failed = "failed"

unfoldable pub parse : String → Option RunState
parse s =
    if str_eq s "draft"
    then some draft
    else if str_eq s "contract_ready"
    then some contract_ready
    else if str_eq s "dispatched"
    then some dispatched
    else if str_eq s "inner_working"
    then some inner_working
    else if str_eq s "receipt_ready"
    then some receipt_ready
    else if str_eq s "outer_reviewing"
    then some outer_reviewing
    else if str_eq s "accepted"
    then some accepted
    else if str_eq s "rejected"
    then some rejected
    else if str_eq s "rework"
    then some rework
    else if str_eq s "escalate"
    then some escalate
    else if str_eq s "canceling"
    then some canceling
    else if str_eq s "cancelled"
    then some cancelled
    else if str_eq s "budget_exhausted"
    then some budget_exhausted
    else if str_eq s "failed"
    then some failed
    else none

-- Every stored name is read back as the value it was written for.
pub parse-as_str : (x : RunState) → parse (as_str x) ≡ some x
unfolding parse as_str
parse-as_str draft = refl
parse-as_str contract_ready = refl
parse-as_str dispatched = refl
parse-as_str inner_working = refl
parse-as_str receipt_ready = refl
parse-as_str outer_reviewing = refl
parse-as_str accepted = refl
parse-as_str rejected = refl
parse-as_str rework = refl
parse-as_str escalate = refl
parse-as_str canceling = refl
parse-as_str cancelled = refl
parse-as_str budget_exhausted = refl
parse-as_str failed = refl

-- Only stored names are read.
pub as_str_of_parse : (s : String) (x : RunState) → parse s ≡ some x → as_str x ≡ s
unfolding parse as_str
as_str_of_parse s x h0 = read_name as_str s x h0 refl λ h1. read_name as_str s x h1 refl λ h2.
    read_name as_str s x h2 refl λ h3. read_name as_str s x h3 refl λ h4.
      read_name as_str s x h4 refl λ h5. read_name as_str s x h5 refl λ h6.
        read_name as_str s x h6 refl λ h7. read_name as_str s x h7 refl λ h8.
          read_name as_str s x h8 refl λ h9. read_name as_str s x h9 refl λ h10.
            read_name as_str s x h10 refl λ h11.
              read_name as_str s x h11 refl
                λ h12. read_name as_str s x h12 refl λ h13. read_name as_str s x h13 refl λ h14. cc

unfoldable pub RunState-discrete : Discrete RunState
RunState-discrete = hlevel

unfoldable pub is_terminal : RunState → Bool
is_terminal accepted = true
is_terminal rejected = true
is_terminal cancelled = true
is_terminal budget_exhausted = true
is_terminal failed = true
is_terminal escalate = true
is_terminal _ = false
