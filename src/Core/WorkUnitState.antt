-- ===== src/Core/WorkUnitState.antt =====
-- WorkUnitState of crates/wanax-core/src/types.rs: the states of a work unit, their stored names and the way back.
use wanax.Prelude.{String, ◌≡◌, refl, Option, none, some, str_eq, if◌then◌else◌}
use wanax.Prelude.Text.{read_name}

pub data WorkUnitState : Type 0 where
  queued assigned implementing self_verifying receipt_ready outer_testing : WorkUnitState
  accepted rejected blocked : WorkUnitState

unfoldable pub as_str : WorkUnitState → String
as_str queued = "queued"
as_str assigned = "assigned"
as_str implementing = "implementing"
as_str self_verifying = "self_verifying"
as_str receipt_ready = "receipt_ready"
as_str outer_testing = "outer_testing"
as_str accepted = "accepted"
as_str rejected = "rejected"
as_str blocked = "blocked"

unfoldable pub parse : String → Option WorkUnitState
parse s =
    if str_eq s "queued"
    then some queued
    else if str_eq s "assigned"
    then some assigned
    else if str_eq s "implementing"
    then some implementing
    else if str_eq s "self_verifying"
    then some self_verifying
    else if str_eq s "receipt_ready"
    then some receipt_ready
    else if str_eq s "outer_testing"
    then some outer_testing
    else if str_eq s "accepted"
    then some accepted
    else if str_eq s "rejected"
    then some rejected
    else if str_eq s "blocked"
    then some blocked
    else none

-- Every stored name is read back as the value it was written for.
pub parse-as_str : (x : WorkUnitState) → parse (as_str x) ≡ some x
unfolding parse as_str
parse-as_str queued = refl
parse-as_str assigned = refl
parse-as_str implementing = refl
parse-as_str self_verifying = refl
parse-as_str receipt_ready = refl
parse-as_str outer_testing = refl
parse-as_str accepted = refl
parse-as_str rejected = refl
parse-as_str blocked = refl

-- Only stored names are read.
pub as_str_of_parse : (s : String) (x : WorkUnitState) → parse s ≡ some x → as_str x ≡ s
unfolding parse as_str
as_str_of_parse s x h0 = read_name as_str s x h0 refl λ h1. read_name as_str s x h1 refl λ h2.
    read_name as_str s x h2 refl λ h3. read_name as_str s x h3 refl λ h4.
      read_name as_str s x h4 refl λ h5. read_name as_str s x h5 refl λ h6.
        read_name as_str s x h6 refl
          λ h7. read_name as_str s x h7 refl λ h8. read_name as_str s x h8 refl λ h9. cc

unfoldable pub WorkUnitState-discrete : Discrete WorkUnitState
WorkUnitState-discrete = hlevel
