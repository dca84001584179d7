-- ===== src/Core/VerdictDecision.antt =====
-- VerdictDecision of crates/wanax-core/src/types.rs: the decisions of an outer verdict, their stored names and the way back.
use wanax.Prelude.{String, ◌≡◌, refl, Option, none, some, str_eq, if◌then◌else◌}
use wanax.Prelude.Text.{read_name}

pub data VerdictDecision : Type 0 where
  accept reject rework escalate : VerdictDecision

unfoldable pub as_str : VerdictDecision → String
as_str accept = "accept"
as_str reject = "reject"
as_str rework = "rework"
as_str escalate = "escalate"

unfoldable pub parse : String → Option VerdictDecision
parse s =
    if str_eq s "accept"
    then some accept
    else if str_eq s "reject"
    then some reject
    else if str_eq s "rework"
    then some rework
    else if str_eq s "escalate"
    then some escalate
    else none

-- Every stored name is read back as the value it was written for.
pub parse-as_str : (x : VerdictDecision) → parse (as_str x) ≡ some x
unfolding parse as_str
parse-as_str accept = refl
parse-as_str reject = refl
parse-as_str rework = refl
parse-as_str escalate = refl

-- Only stored names are read.
pub as_str_of_parse : (s : String) (x : VerdictDecision) → parse s ≡ some x → as_str x ≡ s
unfolding parse as_str
as_str_of_parse s x h0 = read_name as_str s x h0 refl λ h1.
    read_name as_str s x h1 refl
      λ h2. read_name as_str s x h2 refl λ h3. read_name as_str s x h3 refl λ h4. cc

pub VerdictDecision-discrete : Discrete VerdictDecision
VerdictDecision-discrete = hlevel
