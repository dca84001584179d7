-- ===== src/Core/AssigneeRole.antt =====
-- AssigneeRole of crates/wanax-core/src/types.rs: who a work unit is assigned to, their stored names and the way back.
use wanax.Prelude.{String, ◌≡◌, refl, Option, none, some, str_eq, if◌then◌else◌}
use wanax.Prelude.Text.{read_name}

pub data AssigneeRole : Type 0 where
  master goal peer : AssigneeRole

unfoldable pub as_str : AssigneeRole → String
as_str master = "master"
as_str goal = "goal"
as_str peer = "peer"

unfoldable pub parse : String → Option AssigneeRole
parse s =
    if str_eq s "master"
    then some master
    else if str_eq s "goal"
    then some goal
    else if str_eq s "peer"
    then some peer
    else none

-- Every stored name is read back as the value it was written for.
pub parse-as_str : (x : AssigneeRole) → parse (as_str x) ≡ some x
unfolding parse as_str
parse-as_str master = refl
parse-as_str goal = refl
parse-as_str peer = refl

-- Only stored names are read.
pub as_str_of_parse : (s : String) (x : AssigneeRole) → parse s ≡ some x → as_str x ≡ s
unfolding parse as_str
as_str_of_parse s x h0 =
    read_name as_str s x h0 refl
      λ h1. read_name as_str s x h1 refl λ h2. read_name as_str s x h2 refl λ h3. cc

pub AssigneeRole-discrete : Discrete AssigneeRole
AssigneeRole-discrete = hlevel
