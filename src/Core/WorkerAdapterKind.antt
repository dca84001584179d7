-- ===== src/Core/WorkerAdapterKind.antt =====
-- WorkerAdapterKind of crates/wanax-core/src/types.rs: the worker adapters, their stored names and the way back.
use wanax.Prelude.{String, ◌≡◌, refl, Option, none, some, str_eq, if◌then◌else◌}
use wanax.Prelude.Text.{read_name}

pub data WorkerAdapterKind : Type 0 where
  octoscode fake cmd claude codex acp : WorkerAdapterKind

unfoldable pub as_str : WorkerAdapterKind → String
as_str octoscode = "octoscode"
as_str fake = "fake"
as_str cmd = "cmd"
as_str claude = "claude"
as_str codex = "codex"
as_str acp = "acp"

unfoldable pub parse : String → Option WorkerAdapterKind
parse s =
    if str_eq s "octoscode"
    then some octoscode
    else if str_eq s "fake"
    then some fake
    else if str_eq s "cmd"
    then some cmd
    else if str_eq s "claude"
    then some claude
    else if str_eq s "codex"
    then some codex
    else if str_eq s "acp"
    then some acp
    else none

-- Every stored name is read back as the value it was written for.
pub parse-as_str : (x : WorkerAdapterKind) → parse (as_str x) ≡ some x
unfolding parse as_str
parse-as_str octoscode = refl
parse-as_str fake = refl
parse-as_str cmd = refl
parse-as_str claude = refl
parse-as_str codex = refl
parse-as_str acp = refl

-- Only stored names are read.
pub as_str_of_parse : (s : String) (x : WorkerAdapterKind) → parse s ≡ some x → as_str x ≡ s
unfolding parse as_str
as_str_of_parse s x h0 = read_name as_str s x h0 refl λ h1. read_name as_str s x h1 refl λ h2.
    read_name as_str s x h2 refl λ h3.
      read_name as_str s x h3 refl
        λ h4. read_name as_str s x h4 refl λ h5. read_name as_str s x h5 refl λ h6. cc

pub WorkerAdapterKind-discrete : Discrete WorkerAdapterKind
WorkerAdapterKind-discrete = hlevel
