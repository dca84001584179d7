-- ===== src/Core/Env.antt =====
-- The environment of child processes: crates/wanax-core/src/envenv.rs. An environment is an association
-- list with each name once; the environment of the parent is a function.
pub mod Clean
use Prim.Native.Char.{code}
use Prim.Native.String.{◌++◌ as append}
use wanax.Prelude.{
  String, Bool, true, false, not, ◌&&◌, ◌||◌, Option, none, some, List, [], ◌∷◌, str_eq, any, keep,
  if◌then◌else◌,
}
use wanax.Core.Money.{is_whitespace}

abbrev pub forbidden_env : List String
forbidden_env =
    "GIT_ASKPASS" ∷ "GH_TOKEN" ∷ "GITHUB_TOKEN" ∷ "SSH_AUTH_SOCK" ∷ "SSH_AGENT_PID"
    ∷ "WANAX_COMMANDER_API_KEY" ∷ "WANAX_INNER_API_KEY" ∷ []

abbrev pub base_env_keys : List String
base_env_keys = "PATH" ∷ "HOME" ∷ "USER" ∷ "TMPDIR" ∷ "LANG" ∷ "LC_ALL" ∷ "TERM" ∷ "SHELL" ∷ []

abbrev pub Env : Type 0
Env = List (String × String)

-- `HashMap::insert`
unfoldable pub set_var : String → String → Env → Env
set_var key value env = (key, value) ∷ keep (λ e. not (str_eq e.0 key)) env

unfoldable pub get_var : String → Env → Option String
get_var key [] = none
get_var key ((k, v) ∷ env) = if str_eq k key then some v else get_var key env

unfoldable pub is_forbidden : String → Bool
is_forbidden name = any (λ k. str_eq k name) forbidden_env

unfoldable pub env_has_forbidden : Env → Bool
env_has_forbidden env = any (λ k. any (λ e. str_eq e.0 k) env) forbidden_env

-- A variable of the parent is copied, if it is set there.
unfoldable pub copy_var : (String → Option String) → String → Env → Env
unfolding set_var
copy_var parent key env = elim (parent key) [ none ↦ env | some v ↦ set_var key v env ]

unfoldable pub copy_vars : (String → Option String) → List String → Env → Env
unfolding copy_var
copy_vars parent [] env = env
copy_vars parent (key ∷ keys) env = copy_vars parent keys (copy_var parent key env)

unfoldable pub base_child_env : (String → Option String) → Env
unfolding copy_vars set_var
base_child_env parent = set_var "GIT_TERMINAL_PROMPT" "0" (copy_vars parent base_env_keys [])

-- `str::trim`
unfoldable pub trim_left : String → String
trim_left String.[] = ""
trim_left (String.◌∷◌ c s) = if is_whitespace (code c) then trim_left s else String.◌∷◌ c s

unfoldable pub trim_right : String → String
trim_right String.[] = ""
trim_right (String.◌∷◌ c s) =
    let rest = trim_right s in
    if is_whitespace (code c) && str_eq rest "" then "" else String.◌∷◌ c rest

unfoldable pub pass_key : (String → Option String) → String → Env → Env
unfolding copy_var is_forbidden trim_left trim_right
pass_key parent key env =
    let trimmed = trim_right (trim_left key) in
    if str_eq trimmed "" || is_forbidden trimmed then env else copy_var parent trimmed env

unfoldable pub with_passthrough : (String → Option String) → List String → Env → Env
unfolding pass_key
with_passthrough parent [] env = env
with_passthrough parent (key ∷ keys) env = with_passthrough parent keys (pass_key parent key env)

unfoldable pub with_git_config : String → Env → Env
unfolding set_var
with_git_config gitconfig env =
    set_var "GIT_CONFIG_NOSYSTEM" "1" (set_var "GIT_CONFIG_GLOBAL" gitconfig env)

unfoldable pub with_prepend_path : String → Env → Env
unfolding set_var get_var
with_prepend_path dir env =
    let path : String = elim (get_var "PATH" env) [
      | none ↦ dir
      | some p ↦ append dir (append ":" p)
    ] in
    set_var "PATH" path env
