-- ===== src/Core/Env/Clean.antt =====
-- The names in the environments that crates/wanax-core/src/envenv.rs puts together.
use wanax.Prelude.{
  ◌≡◌, refl, sym, ap, ◌∙◌, subst, String, true, false, not, ◌||◌, Option, none, some, List, [], ◌∷◌,
  str_eq, eq_iff, any, all, if◌then◌else◌, arith, Bool-cases, inl, inr, any_witness, any_of_mem,
  mem-keep,
}
use mathlib.Core.List.{Memᴰ}
use wanax.Core.Env.{
  Env, forbidden_env, base_env_keys, is_forbidden, env_has_forbidden, set_var, copy_var, copy_vars,
  base_child_env, pass_key, trim_left, trim_right, with_passthrough, with_git_config,
  with_prepend_path,
}

-- No entry has a forbidden name.
abbrev pub IsClean : Env → Type 0
IsClean env = (e : String × String) → Memᴰ e env → is_forbidden e.0 ≡ false

IsClean-set_var :
    (key value : String) (env : Env)
    → is_forbidden key ≡ false
    → IsClean env
    → IsClean (set_var key value env)
unfolding set_var
IsClean-set_var key value env fine h e (Memᴰ.head same) = ap (λ x. is_forbidden x.0) same ∙ fine
IsClean-set_var key value env fine h e (Memᴰ.tail m) =
    h e (mem-keep (λ x. not (str_eq x.0 key)) env m).0

IsClean-copy_var :
    (parent : String → Option String) (key : String) (env : Env)
    → is_forbidden key ≡ false
    → IsClean env
    → IsClean (copy_var parent key env)
unfolding copy_var
IsClean-copy_var parent key env fine h =
    elim (parent key) as (λ o. IsClean (elim o [ none ↦ env | some v ↦ set_var key v env ])) [
      | none ↦ h
      | some v ↦ IsClean-set_var key v env fine h
    ]

IsClean-copy_vars :
    (parent : String → Option String) (keys : List String) (env : Env)
    → all (λ k. not (is_forbidden k)) keys ≡ true
    → IsClean env
    → IsClean (copy_vars parent keys env)
unfolding copy_vars
IsClean-copy_vars parent [] env fine h = h
IsClean-copy_vars parent (key ∷ keys) env fine h =
    IsClean-copy_vars parent keys (copy_var parent key env) (ground arith)
      (IsClean-copy_var parent key env (ground arith) h)

IsClean-pass_key :
    (parent : String → Option String) (key : String) (env : Env)
    → IsClean env
    → IsClean (pass_key parent key env)
unfolding pass_key
IsClean-pass_key parent key env h =
    let trimmed = trim_right (trim_left key) in
    elim (Bool-cases (str_eq trimmed "" || is_forbidden trimmed)) [
      | inl skip ↦
          subst (λ b. IsClean (if b then env else copy_var parent trimmed env)) (sym skip) h
      | inr fine ↦
          subst (λ b. IsClean (if b then env else copy_var parent trimmed env)) (sym fine)
            (IsClean-copy_var parent trimmed env (ground arith) h)
    ]

IsClean-passthrough :
    (parent : String → Option String) (keys : List String) (env : Env)
    → IsClean env
    → IsClean (with_passthrough parent keys env)
unfolding with_passthrough
IsClean-passthrough parent [] env h = h
IsClean-passthrough parent (key ∷ keys) env h =
    IsClean-passthrough parent keys (pass_key parent key env) (IsClean-pass_key parent key env h)

-- What is added to an environment.
pub data Addition : Type 0 where
  pass : List String → Addition
  git_config : String → Addition
  prepend_path : String → Addition

unfoldable pub add_all : (String → Option String) → List Addition → Env → Env
add_all parent [] env = env
add_all parent (pass keys ∷ more) env = add_all parent more (with_passthrough parent keys env)
add_all parent (git_config path ∷ more) env = add_all parent more (with_git_config path env)
add_all parent (prepend_path dir ∷ more) env = add_all parent more (with_prepend_path dir env)

IsClean-add_all :
    (parent : String → Option String) (more : List Addition) (env : Env)
    → IsClean env
    → IsClean (add_all parent more env)
unfolding add_all with_git_config with_prepend_path is_forbidden
IsClean-add_all parent [] env h = h
IsClean-add_all parent (pass keys ∷ more) env h =
    IsClean-add_all parent more (with_passthrough parent keys env)
      (IsClean-passthrough parent keys env h)
IsClean-add_all parent (git_config path ∷ more) env h =
    IsClean-add_all parent more (with_git_config path env) (
      IsClean-set_var "GIT_CONFIG_NOSYSTEM" "1" (set_var "GIT_CONFIG_GLOBAL" path env) refl
        (IsClean-set_var "GIT_CONFIG_GLOBAL" path env refl h))
IsClean-add_all parent (prepend_path dir ∷ more) env h =
    IsClean-add_all parent more (with_prepend_path dir env) (IsClean-set_var "PATH" _ env refl h)

IsClean-base : (parent : String → Option String) → IsClean (base_child_env parent)
unfolding base_child_env is_forbidden
IsClean-base parent =
    IsClean-set_var "GIT_TERMINAL_PROMPT" "0" (copy_vars parent base_env_keys []) refl
      (IsClean-copy_vars parent base_env_keys [] refl (λ e m. elim m [ ]))

IsClean-has_forbidden : (env : Env) → IsClean env → env_has_forbidden env ≡ false
unfolding env_has_forbidden is_forbidden
IsClean-has_forbidden env h = elim (Bool-cases (env_has_forbidden env)) [
  | inr fine ↦ fine
  | inl bad ↦
      let (k, listed, present) = any_witness (λ k. any (λ e. str_eq e.0 k) env) forbidden_env bad in
      let (e, here, same) = any_witness (λ e. str_eq e.0 k) env present in
      let back : str_eq k e.0 ≡ true = (eq_iff k e.0).1 (sym ((eq_iff e.0 k).0 same)) in
      let found = any_of_mem (λ x. str_eq x e.0) listed back in let clean = h e here in cc
]

-- Whatever the parent's environment holds and whatever names a contract asks for, the environment of a child
-- has no forbidden variable.
pub child_env-clean :
    (parent : String → Option String) (more : List Addition)
    → env_has_forbidden (add_all parent more (base_child_env parent)) ≡ false
child_env-clean parent more =
    IsClean-has_forbidden (add_all parent more (base_child_env parent))
      (IsClean-add_all parent more (base_child_env parent) (IsClean-base parent))
