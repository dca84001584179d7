-- ===== src/Core/TestCommand.antt =====
-- The check of a test command: crates/wanax-core/src/testcmd.rs. The regular expressions of the blacklist
-- and `Path::file_name` are arguments.
use wanax.Prelude.{
  ◌≡◌, refl, subst, String, Bool, true, false, Option, none, some, List, [], ◌∷◌, str_eq, eq_iff,
  any, any_witness, if◌then◌else◌,
}
use mathlib.Core.List.{Memᴰ}
use Prim.Native.Char.{code}
use wanax.Core.Env.{trim_left, trim_right}
use wanax.Core.Error.{Result, err, ok, is_ok, new, from_code}
use wanax.Core.ErrorCode.{contract_invalid, test_command_forbidden}
use wanax.Core.Money.{is_whitespace}

abbrev pub allowed_binaries : List String
allowed_binaries = "cargo" ∷ "npm" ∷ "pnpm" ∷ "pytest" ∷ "go" ∷ "make" ∷ []

unfoldable pub trim : String → String
unfolding trim_left trim_right
trim s = trim_right (trim_left s)

-- `split_whitespace().next()` of a text without a blank at its start.
unfoldable pub first_word : String → String
first_word String.[] = ""
first_word (String.◌∷◌ c s) = if is_whitespace (code c) then "" else String.◌∷◌ c (first_word s)

abbrev pub name_or : String → Option String → String
name_or s none = s
name_or s (some name) = name

-- The answer for a command that is empty, blacklisted, or runs a program that is allowed.
unfoldable pub judge : Bool → Bool → Bool → Result (Unit {0})
unfolding new from_code
judge true is_bad is_known = err (new contract_invalid "invalid contract: test_command")
judge false true is_known = err (from_code test_command_forbidden)
judge false false true = ok tt
judge false false false = err (from_code test_command_forbidden)

judge-ok :
    (is_empty is_bad is_known : Bool)
    → is_ok (judge is_empty is_bad is_known) ≡ true
    → (is_known ≡ true) × (is_bad ≡ false)
unfolding judge
judge-ok true is_bad is_known h = cc
judge-ok false true is_known h = cc
judge-ok false false true h = (refl, refl)
judge-ok false false false h = cc

module _ (file_name : String → Option String) (blacklist : List (String → Bool)) where
  unfoldable pub binary_of : String → String
  unfolding first_word
  binary_of trimmed = name_or (first_word trimmed) (file_name (first_word trimmed))

  unfoldable pub is_blacklisted : String → Bool
  is_blacklisted trimmed = any (λ is_match. is_match trimmed) blacklist

  unfoldable pub is_known_binary : String → Bool
  unfolding binary_of
  is_known_binary trimmed = any (λ b. str_eq b (binary_of trimmed)) allowed_binaries

  unfoldable pub validate_test_command : String → Result (Unit {0})
  unfolding is_known_binary is_blacklisted trim judge
  validate_test_command cmd =
      judge (str_eq (trim cmd) "") (is_blacklisted (trim cmd)) (is_known_binary (trim cmd))

  -- The program that is run is one of the list, and no pattern of the blacklist matches.
  abbrev pub IsAllowed : String → Type 0
  IsAllowed cmd = Memᴰ (binary_of (trim cmd)) allowed_binaries × (is_blacklisted (trim cmd) ≡ false)

  known-mem : (s : String) → is_known_binary s ≡ true → Memᴰ (binary_of s) allowed_binaries
  unfolding is_known_binary
  known-mem s h =
      let (b, m, same) = any_witness (λ b. str_eq b (binary_of s)) allowed_binaries h in
      subst (λ x. Memᴰ x allowed_binaries) {x = b} {y = binary_of s}
        ((eq_iff b (binary_of s)).0 same) m

  pub validate_test_command-IsAllowed :
      (cmd : String) → is_ok (validate_test_command cmd) ≡ true → IsAllowed cmd
  unfolding validate_test_command
  validate_test_command-IsAllowed cmd h =
      let (known, clean) =
        judge-ok (str_eq (trim cmd) "") (is_blacklisted (trim cmd)) (is_known_binary (trim cmd))
          h in
      (known-mem (trim cmd) known, clean)
