-- ===== src/Replay/Json.antt =====
-- How crates/wanax-cli/src/replay.rs reads a payload: optional texts, numbers and lists of texts.
use wanax.Prelude.{
  ℕ, ◌-◌, ◌%◌, ◌^◌, String, Bool, Option, true, false, none, some, List, [], ◌∷◌, str_eq,
  if◌then◌else◌, ltb,
}
use wanax.Prelude.Int.{ℤ, pos, negsuc}
use wanax.Tombstone.{Values}

module _ {ℓ} {A : Type ℓ} where
  abbrev pub unwrap_or : A → Option A → A
  unwrap_or d none = d
  unwrap_or d (some a) = a

  -- The first that is there.
  abbrev pub or_else : Option A → Option A → Option A
  or_else none o = o
  or_else (some a) o = some a

abbrev pub set_some {κ ℓ} : {A : Type κ} {B : Type ℓ} → (A → B) → Option A → Option B
set_some f none = none
set_some f (some a) = some (f a)

abbrev pub put_some {κ ℓ} : {A : Type κ} {B : Type ℓ} → (A → Option B) → Option A → Option B
put_some f none = none
put_some f (some a) = f a

-- The texts of a list: other values are dropped.
unfoldable pub strings : (J : Values) → List J.Value → List String
strings J [] = []
strings J (v ∷ vs) =
    let rest = strings J vs in elim (J.as_str v) [ none ↦ rest | some s ↦ s ∷ rest ]

-- `as u32` of a `u64`.
unfoldable pub as_u32 : Option ℕ → Option ℕ
as_u32 none = none
as_u32 (some n) = some (n % 2 ^ 32)

abbrev pub signed_32 : ℕ → ℤ
signed_32 n = if ltb n (2 ^ 31) then pos n else negsuc (2 ^ 32 - 1 - n)

-- `as i32` of an `i64`.
unfoldable pub as_i32 : ℤ → ℤ
as_i32 (pos n) = signed_32 (n % 2 ^ 32)
as_i32 (negsuc n) = signed_32 (2 ^ 32 - 1 - n % 2 ^ 32)

-- A text that is not empty.
unfoldable pub some_text : String → Option String
some_text s = if str_eq s "" then none else some s

-- `==` on optional texts.
abbrev pub same_text : Option String → Option String → Bool
same_text none none = true
same_text (some s) (some t) = str_eq s t
same_text _ _ = false
