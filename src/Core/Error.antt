-- ===== src/Core/Error.antt =====
-- WanaxError of crates/wanax-core/src/error.rs and the results of fallible code.
use Prim.Native.String.{◌++◌}
use wanax.Prelude.{ℕ, String, ◌≡◌, Bool, true, false, refl}
use wanax.Core.ErrorCode
use wanax.Core.ErrorCode.{ErrorCode}

pub record WanaxError : Type 0 where
  pub code : ErrorCode
  pub message : String

unfoldable pub new : ErrorCode → String → WanaxError
new c m = record { code = c; message = m }

unfoldable pub from_code : ErrorCode → WanaxError
unfolding new
from_code c = new c (ErrorCode.default_message c)

unfoldable pub with_detail : ErrorCode → String → WanaxError
unfolding new
with_detail c detail = new c (ErrorCode.default_message c ++ (": " ++ detail))

unfoldable pub exit_code : WanaxError → ℕ
exit_code e = ErrorCode.exit_code e.code

unfoldable pub stderr_line : WanaxError → String
stderr_line e = "ERROR " ++ (ErrorCode.as_str e.code ++ (" " ++ e.message))

-- Rust's `Result<T, WanaxError>`.
pub data Result {ℓ} (T : Type ℓ) : Type ℓ where
  err : WanaxError → Result T
  ok : T → Result T

abbrev pub is_ok {ℓ} : {T : Type ℓ} → Result T → Bool
is_ok (err failure) = false
is_ok (ok value) = true

-- The operator `?`: what follows it is the second operand.
infixl 5 ◌>>=◌
abbrev pub ◌>>=◌ {κ ℓ} : {T : Type κ} {U : Type ℓ} → Result T → (T → Result U) → Result U
err failure >>= next = err failure
ok value >>= next = next value

pub >>=-eq-ok {κ ℓ} :
    {T : Type κ} {U : Type ℓ} (first : Result T) (next : T → Result U) {last : U}
    → (first >>= next) ≡ ok last
    → (value : T) × (first ≡ ok value) × (next value ≡ ok last)
>>=-eq-ok (err failure) next whole = cc
>>=-eq-ok (ok value) next whole = (value, refl, whole)
