-- ===== src/Core/LockText.antt =====
-- The text of a lock file: write_lock and read_lock of crates/wanax-core/src/lock.rs.
pub mod Lines
pub mod RoundTrip
use Prim.Native.Char.{Char, code}
use wanax.Prelude.{
  ℕ, String, Bool, true, false, not, ◌&&◌, Option, none, some, List, [], ◌∷◌, ◌++◌, str_eq, ◌==◌,
  is_empty, if◌then◌else◌,
}
use wanax.Prelude.Text.{numeral}
use wanax.Core.Contract.Sections.{lines}
use wanax.Core.Decimal.{print}
use wanax.Core.Error
use wanax.Core.Error.{Result, ok, err}
use wanax.Core.ErrorCode.{db}
use wanax.Core.TestCommand.{trim}
use wanax.Verify.Secrets.{strip_prefix, read_digits, in_u32}

pub data LockPath : Type 0 where
  lock_file : LockPath
  holder_file : String → LockPath

pub record LockInfo : Type 0 where
  pub run_id : String
  pub pid : ℕ
  pub started_at : String
  pub lock_path : LockPath
  pub exclusive : Bool
  pub paths : List String

-- `push_str`
unfoldable pub push_str : String → String → String
push_str String.[] t = t
push_str (String.◌∷◌ c s) t = String.◌∷◌ c (push_str s t)

-- A line, and the text after it.
unfoldable pub put_line : String → String → String
unfolding push_str
put_line line rest = push_str line (push_str "\n" rest)

abbrev pub bool_text : Bool → String
bool_text true = "true"
bool_text false = "false"

unfoldable pub path_lines : List String → String
unfolding put_line push_str
path_lines [] = ""
path_lines (p ∷ paths) = put_line (push_str "path=" p) (path_lines paths)

-- The text that `write_lock` leaves in the file.
unfoldable pub write_lock : LockInfo → String
unfolding path_lines put_line push_str
write_lock info = put_line (push_str "run_id=" info.run_id) (
    put_line (push_str "pid=" (numeral (print info.pid))) (
      put_line (push_str "started_at=" info.started_at)
        (put_line (push_str "exclusive=" (bool_text info.exclusive)) (path_lines info.paths))))

abbrev pub with_first : Char → Option (String × String) → Option (String × String)
with_first c none = none
with_first c (some (k, v)) = some (String.◌∷◌ c k, v)

-- `split_once('=')`
unfoldable pub split_once : String → Option (String × String)
split_once String.[] = none
split_once (String.◌∷◌ c s) =
    let rest = split_once s in if code c == b'=' then some ("", s) else with_first c rest

-- The variables of `read_lock`.
pub record Reading : Type 0 where
  pub run_id : String
  pub pid : ℕ
  pub started_at : String
  pub exclusive : Bool
  pub paths : List String
  pub saw_exclusive : Bool

abbrev pub or_zero : Option ℕ → ℕ
or_zero none = 0
or_zero (some n) = n

abbrev pub without_sign : String → Option String → String
without_sign s none = s
without_sign s (some digits) = digits

-- `parse::<u32>().unwrap_or(0)`: a plus sign may stand before the digits.
unfoldable pub read_pid : String → ℕ
unfolding strip_prefix read_digits
read_pid s =
    let digits = without_sign s (strip_prefix "+" s) in
    if str_eq digits "" then 0 else or_zero (in_u32 (read_digits 0 digits))

abbrev pub add_path : String → Reading → Reading
add_path p r = if str_eq p "" then r else record r { paths = r.paths ++ p ∷ [] }

-- The arms on the key, with the value trimmed.
unfoldable pub read_field : String → String → Reading → Reading
unfolding read_pid
read_field key v r =
    if str_eq key "run_id"
    then record r { run_id = v }
    else if str_eq key "pid"
    then record r { pid = read_pid v }
    else if str_eq key "started_at"
    then record r { started_at = v }
    else if str_eq key "exclusive"
    then record r { saw_exclusive = true; exclusive = str_eq v "true" }
    else if str_eq key "path"
    then add_path v r
    else r

abbrev pub read_pair : Option (String × String) → Reading → Reading
read_pair none r = r
read_pair (some (k, v)) r = read_field (trim k) (trim v) r

unfoldable pub read_lines : List String → Reading → Reading
unfolding split_once read_field trim
read_lines [] r = r
read_lines (line ∷ rest) r = read_lines rest (read_pair (split_once line) r)

abbrev pub reading_start : Reading
reading_start = record {
  run_id = "";
  pid = 0;
  started_at = "";
  exclusive = true;
  paths = [];
  saw_exclusive = false;
}

-- What follows the loop.
unfoldable pub finish_reading : LockPath → Reading → Result LockInfo
unfolding Error.with_detail
finish_reading path r =
    if str_eq r.run_id ""
    then err (Error.with_detail db "malformed LOCK")
    else (ok record {
      run_id = r.run_id;
      pid = r.pid;
      started_at = r.started_at;
      lock_path = path;
      exclusive = if not r.saw_exclusive && not (is_empty r.paths) then false else r.exclusive;
      paths = r.paths;
    })

unfoldable pub read_lock : LockPath → String → Result LockInfo
unfolding read_lines finish_reading lines
read_lock path text = finish_reading path (read_lines (lines text) reading_start)
