-- ===== src/Core/LockText/RoundTrip.antt =====
-- What read_lock (crates/wanax-core/src/lock.rs) reads of a text of write_lock.
use Prim.Native.Char.{Char, code}
use mathlib.Core.List.{append-nil, append_assoc}
use wanax.Prelude.{
  ℕ, ◌+◌, ◌-◌, ◌*◌, ◌^◌, ◌<◌, ◌≡◌, refl, sym, ap, ◌∙◌, String, Bool, true, false, none, some, List,
  [], ◌∷◌, ◌++◌, str_eq, eq_iff, if◌then◌else◌, length, All, all, arith, Bool-cases, inl, inr,
}
use wanax.Prelude.Text.{numeral}
use wanax.Core.Contract.Sections.{lines}
use wanax.Core.Decimal.{print, is_digit, all-print, print-pos, value, value-print}
use wanax.Core.Error.{ok}
use wanax.Core.Env.{trim_left, trim_right}
use wanax.Core.Money.{is_whitespace}
use wanax.Core.TestCommand.{trim}
use wanax.Verify.Secrets.{strip_prefix, read_digits, in_u32}
use wanax.Core.LockText.{
  LockInfo, push_str, put_line, bool_text, path_lines, write_lock, split_once, Reading, or_zero,
  without_sign, read_pid, add_path, read_field, read_pair, read_lines, reading_start,
  finish_reading, read_lock,
}
use wanax.Core.LockText.Lines.{IsLine, IsClean, lines-put_line, numeral-cons, numeral-IsClean}

read_digits-numeral :
    (acc : ℕ) (s : List ℕ)
    → all is_digit s ≡ true
    → read_digits acc (numeral s) ≡ some (value acc s)
unfolding read_digits value
read_digits-numeral acc [] h = refl
read_digits-numeral acc (c ∷ s) h =
    let (d, is, text) = numeral-cons c s (ground arith) in
    ap (read_digits acc) text
    ∙ (ground (arith, is, ap (λ (k : ℕ). read_digits (acc * 10 + (k - 48)) (numeral s)) is)
        ∙ read_digits-numeral (acc * 10 + (c - 48)) s (ground arith))

no_sign :
    (d : Char) (s : String) → is_digit (code d) ≡ true → strip_prefix "+" (String.◌∷◌ d s) ≡ none
unfolding strip_prefix
no_sign d s h = ground arith

cons_full : (d : Char) (s : String) → str_eq (String.◌∷◌ d s) "" ≡ false
cons_full d s = elim (Bool-cases (str_eq (String.◌∷◌ d s) "")) [
  | inr e ↦ e
  | inl e ↦ let same = (eq_iff (String.◌∷◌ d s) "").0 e in cc
]

read_pid-digits :
    (ds : List ℕ)
    → all is_digit ds ≡ true
    → 0 < length ds
    → read_pid (numeral ds) ≡ or_zero (in_u32 (some (value 0 ds)))
unfolding read_pid
read_pid-digits [] h full = absurd (omega arith)
read_pid-digits (c ∷ s) h full =
    let (d, is, text) = numeral-cons c s (ground arith) in
    let Read = λ (t : String). or_zero (in_u32 (read_digits 0 t)) in
    let plain = no_sign d (numeral s) (ap is_digit is ∙ ground arith) in
    ap read_pid text
    ∙ (ap
          (λ o.
            let digits = without_sign (String.◌∷◌ d (numeral s)) o in
            if str_eq digits "" then 0 else or_zero (in_u32 (read_digits 0 digits)))
          plain
        ∙ (ap (λ b. if b then 0 else Read (String.◌∷◌ d (numeral s))) (cons_full d (numeral s))
            ∙ ap Read (sym text)
            ∙ ap (λ o. or_zero (in_u32 o)) (read_digits-numeral 0 (c ∷ s) h)))

read_pid-numeral : (n : ℕ) → n < 2 ^ 32 → read_pid (numeral (print n)) ≡ n
read_pid-numeral n h =
    read_pid-digits (print n) (all-print n) (print-pos n) ∙ ground (arith, value-print n)

-- A key before a text adds no line feed and no carriage return.
IsLine-run_id : (v : String) → IsLine v → IsLine (push_str "run_id=" v)
unfolding push_str
IsLine-run_id v h = h

IsLine-pid : (v : String) → IsLine v → IsLine (push_str "pid=" v)
unfolding push_str
IsLine-pid v h = h

IsLine-started_at : (v : String) → IsLine v → IsLine (push_str "started_at=" v)
unfolding push_str
IsLine-started_at v h = h

IsLine-exclusive : (b : Bool) → IsLine (push_str "exclusive=" (bool_text b))
unfolding push_str
IsLine-exclusive true = refl
IsLine-exclusive false = refl

IsLine-path : (v : String) → IsLine v → IsLine (push_str "path=" v)
unfolding push_str
IsLine-path v h = h

one_line :
    (line text : String) (r : Reading) {t : Reading}
    → IsLine line
    → read_pair (split_once line) r ≡ t
    → read_lines (lines (put_line line text)) r ≡ read_lines (lines text) t
unfolding read_lines
one_line line text r whole is =
    ap (λ ls. read_lines ls r) (lines-put_line line text whole)
    ∙ ap (λ t. read_lines (lines text) t) is

-- One line of a file, with its key, is read.
run_id_line :
    (v : String) (r : Reading)
    → trim v ≡ v
    → read_pair (split_once (push_str "run_id=" v)) r ≡ record r { run_id = v }
unfolding push_str split_once read_field trim trim_left trim_right is_whitespace
run_id_line v r h = ap (λ t. record r { run_id = t }) h

pid_line :
    (v : String) (r : Reading)
    → trim v ≡ v
    → read_pair (split_once (push_str "pid=" v)) r ≡ record r { pid = read_pid v }
unfolding push_str split_once read_field trim trim_left trim_right is_whitespace
pid_line v r h = ap (λ t. record r { pid = read_pid t }) h

started_at_line :
    (v : String) (r : Reading)
    → trim v ≡ v
    → read_pair (split_once (push_str "started_at=" v)) r ≡ record r { started_at = v }
unfolding push_str split_once read_field trim trim_left trim_right is_whitespace
started_at_line v r h = ap (λ t. record r { started_at = t }) h

exclusive_line :
    (b : Bool) (r : Reading)
    → read_pair (split_once (push_str "exclusive=" (bool_text b))) r
      ≡ record r { saw_exclusive = true; exclusive = b }
unfolding push_str split_once read_field trim trim_left trim_right is_whitespace
exclusive_line true r = refl
exclusive_line false r = refl

path_line :
    (v : String) (r : Reading)
    → trim v ≡ v
    → str_eq v "" ≡ false
    → read_pair (split_once (push_str "path=" v)) r ≡ record r { paths = r.paths ++ v ∷ [] }
unfolding push_str split_once read_field trim trim_left trim_right is_whitespace
path_line v r h full =
    ap (λ t. add_path t r) h
    ∙ ap (λ b. if b then r else record r { paths = r.paths ++ v ∷ [] }) full

-- A path that is kept: clean, and not empty.
pub record IsCleanPath (p : String) : Type 0 where
  pub clean : IsClean p
  pub full : str_eq p "" ≡ false

read_lines-paths :
    (ps : List String) (r : Reading)
    → All IsCleanPath ps
    → read_lines (lines (path_lines ps)) r ≡ record r { paths = r.paths ++ ps }
unfolding read_lines path_lines lines
read_lines-paths [] r h = ap (λ l. record r { paths = l }) (sym (append-nil r.paths))
read_lines-paths (p ∷ ps) r h =
    ap (λ ls. read_lines ls r)
      (lines-put_line (push_str "path=" p) (path_lines ps) (IsLine-path p h.0.clean.line))
    ∙ (ap (λ (t : Reading). read_lines (lines (path_lines ps)) t)
          (path_line p r h.0.clean.trimmed h.0.full)
        ∙ (read_lines-paths ps (record r { paths = r.paths ++ p ∷ [] }) h.1
            ∙ ap (λ l. record r { paths = l }) (append_assoc r.paths (p ∷ []) ps)))

-- A lock is clean: a run with an id, a process id that is a `u32`, and texts that are read back.
pub record IsCleanLock (info : LockInfo) : Type 0 where
  pub run : IsCleanPath info.run_id
  pub number : info.pid < 2 ^ 32
  pub started : IsClean info.started_at
  pub globs : All IsCleanPath info.paths

read_lines-write_lock :
    (info : LockInfo)
    → IsCleanLock info
    → read_lines (lines (write_lock info)) reading_start ≡ record {
      run_id = info.run_id;
      pid = info.pid;
      started_at = info.started_at;
      exclusive = info.exclusive;
      paths = info.paths;
      saw_exclusive = true;
    }
unfolding read_lines write_lock
read_lines-write_lock info h =
    let Read = λ (t : Reading) (text : String). read_lines (lines text) t in
    let number = numeral (print info.pid) in
    let r1 : Reading = record reading_start { run_id = info.run_id } in
    let r2 : Reading = record r1 { pid = info.pid } in
    let r3 : Reading = record r2 { started_at = info.started_at } in
    let r4 : Reading = record r3 { saw_exclusive = true; exclusive = info.exclusive } in
    let last = push_str "exclusive=" (bool_text info.exclusive) in
    let t3 = put_line last (path_lines info.paths) in
    let t2 = put_line (push_str "started_at=" info.started_at) t3 in
    let t1 = put_line (push_str "pid=" number) t2 in
    one_line (push_str "run_id=" info.run_id) t1 reading_start
      (IsLine-run_id info.run_id h.run.clean.line)
      (run_id_line info.run_id reading_start h.run.clean.trimmed)
    ∙ (one_line (push_str "pid=" number) t2 r1 (IsLine-pid number (numeral-IsClean info.pid).line) (
          pid_line number r1 (numeral-IsClean info.pid).trimmed
          ∙ ap (λ (n : ℕ). record r1 { pid = n }) (read_pid-numeral info.pid h.number))
        ∙ (one_line (push_str "started_at=" info.started_at) t3 r2
              (IsLine-started_at info.started_at h.started.line)
              (started_at_line info.started_at r2 h.started.trimmed)
            ∙ (one_line last (path_lines info.paths) r3 (IsLine-exclusive info.exclusive)
                  (exclusive_line info.exclusive r3)
                ∙ read_lines-paths info.paths r4 h.globs)))

-- What is written of a lock is read back whole, if its run id and its paths are not empty, no text has a
-- blank at an end, a line feed or a carriage return, and the process id is a `u32`.
pub read-write_lock :
    (info : LockInfo) → IsCleanLock info → read_lock info.lock_path (write_lock info) ≡ ok info
unfolding read_lock finish_reading
read-write_lock info h =
    ap (finish_reading info.lock_path) (read_lines-write_lock info h) ∙ ground (arith, h.run.full)
