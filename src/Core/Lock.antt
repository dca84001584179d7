-- ===== src/Core/Lock.antt =====
-- The locks on a repository: crates/wanax-core/src/lock.rs. The directory .wanax is a state: the file LOCK
-- and the files of the directory locks, each with what `read_lock` makes of its text. All of `acquire_with` runs
-- under the file lock on LOCKSET, so that it is one step. `kill -0` is an argument; file operations that
-- the system refuses are not modelled.
pub mod Removal
pub mod Exclusive
pub mod Free
pub mod Acquired
use Prim.Native.String.{◌++◌ as append}
use wanax.Prelude.{
  ℕ, String, Bool, true, false, not, ◌&&◌, ◌||◌, Option, none, some, List, [], ◌∷◌, ◌++◌, str_eq,
  ◌==◌, any, keep, is_empty, if◌then◌else◌,
}
use wanax.Prelude.Text.{numeral}
use wanax.Core.Decimal.{print}
use wanax.Prelude.Sort.{sort, str_le}
use wanax.Core.ErrorCode.{db, repo_locked}
use wanax.Core.Error
use wanax.Core.Error.{WanaxError, Result, ok, err, ◌>>=◌}
pub use wanax.Core.LockText.{LockPath, lock_file, holder_file, LockInfo}
use wanax.Core.LockText.{write_lock, read_lock}
use wanax.Core.GlobOverlap.{Globset, peer_glob_sets_overlap}

pub record LockAcquire : Type 0 where
  pub exclusive : Bool
  pub paths : List String
  pub resume : Bool

-- A file of the directory locks.
pub record LockFile : Type 0 where
  pub name : String
  pub content : Result LockInfo

pub record Locks : Type 0 where
  pub lock : Option (Result LockInfo)
  pub holders : List LockFile

-- `read_lock` gives the path that it read.
abbrev pub at_path : LockPath → LockInfo → LockInfo
at_path path info = record info { lock_path = path }

unfoldable pub read_files : List LockFile → Result (List LockInfo)
read_files [] = ok []
read_files (f ∷ files) =
    f.content >>= λ info. read_files files >>= λ rest. ok (at_path (holder_file f.name) info ∷ rest)

unfoldable pub read_lock_file : Option (Result LockInfo) → Result (List LockInfo)
read_lock_file none = ok []
read_lock_file (some content) = content >>= λ info. ok (at_path lock_file info ∷ [])

abbrev pub name_le : LockFile → LockFile → Bool
name_le f g = str_le f.name g.name

unfoldable pub list_holders_unlocked : Locks → Result (List LockInfo)
unfolding read_files read_lock_file
list_holders_unlocked s = read_lock_file s.lock >>= λ first.
    read_files (sort name_le s.holders) >>= λ rest. ok (first ++ rest)

-- `fs::remove_file`, of a file that may not be there.
unfoldable pub remove_path : LockPath → Locks → Locks
remove_path lock_file s = record s { lock = none }
remove_path (holder_file name) s = record s {
  holders = keep (λ f. not (str_eq f.name name)) s.holders;
}

unfoldable pub pid_alive : (ℕ → Bool) → ℕ → Bool
pid_alive kill pid = if pid == 0 then false else kill pid

unfoldable pub locked_by : String → WanaxError
unfolding Error.new
locked_by run_id = Error.new repo_locked (append "repo locked by run " run_id)

-- The loop of `remove_stale_holder_for_run`: what was removed stays so when it stops at a live holder.
unfoldable pub remove_stale : (ℕ → Bool) → String → List LockInfo → Locks → Locks × Result {0} Unit
unfolding remove_path pid_alive locked_by
remove_stale kill run_id [] s = (s, ok tt)
remove_stale kill run_id (info ∷ rest) s =
    let passed = remove_stale kill run_id rest s in
    let removed = remove_stale kill run_id rest (remove_path info.lock_path s) in
    if not (str_eq info.run_id run_id)
    then passed
    else if pid_alive kill info.pid
    then (s, err (locked_by info.run_id))
    else removed

abbrev pub remove_listed :
    (ℕ → Bool) → String → Locks → Result (List LockInfo) → Locks × Result {0} Unit
remove_listed kill run_id s (err e) = (s, err e)
remove_listed kill run_id s (ok holders) = remove_stale kill run_id holders s

unfoldable pub remove_stale_holder_for_run : (ℕ → Bool) → String → Locks → Locks × Result {0} Unit
unfolding list_holders_unlocked
remove_stale_holder_for_run kill run_id s = remove_listed kill run_id s (list_holders_unlocked s)

unfoldable pub lock_conflicts : Globset → LockInfo → Bool → List String → Bool
unfolding peer_glob_sets_overlap
lock_conflicts g existing exclusive paths =
    if existing.exclusive || exclusive then true else peer_glob_sets_overlap g existing.paths paths

-- Whether the loop of `acquire_with` passes a holder by: its own run's, which is dead.
abbrev pub is_own_stale : (ℕ → Bool) → String → Bool → LockInfo → Bool
is_own_stale kill run_id resume existing =
    resume && str_eq existing.run_id run_id && not (pid_alive kill existing.pid)

-- The error on a holder in the way, which says so when its process is dead.
unfoldable pub blocked_by : (ℕ → Bool) → LockInfo → WanaxError
unfolding Error.new pid_alive
blocked_by kill existing = Error.new repo_locked (
    append "repo locked by run " (
      append existing.run_id (
        if pid_alive kill existing.pid
        then ""
        else append " (stale lock pid=" (append (numeral (print existing.pid)) ")"))))

unfoldable pub check_holders :
    Globset → (ℕ → Bool) → String → Bool → List String → Bool → List LockInfo → Result {0} Unit
unfolding pid_alive locked_by blocked_by lock_conflicts
check_holders g kill run_id exclusive paths resume [] = ok tt
check_holders g kill run_id exclusive paths resume (existing ∷ rest) =
    let later = check_holders g kill run_id exclusive paths resume rest in
    if is_own_stale kill run_id resume existing
    then later
    else if str_eq existing.run_id run_id && pid_alive kill existing.pid
    then err (locked_by existing.run_id)
    else if lock_conflicts g existing exclusive paths
    then err (blocked_by kill existing)
    else later

abbrev pub has_file : String → List LockFile → Bool
has_file name files = any (λ f. str_eq f.name name) files

-- The error of `create_holder` on a file that is there.
unfoldable pub occupied : Result LockInfo → WanaxError
unfolding locked_by Error.from_code
occupied (ok existing) = locked_by existing.run_id
occupied (err e) = Error.from_code repo_locked

abbrev pub content_of : String → List LockFile → Result LockInfo
content_of name [] = err (Error.from_code db)
content_of name (f ∷ files) = if str_eq f.name name then f.content else content_of name files

-- What the new file holds.
abbrev pub new_info : String → ℕ → String → Bool → List String → LockInfo
new_info run_id pid now exclusive paths = record {
  run_id = run_id;
  pid = pid;
  started_at = now;
  lock_path = if exclusive then lock_file else holder_file run_id;
  exclusive = exclusive;
  paths = if exclusive then [] else paths;
}

-- What `read_lock` makes of the text that `write_lock` leaves.
unfoldable pub stored : LockInfo → Result LockInfo
unfolding read_lock write_lock
stored info = read_lock info.lock_path (write_lock info)

-- The file LOCK, if it is there, and else a new one.
unfoldable pub put_lock : LockInfo → Locks → Option (Result LockInfo) → Locks × Result LockInfo
unfolding occupied stored
put_lock info s (some content) = (s, err (occupied content))
put_lock info s none = (record s { lock = some (stored info) }, ok info)

unfoldable pub create_lock : LockInfo → Locks → Locks × Result LockInfo
unfolding put_lock
create_lock info s = put_lock info s s.lock

unfoldable pub create_shared : LockInfo → Locks → Locks × Result LockInfo
unfolding occupied stored
create_shared info s =
    if has_file info.run_id s.holders
    then (s, err (occupied (content_of info.run_id s.holders)))
    else (
      record s { holders = record { name = info.run_id; content = stored info } ∷ s.holders },
      ok info,
    )

unfoldable pub create_holder :
    String → ℕ → String → Bool → List String → Locks → Locks × Result LockInfo
unfolding create_lock create_shared
create_holder run_id pid now exclusive paths s =
    let info = new_info run_id pid now exclusive paths in
    if exclusive then create_lock info s else create_shared info s

-- `req.exclusive || req.paths.is_empty()`
abbrev pub wants_all : LockAcquire → Bool
wants_all req = req.exclusive || is_empty req.paths

-- The end of `acquire_with`: the holder is created unless the checks failed.
unfoldable pub create_if :
    ℕ → String → String → LockAcquire → Locks → Result {0} Unit → Locks × Result LockInfo
unfolding create_holder
create_if pid now run_id req s (err e) = (s, err e)
create_if pid now run_id req s (ok _) = create_holder run_id pid now (wants_all req) req.paths s

unfoldable pub check_all : Globset → (ℕ → Bool) → String → LockAcquire → Locks → Result {0} Unit
unfolding list_holders_unlocked check_holders
check_all g kill run_id req s = list_holders_unlocked s >>= λ holders.
    check_holders g kill run_id (wants_all req) req.paths req.resume holders

-- The body of `acquire_with` once stale holders are removed, or could not be.
unfoldable pub acquire_after :
    Globset
    → (ℕ → Bool)
    → ℕ
    → String
    → String
    → LockAcquire
    → Locks × Result {0} Unit
    → Locks × Result LockInfo
unfolding check_all create_if
acquire_after g kill pid now run_id req (s, err e) = (s, err e)
acquire_after g kill pid now run_id req (s, ok _) =
    create_if pid now run_id req s (check_all g kill run_id req s)

abbrev pub clean : (ℕ → Bool) → String → Bool → Locks → Locks × Result {0} Unit
clean kill run_id true s = remove_stale_holder_for_run kill run_id s
clean kill run_id false s = (s, ok tt)

unfoldable pub acquire_with :
    Globset → (ℕ → Bool) → ℕ → String → String → LockAcquire → Locks → Locks × Result LockInfo
unfolding acquire_after
acquire_with g kill pid now run_id req s =
    acquire_after g kill pid now run_id req (clean kill run_id req.resume s)

unfoldable pub release : LockInfo → Locks → Locks
unfolding remove_path
release info s = remove_path info.lock_path s
