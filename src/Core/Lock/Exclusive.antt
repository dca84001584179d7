-- ===== src/Core/Lock/Exclusive.antt =====
-- Mutual exclusion of the files that acquire_with and release (crates/wanax-core/src/lock.rs) leave.
use wanax.Prelude.{
  ℕ, ◌<◌, ◌^◌, ◌≡◌, ◌⊎◌, inl, inr, refl, ap, ◌∙◌, String, Bool, true, false, not, none, some, List,
  [], ◌∷◌, str_eq, keep, if◌then◌else◌, arith, All,
}
use wanax.Core.Error.{Result, ok, err}
use wanax.Core.GlobOverlap.{Globset, peer_glob_sets_overlap}
use wanax.Core.Lock.{
  Locks, LockFile, LockInfo, LockPath, lock_file, holder_file, remove_path, remove_stale,
  remove_stale_holder_for_run, create_holder, create_lock, create_shared, release, occupied,
  has_file, content_of, put_lock, stored, clean, remove_listed, new_info, list_holders_unlocked,
}
use wanax.Core.LockText.Lines.{IsClean}
use wanax.Core.LockText.RoundTrip.{IsCleanPath, read-write_lock}
use wanax.Core.Lock.Removal.{passed, live, removed, remove_stale-Removal}

-- Two holders may stand side by side.
abbrev pub AreApart : Globset → LockFile → LockFile → Type 0
AreApart g f h =
    (i j : LockInfo)
    → f.content ≡ ok i
    → h.content ≡ ok j
    → peer_glob_sets_overlap g i.paths j.paths ≡ false

abbrev pub Apart : Globset → List LockFile → Type 0
Apart g [] = Unit
Apart g (f ∷ files) = All (λ h. AreApart g f h) files × Apart g files

-- The exclusive lock stands alone, and the globs of shared holders are pairwise without an overlap.
pub record IsExclusive (g : Globset) (s : Locks) : Type 0 where
  pub marked : (i : LockInfo) → s.lock ≡ some (ok i) → i.exclusive ≡ true
  pub alone : (s.lock ≡ none) ⊎ (s.holders ≡ [])
  pub apart : Apart g s.holders

All-keep {ℓ κ} :
    {A : Type ℓ} (P : A → Type κ) (p : A → Bool) (xs : List A) → All P xs → All P (keep p xs)
All-keep P p [] h = tt
All-keep P p (x ∷ xs) h = elim (p x) as (λ b. All P (if b then x ∷ keep p xs else keep p xs)) [
  | true ↦ (h.0, All-keep P p xs h.1)
  | false ↦ All-keep P p xs h.1
]

Apart-keep :
    (g : Globset) (p : LockFile → Bool) (files : List LockFile)
    → Apart g files
    → Apart g (keep p files)
Apart-keep g p [] h = tt
Apart-keep g p (f ∷ files) h =
    elim (p f) as (λ b. Apart g (if b then f ∷ keep p files else keep p files)) [
      | true ↦ (All-keep (λ x. AreApart g f x) p files h.0, Apart-keep g p files h.1)
      | false ↦ Apart-keep g p files h.1
    ]

remove_path-IsExclusive :
    (g : Globset) (p : LockPath) (s : Locks) → IsExclusive g s → IsExclusive g (remove_path p s)
unfolding remove_path
remove_path-IsExclusive g lock_file s h = record {
  marked = λ i e. cc;
  alone = inl refl;
  apart = h.apart;
}
remove_path-IsExclusive g (holder_file name) s h = record {
  marked = h.marked;
  alone = elim h.alone [
    | inl free ↦ inl free
    | inr empty ↦ inr (ap (λ files. keep (λ f. not (str_eq f.name name)) files) empty)
  ];
  apart = Apart-keep g (λ f. not (str_eq f.name name)) s.holders h.apart;
}

-- Releasing a lock keeps mutual exclusion.
pub release-IsExclusive :
    (g : Globset) (info : LockInfo) (s : Locks) → IsExclusive g s → IsExclusive g (release info s)
unfolding release
release-IsExclusive g info s h = remove_path-IsExclusive g info.lock_path s h

remove_stale-IsExclusive :
    (g : Globset) (kill : ℕ → Bool) (run_id : String) (infos : List LockInfo) (s : Locks)
    → IsExclusive g s
    → IsExclusive g (remove_stale kill run_id infos s).0
unfolding remove_stale
remove_stale-IsExclusive g kill run_id [] s h = h
remove_stale-IsExclusive g kill run_id (info ∷ rest) s h =
    elim (remove_stale-Removal kill run_id info rest s) as (λ r _. IsExclusive g r.0) [
      | passed other ↦ remove_stale-IsExclusive g kill run_id rest s h
      | live ↦ h
      | removed ↦
          remove_stale-IsExclusive g kill run_id rest (remove_path info.lock_path s)
            (remove_path-IsExclusive g info.lock_path s h)
    ]

-- Nothing stands in the way of a new holder: of an exclusive one no file, and of a shared one no exclusive
-- lock, and no holder whose globs overlap its own.
pub record IsFree (g : Globset) (exclusive : Bool) (paths : List String) (s : Locks) : Type 0 where
  pub unlocked : s.lock ≡ none
  pub unshared : exclusive ≡ true → s.holders ≡ []
  pub clear :
      exclusive ≡ false
      → All
          (λ f. (i : LockInfo) → f.content ≡ ok i → peer_glob_sets_overlap g paths i.paths ≡ false)
          s.holders

create_lock-IsExclusive :
    (g : Globset) (info : LockInfo) (s : Locks)
    → stored info ≡ ok info
    → info.exclusive ≡ true
    → s.holders ≡ []
    → IsExclusive g s
    → IsExclusive g (create_lock info s).0
unfolding create_lock put_lock
create_lock-IsExclusive g info s same marked empty h =
    elim s.lock as (λ o. IsExclusive g (put_lock info s o).0) [
      | some content ↦ h
      | none ↦ record {
        marked = λ i e. ap (λ x. x.exclusive) {x = i} {y = info} (ground (arith, same)) ∙ marked;
        alone = inr empty;
        apart = h.apart;
      }
    ]

new_apart :
    (g : Globset) (info : LockInfo) (name : String) (files : List LockFile)
    → stored info ≡ ok info
    → All
        (λ f.
          (i : LockInfo) → f.content ≡ ok i → peer_glob_sets_overlap g info.paths i.paths ≡ false)
        files
    → All (λ f. AreApart g (record { name = name; content = stored info }) f) files
new_apart g info name [] same h = tt
new_apart g info name (f ∷ files) same h = (
  λ i j ei ej.
      ap (λ x. peer_glob_sets_overlap g x.paths j.paths) {x = i} {y = info} (ground (arith, same))
      ∙ h.0 j ej,
  new_apart g info name files same h.1,
)

create_shared-IsExclusive :
    (g : Globset) (info : LockInfo) (s : Locks)
    → stored info ≡ ok info
    → s.lock ≡ none
    → All
        (λ f.
          (i : LockInfo) → f.content ≡ ok i → peer_glob_sets_overlap g info.paths i.paths ≡ false)
        s.holders
    → IsExclusive g s
    → IsExclusive g (create_shared info s).0
unfolding create_shared
create_shared-IsExclusive g info s same unlocked clear h =
    let taken : Locks × Result LockInfo = (s, err (occupied (content_of info.run_id s.holders))) in
    let file : LockFile = record { name = info.run_id; content = stored info } in
    let added : Locks × Result LockInfo = (record s { holders = file ∷ s.holders }, ok info) in
    elim (has_file info.run_id s.holders) as (λ b. IsExclusive g (if b then taken else added).0) [
      | true ↦ h
      | false ↦ record {
        marked = h.marked;
        alone = inl unlocked;
        apart = (new_apart g info info.run_id s.holders same clear, h.apart);
      }
    ]

-- What a request writes is read back: the run has an id, the process id is a `u32`, and no text has a blank
-- at an end, a line feed or a carriage return, and no path is empty.
pub record IsCleanRequest (run_id : String) (pid : ℕ) (now : String) (paths : List String)
    : Type 0 where
  pub run : IsCleanPath run_id
  pub number : pid < 2 ^ 32
  pub started : IsClean now
  pub globs : All IsCleanPath paths

stored_of_clean :
    (run_id : String) (pid : ℕ) (now : String) (exclusive : Bool) (paths : List String)
    → IsCleanRequest run_id pid now paths
    → stored (new_info run_id pid now exclusive paths)
      ≡ ok (new_info run_id pid now exclusive paths)
unfolding stored
stored_of_clean run_id pid now true paths h =
    read-write_lock (new_info run_id pid now true paths)
      (record { run = h.run; number = h.number; started = h.started; globs = tt })
stored_of_clean run_id pid now false paths h =
    read-write_lock (new_info run_id pid now false paths)
      (record { run = h.run; number = h.number; started = h.started; globs = h.globs })

-- A holder that is created where nothing stands in its way keeps mutual exclusion, if what is written is
-- read back.
pub create_holder-IsExclusive :
    (g : Globset) (run_id : String) (pid : ℕ) (now : String) (exclusive : Bool)
    (paths : List String) (s : Locks)
    → IsCleanRequest run_id pid now paths
    → IsFree g exclusive paths s
    → IsExclusive g s
    → IsExclusive g (create_holder run_id pid now exclusive paths s).0
unfolding create_holder
create_holder-IsExclusive g run_id pid now true paths s clean free h =
    create_lock-IsExclusive g (new_info run_id pid now true paths) s
      (stored_of_clean run_id pid now true paths clean) refl (free.unshared refl) h
create_holder-IsExclusive g run_id pid now false paths s clean free h =
    create_shared-IsExclusive g (new_info run_id pid now false paths) s
      (stored_of_clean run_id pid now false paths clean) free.unlocked (free.clear refl) h

-- Removing a run's stale holders keeps mutual exclusion.
pub clean-IsExclusive :
    (g : Globset) (kill : ℕ → Bool) (run_id : String) (resume : Bool) (s : Locks)
    → IsExclusive g s
    → IsExclusive g (clean kill run_id resume s).0
unfolding remove_stale_holder_for_run
clean-IsExclusive g kill run_id false s h = h
clean-IsExclusive g kill run_id true s h =
    elim (list_holders_unlocked s) as (λ r. IsExclusive g (remove_listed kill run_id s r).0) [
      | err e ↦ h
      | ok holders ↦ remove_stale-IsExclusive g kill run_id holders s h
    ]
