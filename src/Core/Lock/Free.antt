-- ===== src/Core/Lock/Free.antt =====
-- What it means that the loop of acquire_with (lock.rs) passed over every holder.
use wanax.Prelude.{
  ℕ, ◌≡◌, ◌⊎◌, inl, inr, refl, sym, ap, ◌∙◌, subst, String, Bool, true, false, Option, none, some,
  List, [], ◌∷◌, ◌++◌, str_eq, arith, Bool-cases, All, Option-cases,
}
use mathlib.Core.List.{Memᴰ}
use mathlib.Core.List.Memᴰ.{append_left, append_right}
use wanax.Prelude.Sort.{sort, mem-sort}
use wanax.Core.Error.{Result, ok, err, ◌>>=◌, >>=-eq-ok}
use wanax.Core.GlobOverlap.{Globset, peer_glob_sets_overlap}
use wanax.Core.GlobOverlap.Overlaps.{overlap_sym}
use wanax.Core.Lock.{
  Locks, LockFile, LockInfo, lock_file, holder_file, at_path, read_files, read_lock_file, name_le,
  list_holders_unlocked, check_holders, is_own_stale, lock_conflicts,
}
use wanax.Core.Lock.Exclusive.{IsExclusive, IsFree}

read_files-mem :
    (files : List LockFile) {infos : List LockInfo} {f : LockFile}
    → read_files files ≡ ok infos
    → Memᴰ f files
    → (i : LockInfo) × (f.content ≡ ok i) × Memᴰ (at_path (holder_file f.name) i) infos
unfolding read_files
read_files-mem [] h m = elim m [ ]
read_files-mem (x ∷ files) {infos} {f} h m =
    let (i, read, later) =
      >>=-eq-ok x.content
        (λ info. read_files files >>= λ rest. ok (at_path (holder_file x.name) info ∷ rest)) h in
    let (rest, below, made) =
      >>=-eq-ok (read_files files) (λ rest. ok (at_path (holder_file x.name) i ∷ rest)) later in
    let whole : at_path (holder_file x.name) i ∷ rest ≡ infos = cc in
    elim m [
      | Memᴰ.head e ↦ (
        i,
        ap (λ y. y.content) e ∙ read,
        subst (λ l. Memᴰ (at_path (holder_file f.name) i) l) whole
            (Memᴰ.head (ap (λ y. at_path (holder_file y.name) i) e)),
      )
      | Memᴰ.tail deeper ↦
          let (j, eq, mem) = read_files-mem files below deeper in
          (j, eq, subst (λ l. Memᴰ (at_path (holder_file f.name) j) l) whole (Memᴰ.tail mem))
    ]

-- Every file is listed, and could be read.
pub record IsListed (s : Locks) (infos : List LockInfo) : Type 0 where
  pub lock :
      {c : Result LockInfo}
      → s.lock ≡ some c
      → (i : LockInfo) × (c ≡ ok i) × Memᴰ (at_path lock_file i) infos
  pub holders :
      {f : LockFile}
      → Memᴰ f s.holders
      → (i : LockInfo) × (f.content ≡ ok i) × Memᴰ (at_path (holder_file f.name) i) infos

read_lock_file-mem :
    (o : Option (Result LockInfo)) {infos : List LockInfo} {c : Result LockInfo}
    → read_lock_file o ≡ ok infos
    → o ≡ some c
    → (i : LockInfo) × (c ≡ ok i) × Memᴰ (at_path lock_file i) infos
unfolding read_lock_file
read_lock_file-mem none h e = cc
read_lock_file-mem (some (err x)) h e = cc
read_lock_file-mem (some (ok i)) {infos} {c} h e =
    let whole : at_path lock_file i ∷ [] ≡ infos = cc in
    (i, cc, subst (λ l. Memᴰ (at_path lock_file i) l) whole (Memᴰ.head refl))

pub list_holders-IsListed :
    (s : Locks) {infos : List LockInfo} → list_holders_unlocked s ≡ ok infos → IsListed s infos
unfolding list_holders_unlocked
list_holders-IsListed s {infos} h =
    let (first, ef, later) =
      >>=-eq-ok (read_lock_file s.lock)
        (λ first. read_files (sort name_le s.holders) >>= λ rest. ok (first ++ rest)) h in
    let (rest, er, made) =
      >>=-eq-ok (read_files (sort name_le s.holders)) (λ rest. ok (first ++ rest)) later in
    let whole : first ++ rest ≡ infos = cc in
    record {
      lock = λ e.
          let (i, eq, mem) = read_lock_file-mem s.lock ef e in
          (i, eq, subst (λ l. Memᴰ (at_path lock_file i) l) whole (append_left rest mem));
      holders = λ {f} m.
          let (i, eq, mem) = read_files-mem (sort name_le s.holders) er (mem-sort name_le m) in
          (
            i,
            eq,
            subst (λ l. Memᴰ (at_path (holder_file f.name) i) l) whole (append_right first mem),
          );
    }

-- A holder that the loop passes over is the run's own and dead, or does not conflict.
check_holders-at :
    (g : Globset) (kill : ℕ → Bool) (run_id : String) (exclusive : Bool) (paths : List String)
    (resume : Bool) (infos : List LockInfo) {j : LockInfo}
    → check_holders g kill run_id exclusive paths resume infos ≡ ok tt
    → Memᴰ j infos
    → (is_own_stale kill run_id resume j ≡ true) ⊎ (lock_conflicts g j exclusive paths ≡ false)
unfolding check_holders
check_holders-at g kill run_id exclusive paths resume [] h m = elim m [ ]
check_holders-at g kill run_id exclusive paths resume (x ∷ infos) h (Memᴰ.head e) =
    elim (Bool-cases (is_own_stale kill run_id resume x)) [
      | inl own ↦ inl (ap (is_own_stale kill run_id resume) e ∙ own)
      | inr other ↦ inr (ap (λ i. lock_conflicts g i exclusive paths) e ∙ ground arith)
    ]
check_holders-at g kill run_id exclusive paths resume (x ∷ infos) h (Memᴰ.tail m) =
    check_holders-at g kill run_id exclusive paths resume infos (ground arith) m

-- No file of the directory is the run's own.
pub record IsStranger (run_id : String) (s : Locks) : Type 0 where
  pub lock : (i : LockInfo) → s.lock ≡ some (ok i) → str_eq i.run_id run_id ≡ false
  pub holders :
      (f : LockFile) (i : LockInfo)
      → Memᴰ f s.holders
      → f.content ≡ ok i
      → str_eq i.run_id run_id ≡ false

own_stale-own :
    (kill : ℕ → Bool) (run_id : String) (resume : Bool) (j : LockInfo)
    → is_own_stale kill run_id resume j ≡ true
    → (resume ≡ true) × (str_eq j.run_id run_id ≡ true)
own_stale-own kill run_id resume j h = ground arith

-- A listed holder that is not the run's own was passed over because it does not conflict.
passed-no_conflict :
    (g : Globset) (kill : ℕ → Bool) (run_id : String) (exclusive : Bool) (paths : List String)
    (resume : Bool) (infos : List LockInfo) (j : LockInfo)
    → check_holders g kill run_id exclusive paths resume infos ≡ ok tt
    → Memᴰ j infos
    → (resume ≡ true → str_eq j.run_id run_id ≡ false)
    → lock_conflicts g j exclusive paths ≡ false
passed-no_conflict g kill run_id exclusive paths resume infos j h m stranger =
    elim (check_holders-at g kill run_id exclusive paths resume infos h m) [
      | inr clear ↦ clear
      | inl own ↦
          let (resumed, same) = own_stale-own kill run_id resume j own in cc (stranger resumed)
    ]

module _ (g : Globset) (kill : ℕ → Bool) (run_id : String) (exclusive : Bool) (paths : List String)
    (resume : Bool) (s : Locks) (infos : List LockInfo) (listed : IsListed s infos)
    (checked : check_holders g kill run_id exclusive paths resume infos ≡ ok tt)
    (stranger : resume ≡ true → IsStranger run_id s) where
  holder_clear :
      (f : LockFile)
      → Memᴰ f s.holders
      → (i : LockInfo) × (f.content ≡ ok i)
        × (lock_conflicts g (at_path (holder_file f.name) i) exclusive paths ≡ false)
  holder_clear f m =
      let (i, eq, mem) = listed.holders m in
      (
        i,
        eq,
        passed-no_conflict g kill run_id exclusive paths resume infos
            (at_path (holder_file f.name) i) checked mem
            (λ resumed. (stranger resumed).holders f i m eq),
      )

  lock_clear :
      {c : Result LockInfo}
      → s.lock ≡ some c
      → (i : LockInfo) × (s.lock ≡ some (ok i))
        × (lock_conflicts g (at_path lock_file i) exclusive paths ≡ false)
  lock_clear e =
      let (i, eq, mem) = listed.lock e in
      let whole = e ∙ ap some eq in
      (
        i,
        whole,
        passed-no_conflict g kill run_id exclusive paths resume infos (at_path lock_file i) checked
            mem (λ resumed. (stranger resumed).lock i whole),
      )

  All-clear :
      (files : List LockFile)
      → ((f : LockFile) → Memᴰ f files → Memᴰ f s.holders)
      → exclusive ≡ false
      → All
          (λ f. (i : LockInfo) → f.content ≡ ok i → peer_glob_sets_overlap g paths i.paths ≡ false)
          files
  unfolding lock_conflicts
  All-clear [] within shared = tt
  All-clear (f ∷ files) within shared = (
    λ j read.
        let (i, eq, clear) = holder_clear f (within f (Memᴰ.head refl)) in
        ap (λ x. peer_glob_sets_overlap g paths x.paths) {x = j} {y = i} (cc)
        ∙ (overlap_sym g paths i.paths ∙ ground arith),
    All-clear files (λ h m. within h (Memᴰ.tail m)) shared,
  )

  -- The loop passes over every holder only if nothing stands in the way.
  pub IsFree-of_checked : IsExclusive g s → IsFree g exclusive paths s
  unfolding lock_conflicts
  IsFree-of_checked h = record {
    unlocked = elim (Option-cases s.lock) [
      | inl free ↦ free
      | inr (c, e) ↦
          let (i, whole, clear) = lock_clear e in let marked = h.marked i whole in ground arith
    ];
    unshared = λ alone.
        elim s.holders as (λ fs. (s.holders ≡ fs) → s.holders ≡ []) [
          | [] ↦ λ e. e
          | f ∷ files ↦ λ e.
              let (i, eq, clear) =
                holder_clear f (subst (λ l. Memᴰ f l) (sym e) (Memᴰ.head refl)) in
              ground arith
        ]
          refl;
    clear = λ shared. All-clear s.holders (λ f m. m) shared;
  }
