-- ===== src/Core/Lock/Acquired.antt =====
-- The calls of acquire_with and release (crates/wanax-core/src/lock.rs), one after the other.
use wanax.Prelude.{
  ℕ, ◌≡◌, inl, inr, refl, ap, ◌∙◌, String, Bool, true, false, none, List, [], ◌∷◌, str_eq, eq_refl,
  Bool-cases,
}
use wanax.Core.Error.{Result, ok, err, >>=-eq-ok}
use wanax.Core.GlobOverlap.{Globset}
use wanax.Core.Lock.{
  Locks, LockInfo, LockAcquire, lock_file, holder_file, at_path, wants_all, clean, remove_listed,
  remove_stale, remove_stale_holder_for_run, list_holders_unlocked, check_holders, check_all,
  create_if, acquire_after, acquire_with, release,
}
use wanax.Core.Lock.Removal.{remove_stale-IsLess, Absent, remove_stale-Absent}
use wanax.Core.Lock.Exclusive.{
  IsExclusive, IsCleanRequest, create_holder-IsExclusive, clean-IsExclusive, release-IsExclusive,
}
use wanax.Core.Lock.Free.{IsListed, IsStranger, list_holders-IsListed, IsFree-of_checked}

-- After the stale holders of the run have been removed, no file is the run's own.
remove_stale-IsStranger :
    (kill : ℕ → Bool) (run_id : String) (s : Locks) (infos : List LockInfo)
    → IsListed s infos
    → (remove_stale kill run_id infos s).1 ≡ ok tt
    → IsStranger run_id (remove_stale kill run_id infos s).0
unfolding Absent
remove_stale-IsStranger kill run_id s infos listed done =
    let less = remove_stale-IsLess kill run_id infos s in
    record {
      lock = λ i e.
          let (j, eq, mem) = listed.lock (less.lock e) in
          elim (Bool-cases (str_eq i.run_id run_id)) [
            | inr other ↦ other
            | inl own ↦
                let gone =
                  remove_stale-Absent kill run_id infos s {j = at_path lock_file j} mem
                    (ap (λ x. str_eq x.run_id run_id) {x = j} {y = i} (cc) ∙ own) done in
                cc
          ];
      holders = λ f i m e.
          let (j, eq, mem) = listed.holders (less.holders m) in
          elim (Bool-cases (str_eq i.run_id run_id)) [
            | inr other ↦ other
            | inl own ↦
                let gone =
                  remove_stale-Absent kill run_id infos s {j = at_path (holder_file f.name) j} mem
                    (ap (λ x. str_eq x.run_id run_id) {x = j} {y = i} (cc) ∙ own) done in
                let differs = gone f m in let same = eq_refl f.name in cc
          ];
    }

clean-IsStranger :
    (kill : ℕ → Bool) (run_id : String) (resume : Bool) (s : Locks)
    → (clean kill run_id resume s).1 ≡ ok tt
    → resume ≡ true
    → IsStranger run_id (clean kill run_id resume s).0
unfolding remove_stale_holder_for_run
clean-IsStranger kill run_id false s done resumed = cc
clean-IsStranger kill run_id true s done resumed =
    elim (list_holders_unlocked s)
        as (λ r.
          (list_holders_unlocked s ≡ r)
          → ((remove_listed kill run_id s r).1 ≡ ok tt)
          → IsStranger run_id (remove_listed kill run_id s r).0) [
            | err e ↦ λ _ fails. cc
            | ok infos ↦ λ listed fine.
                remove_stale-IsStranger kill run_id s infos (list_holders-IsListed s listed) fine
          ]
      refl done

create_if-IsExclusive :
    (g : Globset) (kill : ℕ → Bool) (pid : ℕ) (now run_id : String) (req : LockAcquire) (s : Locks)
    (answer : Result {0} Unit)
    → IsCleanRequest run_id pid now req.paths
    → check_all g kill run_id req s ≡ answer
    → (req.resume ≡ true → IsStranger run_id s)
    → IsExclusive g s
    → IsExclusive g (create_if pid now run_id req s answer).0
unfolding create_if check_all
create_if-IsExclusive g kill pid now run_id req s (err e) written checked stranger h = h
create_if-IsExclusive g kill pid now run_id req s (ok tt) written checked stranger h =
    let (infos, listed, passed) =
      >>=-eq-ok (list_holders_unlocked s)
        (λ holders. check_holders g kill run_id (wants_all req) req.paths req.resume holders)
        checked in
    create_holder-IsExclusive g run_id pid now (wants_all req) req.paths s written
      (IsFree-of_checked g kill run_id (wants_all req) req.paths req.resume s infos
        (list_holders-IsListed s listed) passed stranger h)
      h

acquire_after-IsExclusive :
    (g : Globset) (kill : ℕ → Bool) (pid : ℕ) (now run_id : String) (req : LockAcquire)
    (r : Locks × Result {0} Unit)
    → IsCleanRequest run_id pid now req.paths
    → (r.1 ≡ ok tt → req.resume ≡ true → IsStranger run_id r.0)
    → IsExclusive g r.0
    → IsExclusive g (acquire_after g kill pid now run_id req r).0
unfolding acquire_after
acquire_after-IsExclusive g kill pid now run_id req (s, err e) written stranger h = h
acquire_after-IsExclusive g kill pid now run_id req (s, ok tt) written stranger h =
    create_if-IsExclusive g kill pid now run_id req s (check_all g kill run_id req s) written refl
      (stranger refl) h

-- Whatever is asked for, if it is read back as it is written, and whichever processes live, `acquire_with` keeps mutual exclusion, also when it
-- fails.
pub acquire_with-IsExclusive :
    (g : Globset) (kill : ℕ → Bool) (pid : ℕ) (now run_id : String) (req : LockAcquire) (s : Locks)
    → IsCleanRequest run_id pid now req.paths
    → IsExclusive g s
    → IsExclusive g (acquire_with g kill pid now run_id req s).0
unfolding acquire_with
acquire_with-IsExclusive g kill pid now run_id req s written h =
    acquire_after-IsExclusive g kill pid now run_id req (clean kill run_id req.resume s) written
      (λ done resumed. clean-IsStranger kill run_id req.resume s done resumed)
      (clean-IsExclusive g kill run_id req.resume s h)

-- A call by some process: the time, the processes that live, and what is asked for or given back.
pub data Call : Type 0 where
  acquire : (ℕ → Bool) → ℕ → String → String → LockAcquire → Call
  give_back : LockInfo → Call

unfoldable pub after_calls : Globset → List Call → Locks → Locks
after_calls g [] s = s
after_calls g (acquire kill pid now run_id req ∷ calls) s =
    after_calls g calls (acquire_with g kill pid now run_id req s).0
after_calls g (give_back info ∷ calls) s = after_calls g calls (release info s)

abbrev pub no_locks : Locks
no_locks = record { lock = none; holders = [] }

-- What the calls write is read back as it is.
abbrev pub AreClean : List Call → Type 0
AreClean [] = Unit
AreClean (acquire kill pid now run_id req ∷ calls) =
    IsCleanRequest run_id pid now req.paths × AreClean calls
AreClean (give_back info ∷ calls) = AreClean calls

calls-IsExclusive :
    (g : Globset) (calls : List Call) (s : Locks)
    → AreClean calls
    → IsExclusive g s
    → IsExclusive g (after_calls g calls s)
unfolding after_calls
calls-IsExclusive g [] s written h = h
calls-IsExclusive g (acquire kill pid now run_id req ∷ calls) s written h =
    calls-IsExclusive g calls (acquire_with g kill pid now run_id req s).0 written.1
      (acquire_with-IsExclusive g kill pid now run_id req s written.0 h)
calls-IsExclusive g (give_back info ∷ calls) s written h =
    calls-IsExclusive g calls (release info s) written (release-IsExclusive g info s h)

-- After any sequence of calls on a repository without locks, in any interleaving of the processes and
-- whichever of them die, the exclusive lock stands alone, and shared holders have no globs that overlap, if
-- what the calls write is read back: run ids and globs are not empty, no text has a blank at an end, a line
-- feed or a carriage return, and process ids are `u32`s.
pub locks-IsExclusive :
    (g : Globset) (calls : List Call)
    → AreClean calls
    → IsExclusive g (after_calls g calls no_locks)
locks-IsExclusive g calls written =
    calls-IsExclusive g calls no_locks written
      (record { marked = λ i e. cc; alone = inl refl; apart = tt })
