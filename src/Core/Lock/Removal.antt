-- ===== src/Core/Lock/Removal.antt =====
-- What the removal of a run's stale holders (crates/wanax-core/src/lock.rs) takes away.
use wanax.Prelude.{
  ℕ, ◌≡◌, inl, inr, refl, sym, ap, ◌∙◌, subst, String, Bool, true, false, not, none, some, List, [],
  ◌∷◌, str_eq, if◌then◌else◌, arith, Bool-cases, mem-keep,
}
use mathlib.Core.List.{Memᴰ}
use wanax.Core.Error.{Result, ok, err}
use wanax.Core.Lock.{
  Locks, LockFile, LockInfo, LockPath, lock_file, holder_file, remove_path, remove_stale, pid_alive,
  locked_by,
}

-- One turn of the loop: another run's holder is passed by, a live one stops it, a dead one is removed.
pub data Removal (kill : ℕ → Bool) (run_id : String) (info : LockInfo) (rest : List LockInfo)
    (s : Locks) : Locks × Result {0} Unit → Type 0 where
  passed :
      str_eq info.run_id run_id ≡ false
      → Removal kill run_id info rest s (remove_stale kill run_id rest s)
  live : Removal kill run_id info rest s (s, err (locked_by info.run_id))
  removed :
      Removal kill run_id info rest s (remove_stale kill run_id rest (remove_path info.lock_path s))

pub remove_stale-Removal :
    (kill : ℕ → Bool) (run_id : String) (info : LockInfo) (rest : List LockInfo) (s : Locks)
    → Removal kill run_id info rest s (remove_stale kill run_id (info ∷ rest) s)
unfolding remove_stale
remove_stale-Removal kill run_id info rest s =
    let gone = remove_stale kill run_id rest (remove_path info.lock_path s) in
    let stays = remove_stale kill run_id rest s in
    let stop : Locks × Result {0} Unit = (s, err (locked_by info.run_id)) in
    elim (Bool-cases (str_eq info.run_id run_id)) [
      | inr other ↦
          subst
            (λ b.
              Removal kill run_id info rest s
                (if not b then stays else if pid_alive kill info.pid then stop else gone))
            (sym other) (passed other)
      | inl own ↦
          subst
            (λ b.
              Removal kill run_id info rest s
                (if not b then stays else if pid_alive kill info.pid then stop else gone))
            (sym own)
            (elim (Bool-cases (pid_alive kill info.pid)) [
              | inl alive ↦
                  subst (λ b. Removal kill run_id info rest s (if b then stop else gone))
                    (sym alive) live
              | inr dead ↦
                  subst (λ b. Removal kill run_id info rest s (if b then stop else gone)) (sym dead)
                    removed
            ])
    ]

-- The files of the second state are files of the first.
pub record IsLess (t s : Locks) : Type 0 where
  pub lock : {c : Result LockInfo} → t.lock ≡ some c → s.lock ≡ some c
  pub holders : {f : LockFile} → Memᴰ f t.holders → Memᴰ f s.holders

IsLess-refl : (s : Locks) → IsLess s s
IsLess-refl s = record { lock = λ e. e; holders = λ m. m }

IsLess-trans : {u t s : Locks} → IsLess u t → IsLess t s → IsLess u s
IsLess-trans h k = record { lock = λ e. k.lock (h.lock e); holders = λ m. k.holders (h.holders m) }

remove_path-IsLess : (p : LockPath) (s : Locks) → IsLess (remove_path p s) s
unfolding remove_path
remove_path-IsLess lock_file s = record { lock = λ e. cc; holders = λ m. m }
remove_path-IsLess (holder_file name) s = record {
  lock = λ e. e;
  holders = λ m. (mem-keep (λ f. not (str_eq f.name name)) s.holders m).0;
}

pub remove_stale-IsLess :
    (kill : ℕ → Bool) (run_id : String) (infos : List LockInfo) (s : Locks)
    → IsLess (remove_stale kill run_id infos s).0 s
unfolding remove_stale
remove_stale-IsLess kill run_id [] s = IsLess-refl s
remove_stale-IsLess kill run_id (info ∷ rest) s =
    elim (remove_stale-Removal kill run_id info rest s) as (λ r _. IsLess r.0 s) [
      | passed other ↦ remove_stale-IsLess kill run_id rest s
      | live ↦ IsLess-refl s
      | removed ↦
          IsLess-trans (remove_stale-IsLess kill run_id rest (remove_path info.lock_path s))
            (remove_path-IsLess info.lock_path s)
    ]

-- No file stands at the path.
unfoldable pub Absent : LockPath → Locks → Type 0
Absent lock_file s = s.lock ≡ none
Absent (holder_file name) s = (f : LockFile) → Memᴰ f s.holders → str_eq f.name name ≡ false

IsLess-Absent : (p : LockPath) {t s : Locks} → IsLess t s → Absent p s → Absent p t
unfolding Absent
IsLess-Absent lock_file {t} less gone =
    elim t.lock as (λ o. (t.lock ≡ o) → t.lock ≡ none) [
      | none ↦ λ e. e
      | some c ↦ λ e. cc (less.lock e)
    ]
      refl
IsLess-Absent (holder_file name) less gone = λ f m. gone f (less.holders m)

remove_path-Absent : (p : LockPath) (s : Locks) → Absent p (remove_path p s)
unfolding Absent remove_path
remove_path-Absent lock_file s = refl
remove_path-Absent (holder_file name) s =
    λ f m. let kept = (mem-keep (λ h. not (str_eq h.name name)) s.holders m).1 in ground arith

-- After a removal that succeeds, every holder of the run that was listed is gone.
pub remove_stale-Absent :
    (kill : ℕ → Bool) (run_id : String) (infos : List LockInfo) (s : Locks) {j : LockInfo}
    → Memᴰ j infos
    → str_eq j.run_id run_id ≡ true
    → (remove_stale kill run_id infos s).1 ≡ ok tt
    → Absent j.lock_path (remove_stale kill run_id infos s).0
unfolding remove_stale
remove_stale-Absent kill run_id [] s m own done = elim m [ ]
remove_stale-Absent kill run_id (info ∷ rest) s {j} (Memᴰ.head e) own done =
    elim (remove_stale-Removal kill run_id info rest s)
        as (λ r _. (r.1 ≡ ok tt) → Absent j.lock_path r.0) [
          | passed other ↦ λ _. cc (sym (ap (λ i. str_eq i.run_id run_id) e) ∙ own)
          | live ↦ λ fails. cc
          | removed ↦ λ _.
              subst (λ p. Absent p (remove_stale kill run_id rest (remove_path info.lock_path s)).0)
                (sym (ap (λ i. i.lock_path) e))
                (IsLess-Absent info.lock_path
                  (remove_stale-IsLess kill run_id rest (remove_path info.lock_path s))
                  (remove_path-Absent info.lock_path s))
        ]
      done
remove_stale-Absent kill run_id (info ∷ rest) s {j} (Memᴰ.tail m) own done =
    elim (remove_stale-Removal kill run_id info rest s)
        as (λ r _. (r.1 ≡ ok tt) → Absent j.lock_path r.0) [
          | passed other ↦ λ h. remove_stale-Absent kill run_id rest s m own h
          | live ↦ λ fails. cc
          | removed ↦
              λ h. remove_stale-Absent kill run_id rest (remove_path info.lock_path s) m own h
        ]
      done
