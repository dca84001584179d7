-- ===== src/Engine/Dag/Waves.antt =====
-- The units of a wave of dag_wave (crates/wanax-cli/src/engine.rs), and those left out of it.
use wanax.Prelude.{
  ◌≡◌, ◌⊎◌, inl, inr, refl, sym, ap, ◌∙◌, subst, String, Bool, true, false, not, none, some, List,
  [], ◌∷◌, ◌++◌, all, All, if◌then◌else◌, arith, Bool-cases, Option-cases,
}
use mathlib.Core.List.{Memᴰ}
use mathlib.Core.List.Memᴰ.{append_left, append_right}
use wanax.Core.Types.{WorkUnit}
use wanax.Core.GlobOverlap.{Globset, peer_glob_sets_overlap}
use wanax.Core.GlobOverlap.Overlaps.{overlap_sym}
use wanax.Engine.Dag.{globs_or_empty, is_disjoint, join_with, join_wave, fill_wave, dag_wave}

module _ (g : Globset) where
  abbrev unit_overlap : WorkUnit → WorkUnit → Bool
  unit_overlap m u =
      peer_glob_sets_overlap g (globs_or_empty m.allowed_globs) (globs_or_empty u.allowed_globs)

-- No two units of the wave have globs that overlap.
abbrev pub IsDisjointWave : Globset → List WorkUnit → Type 0
IsDisjointWave g [] = Unit
IsDisjointWave g (m ∷ wave) = All (λ u. unit_overlap g m u ≡ false) wave × IsDisjointWave g wave

All-snoc {ℓ κ} :
    {A : Type ℓ} (P : A → Type κ) (xs : List A) (x : A) → All P xs → P x → All P (xs ++ x ∷ [])
All-snoc P [] x h px = (px, tt)
All-snoc P (y ∷ xs) x h px = (h.0, All-snoc P xs x h.1 px)

IsDisjointWave-snoc :
    (g : Globset) (wave : List WorkUnit) (u : WorkUnit)
    → IsDisjointWave g wave
    → all (λ m. not (unit_overlap g u m)) wave ≡ true
    → IsDisjointWave g (wave ++ u ∷ [])
IsDisjointWave-snoc g [] u h apart = (tt, tt)
IsDisjointWave-snoc g (m ∷ wave) u h apart = (
  All-snoc (λ v. unit_overlap g m v ≡ false) wave u h.0
      (ground
        (arith, overlap_sym g (globs_or_empty m.allowed_globs) (globs_or_empty u.allowed_globs))),
  IsDisjointWave-snoc g wave u h.1 (ground arith),
)

-- What one turn of the loop does with a unit: it joins at the end, having globs that overlap none in the
-- wave, or the wave stays.
data Turn (g : Globset) (wave : List WorkUnit) (u : WorkUnit) : List WorkUnit → Type 0 where
  joined :
      (globs : List String)
      → u.allowed_globs ≡ some globs
      → is_disjoint g globs wave ≡ true
      → Turn g wave u (wave ++ u ∷ [])
  unbounded : u.allowed_globs ≡ none → Turn g wave u wave
  kept_out :
      (globs : List String)
      → u.allowed_globs ≡ some globs
      → is_disjoint g globs wave ≡ false
      → Turn g wave u wave

join_wave-Turn :
    (g : Globset) (wave : List WorkUnit) (u : WorkUnit) → Turn g wave u (join_wave g wave u)
unfolding join_wave join_with
join_wave-Turn g wave u = elim (Option-cases u.allowed_globs) [
  | inl e ↦ subst (λ o. Turn g wave u (join_with g wave u o)) (sym e) (unbounded e)
  | inr (globs, e) ↦
      subst (λ o. Turn g wave u (join_with g wave u o)) (sym e)
        (elim (Bool-cases (is_disjoint g globs wave)) [
          | inl apart ↦
              subst (λ b. Turn g wave u (if b then wave ++ u ∷ [] else wave)) (sym apart)
                (joined globs e apart)
          | inr not_apart ↦
              subst (λ b. Turn g wave u (if b then wave ++ u ∷ [] else wave)) (sym not_apart)
                (kept_out globs e not_apart)
        ])
]

Turn-IsDisjointWave :
    {g : Globset} {wave after : List WorkUnit} {u : WorkUnit}
    → Turn g wave u after
    → IsDisjointWave g wave
    → IsDisjointWave g after
unfolding is_disjoint
Turn-IsDisjointWave {g} {wave} {u = u} (joined globs e apart) h = IsDisjointWave-snoc g wave u h (
    subst
      (λ o.
        all
          (λ m. not (peer_glob_sets_overlap g (globs_or_empty o) (globs_or_empty m.allowed_globs)))
          wave
        ≡ true)
      (sym e) apart)
Turn-IsDisjointWave (unbounded e) h = h
Turn-IsDisjointWave (kept_out globs e h') h = h

fill_wave-IsDisjointWave :
    (g : Globset) (wave ready : List WorkUnit)
    → IsDisjointWave g wave
    → IsDisjointWave g (fill_wave g wave ready)
unfolding fill_wave
fill_wave-IsDisjointWave g wave [] h = h
fill_wave-IsDisjointWave g wave (u ∷ ready) h =
    fill_wave-IsDisjointWave g (join_wave g wave u) ready
      (Turn-IsDisjointWave (join_wave-Turn g wave u) h)

-- The globs of the units of a wave are pairwise without an overlap.
pub dag_wave-IsDisjointWave :
    (g : Globset) (ready : List WorkUnit) → IsDisjointWave g (dag_wave g ready)
unfolding dag_wave
dag_wave-IsDisjointWave g ready = fill_wave-IsDisjointWave g [] ready tt

-- The wave grows: what is in it stays in it.
Turn-mem :
    {g : Globset} {wave after : List WorkUnit} {u v : WorkUnit}
    → Turn g wave u after
    → Memᴰ v wave
    → Memᴰ v after
Turn-mem (joined globs e apart) m = append_left _ m
Turn-mem (unbounded e) m = m
Turn-mem (kept_out globs e h) m = m

fill_wave-mem :
    (g : Globset) (wave ready : List WorkUnit) {v : WorkUnit}
    → Memᴰ v wave
    → Memᴰ v (fill_wave g wave ready)
unfolding fill_wave
fill_wave-mem g wave [] m = m
fill_wave-mem g wave (u ∷ ready) m =
    fill_wave-mem g (join_wave g wave u) ready (Turn-mem (join_wave-Turn g wave u) m)

-- A unit is in the wave, has no globs, or overlaps some unit of the wave.
abbrev pub IsCovered : Globset → List WorkUnit → WorkUnit → Type 0
IsCovered g wave u =
    Memᴰ u wave
    ⊎ ((u.allowed_globs ≡ none) ⊎ ((m : WorkUnit) × Memᴰ m wave × (unit_overlap g u m ≡ true)))

not-all {ℓ} :
    {A : Type ℓ} (p : A → Bool) (xs : List A)
    → all (λ x. not (p x)) xs ≡ false
    → (a : A) × Memᴰ a xs × (p a ≡ true)
not-all p [] h = cc
not-all p (x ∷ xs) h = elim (Bool-cases (p x)) [
  | inl e ↦ (x, Memᴰ.head refl, e)
  | inr e ↦ let (a, m, pa) = not-all p xs (ground arith) in (a, Memᴰ.tail m, pa)
]

Turn-IsCovered :
    {g : Globset} {wave after : List WorkUnit} {u : WorkUnit}
    → Turn g wave u after
    → IsCovered g after u
unfolding is_disjoint
Turn-IsCovered {wave = wave} (joined globs e apart) = inl (append_right wave (Memᴰ.head refl))
Turn-IsCovered (unbounded e) = inr (inl e)
Turn-IsCovered {g} {wave} (kept_out globs e h) =
    let (m, mem, overlaps) =
      not-all (λ m. peer_glob_sets_overlap g globs (globs_or_empty m.allowed_globs)) wave h in
    inr (
      inr (
        m,
        mem,
        ap (λ o. peer_glob_sets_overlap g (globs_or_empty o) (globs_or_empty m.allowed_globs)) e
            ∙ overlaps,
      ))

IsCovered-fill :
    (g : Globset) (wave ready : List WorkUnit) {u : WorkUnit}
    → IsCovered g wave u
    → IsCovered g (fill_wave g wave ready) u
IsCovered-fill g wave ready (inl m) = inl (fill_wave-mem g wave ready m)
IsCovered-fill g wave ready (inr (inl e)) = inr (inl e)
IsCovered-fill g wave ready (inr (inr (m, mem, o))) =
    inr (inr (m, fill_wave-mem g wave ready mem, o))

fill_wave-IsCovered :
    (g : Globset) (wave ready : List WorkUnit) {u : WorkUnit}
    → Memᴰ u ready
    → IsCovered g (fill_wave g wave ready) u
unfolding fill_wave
fill_wave-IsCovered g wave [] m = elim m [ ]
fill_wave-IsCovered g wave (x ∷ ready) {u} (Memᴰ.head e) =
    IsCovered-fill g (join_wave g wave x) ready (
      subst (λ w. IsCovered g (join_wave g wave x) w) (sym e)
        (Turn-IsCovered (join_wave-Turn g wave x)))
fill_wave-IsCovered g wave (x ∷ ready) (Memᴰ.tail m) =
    fill_wave-IsCovered g (join_wave g wave x) ready m

-- The wave is maximal: a ready unit that is left out has no globs, or overlaps a unit of the wave.
pub dag_wave-IsCovered :
    (g : Globset) (ready : List WorkUnit) {u : WorkUnit}
    → Memᴰ u ready
    → IsCovered g (dag_wave g ready) u
unfolding dag_wave
dag_wave-IsCovered g ready m = fill_wave-IsCovered g [] ready m
