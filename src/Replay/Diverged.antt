-- ===== src/Replay/Diverged.antt =====
-- units_diverged of crates/wanax-cli/src/replay.rs, and what it rules out.
use wanax.Prelude.{
  ◌≡◌, ◌⊎◌, inl, inr, refl, sym, ap, ◌∙◌, String, true, false, Option, none, some, List, [], ◌∷◌,
  str_eq, eq_iff, length, any_of_mem, holds_iff, arith, Bool-cases, ◌||◌, not, any, holds, Bool,
  ◌==◌,
}
use mathlib.Core.List.{Memᴰ}
use wanax.Prelude.Map.{get?, insert, get?-insert}
use wanax.Core.Types.{WorkUnit}
use wanax.Core.WorkUnitState.{WorkUnitState-discrete}
use wanax.Replay.Json.{same_text}

-- The fields that `units_diverged` compares with the unit of the database.
unfoldable pub differs : Option WorkUnit → WorkUnit → Bool
unfolding WorkUnitState-discrete
differs none s = true
differs (some d) s =
    not (holds (WorkUnitState-discrete d.state s.state))
    || not (d.rework_count == s.rework_count)
    || not (same_text d.receipt_id s.receipt_id)
    || not (str_eq d.title s.title)

-- The map from ids to units: of two units with an id the later one.
unfoldable pub unit_map : List WorkUnit → List (String × WorkUnit) → List (String × WorkUnit)
unit_map [] m = m
unit_map (u ∷ units) m = unit_map units (insert u.id u m)

unfoldable pub units_diverged : List WorkUnit → List WorkUnit → Bool
unfolding unit_map differs
units_diverged db replayed =
    not (length db == length replayed) || any (λ s. differs (get? s.id (unit_map db [])) s) replayed

unit_map_sound :
    (db : List WorkUnit) (m : List (String × WorkUnit)) (k : String) {d : WorkUnit}
    → get? k (unit_map db m) ≡ some d
    → (Memᴰ d db × (d.id ≡ k)) ⊎ (get? k m ≡ some d)
unfolding unit_map
unit_map_sound [] m k h = inr h
unit_map_sound (u ∷ db) m k {d} h = elim (unit_map_sound db (insert u.id u m) k h) [
  | inl (mem, e) ↦ inl (Memᴰ.tail mem, e)
  | inr e ↦ elim (Bool-cases (str_eq k u.id)) [
    | inl same ↦
        let found : u ≡ d = ground (arith, get?-insert k u.id u m) in
        inl (Memᴰ.head (sym found), ap (λ v. v.id) (sym found) ∙ sym ((eq_iff k u.id).0 same))
    | inr other ↦ inr (ground (arith, get?-insert k u.id u m))
  ]
]

same_text_eq : (s t : Option String) → same_text s t ≡ true → s ≡ t
same_text_eq none none h = refl
same_text_eq none (some t) h = cc
same_text_eq (some s) none h = cc
same_text_eq (some s) (some t) h = ap some ((eq_iff s t).0 h)

-- Two units that agree in what is compared.
abbrev pub Agrees : WorkUnit → WorkUnit → Type 0
Agrees d s =
    (d.id ≡ s.id)
    × (d.state ≡ s.state)
    × (d.rework_count ≡ s.rework_count)
    × (d.receipt_id ≡ s.receipt_id)
    × (d.title ≡ s.title)

differs-Agrees : (d s : WorkUnit) → differs (some d) s ≡ false → d.id ≡ s.id → Agrees d s
unfolding differs
differs-Agrees d s h id = (
  id,
  (holds_iff (WorkUnitState-discrete d.state s.state)).0 (ground arith),
  ground arith,
  same_text_eq d.receipt_id s.receipt_id (ground arith),
  (eq_iff d.title s.title).0 (ground arith),
)

found-Agrees :
    (db : List WorkUnit) (s : WorkUnit) (o : Option WorkUnit)
    → get? s.id (unit_map db []) ≡ o
    → differs o s ≡ false
    → (d : WorkUnit) × Memᴰ d db × Agrees d s
unfolding differs
found-Agrees db s none e h = cc
found-Agrees db s (some d) e h = elim (unit_map_sound db [] s.id e) [
  | inl (mem, id) ↦ (d, mem, differs-Agrees d s h id)
  | inr absent ↦ cc
]

-- If the units of the database and of the replay are not said to diverge, there are as many of both, and
-- each replayed unit has one in the database with its id, state, title, receipt and number of reworks.
pub units_diverged-false :
    (db replayed : List WorkUnit)
    → units_diverged db replayed ≡ false
    → (length db ≡ length replayed)
      × ((s : WorkUnit) → Memᴰ s replayed → (d : WorkUnit) × Memᴰ d db × Agrees d s)
unfolding units_diverged
units_diverged-false db replayed h = (
  ground arith,
  λ s m.
      found-Agrees db s (get? s.id (unit_map db [])) refl
        (elim (Bool-cases (differs (get? s.id (unit_map db [])) s)) [
          | inl e ↦
              let found = any_of_mem (λ v. differs (get? v.id (unit_map db [])) v) m e in
              absurd (ground arith)
          | inr e ↦ e
        ]),
)
