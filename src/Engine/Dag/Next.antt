-- ===== src/Engine/Dag/Next.antt =====
-- The unit that next_ready_dag (crates/wanax-cli/src/engine.rs) picks.
use wanax.Prelude.{
  ◌≡◌, inl, inr, refl, sym, ◌∙◌, subst, String, true, false, not, ◌&&◌, none, some, List, [], ◌∷◌,
  str_eq, eq_iff, all, arith, Bool-cases, any_witness, all_at, find_sound, find-none, &&-eq-true,
  if◌then◌else◌,
}
use mathlib.Core.List.{Memᴰ}
use wanax.Core.Types.{WorkUnit}
use wanax.Engine.Dag.{is_accepted, is_settled, done_ids, contains, dag_ready, next_ready_dag}

-- An accepted unit with the id.
abbrev pub IsDone : List WorkUnit → String → Type 0
IsDone units d = (v : WorkUnit) × Memᴰ v units × (v.id ≡ d) × (is_accepted v.state ≡ true)

done_ids_sound : (units : List WorkUnit) {d : String} → Memᴰ d (done_ids units) → IsDone units d
unfolding done_ids
done_ids_sound [] m = elim m [ ]
done_ids_sound (u ∷ units) {d} m = elim (Bool-cases (is_accepted u.state)) [
  | inr e ↦
      let (v, mem, id, acc) =
        done_ids_sound units
          (subst (λ b. Memᴰ d (if b then u.id ∷ done_ids units else done_ids units)) e m) in
      (v, Memᴰ.tail mem, id, acc)
  | inl e ↦ elim (subst (λ b. Memᴰ d (if b then u.id ∷ done_ids units else done_ids units)) e m) [
    | Memᴰ.head same ↦ (u, Memᴰ.head refl, sym same, e)
    | Memᴰ.tail below ↦
        let (v, mem, id, acc) = done_ids_sound units below in (v, Memᴰ.tail mem, id, acc)
  ]
]

contains-IsDone :
    (units : List WorkUnit) (d : String) → contains (done_ids units) d ≡ true → IsDone units d
contains-IsDone units d h =
    let (x, mem, same) = any_witness (λ e. str_eq e d) (done_ids units) h in
    let (v, in_units, id, acc) = done_ids_sound units mem in
    (v, in_units, id ∙ (eq_iff x d).0 same, acc)

-- The unit that is picked is one of the units, not accepted, rejected or blocked, and each of its
-- dependencies is the id of an accepted unit.
pub next_ready_dag-some :
    (units : List WorkUnit) {u : WorkUnit}
    → next_ready_dag units ≡ some u
    → Memᴰ u units
      × (is_settled u.state ≡ false)
      × ((d : String) → Memᴰ d u.depends_on → IsDone units d)
unfolding next_ready_dag
next_ready_dag-some units {u} h =
    let (mem, ready) =
      find_sound
        (λ v. not (is_settled v.state) && all (λ d. contains (done_ids units) d) v.depends_on) units
        h in
    let both =
      &&-eq-true (not (is_settled u.state)) (all (λ d. contains (done_ids units) d) u.depends_on)
        ready in
    (
      mem,
      ground arith,
      λ d in_deps.
          contains-IsDone units d (all_at (λ d. contains (done_ids units) d) both.1 in_deps),
    )

-- If no unit is picked, no unit is ready.
next_ready_dag-none :
    (units : List WorkUnit) {u : WorkUnit}
    → next_ready_dag units ≡ none
    → Memᴰ u units
    → dag_ready u units ≡ false
unfolding next_ready_dag dag_ready
next_ready_dag-none units {u} h m =
    find-none (λ v. not (is_settled v.state) && all (λ d. contains (done_ids units) d) v.depends_on)
      h m
