-- ===== src/Engine/Seeding/Ordered.antt =====
-- The units that seed_dag_units (crates/wanax-cli/src/engine.rs) creates follow the order of topo_sort.
use wanax.Prelude.{
  ◌≡◌, refl, sym, ap, ◌∙◌, subst, inl, inr, ℕ, String, Option, none, some, List, [], ◌∷◌, ◌++◌,
  arith,
}
use mathlib.Core.List.{Memᴰ, append-nil, append_assoc}
use mathlib.Core.List.Memᴰ.{append_left, append_right, append_cases}
use wanax.Prelude.Map.{get?}
use wanax.Core.Dag.{topo_sort}
use wanax.Core.Dag.Edges.{Needs}
use wanax.Core.Dag.Queue.{IsOrdered}
use wanax.Core.Dag.Sorted.{topo_sort-IsSorted, topo_sort_once}
use wanax.Core.Error.{Result, err, ok, >>=-eq-ok}
use wanax.Core.Store.Rows.{Json, UnitRow}
use wanax.Core.Store.Tables.{Table}
use wanax.Core.Store.Units.{insert_work_unit}
use wanax.Core.Types.{WorkUnit}
use wanax.Engine.Seeding.{
  DagUnitDraft, draft_nodes, Created, create_units, resolve, Seeded, store_unit, seed_units,
  seed_ordered, seed_after, seed_dag_units,
}
use wanax.Engine.Seeding.Made.{IsOfDraft, depends_on-IsOfDraft, AllMade, create_units-made}

mem-draft_nodes :
    {d : DagUnitDraft} {drafts : List DagUnitDraft}
    → Memᴰ d drafts
    → Memᴰ (d.id, d.depends_on) (draft_nodes drafts)
unfolding draft_nodes
mem-draft_nodes (Memᴰ.head e) = Memᴰ.head (ap (λ (z : DagUnitDraft). (z.id, z.depends_on)) e)
mem-draft_nodes (Memᴰ.tail m) = Memᴰ.tail (mem-draft_nodes m)

resolve-mem :
    (by_key : List (String × String)) (k id : String) {deps : List String}
    → Memᴰ k deps
    → get? k by_key ≡ some id
    → Memᴰ id (resolve by_key deps)
unfolding resolve
resolve-mem by_key k id (Memᴰ.head {x = x} {xs = xs} e) found =
    subst
      (λ (o : Option String).
        Memᴰ id (elim o [ none ↦ resolve by_key xs | some i ↦ i ∷ resolve by_key xs ]))
      (sym (ap (λ z. get? z by_key) (sym e) ∙ found)) (Memᴰ.head refl)
resolve-mem by_key k id (Memᴰ.tail {x = x} {xs = xs} m) found =
    elim (get? x by_key)
      as (λ o. Memᴰ id (elim o [ none ↦ resolve by_key xs | some i ↦ i ∷ resolve by_key xs ])) [
        | none ↦ resolve-mem by_key k id m found
        | some i ↦ Memᴰ.tail (resolve-mem by_key k id m found)
      ]

-- The unit of the second loop, with the ids of its dependencies.
abbrev resolved : List (String × String) → List String × WorkUnit → WorkUnit
resolved by_key (deps, u) = record u { depends_on = resolve by_key deps }

abbrev resolve_all : List (String × String) → List (List String × WorkUnit) → List WorkUnit
resolve_all by_key [] = []
resolve_all by_key (c ∷ created) = resolved by_key c ∷ resolve_all by_key created

store_unit-ok :
    (r : Table UnitRow × Result (Unit {0})) (u : WorkUnit) (s : Seeded) {t : Seeded}
    → store_unit r u s ≡ ok t
    → t.out ≡ s.out ++ u ∷ []
unfolding store_unit
store_unit-ok (table, err e) u s h = cc
store_unit-ok (table, ok _) u s h = ground arith

seed_units-out :
    (json : Json) (by_key : List (String × String)) (created : List (List String × WorkUnit))
    (s : Seeded) {t : Seeded}
    → seed_units json by_key created s ≡ ok t
    → t.out ≡ s.out ++ resolve_all by_key created
unfolding seed_units
seed_units-out json by_key [] s {t} h =
    let same : s ≡ t = ground arith in
    ap (λ (z : Seeded). z.out) (sym same) ∙ sym (append-nil s.out)
seed_units-out json by_key ((deps, u) ∷ created) s h =
    let unit : WorkUnit = resolved by_key (deps, u) in
    let (next, one, rest) =
      >>=-eq-ok (store_unit (insert_work_unit json unit s.table) unit s)
        (seed_units json by_key created) h in
    seed_units-out json by_key created next rest
    ∙ ap (λ l. l ++ resolve_all by_key created)
        (store_unit-ok (insert_work_unit json unit s.table) unit s one)
    ∙ append_assoc s.out (unit ∷ []) (resolve_all by_key created)

-- Each unit is that of a draft, and for each dependency of the draft it has the id of the unit before it
-- with that key.
abbrev pub FollowsDrafts : String → List DagUnitDraft → List WorkUnit → List WorkUnit → Type 0
FollowsDrafts run_id drafts before [] = Unit
FollowsDrafts run_id drafts before (u ∷ units) =
    ((d : DagUnitDraft) × Memᴰ d drafts
      × IsOfDraft run_id d u
      × ((k : String)
          → Memᴰ k d.depends_on
          → (v : WorkUnit) × Memᴰ v before × (v.local_key ≡ some k) × Memᴰ v.id u.depends_on))
    × FollowsDrafts run_id drafts (before ++ u ∷ []) units

-- The keys before have units, which are found by them.
abbrev HasUnits : List (String × String) → List String → List WorkUnit → Type 0
HasUnits by_key keys units =
    (k : String)
    → Memᴰ k keys
    → (v : WorkUnit) × Memᴰ v units × (v.local_key ≡ some k) × (get? k by_key ≡ some v.id)

resolve_all-FollowsDrafts :
    (run_id : String) (drafts : List DagUnitDraft) (by_key : List (String × String))
    (seen keys : List String) (before : List WorkUnit) (created : List (List String × WorkUnit))
    → HasUnits by_key seen before
    → AllMade drafts run_id by_key keys created
    → IsOrdered (Needs (draft_nodes drafts)) seen keys
    → FollowsDrafts run_id drafts before (resolve_all by_key created)
resolve_all-FollowsDrafts run_id drafts by_key seen [] before [] has made order = tt
resolve_all-FollowsDrafts run_id drafts by_key seen [] before (_ ∷ _) has made order = absurd made
resolve_all-FollowsDrafts run_id drafts by_key seen (_ ∷ _) before [] has made order = absurd made
resolve_all-FollowsDrafts run_id drafts by_key seen (key ∷ keys) before ((deps, u) ∷ created) has
      made order =
    let one = made.0 in
    let unit : WorkUnit = resolved by_key (deps, u) in
    (
      (
        one.draft,
        one.given,
        depends_on-IsOfDraft run_id one.draft u (resolve by_key deps) one.of_draft,
        λ k in_deps.
            let node = mem-draft_nodes one.given in
            let needs : Needs (draft_nodes drafts) key k = (
              one.draft.depends_on,
              subst (λ z. Memᴰ (z, one.draft.depends_on) (draft_nodes drafts)) one.same_id node,
              in_deps,
            ) in
            let (v, in_before, keyed, found) = has k (order.0 k needs) in
            (
              v,
              in_before,
              keyed,
              resolve-mem by_key k v.id (subst (Memᴰ k) (sym one.same_deps) in_deps) found,
            ),
      ),
      resolve_all-FollowsDrafts run_id drafts by_key (seen ++ key ∷ []) keys (before ++ unit ∷ [])
          created
          (λ k m. elim (append_cases seen m) [
            | inl old ↦
                let (v, in_before, keyed, found) = has k old in
                (v, append_left _ in_before, keyed, found)
            | inr (Memᴰ.head e) ↦ (
              unit,
              append_right before (Memᴰ.head refl),
              one.keyed ∙ ap some (sym e),
              ap (λ z. get? z by_key) e ∙ one.found,
            )
            | inr (Memᴰ.tail rest) ↦ elim rest [ ]
          ])
          made.1 order.1,
    )

seed_after-ok :
    (json : Json) (run_id : String) (new_id : ℕ → String) (drafts : List DagUnitDraft)
    (table : Table UnitRow) (o : Option (Result (List String))) {s : Seeded}
    → seed_after json run_id new_id drafts table o ≡ some (ok s)
    → (order : List String) × (o ≡ some (ok order))
      × (seed_ordered json run_id new_id drafts table order ≡ ok s)
seed_after-ok json run_id new_id drafts table none h = cc
seed_after-ok json run_id new_id drafts table (some (err e)) h = cc
seed_after-ok json run_id new_id drafts table (some (ok order)) h = (order, refl, ground arith)

-- When the units of a DAG are seeded, each is made of a draft, with the title, the instruction, the globs
-- and the test command of the draft, in the run and queued, and for every dependency of its draft there is
-- a unit before it with that key, whose id is among its dependencies.
pub seed_dag_units-FollowsDrafts :
    (json : Json) (run_id : String) (new_id : ℕ → String) (drafts : List DagUnitDraft)
    (table : Table UnitRow) {s : Seeded}
    → seed_dag_units json run_id new_id drafts table ≡ some (ok s)
    → FollowsDrafts run_id drafts [] s.out
unfolding seed_dag_units seed_ordered
seed_dag_units-FollowsDrafts json run_id new_id drafts table {s} h =
    let (order, sorted, seeded) =
      seed_after-ok json run_id new_id drafts table (topo_sort (draft_nodes drafts)) h in
    let blank : Created = record { by_key = []; created = [] } in
    let (t, created, stored) =
      >>=-eq-ok (create_units run_id new_id drafts 0 order blank)
        (λ t. seed_units json t.by_key t.created record { table = table; payloads = []; out = [] })
        seeded in
    let made =
      create_units-made drafts run_id new_id 0 [] order blank
        (topo_sort_once (draft_nodes drafts) order sorted) tt created in
    let ordered = (topo_sort-IsSorted (draft_nodes drafts) order sorted).1 in
    subst (FollowsDrafts run_id drafts [])
      (sym (
        seed_units-out json t.by_key t.created record { table = table; payloads = []; out = [] }
          stored))
      (resolve_all-FollowsDrafts run_id drafts t.by_key [] order [] t.created (λ k m. elim m [ ])
        made ordered)
