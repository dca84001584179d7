-- ===== src/Replay/Upserted.antt =====
-- What `upsert` of crates/wanax-cli/src/replay.rs does to the units and their index.
use wanax.Prelude.{
  ◌≡◌, inl, inr, refl, sym, ap, ◌∙◌, subst, ℕ, String, none, some, List, [], ◌∷◌, ◌++◌, str_eq,
  eq_iff, eq_refl, length, if◌then◌else◌, arith, Option-cases,
}
use wanax.Prelude.Map.{get?, get?-insert}
use wanax.Core.Types.{WorkUnit}
use wanax.Core.WorkUnitState.{WorkUnitState}
use wanax.Tombstone.{Values}
use wanax.Replay.{Replay, modify, id_at, apply_unit_fields, written, upsert_at}
use wanax.Replay.Json.{unwrap_or}
use wanax.Replay.Index.{
  index_of, unit_of, IsIndexed, KeepsId, id_at-index, index_of-modify, unit_of-modify,
  index_of-snoc, unit_of-snoc, modify-snoc, unit_of-absent, unit_of-present,
}
use wanax.Replay.Units.{set_at, new_unit}

-- A replay after `upsert`, and the index that it returns.
pub record IsUpserted (id : String) (put : WorkUnit) (s : Replay) (r : Replay × ℕ) : Type 0 where
  pub indexed : IsIndexed r.0.units r.0.by_id
  pub unit : (j : String) → unit_of j r.0.units ≡ set_at id (some put) (λ k. unit_of k s.units) j
  pub named : id_at r.0.units r.1 ≡ id
  pub same_receipts : r.0.receipts ≡ s.receipts
  pub same_covers : r.0.covers ≡ s.covers
  pub same_dispatched : r.0.last_dispatched ≡ s.last_dispatched
  pub same_last : r.0.last_receipt_unit ≡ s.last_receipt_unit

abbrev pub put_in :
    (J : Values) → String → J.Value → WorkUnitState → String → List WorkUnit → WorkUnit
put_in J run_id p state id units =
    written J p state (unwrap_or (new_unit J run_id id) (unit_of id units))

module _ (J : Values) (run_id : String) (p : J.Value) (state : WorkUnitState) (id : String)
    (names : J.as_str (J.field p "work_unit_id") ≡ some id) where
  written-id : (u : WorkUnit) → (written J p state u).id ≡ id
  unfolding written apply_unit_fields
  written-id u = ap (unwrap_or u.id) names

  upsert_at-some :
      (s : Replay) (i : ℕ)
      → IsIndexed s.units s.by_id
      → index_of id s.units ≡ some i
      → IsUpserted id
          (put_in J run_id p state id s.units)
          s
          (upsert_at J run_id p state id (some i) s)
  unfolding upsert_at
  upsert_at-some s i indexed e =
      let keeps : KeepsId id (written J p state) = λ u same. written-id u in
      let (u, found) = unit_of-present id s.units e in
      record {
        indexed = λ j. indexed j ∙ sym (index_of-modify id (written J p state) keeps j s.units i e);
        unit = λ j.
            ground (arith, unit_of-modify id (written J p state) keeps j s.units i e, eq_iff j id);
        named =
            id_at-index id (modify i (written J p state) s.units) i
              (index_of-modify id (written J p state) keeps id s.units i e ∙ e);
        same_receipts = refl;
        same_covers = refl;
        same_dispatched = refl;
        same_last = refl;
      }

  upsert_at-none :
      (s : Replay)
      → IsIndexed s.units s.by_id
      → index_of id s.units ≡ none
      → IsUpserted id (put_in J run_id p state id s.units) s (upsert_at J run_id p state id none s)
  unfolding upsert_at
  upsert_at-none s indexed e =
      let put = written J p state (new_unit J run_id id) in
      let absent : index_of put.id s.units ≡ none =
        ap (λ x. index_of x s.units) (written-id (new_unit J run_id id)) ∙ e in
      let grown : modify (length s.units) (written J p state) (s.units ++ new_unit J run_id id ∷ [])
          ≡ s.units ++ put ∷ [] =
        modify-snoc (new_unit J run_id id) (written J p state) s.units in
      let index : (j : String)
          → index_of j (s.units ++ put ∷ [])
            ≡ (if str_eq j id then some (length s.units) else index_of j s.units) =
        λ j.
          index_of-snoc put j s.units absent
          ∙ ap (λ x. if str_eq j x then some (length s.units) else index_of j s.units)
              (written-id (new_unit J run_id id)) in
      record {
        indexed = λ j.
            get?-insert j id (length s.units) s.by_id
            ∙ ap (λ o. if str_eq j id then some (length s.units) else o) (indexed j)
            ∙ sym (ap (index_of j) grown ∙ index j);
        unit = λ j.
            ap (unit_of j) grown
            ∙ unit_of-snoc put j s.units absent
            ∙ ap (λ x. if str_eq j x then some put else unit_of j s.units)
                (written-id (new_unit J run_id id))
            ∙ ap
                (λ o.
                  set_at id (some (written J p state (unwrap_or (new_unit J run_id id) o)))
                    (λ k. unit_of k s.units) j)
                (sym (unit_of-absent id s.units e));
        named =
            ap (λ l. id_at l (length s.units)) grown
            ∙ id_at-index id (s.units ++ put ∷ []) (length s.units)
                (index id ∙ ground (arith, eq_refl id));
        same_receipts = refl;
        same_covers = refl;
        same_dispatched = refl;
        same_last = refl;
      }

  pub upsert_at-IsUpserted :
      (s : Replay)
      → IsIndexed s.units s.by_id
      → IsUpserted id
          (put_in J run_id p state id s.units)
          s
          (upsert_at J run_id p state id (get? id s.by_id) s)
  upsert_at-IsUpserted s indexed = elim (Option-cases (index_of id s.units)) [
    | inl e ↦
        subst
          (λ o.
            IsUpserted id (put_in J run_id p state id s.units) s
              (upsert_at J run_id p state id o s))
          (sym (indexed id ∙ e)) (upsert_at-none s indexed e)
    | inr (i, e) ↦
        subst
          (λ o.
            IsUpserted id (put_in J run_id p state id s.units) s
              (upsert_at J run_id p state id o s))
          (sym (indexed id ∙ e)) (upsert_at-some s i indexed e)
  ]
