-- ===== src/Core/Store/Tables.antt =====
-- A table as the statements of store.rs use it: its rows, and the failures of the database: one that
-- every statement meets, and one for each write to come, in order, where there is one. Each operation is
-- one SQL statement of the source, read on the rows.
use wanax.Prelude.{
  String, Bool, true, false, Option, none, some, List, [], ◌∷◌, ◌++◌, map, any, find, if◌then◌else◌,
  ◌≡◌, ◌⊎◌, refl, arith, inl, inr, Bool-cases, Option-cases,
}
use wanax.Core.ErrorCode.{db, run_not_found}
use wanax.Core.Error
use wanax.Core.Error.{Result, ok, err}

pub record Table {ℓ} (Row : Type ℓ) : Type ℓ where
  pub rows : List Row
  -- an error of every statement: the database cannot be used
  pub fault : Option String
  -- what the database answers to the writes to come: an error, such as a full disk or a lock, or none
  pub refusals : List (Option String)
  -- the database's error on a second row with the same key
  pub conflict : String

refusals-cases :
    (l : List (Option String))
    → ((l ≡ []) ⊎ ((rest : List (Option String)) × (l ≡ none ∷ rest)))
      ⊎ ((why : String) × (rest : List (Option String)) × (l ≡ some why ∷ rest))
refusals-cases [] = inl (inl refl)
refusals-cases (none ∷ rest) = inl (inr (rest, refl))
refusals-cases (some why ∷ rest) = inr (why, rest, refl)

module _ {ℓ} {Row : Type ℓ} where
  unfoldable pub write : List (Option String) → Table Row → List Row → Table Row × Result {0} Unit
  unfolding Error.with_detail
  write [] t rows = (record t { rows = rows }, ok tt)
  write (none ∷ rest) t rows = (record t { rows = rows; refusals = rest }, ok tt)
  write (some why ∷ rest) t rows = (record t { refusals = rest }, err (Error.with_detail db why))

  -- The outcome of a statement that writes: a database that fails leaves the rows alone.
  unfoldable pub execute : Table Row → List Row → Table Row × Result {0} Unit
  unfolding Error.with_detail write
  execute t rows = elim t.fault [
    | none ↦ write t.refusals t rows
    | some why ↦ (t, err (Error.with_detail db why))
  ]

  -- The database fails the next write, with the error `why`.
  abbrev pub IsRefusal : Table Row → String → Type 0
  IsRefusal t why =
      (t.fault ≡ some why) ⊎ ((rest : List (Option String)) × (t.refusals ≡ some why ∷ rest))

  -- `INSERT`, with the primary key that `is_key` tests.
  unfoldable pub insert : (Row → Bool) → Row → Table Row → Table Row × Result {0} Unit
  unfolding execute Error.with_detail
  insert is_key row t =
      if any is_key t.rows
      then (t, err (Error.with_detail db t.conflict))
      else execute t (t.rows ++ row ∷ [])

  -- The rows that an `UPDATE ... WHERE` leaves.
  unfoldable pub set_where : (Row → Bool) → (Row → Row) → List Row → List Row
  set_where is_key set rows = map (λ r. if is_key r then set r else r) rows

  unfoldable pub update : (Row → Bool) → (Row → Row) → Table Row → Table Row × Result {0} Unit
  unfolding execute set_where
  update is_key set t = execute t (set_where is_key set t.rows)

  -- `SELECT * ... WHERE id = ?`, where no row is an error of its own.
  unfoldable pub select : (Row → Bool) → Table Row → Result Row
  unfolding Error.with_detail Error.from_code
  select is_key t = elim t.fault [
    | none ↦ elim (find is_key t.rows) [
      | none ↦ err (Error.from_code run_not_found)
      | some r ↦ ok r
    ]
    | some why ↦ err (Error.with_detail db why)
  ]

  find-set_where :
      (is_key : Row → Bool) (set : Row → Row)
      → ((r : Row) → is_key (set r) ≡ is_key r)
      → (rows : List Row) {r : Row} → find is_key rows ≡ some r
      → find is_key (set_where is_key set rows) ≡ some (set r)
  unfolding set_where
  find-set_where is_key set keeps [] h = cc
  find-set_where is_key set keeps (x ∷ rows) {r} h = elim (Bool-cases (is_key x)) [
    | inl e ↦ ground (arith, keeps x)
    | inr e ↦ ground (arith, find-set_where is_key set keeps rows {r = r})
  ]

  find-append-new :
      (is_key : Row → Bool) (rows : List Row) (r : Row)
      → any is_key rows ≡ false
      → is_key r ≡ true
      → find is_key (rows ++ r ∷ []) ≡ some r
  find-append-new is_key [] r absent key = rw key refl
  find-append-new is_key (x ∷ rows) r absent key = ground (arith, find-append-new is_key rows r)

  -- An update of a row that is there is read back as it has set it, or the database has failed it and the
  -- row is read as before.
  pub select-update :
      (is_key : Row → Bool) (set : Row → Row)
      → ((r : Row) → is_key (set r) ≡ is_key r)
      → (t : Table Row) {r : Row} → select is_key t ≡ ok r
      → (((update is_key set t).1 ≡ ok tt) × (select is_key (update is_key set t).0 ≡ ok (set r)))
        ⊎ ((why : String) × ((update is_key set t).1 ≡ err (Error.with_detail db why))
            × IsRefusal t why
            × (select is_key (update is_key set t).0 ≡ ok r))
  unfolding select update execute write
  select-update is_key set keeps t {r} h =
      let kept = find-set_where is_key set keeps t.rows {r = r} in
      elim (Option-cases t.fault) [
        | inr (why, down) ↦ absurd (ground arith)
        | inl up ↦ elim (refusals-cases t.refusals) [
          | inl usual ↦ inl (ground (arith, kept))
          | inr (why, rest, refused) ↦ inr (why, ground arith, inr (rest, refused), ground arith)
        ]
      ]

  -- A row that is inserted is read back.
  pub select-insert :
      (is_key : Row → Bool) (row : Row) (t : Table Row)
      → is_key row ≡ true
      → (insert is_key row t).1 ≡ ok tt
      → select is_key (insert is_key row t).0 ≡ ok row
  unfolding select insert execute write
  select-insert is_key row t key h = ground (arith, find-append-new is_key t.rows row)
