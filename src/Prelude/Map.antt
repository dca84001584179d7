-- ===== src/Prelude/Map.antt =====
-- `HashMap` as a list of its entries: a key that is written again keeps its place, a new one comes last.
use Prim.Native.String.{String}
use Prim.Native.Nat.{◌<◌}
use mathlib.Core.Path.{◌≡◌, refl}
use mathlib.Core.Bool.{◌&&◌}
use mathlib.Core.Option.{Option, none, some}
use mathlib.Core.List.{List, [], ◌∷◌}
use native.Mathlib.Omega.{arith}
use text.Mathlib.Text.{◌==◌ as str_eq}
use text.Mathlib.TextEquality.{eq_iff}
use wanax.Prelude.Tests.{◌==◌, if◌then◌else◌}
use wanax.Prelude.Count.{count}

module _ {ℓ} {V : Type ℓ} where
  abbrev pub get? : String → List (String × V) → Option V
  get? k [] = none
  get? k ((j, v) ∷ m) = if str_eq k j then some v else get? k m

  abbrev pub get_or : V → String → List (String × V) → V
  get_or d k [] = d
  get_or d k ((j, v) ∷ m) = if str_eq k j then v else get_or d k m

  abbrev pub insert : String → V → List (String × V) → List (String × V)
  insert k v [] = (k, v) ∷ []
  insert k v ((j, w) ∷ m) =
      let rest = insert k v m in if str_eq k j then (j, v) ∷ m else (j, w) ∷ rest

  -- `*map.entry(k).or_insert(d)`, changed by a function.
  abbrev pub update : String → V → (V → V) → List (String × V) → List (String × V)
  update k d f m = insert k (f (get_or d k m)) m

  abbrev pub keys : List (String × V) → List String
  keys [] = []
  keys ((k, _) ∷ m) = k ∷ keys m

  pub get?-insert :
      (j k : String) (v : V) (m : List (String × V))
      → get? j (insert k v m) ≡ (if str_eq j k then some v else get? j m)
  get?-insert j k v [] = refl
  get?-insert j k v ((i, w) ∷ m) =
      ground (arith, get?-insert j k v m, eq_iff j k, eq_iff j i, eq_iff k i)

  pub get_or-insert :
      (d : V) (j k : String) (v : V) (m : List (String × V))
      → get_or d j (insert k v m) ≡ (if str_eq j k then v else get_or d j m)
  get_or-insert d j k v [] = refl
  get_or-insert d j k v ((i, w) ∷ m) =
      ground (arith, get_or-insert d j k v m, eq_iff j k, eq_iff j i, eq_iff k i)

  pub count-keys-insert :
      (j k : String) (v : V) (m : List (String × V))
      → count j (keys (insert k v m))
        ≡ (if str_eq j k && (count k (keys m) == 0) then 1 else count j (keys m))
  count-keys-insert j k v [] = ground (arith, eq_iff j k)
  count-keys-insert j k v ((i, w) ∷ m) =
      ground (arith, count-keys-insert j k v m, eq_iff j k, eq_iff j i, eq_iff k i)

  pub get?-of_count :
      (d : V) (k : String) (m : List (String × V))
      → 0 < count k (keys m)
      → get? k m ≡ some (get_or d k m)
  get?-of_count d k [] h = absurd (omega arith)
  get?-of_count d k ((j, v) ∷ m) h = ground (arith, get?-of_count d k m)
