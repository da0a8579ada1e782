-- ===== src/Common/Maps.antt =====
-- A hash map with numbers for keys: a list of keys with their values.
use Prim.Native.Nat.{ℕ}
use mathlib.Core.Path.{◌≡◌, refl}
use mathlib.Core.Bool.{Bool, true, false}
use mathlib.Core.List.{List, [], ◌∷◌}
use mathlib.Core.Option.{Option, none, some}
use native.Mathlib.Omega.{arith}
use js.Common.Tests.{◌==◌, if◌then◌else◌}

module _ {ℓ} {A : Type ℓ} where
  unfoldable pub map_get : List (ℕ × A) → ℕ → Option A
  map_get [] key = none
  map_get ((k, a) ∷ m) key = if k == key then some a else map_get m key

  unfoldable pub map_insert : List (ℕ × A) → ℕ → A → List (ℕ × A)
  map_insert [] key value = (key, value) ∷ []
  map_insert ((k, a) ∷ m) key value =
      let rest = map_insert m key value in if k == key then (k, value) ∷ m else (k, a) ∷ rest

  -- All entries of the key go, though `map_insert` makes one at most.
  unfoldable pub map_remove : List (ℕ × A) → ℕ → List (ℕ × A)
  map_remove [] key = []
  map_remove ((k, a) ∷ m) key =
      let rest = map_remove m key in if k == key then rest else (k, a) ∷ rest

  unfoldable pub map_is_empty : List (ℕ × A) → Bool
  map_is_empty [] = true
  map_is_empty (x ∷ m) = false

  pub map_get-map_insert :
      (m : List (ℕ × A)) (k l : ℕ) (a : A)
      → map_get (map_insert m k a) l ≡ (if k == l then some a else map_get m l)
  unfolding map_get map_insert
  map_get-map_insert [] k l a = refl
  map_get-map_insert ((j, b) ∷ m) k l a = ground (arith, map_get-map_insert m k l a)

  pub map_get-map_remove :
      (m : List (ℕ × A)) (k l : ℕ)
      → map_get (map_remove m k) l ≡ (if k == l then none else map_get m l)
  unfolding map_get map_remove
  map_get-map_remove [] k l = ground arith
  map_get-map_remove ((j, b) ∷ m) k l = ground (arith, map_get-map_remove m k l)

  pub map_get_empty : (m : List (ℕ × A)) (k : ℕ) → map_is_empty m ≡ true → map_get m k ≡ none
  unfolding map_get map_is_empty
  map_get_empty [] k e = refl
  map_get_empty (x ∷ m) k e = absurd (ground arith)
