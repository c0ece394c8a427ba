-- ===== src/Common/Dict.antt =====
-- Go's `map[uint64]V`, as a list of entries. A `range` loop visits the entries in the list's order;
-- Go promises no order, and the theorems quantify over every list, so over every order of entries.
use Prim.Native.Nat.{ℕ}
use mathlib.Core.Path.{◌≡◌, refl}
use mathlib.Core.Logic.{inl, inr}
use mathlib.Core.Bool.{Bool, true, false}
use mathlib.Core.List.{List, [], ◌∷◌}
use mathlib.Core.Option.{Option, none, some}
use native.Mathlib.Omega.{arith}
use babyray.Common.Tests.{◌==◌, if◌then◌else◌, Bool-cases}
use babyray.Common.Lists.{elem, count}

abbrev pub Dict {ℓ} : Type ℓ → Type ℓ
Dict V = List (ℕ × V)

-- The value that `v, ok := m[k]` gives, with `d` where `ok` is false.
abbrev pub or_else {ℓ} : {A : Type ℓ} → A → Option A → A
or_else d none = d
or_else d (some a) = a

abbrev pub is_some {ℓ} : {A : Type ℓ} → Option A → Bool
is_some none = false
is_some (some a) = true

module _ {ℓ} {V : Type ℓ} where
  unfoldable pub lookup : ℕ → Dict V → Option V
  lookup key [] = none
  lookup key ((j, old) ∷ dict) = if j == key then some old else lookup key dict

  -- m[k] = v
  unfoldable pub insert : ℕ → V → Dict V → Dict V
  insert key v [] = (key, v) ∷ []
  insert key v ((j, old) ∷ dict) =
      if j == key then (key, v) ∷ dict else (j, old) ∷ insert key v dict

  -- delete(m, k)
  unfoldable pub delete : ℕ → Dict V → Dict V
  delete key [] = []
  delete key ((j, old) ∷ dict) =
      let rest = delete key dict in if j == key then rest else (j, old) ∷ rest

  unfoldable pub keys : Dict V → List ℕ
  keys [] = []
  keys ((j, old) ∷ dict) = j ∷ keys dict

  -- No key stands in two entries, as in every Go map.
  abbrev pub IsDistinct : Dict V → Type ℓ
  IsDistinct [] = Unit
  IsDistinct ((j, old) ∷ dict) = (lookup j dict ≡ none) × IsDistinct dict

  pub lookup-insert :
      (key j : ℕ) (v : V) (dict : Dict V)
      → lookup j (insert key v dict) ≡ (if key == j then some v else lookup j dict)
  unfolding lookup insert
  lookup-insert key j v [] = refl
  lookup-insert key j v ((i, old) ∷ dict) = ground (arith, lookup-insert key j v dict)

  pub lookup-delete :
      (key j : ℕ) (dict : Dict V)
      → lookup j (delete key dict) ≡ (if key == j then none else lookup j dict)
  unfolding lookup delete
  lookup-delete key j [] = ground arith
  lookup-delete key j ((i, old) ∷ dict) = ground (arith, lookup-delete key j dict)

  pub lookup-insert_self :
      (key : ℕ) (v : V) (dict : Dict V) → lookup key (insert key v dict) ≡ some v
  lookup-insert_self key v dict = ground (arith, lookup-insert key key v dict)

  pub elem-keys : (key : ℕ) (dict : Dict V) → elem key (keys dict) ≡ is_some (lookup key dict)
  unfolding elem keys lookup
  elem-keys key [] = refl
  elem-keys key ((j, old) ∷ dict) = ground (arith, elem-keys key dict)

  pub insert-IsDistinct :
      (key : ℕ) (v : V) (dict : Dict V) → IsDistinct dict → IsDistinct (insert key v dict)
  unfolding insert lookup
  insert-IsDistinct key v [] h = (refl, tt)
  insert-IsDistinct key v ((j, old) ∷ dict) h = elim (Bool-cases (j == key)) [
    | inl same ↦ rw same (ground arith)
    | inr other ↦
        rw other (ground (arith, lookup-insert key j v dict), insert-IsDistinct key v dict h.1)
  ]

  pub delete-IsDistinct : (key : ℕ) (dict : Dict V) → IsDistinct dict → IsDistinct (delete key dict)
  unfolding delete lookup
  delete-IsDistinct key [] h = tt
  delete-IsDistinct key ((j, old) ∷ dict) h = elim (Bool-cases (j == key)) [
    | inl same ↦ rw same (delete-IsDistinct key dict h.1)
    | inr other ↦
        rw other (ground (arith, lookup-delete key j dict), delete-IsDistinct key dict h.1)
  ]

  -- In a map each key is ranged over once.
  pub count-keys :
      (key : ℕ) (dict : Dict V)
      → IsDistinct dict
      → count key (keys dict) ≡ (if elem key (keys dict) then 1 else 0)
  unfolding count keys elem
  count-keys key [] h = refl
  count-keys key ((j, old) ∷ dict) h = ground (arith, count-keys key dict h.1, elem-keys key dict)

pub ruleset dict_laws = (lookup-insert, lookup-delete)
