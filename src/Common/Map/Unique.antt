-- ===== src/Common/Map/Unique.antt =====
-- Maps that hold a key once. Every map that is built by `insert` and `remove` does.
use mathlib.Core.Path.{◌≡◌, refl}
use mathlib.Core.Option.{none, some}
use mathlib.Core.List.{[], ◌∷◌}
use Prim.Native.Nat.{◌+◌, ◌≤◌}
use native.Mathlib.Omega.{arith}
use carmine_desktop.Common.Equality.{Eq, ◌==◌}
use carmine_desktop.Common.Tests.{Bool-cases}
use carmine_desktop.Common.Lists.{length}
use carmine_desktop.Common.Map.{Map, get, remove, insert, get-remove, get-remove_self}
use mathlib.Core.Logic.{inl, inr}

module _ {ℓ κ} {K : Type ℓ} {V : Type κ} ⦃e : Eq K⦄ where
  abbrev pub IsUnique : Map K V → Type κ
  IsUnique [] = Unit
  IsUnique ((k, v) ∷ m) = (get k m ≡ none) × IsUnique m

  pub remove_absent : (k : K) (m : Map K V) → get k m ≡ none → remove k m ≡ m
  unfolding get remove
  remove_absent k [] h = refl
  remove_absent k ((j, v) ∷ m) h = ground (arith, remove_absent k m)

  pub remove-IsUnique : (k : K) (m : Map K V) → IsUnique m → IsUnique (remove k m)
  unfolding remove
  remove-IsUnique k [] h = tt
  remove-IsUnique k ((j, v) ∷ m) h = elim (Bool-cases (j == k)) [
    | inl same ↦ rw same (remove-IsUnique k m h.1)
    | inr other ↦ rw other (ground (arith, get-remove k j m, h.0), remove-IsUnique k m h.1)
  ]

  pub insert-IsUnique : (k : K) (v : V) (m : Map K V) → IsUnique m → IsUnique (insert k v m)
  unfolding insert
  insert-IsUnique k v m h = (get-remove_self k m, remove-IsUnique k m h)

  pub length-remove :
      (k : K) (m : Map K V) (v : V)
      → IsUnique m
      → get k m ≡ some v
      → length (remove k m) + 1 ≡ length m
  unfolding get remove
  length-remove k [] w u h = ground arith
  length-remove k ((j, v) ∷ m) w u h = elim (Bool-cases (j == k)) [
    | inl same ↦ rw same (ground (arith, remove_absent k m, e.beq_iff j k, u.0))
    | inr other ↦ rw other (ground (arith, length-remove k m w u.1))
  ]

  pub length-remove-le : (k : K) (m : Map K V) → length (remove k m) ≤ length m
  unfolding remove
  length-remove-le k [] = omega arith
  length-remove-le k ((j, v) ∷ m) = ground (arith, length-remove-le k m)

  pub length-insert-le : (k : K) (v : V) (m : Map K V) → length (insert k v m) ≤ length m + 1
  unfolding insert
  length-insert-le k v m = omega (arith, length-remove-le k m)
