-- ===== src/Common/Map.antt =====
-- Hash maps (`HashMap`, `DashMap`, a table with a primary key) as association lists. An insertion
-- takes the key's old entry away, so a map built by these operations holds a key once.
use mathlib.Core.Path.{◌≡◌, refl}
use mathlib.Core.Bool.{Bool, true, false}
use mathlib.Core.Option.{Option, none, some}
use mathlib.Core.List.{List, [], ◌∷◌}
use native.Mathlib.Omega.{arith}
use carmine_desktop.Common.Tests.{if◌then◌else◌, is_some}
use carmine_desktop.Common.Equality.{Eq, ◌==◌, beq_false}
pub mod Unique
pub mod Sort

abbrev pub Map {ℓ κ} : Type ℓ → Type κ → Type (ℓ ⊔ κ)
Map K V = List (K × V)

abbrev pub keys {ℓ κ} : {K : Type ℓ} {V : Type κ} → Map K V → List K
keys [] = []
keys ((k, v) ∷ m) = k ∷ keys m

module _ {ℓ κ} {K : Type ℓ} {V : Type κ} ⦃e : Eq K⦄ where
  unfoldable pub get : K → Map K V → Option V
  get k [] = none
  get k ((j, v) ∷ m) = if j == k then some v else get k m

  unfoldable pub remove : K → Map K V → Map K V
  remove k [] = []
  remove k ((j, v) ∷ m) = let rest = remove k m in if j == k then rest else (j, v) ∷ rest

  unfoldable pub insert : K → V → Map K V → Map K V
  insert k v m = (k, v) ∷ remove k m

  abbrev pub contains_key : K → Map K V → Bool
  contains_key k m = is_some (get k m)

  pub get-nil : (k : K) → get k [] ≡ none
  unfolding get
  get-nil k = refl

  pub get-cons :
      (k j : K) (v : V) (m : Map K V) → get k ((j, v) ∷ m) ≡ (if j == k then some v else get k m)
  unfolding get
  get-cons k j v m = refl

  pub get-remove : (k j : K) (m : Map K V) → get j (remove k m) ≡ (if k == j then none else get j m)
  unfolding get remove
  get-remove k j [] = ground arith
  get-remove k j ((i, v) ∷ m) =
      ground (arith, e.beq_iff i k, e.beq_iff i j, e.beq_iff k j, get-remove k j m)

  pub get-insert :
      (k j : K) (v : V) (m : Map K V) → get j (insert k v m) ≡ (if k == j then some v else get j m)
  unfolding get insert
  get-insert k j v m = ground (arith, get-remove k j m)

module _ {ℓ κ} {K : Type ℓ} {V : Type κ} ⦃e : Eq K⦄ where
  pub get-insert_self : (k : K) (v : V) (m : Map K V) → get k (insert k v m) ≡ some v
  get-insert_self k v m = ground (arith, get-insert k k v m, e.beq_iff k k)

  pub get-remove_self : (k : K) (m : Map K V) → get k (remove k m) ≡ none
  get-remove_self k m = ground (arith, get-remove k k m, e.beq_iff k k)

module _ {ℓ κ} {K : Type ℓ} {V : Type κ} ⦃e : Eq K⦄ (k j : K) (ne : ¬ (k ≡ j)) where
  pub get-insert_ne : (v : V) (m : Map K V) → get j (insert k v m) ≡ get j m
  get-insert_ne v m = ground (arith, get-insert k j v m, beq_false k j ne)

  pub get-remove_ne : (m : Map K V) → get j (remove k m) ≡ get j m
  get-remove_ne m = ground (arith, get-remove k j m, beq_false k j ne)

pub ruleset map_laws = (get-nil, get-remove, get-insert)
