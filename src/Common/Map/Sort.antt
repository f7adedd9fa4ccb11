-- ===== src/Common/Map/Sort.antt =====
-- Maps in the order of a number that each entry carries (`ORDER BY`, `sort_by_key`): a stable sort.
use mathlib.Core.Path.{◌≡◌, refl, ◌∙◌}
use mathlib.Core.Option.{none, some}
use mathlib.Core.List.{[], ◌∷◌}
use Prim.Native.Nat.{ℕ}
use native.Mathlib.Omega.{arith}
use carmine_desktop.Common.Equality.{Eq, ◌==◌}
use carmine_desktop.Common.Tests.{if◌then◌else◌, leb, if_lem}
use carmine_desktop.Common.Map.{Map, get, get-nil, get-cons}
use carmine_desktop.Common.Map.Unique.{IsUnique}

module _ {ℓ κ} {K : Type ℓ} {V : Type κ} (key : V → ℕ) where
  unfoldable pub insert_by : K × V → Map K V → Map K V
  insert_by (i, e) [] = (i, e) ∷ []
  insert_by (i, e) ((j, d) ∷ sorted) =
      let rest = insert_by (i, e) sorted in
      if leb (key e) (key d) then (i, e) ∷ (j, d) ∷ sorted else (j, d) ∷ rest

  unfoldable pub sort_by : Map K V → Map K V
  unfolding insert_by
  sort_by [] = []
  sort_by ((i, e) ∷ m) = insert_by (i, e) (sort_by m)

  module _ ⦃q : Eq K⦄ where
    get-insert_by :
        (i : K) (e : V) (m : Map K V) (k : K)
        → get i m ≡ none
        → get k (insert_by (i, e) m) ≡ (if i == k then some e else get k m)
    unfolding insert_by get
    get-insert_by i e [] k h = refl
    get-insert_by i e ((j, d) ∷ m) k h =
        ground (arith, q.beq_iff j i, q.beq_iff j k, q.beq_iff i k, get-insert_by i e m k)

    insert_by-IsUnique :
        (i : K) (e : V) (m : Map K V) → get i m ≡ none → IsUnique m → IsUnique (insert_by (i, e) m)
    unfolding insert_by
    insert_by-IsUnique i e [] h u = (get-nil i, tt)
    insert_by-IsUnique i e ((j, d) ∷ m) h u =
        let absent : get i m ≡ none = ground (arith, get-cons i j d m) in
        if_lem (λ (l : Map K V). IsUnique l) (leb (key e) (key d)) (h, u)
          (
            ground (
              arith,
              get-insert_by i e m j absent,
              get-cons i j d m,
              u.0,
              q.beq_iff j i,
              q.beq_iff i j,
            ),
            insert_by-IsUnique i e m absent u.1,
          )

    -- Sorting keeps what a key finds, and that a key stands once.
    pub sort_by-same :
        (m : Map K V) → IsUnique m → IsUnique (sort_by m) × ((k : K) → get k (sort_by m) ≡ get k m)
    unfolding sort_by
    sort_by-same [] u = (tt, λ k. refl)
    sort_by-same ((i, e) ∷ m) u =
        let (unique, same) = sort_by-same m u.1 in
        (
          insert_by-IsUnique i e (sort_by m) (same i ∙ u.0) unique,
          λ k.
              ground
                (arith, get-insert_by i e (sort_by m) k (same i ∙ u.0), get-cons k i e m, same k),
        )
