-- ===== src/Pins/Protection.antt =====
-- crates/carminedesktop-cache/src/pin_store.rs: which items a pin protects.
use carmine_desktop.Common.{
  ℕ, zero, suc, ◌≤◌, ◌≡◌, refl, ◌↔◌, String, true, Option, some, arith, Bool-cases, Option-cases,
  inl, inr, and_then, ◌||◌, some_inj,
}
use carmine_desktop.Store.{SqliteStore}
use carmine_desktop.Pins.{
  PinStore, parent_item_id, is_pinned, ancestor_pinned, is_protected, max_ancestors,
}

-- The n-th ancestor of an item, the item itself for 0.
abbrev pub ancestor : ℕ → String → SqliteStore → Option String
ancestor zero item_id s = some item_id
ancestor (suc n) item_id s = and_then (parent_item_id item_id s) (λ pid. ancestor n pid s)

-- A pin that has not expired stands on an ancestor, from the item on up to the bound.
abbrev pub IsBelowPin : ℕ → ℕ → String → String → SqliteStore → PinStore → Type 0
IsBelowPin bound now drive_id item_id s pins =
    (n : ℕ) × (n ≤ bound)
    × ((a : String) × (ancestor n item_id s ≡ some a) × (is_pinned now drive_id a pins ≡ true))

module _ (now : ℕ) (drive_id : String) (s : SqliteStore) (pins : PinStore) where
  IsBelowPin-up :
      (bound n : ℕ) (item_id : String)
      → n ≤ bound
      → (a : String) → ancestor n item_id s ≡ some a
      → is_pinned now drive_id a pins ≡ true
      → (is_pinned now drive_id item_id pins || ancestor_pinned bound now drive_id item_id s pins)
        ≡ true
  unfolding ancestor_pinned
  IsBelowPin-up bound zero item_id h a e p = ground (arith, some_inj e)
  IsBelowPin-up zero (suc n) item_id h a e p = ground arith
  IsBelowPin-up (suc bound) (suc n) item_id h a e p =
      elim (Option-cases (parent_item_id item_id s)) [
        | inl root ↦ ground (arith, root)
        | inr (pid, up) ↦
            rw (up, ancestor_pinned)
              (ground (arith, IsBelowPin-up bound n pid (omega arith) a (ground (arith, up)) p))
      ]

  IsBelowPin-down :
      (bound : ℕ) (item_id : String)
      → (is_pinned now drive_id item_id pins || ancestor_pinned bound now drive_id item_id s pins)
        ≡ true
      → IsBelowPin bound now drive_id item_id s pins
  unfolding ancestor_pinned
  IsBelowPin-down zero item_id h = (0, omega arith, (item_id, refl, ground arith))
  IsBelowPin-down (suc bound) item_id h = elim (Bool-cases (is_pinned now drive_id item_id pins)) [
    | inl here ↦ (0, omega arith, (item_id, refl, here))
    | inr free ↦ elim (Option-cases (parent_item_id item_id s)) [
      | inl root ↦ ground (arith, root)
      | inr (pid, up) ↦
          let (n, h', (a, e, p)) = IsBelowPin-down bound pid (ground (arith, up)) in
          (suc n, omega arith, (a, ground (arith, up), p))
    ]
  ]

  -- The filter of the disk cache protects an item exactly if a pin that has not expired stands on it
  -- or on one of its 50 nearest ancestors in the table of items.
  pub is_protected_iff :
      (item_id : String)
      → (is_protected now drive_id item_id s pins ≡ true)
        ↔ IsBelowPin max_ancestors now drive_id item_id s pins
  unfolding is_protected
  is_protected_iff item_id = (
    IsBelowPin-down max_ancestors item_id,
    λ below. let (n, h, (a, e, p)) = below in IsBelowPin-up max_ancestors n item_id h a e p,
  )
