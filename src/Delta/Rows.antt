-- ===== src/Delta/Rows.antt =====
-- crates/carminedesktop-cache/src/sqlite.rs: the rows after the transaction of a delta sync.
use mathlib.Core.List.{Mem, mem-cons_self, mem-cons_of_mem}
use mathlib.Core.Path.{subst}
use carmine_desktop.Common.{
  ℕ, ◌≡◌, ap, ◌∙◌, String, false, Option, none, some, List, [], ◌∷◌, arith, Bool-cases,
  Option-cases, inl, inr, ◌==◌, string_eq, All, All-map, map, some_inj,
}
use carmine_desktop.Common.Map
use carmine_desktop.Common.Map.{
  Map, get-insert_self, get-insert_ne, get-remove, get-remove_ne, get-remove_self,
}
use carmine_desktop.Item.{DriveItem}
use carmine_desktop.Store.{Row, Tombstone, SqliteStore, insert_row, delta_upserts, delta_deletes}
use carmine_desktop.Store.Inserted.{insert_row_cases, updated, fresh}

-- The item of an upsert.
abbrev pub item_of : ℕ × DriveItem × Option ℕ → DriveItem
item_of (inode, item, parent) = item

-- There is a row for the id, and its item satisfies `P`.
abbrev pub HasRow {κ} : (DriveItem → Type κ) → Map String Row → String → Type κ
HasRow P rows id = (row : Row) × (Map.get id rows ≡ some row) × P row.item

module _ {κ} (P : DriveItem → Type κ) where
  insert_row-HasRow_self :
      (inode : ℕ) (drive_id : String) (item : DriveItem) (parent : Option ℕ)
      (rows rows' : Map String Row)
      → insert_row inode drive_id item parent rows ≡ some rows'
      → P item
      → HasRow P rows' item.id
  insert_row-HasRow_self inode drive_id item parent rows rows' h p =
      elim (insert_row_cases inode drive_id item parent rows rows' h) [
        | inl (row, at, e) ↦ (
          updated row item parent,
          ap (Map.get item.id) e ∙ get-insert_self item.id (updated row item parent) rows,
          p,
        )
        | inr (absent, free, e) ↦ (
          fresh inode drive_id item parent,
          ap (Map.get item.id) e ∙ get-insert_self item.id (fresh inode drive_id item parent) rows,
          p,
        )
      ]

  insert_row-get_ne :
      (inode : ℕ) (drive_id : String) (item : DriveItem) (parent : Option ℕ)
      (rows rows' : Map String Row) (id : String)
      → insert_row inode drive_id item parent rows ≡ some rows'
      → ¬ (item.id ≡ id)
      → Map.get id rows' ≡ Map.get id rows
  insert_row-get_ne inode drive_id item parent rows rows' id h ne =
      elim (insert_row_cases inode drive_id item parent rows rows' h) [
        | inl (row, at, e) ↦
            ap (Map.get id) e ∙ get-insert_ne item.id id ne (updated row item parent) rows
        | inr (absent, free, e) ↦
            ap (Map.get id) e ∙ get-insert_ne item.id id ne (fresh inode drive_id item parent) rows
      ]

  insert_row-HasRow :
      (inode : ℕ) (drive_id : String) (item : DriveItem) (parent : Option ℕ)
      (rows rows' : Map String Row) (id : String)
      → insert_row inode drive_id item parent rows ≡ some rows'
      → P item
      → HasRow P rows id
      → HasRow P rows' id
  insert_row-HasRow inode drive_id item parent rows rows' id h p (row, at, q) =
      elim (Bool-cases (item.id == id)) [
        | inl same ↦
            subst (HasRow P rows') ((string_eq.beq_iff item.id id).0 same)
              (insert_row-HasRow_self inode drive_id item parent rows rows' h p)
        | inr other ↦ (
          row,
          insert_row-get_ne inode drive_id item parent rows rows' id h
                (λ e. ground (arith, string_eq.beq_iff item.id id, e, other))
              ∙ at,
          q,
        )
      ]

  module _ (drive_id : String) (tombstones : Map String Tombstone) where
    delta_upserts-HasRow :
        (ups : List (ℕ × DriveItem × Option ℕ)) (rows rows' : Map String Row) (id : String)
        → delta_upserts drive_id tombstones ups rows ≡ some rows'
        → All P (map item_of ups)
        → HasRow P rows id
        → HasRow P rows' id
    unfolding delta_upserts
    delta_upserts-HasRow [] rows rows' id h p row =
        subst (λ (r : Map String Row). HasRow P r id) (some_inj h) row
    delta_upserts-HasRow ((inode, item, parent) ∷ ups) rows rows' id h p row =
        elim (Bool-cases (Map.contains_key item.id tombstones)) [
          | inl skip ↦
              delta_upserts-HasRow ups rows rows' id (rw (skip, delta_upserts) at h) p.1 row
          | inr take ↦ elim (Option-cases (insert_row inode drive_id item parent rows)) [
            | inl e ↦ absurd (ground arith)
            | inr (r, e) ↦
                delta_upserts-HasRow ups r rows' id (rw (take, e, delta_upserts) at h) p.1
                  (insert_row-HasRow inode drive_id item parent rows r id e p.0 row)
          ]
        ]

    -- Every item that is upserted, and for which there is no tombstone, has a row in the end.
    pub delta_upserts-All :
        (ups : List (ℕ × DriveItem × Option ℕ)) (rows rows' : Map String Row)
        → delta_upserts drive_id tombstones ups rows ≡ some rows'
        → All P (map item_of ups)
        → All (λ item. Map.contains_key item.id tombstones ≡ false) (map item_of ups)
        → All (λ item. HasRow P rows' item.id) (map item_of ups)
    unfolding delta_upserts
    delta_upserts-All [] rows rows' h p q = tt
    delta_upserts-All ((inode, item, parent) ∷ ups) rows rows' h p q =
        elim (Option-cases (insert_row inode drive_id item parent rows)) [
          | inl e ↦ absurd (ground (arith, q.0))
          | inr (r, e) ↦
              let h' = rw (q.0, e, delta_upserts) at h in
              (
                delta_upserts-HasRow ups r rows' item.id h' p.1
                    (insert_row-HasRow_self inode drive_id item parent rows r e p.0),
                delta_upserts-All ups r rows' h' p.1 q.1,
              )
        ]

  -- A deletion takes no row but those of its ids.
  pub delta_deletes-HasRow :
      (ids : List String) (s : SqliteStore) (id : String)
      → All (λ gone. ¬ (gone ≡ id)) ids
      → HasRow P s.items id
      → HasRow P (delta_deletes ids s).items id
  unfolding delta_deletes
  delta_deletes-HasRow [] s id ne row = row
  delta_deletes-HasRow (x ∷ ids) s id ne (row, at, p) =
      delta_deletes-HasRow ids _ id ne.1 (row, get-remove_ne x id ne.0 s.items ∙ at, p)

-- A row that is gone is not brought back by further deletions.
delta_deletes_absent :
    (id : String) (ids : List String) (s : SqliteStore)
    → Map.get id s.items ≡ none
    → Map.get id (delta_deletes ids s).items ≡ none
unfolding delta_deletes
delta_deletes_absent id [] s h = h
delta_deletes_absent id (x ∷ ids) s h =
    delta_deletes_absent id ids _ (ground (arith, get-remove x id s.items))

pub delta_deletes-All :
    (ids : List String) (s : SqliteStore)
    → All (λ id. Map.get id (delta_deletes ids s).items ≡ none) ids
unfolding delta_deletes
delta_deletes-All [] s = tt
delta_deletes-All (x ∷ ids) s =
    let rest : SqliteStore = record s {
      items = Map.remove x s.items;
      tombstones = Map.remove x s.tombstones;
    } in
    (delta_deletes_absent x ids rest (get-remove_self x s.items), delta_deletes-All ids rest)

pub All-Mem {ℓ} : {A : Type ℓ} (xs : List A) → All (λ x. Mem x xs) xs
All-Mem [] = tt
All-Mem (x ∷ xs) = (
  mem-cons_self,
  All-map (λ y. Mem y xs) (λ y. Mem y (x ∷ xs)) (λ y h. mem-cons_of_mem x h) xs (All-Mem xs),
)
