-- ===== src/Store/Inserted.antt =====
-- crates/carminedesktop-cache/src/sqlite.rs: what an `INSERT … ON CONFLICT` into `items` leaves.
use carmine_desktop.Common.{
  ℕ, ◌≡◌, String, false, Option, none, some, arith, Bool-cases, Option-cases, inl, inr, ◌⊎◌, nat_eq,
  string_eq,
}
use carmine_desktop.Common.Map
use carmine_desktop.Common.Map.{Map}
use carmine_desktop.Item.{DriveItem}
use carmine_desktop.Store.{Row, inode_taken, insert_row}

-- The row that the statement writes: of a known item, or a new one under a free inode.
abbrev pub updated : Row → DriveItem → Option ℕ → Row
updated row item parent = record row { parent_inode = parent; item = item }

abbrev pub fresh : ℕ → String → DriveItem → Option ℕ → Row
fresh inode drive_id item parent = record {
  inode = inode;
  parent_inode = parent;
  drive_id = drive_id;
  item = item;
}

module _ (inode : ℕ) (drive_id : String) (item : DriveItem) (parent : Option ℕ)
    (rows rows' : Map String Row) where
  pub insert_row_cases :
      insert_row inode drive_id item parent rows ≡ some rows'
      → ((row : Row) × (Map.get item.id rows ≡ some row)
          × (rows' ≡ Map.insert item.id (updated row item parent) rows))
        ⊎ ((Map.get item.id rows ≡ none)
            × (inode_taken inode rows ≡ false)
            × (rows' ≡ Map.insert item.id (fresh inode drive_id item parent) rows))
  unfolding insert_row
  insert_row_cases h = elim (Option-cases (Map.get item.id rows)) [
    | inr (row, e) ↦ inl (row, e, ground arith)
    | inl e ↦ elim (Bool-cases (inode_taken inode rows)) [
      | inl taken ↦ absurd (ground arith)
      | inr free ↦ inr (e, free, ground arith)
    ]
  ]
