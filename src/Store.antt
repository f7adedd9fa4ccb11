-- ===== src/Store.antt =====
-- crates/carminedesktop-cache/src/sqlite.rs: the metadata store. A table is a map from its key; the
-- stored JSON is the item that it encodes. A statement fails only by the schema's constraints
-- (`inode` is the primary key of `items`, `item_id` is unique).
use carmine_desktop.Common.{
  ℕ, ◌-◌, max, String, Bool, true, false, Option, none, some, List, [], ◌∷◌, if◌then◌else◌, ltb,
  ◌==◌, nat_eq, string_eq, is_some, option_beq, unwrap_or,
}
use carmine_desktop.Common.Map
use carmine_desktop.Common.Map.{Map}
use carmine_desktop.Item.{DriveItem, Result, ok, err, Error, cache}
pub mod Inserted
pub mod Tombstones
pub mod Rows

-- A row of `items`; the other columns repeat parts of the item.
pub record Row : Type 0 where
  pub inode : ℕ
  pub parent_inode : Option ℕ
  pub drive_id : String
  pub item : DriveItem

pub record Tombstone : Type 0 where
  pub drive_id : String
  pub deleted_at : ℕ

pub record SqliteStore : Type 0 where
  pub items : Map String Row
  pub tombstones : Map String Tombstone
  pub delta_tokens : Map String String

unfoldable pub new : SqliteStore
new = record { items = []; tombstones = []; delta_tokens = [] }

unfoldable pub is_tombstoned : String → SqliteStore → Bool
is_tombstoned item_id s = Map.contains_key item_id s.tombstones

-- Another item holds the inode.
unfoldable pub inode_taken : ℕ → Map String Row → Bool
inode_taken inode [] = false
inode_taken inode ((_, row) ∷ rows) =
    let rest = inode_taken inode rows in if row.inode == inode then true else rest

-- `INSERT INTO items … ON CONFLICT(item_id) DO UPDATE SET …`: a known item keeps its inode and its
-- drive; a new item under an inode that is taken breaks the primary key.
unfoldable pub insert_row :
    ℕ → String → DriveItem → Option ℕ → Map String Row → Option (Map String Row)
unfolding inode_taken
insert_row inode drive_id item parent_inode rows = elim (Map.get item.id rows) [
  | some row ↦
      some (Map.insert item.id (record row { parent_inode = parent_inode; item = item }) rows)
  | none ↦
      if inode_taken inode rows
      then none
      else some (
          Map.insert item.id
            (record {
              inode = inode;
              parent_inode = parent_inode;
              drive_id = drive_id;
              item = item;
            })
            rows)
]

unfoldable pub upsert_item :
    ℕ → String → DriveItem → Option ℕ → SqliteStore → SqliteStore × Result (Unit {0})
unfolding is_tombstoned insert_row
upsert_item inode drive_id item parent_inode s =
    if is_tombstoned item.id s
    then (s, ok tt)
    else elim (insert_row inode drive_id item parent_inode s.items) [
      | none ↦ (s, err (cache "upsert failed"))
      | some rows ↦ (record s { items = rows }, ok tt)
    ]

unfoldable pub get_inode : String → SqliteStore → Option ℕ
get_inode item_id s = elim (Map.get item_id s.items) [ none ↦ none | some row ↦ some row.inode ]

unfoldable pub get_item_by_id : String → SqliteStore → Option (ℕ × DriveItem)
get_item_by_id item_id s = elim (Map.get item_id s.items) [
  | none ↦ none
  | some row ↦ some (row.inode, row.item)
]

unfoldable pub find_inode : ℕ → Map String Row → Option DriveItem
find_inode inode [] = none
find_inode inode ((_, row) ∷ rows) =
    let rest = find_inode inode rows in if row.inode == inode then some row.item else rest

unfoldable pub get_item_by_inode : ℕ → SqliteStore → Option DriveItem
unfolding find_inode
get_item_by_inode inode s = find_inode inode s.items

unfoldable pub children_of : ℕ → Map String Row → List (ℕ × DriveItem)
children_of parent [] = []
children_of parent ((_, row) ∷ rows) =
    let rest = children_of parent rows in
    if option_beq row.parent_inode (some parent) then (row.inode, row.item) ∷ rest else rest

unfoldable pub get_children : ℕ → SqliteStore → List (ℕ × DriveItem)
unfolding children_of
get_children parent_inode s = children_of parent_inode s.items

unfoldable pub without_children : ℕ → Map String Row → Map String Row
without_children parent [] = []
without_children parent ((id, row) ∷ rows) =
    let rest = without_children parent rows in
    if option_beq row.parent_inode (some parent) then rest else (id, row) ∷ rest

unfoldable pub delete_children : ℕ → SqliteStore → SqliteStore
unfolding without_children
delete_children parent_inode s = record s { items = without_children parent_inode s.items }

unfoldable pub delete_item : String → SqliteStore → SqliteStore
delete_item item_id s = record s { items = Map.remove item_id s.items }

unfoldable pub delete_with_tombstone : ℕ → String → String → SqliteStore → SqliteStore
delete_with_tombstone now drive_id item_id s = record s {
  tombstones = Map.insert item_id (record { drive_id = drive_id; deleted_at = now }) s.tombstones;
  items = Map.remove item_id s.items;
}

unfoldable pub remove_tombstone : String → SqliteStore → SqliteStore
remove_tombstone item_id s = record s { tombstones = Map.remove item_id s.tombstones }

unfoldable pub purge : ℕ → Map String Tombstone → Map String Tombstone
purge cutoff [] = []
purge cutoff ((id, t) ∷ m) =
    let rest = purge cutoff m in if ltb t.deleted_at cutoff then rest else (id, t) ∷ rest

-- The cutoff saturates: before `secs` nothing is old enough.
unfoldable pub purge_tombstones_older_than : ℕ → ℕ → SqliteStore → SqliteStore
unfolding purge
purge_tombstones_older_than now secs s = record s { tombstones = purge (now - secs) s.tombstones }

unfoldable pub get_delta_token : String → SqliteStore → Option String
get_delta_token drive_id s = Map.get drive_id s.delta_tokens

unfoldable pub set_delta_token : String → String → SqliteStore → SqliteStore
set_delta_token drive_id token s = record s {
  delta_tokens = Map.insert drive_id token s.delta_tokens;
}

abbrev pub i64_limit : ℕ
i64_limit = 9223372036854775808

-- The larger of two inodes as the table holds them, as `i64`: from 2^63 on they are negative.
unfoldable pub signed_max : ℕ → ℕ → ℕ
signed_max a b =
    if ltb a i64_limit
    then if ltb b i64_limit then max a b else a
    else if ltb b i64_limit
    then b
    else max a b

-- `SELECT MAX(inode) FROM items`
unfoldable pub max_inode_of : Map String Row → Option ℕ
unfolding signed_max
max_inode_of [] = none
max_inode_of ((_, row) ∷ rows) = elim (max_inode_of rows) [
  | none ↦ some row.inode
  | some n ↦ some (signed_max row.inode n)
]

-- 0 if there is none.
unfoldable pub max_inode : SqliteStore → ℕ
unfolding max_inode_of
max_inode s = unwrap_or (max_inode_of s.items) 0

unfoldable pub pairs_of : Map String Row → List (ℕ × String)
pairs_of [] = []
pairs_of ((id, row) ∷ rows) = (row.inode, id) ∷ pairs_of rows

unfoldable pub all_inode_pairs : SqliteStore → List (ℕ × String)
unfolding pairs_of
all_inode_pairs s = pairs_of s.items

unfoldable pub clear : SqliteStore → SqliteStore
clear s = record { items = []; tombstones = []; delta_tokens = [] }

-- The first loop of `apply_delta`; `none` rolls the transaction back.
unfoldable pub delta_upserts :
    String
    → Map String Tombstone
    → List (ℕ × DriveItem × Option ℕ)
    → Map String Row
    → Option (Map String Row)
unfolding insert_row
delta_upserts drive_id tombstones [] rows = some rows
delta_upserts drive_id tombstones ((inode, item, parent_inode) ∷ items) rows =
    let skipped = delta_upserts drive_id tombstones items rows in
    if Map.contains_key item.id tombstones
    then skipped
    else elim (insert_row inode drive_id item parent_inode rows) [
      | none ↦ none
      | some rows' ↦ delta_upserts drive_id tombstones items rows'
    ]

-- The second loop: each id leaves the items and the tombstones.
unfoldable pub delta_deletes : List String → SqliteStore → SqliteStore
delta_deletes [] s = s
delta_deletes (id ∷ ids) s =
    delta_deletes ids
      (record s { items = Map.remove id s.items; tombstones = Map.remove id s.tombstones })

unfoldable pub apply_delta :
    String
    → List (ℕ × DriveItem × Option ℕ)
    → List String
    → String
    → SqliteStore
    → SqliteStore × Result (Unit {0})
unfolding delta_upserts delta_deletes set_delta_token
apply_delta drive_id items deleted_ids new_delta_token s =
    elim (delta_upserts drive_id s.tombstones items s.items) [
      | none ↦ (s, err (cache "upsert in delta failed"))
      | some rows ↦ (
        set_delta_token drive_id new_delta_token
            (delta_deletes deleted_ids (record s { items = rows })),
        ok tt,
      )
    ]
