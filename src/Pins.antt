-- ===== src/Pins.antt =====
-- crates/carminedesktop-cache/src/pin_store.rs: the folders that are pinned for offline use, a table
-- beside those of the metadata store and of the disk cache. Dates are seconds; the statements on the
-- table answer.
use carmine_desktop.Common.{
  ℕ, zero, suc, ◌+◌, String, Bool, true, false, not, ◌&&◌, ◌||◌, Option, none, some, List, [], ◌∷◌,
  ◌++◌, if◌then◌else◌, ltb, leb, ◌==◌, nat_eq, string_eq, pair_eq, option_beq, and_then, length,
  is_some,
}
use carmine_desktop.Common.Map
use carmine_desktop.Common.Map.{Map}
use carmine_desktop.Disk.{CacheEntry}
use carmine_desktop.Item.{is_folder, Result, ok, err, Error, cache}
use carmine_desktop.Store.{Row, SqliteStore}
pub mod Protection
pub mod Expiry
pub mod Kept

pub record PinnedFolder : Type 0 where
  pub pinned_at : ℕ
  pub expires_at : ℕ

-- `pinned_folders`, by the drive and the item.
abbrev pub PinStore : Type 0
PinStore = Map (String × String) PinnedFolder

-- The last second of the year 9999, the last date of `datetime`, which gives NULL past it; so it does
-- for a number of seconds that is negative as an `i64`, for "+-" is no modifier.
abbrev pub last_date : ℕ
last_date = 253402300799

-- `datetime('now', '+' || ttl_secs || ' seconds')`
abbrev pub date_after : ℕ → ℕ → Option ℕ
date_after now ttl_secs = if leb (now + ttl_secs) last_date then some (now + ttl_secs) else none

-- The column holds no NULL: a lifetime that leads past the last date is refused.
unfoldable pub pin : ℕ → String → String → ℕ → PinStore → PinStore × Result (Unit {0})
pin now drive_id item_id ttl_secs pins = elim (date_after now ttl_secs) [
  | none ↦ (pins, err (cache "pin store insert failed"))
  | some date ↦
      (Map.insert (drive_id, item_id) (record { pinned_at = now; expires_at = date }) pins, ok tt)
]

unfoldable pub update_expires_at : ℕ → String → String → ℕ → PinStore → PinStore × Result (Unit {0})
update_expires_at now drive_id item_id ttl_secs pins = elim (Map.get (drive_id, item_id) pins) [
  | none ↦ (pins, ok tt)
  | some p ↦ elim (date_after now ttl_secs) [
    | none ↦ (pins, err (cache "pin store update failed"))
    | some date ↦ (Map.insert (drive_id, item_id) (record p { expires_at = date }) pins, ok tt)
  ]
]

unfoldable pub unpin : String → String → PinStore → PinStore
unpin drive_id item_id pins = Map.remove (drive_id, item_id) pins

abbrev pub is_live : ℕ → Option PinnedFolder → Bool
is_live now none = false
is_live now (some p) = ltb now p.expires_at

unfoldable pub is_pinned : ℕ → String → String → PinStore → Bool
is_pinned now drive_id item_id pins = is_live now (Map.get (drive_id, item_id) pins)

unfoldable pub list_expired : ℕ → PinStore → PinStore
list_expired now [] = []
list_expired now ((k, p) ∷ pins) =
    let rest = list_expired now pins in if leb p.expires_at now then (k, p) ∷ rest else rest

unfoldable pub list_all : PinStore → PinStore
list_all pins = pins

-- The item that a row with the inode holds.
unfoldable pub item_of_inode : ℕ → Map String Row → Option String
item_of_inode inode [] = none
item_of_inode inode ((id, row) ∷ rows) =
    let rest = item_of_inode inode rows in if row.inode == inode then some id else rest

-- `SELECT p.item_id FROM items c JOIN items p ON p.inode = c.parent_inode WHERE c.item_id = ?1`
unfoldable pub parent_item_id : String → SqliteStore → Option String
unfolding item_of_inode
parent_item_id item_id s =
    and_then (and_then (Map.get item_id s.items) (λ row. row.parent_inode))
      (λ inode. item_of_inode inode s.items)

-- The walk up the parents, 50 steps at most.
unfoldable pub ancestor_pinned : ℕ → ℕ → String → String → SqliteStore → PinStore → Bool
unfolding is_pinned parent_item_id
ancestor_pinned zero now drive_id item_id s pins = false
ancestor_pinned (suc steps) now drive_id item_id s pins = elim (parent_item_id item_id s) [
  | none ↦ false
  | some pid ↦ is_pinned now drive_id pid pins || ancestor_pinned steps now drive_id pid s pins
]

abbrev pub max_ancestors : ℕ
max_ancestors = 50

unfoldable pub is_protected : ℕ → String → String → SqliteStore → PinStore → Bool
unfolding is_pinned ancestor_pinned
is_protected now drive_id item_id s pins =
    is_pinned now drive_id item_id pins || ancestor_pinned max_ancestors now drive_id item_id s pins

-- The inodes of the rows whose parent is the inode.
unfoldable pub child_inodes : ℕ → Map String Row → List ℕ
child_inodes inode [] = []
child_inodes inode ((id, row) ∷ rows) =
    let rest = child_inodes inode rows in
    if option_beq row.parent_inode (some inode) then row.inode ∷ rest else rest

abbrev pub next_level : List ℕ → Map String Row → List ℕ
next_level [] rows = []
next_level (inode ∷ level) rows = child_inodes inode rows ++ next_level level rows

-- The recursive `subtree`, level by level. Where no item is its own ancestor there are no more levels
-- than rows; where one is, the query does not end.
unfoldable pub subtree : ℕ → List ℕ → Map String Row → List ℕ
unfolding child_inodes
subtree zero level rows = level
subtree (suc levels) level rows = level ++ subtree levels (next_level level rows) rows

abbrev pub elem : ℕ → List ℕ → Bool
elem n [] = false
elem n (m ∷ ms) = n == m || elem n ms

unfoldable pub count_files : List ℕ → String → (String → Bool) → Map String Row → ℕ
count_files inodes root test [] = 0
count_files inodes root test ((id, row) ∷ rows) =
    let rest = count_files inodes root test rows in
    if elem row.inode inodes && (not (is_folder row.item) && (not (id == root) && test id))
    then suc rest
    else rest

-- The files below a pinned folder, and those of them that the disk cache tracks.
unfoldable pub health_of : String → String → SqliteStore → Map (String × String) CacheEntry → ℕ × ℕ
unfolding subtree count_files
health_of drive_id item_id s tracker = elim (Map.get item_id s.items) [
  | none ↦ (0, 0)
  | some row ↦
      let inodes = subtree (length s.items) (row.inode ∷ []) s.items in
      (
        count_files inodes item_id (λ id. true) s.items,
        count_files inodes item_id (λ id. is_some (Map.get (drive_id, id) tracker)) s.items,
      )
]

unfoldable pub health :
    ℕ
    → SqliteStore
    → Map (String × String) CacheEntry
    → PinStore
    → List ((String × String) × PinnedFolder × ℕ × ℕ)
unfolding health_of
health now s tracker [] = []
health now s tracker (((drive_id, item_id), p) ∷ pins) =
    let rest = health now s tracker pins in
    let (total, cached) = health_of drive_id item_id s tracker in
    if ltb now p.expires_at then ((drive_id, item_id), p, total, cached) ∷ rest else rest

-- `OfflineManager::process_expired` of offline.rs: the pins listed as expired are taken away.
unfoldable pub unpin_all : PinStore → PinStore → PinStore × List String
unfolding unpin
unpin_all [] pins = (pins, [])
unpin_all (((drive_id, item_id), p) ∷ expired) pins =
    let (pins', ids) = unpin_all expired (unpin drive_id item_id pins) in (pins', item_id ∷ ids)

unfoldable pub process_expired : ℕ → PinStore → PinStore × List String
unfolding list_expired unpin_all
process_expired now pins = unpin_all (list_expired now pins) pins
