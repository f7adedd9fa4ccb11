-- ===== src/Inode.antt =====
-- crates/carminedesktop-vfs/src/inode.rs: the table of inodes and item ids.
use carmine_desktop.Common.{
  ℕ, ◌+◌, ◌%◌, ◌^◌, max, String, Option, none, some, List, [], ◌∷◌, ◌==◌, string_eq, nat_eq,
}
use carmine_desktop.Common.Map
use carmine_desktop.Common.Map.{Map}
pub mod Consistent
pub mod Reassign

abbrev pub root_inode : ℕ
root_inode = 1

abbrev pub u64_modulus : ℕ
u64_modulus = 18446744073709551616

-- `next_inode`, an `AtomicU64`, and the two maps under the lock.
pub record InodeTable : Type 0 where
  pub next_inode : ℕ
  pub inode_to_item : Map ℕ String
  pub item_to_inode : Map String ℕ

unfoldable pub new : InodeTable
new = record { next_inode = root_inode + 1; inode_to_item = []; item_to_inode = [] }

-- The counter starts above every inode that the database holds.
unfoldable pub new_starting_after : ℕ → InodeTable
new_starting_after max_existing = record {
  next_inode = (max max_existing root_inode + 1) % u64_modulus;
  inode_to_item = [];
  item_to_inode = [];
}

-- The pair of insertions that ends `seed`, `allocate`, `reassign` and `set_root`.
unfoldable pub insert_pair : ℕ → String → InodeTable → InodeTable
insert_pair inode item_id t = record t {
  inode_to_item = Map.insert inode item_id t.inode_to_item;
  item_to_inode = Map.insert item_id inode t.item_to_inode;
}

unfoldable pub seed : List (ℕ × String) → InodeTable → InodeTable
seed [] t = t
seed ((inode, item_id) ∷ pairs) t = seed pairs (insert_pair inode item_id t)

-- `fetch_add` wraps at 2^64.
unfoldable pub allocate : String → InodeTable → InodeTable × ℕ
unfolding insert_pair
allocate item_id t = elim (Map.get item_id t.item_to_inode) [
  | some inode ↦ (t, inode)
  | none ↦ (
    insert_pair t.next_inode item_id (record t { next_inode = (t.next_inode + 1) % u64_modulus }),
    t.next_inode,
  )
]

unfoldable pub get_item_id : ℕ → InodeTable → Option String
get_item_id inode t = Map.get inode t.inode_to_item

unfoldable pub get_inode : String → InodeTable → Option ℕ
get_inode item_id t = Map.get item_id t.item_to_inode

unfoldable pub remove_by_item_id : String → InodeTable → InodeTable
remove_by_item_id item_id t = elim (Map.get item_id t.item_to_inode) [
  | some inode ↦ record t {
    inode_to_item = Map.remove inode t.inode_to_item;
    item_to_inode = Map.remove item_id t.item_to_inode;
  }
  | none ↦ t
]

-- The first half of `reassign`: the inode's old id is forgotten.
unfoldable pub forget_old : Option String → InodeTable → InodeTable
forget_old (some old_item_id) t = record t {
  item_to_inode = Map.remove old_item_id t.item_to_inode;
}
forget_old none t = t

unfoldable pub reassign : ℕ → String → InodeTable → InodeTable
unfolding insert_pair forget_old
reassign inode new_item_id t =
    insert_pair inode new_item_id (forget_old (Map.get inode t.inode_to_item) t)

unfoldable pub set_root : String → InodeTable → InodeTable
unfolding insert_pair
set_root item_id t = insert_pair root_inode item_id t
