-- ===== src/Tests/Inode.antt =====
-- The inode table at concrete inputs.
use carmine_desktop.Common.{◌≡◌, refl, none, some, arith, string_eq, nat_eq}
use carmine_desktop.Common.Map
use carmine_desktop.Inode.{
  InodeTable, new, allocate, get_item_id, get_inode, remove_by_item_id, reassign,
}
use carmine_desktop.Inode.Consistent.{
  IsConsistent, IsConsistent-new, allocate-IsConsistent, remove_by_item_id-IsConsistent,
}
use carmine_desktop.Inode.Reassign.{reassign-IsConsistent, reassign_known_id}

-- A table with one item under inode 2.
abbrev with_a : InodeTable
with_a = (allocate "a" new).0

with_a-IsConsistent : IsConsistent with_a
with_a-IsConsistent = (allocate-IsConsistent "a" new IsConsistent-new (unfold new in omega arith)).0

next_of_with_a : with_a.next_inode ≡ 3
unfolding allocate new Map.get
next_of_with_a = refl

inode_of_a : get_inode "a" with_a ≡ some 2
unfolding get_inode allocate new Map.get Map.insert
inode_of_a = refl

allocate-IsConsistent_example :
    IsConsistent (allocate "b" with_a).0
    × (get_inode "b" (allocate "b" with_a).0 ≡ some (allocate "b" with_a).1)
    × (get_item_id (allocate "b" with_a).1 (allocate "b" with_a).0 ≡ some "b")
allocate-IsConsistent_example =
    allocate-IsConsistent "b" with_a with_a-IsConsistent (omega (arith, next_of_with_a))

remove_by_item_id-IsConsistent_example :
    IsConsistent (remove_by_item_id "a" with_a)
    × (get_inode "a" (remove_by_item_id "a" with_a) ≡ none)
    × (get_item_id 2 (remove_by_item_id "a" with_a) ≡ none)
remove_by_item_id-IsConsistent_example =
    remove_by_item_id-IsConsistent "a" 2 with_a with_a-IsConsistent inode_of_a

item_id_of_2 : get_item_id 2 with_a ≡ some "a"
unfolding get_item_id allocate new Map.get Map.insert
item_id_of_2 = refl

no_server_id : get_inode "server" with_a ≡ none
unfolding get_inode allocate new Map.get Map.insert Map.remove
no_server_id = refl

reassign-IsConsistent_example :
    IsConsistent (reassign 2 "server" with_a)
    × (get_item_id 2 (reassign 2 "server" with_a) ≡ some "server")
    × (get_inode "server" (reassign 2 "server" with_a) ≡ some 2)
    × (get_inode "a" (reassign 2 "server" with_a) ≡ none)
reassign-IsConsistent_example =
    reassign-IsConsistent with_a with_a-IsConsistent 2 "a" "server" item_id_of_2 no_server_id

reassign_known_id_example :
    (get_item_id 3 (reassign 3 "a" with_a) ≡ some "a")
    × (get_item_id 2 (reassign 3 "a" with_a) ≡ some "a")
    × (¬ IsConsistent (reassign 3 "a" with_a))
reassign_known_id_example = reassign_known_id with_a 3 2 "a" item_id_of_2 (omega arith)
