-- ===== src/Inode/Reassign.antt =====
-- crates/carminedesktop-vfs/src/inode.rs: `reassign`, which gives an uploaded file its server id.
use carmine_desktop.Common.{ℕ, ◌≡◌, ◌≢◌, String, none, some, arith, string_eq, nat_eq}
use carmine_desktop.Common.Map
use carmine_desktop.Common.Map.{get-insert, get-insert_self, get-remove}
use carmine_desktop.Inode.{InodeTable, reassign, get_item_id, get_inode}
use carmine_desktop.Inode.Consistent.{IsConsistent}

module _ (t : InodeTable) (c : IsConsistent t) (i : ℕ) (old id : String) where
  -- If a mapped inode of a consistent table is given an id new to the table, the table stays
  -- consistent, the inode now stands for the new id in both maps, and the old id has no inode any
  -- more.
  pub reassign-IsConsistent :
      get_item_id i t ≡ some old
      → get_inode id t ≡ none
      → IsConsistent (reassign i id t)
        × (get_item_id i (reassign i id t) ≡ some id)
        × (get_inode id (reassign i id t) ≡ some i)
        × (get_inode old (reassign i id t) ≡ none)
  unfolding reassign get_item_id get_inode
  reassign-IsConsistent p q =
      rw (p, reassign)
        (
          record {
            forward = λ j jd h. ground (
              arith,
              get-insert i j id t.inode_to_item,
              get-insert id jd i (Map.remove old t.item_to_inode),
              get-remove old jd t.item_to_inode,
              nat_eq.beq_iff i j,
              string_eq.beq_iff id jd,
              string_eq.beq_iff old jd,
              c.forward j jd,
              c.forward i old p,
            );
            backward = λ j jd h. ground (
              arith,
              get-insert i j id t.inode_to_item,
              get-insert id jd i (Map.remove old t.item_to_inode),
              get-remove old jd t.item_to_inode,
              nat_eq.beq_iff i j,
              string_eq.beq_iff id jd,
              string_eq.beq_iff old jd,
              c.backward j jd,
              c.backward i old (c.forward i old p),
            );
            below_next = λ j jd h. ground (
              arith,
              get-insert i j id t.inode_to_item,
              nat_eq.beq_iff i j,
              c.below_next j jd,
              c.below_next i old p,
            );
            after_root = c.after_root;
          },
          get-insert_self i id t.inode_to_item,
          get-insert_self id i (Map.remove old t.item_to_inode),
          ground (
            arith,
            get-insert id old i (Map.remove old t.item_to_inode),
            get-remove old old t.item_to_inode,
            string_eq.beq_iff id old,
            string_eq.beq_iff old old,
            c.forward i old p,
          ),
        )

reassign-inode_to_item :
    (t : InodeTable) (i : ℕ) (id : String)
    → (reassign i id t).inode_to_item ≡ Map.insert i id t.inode_to_item
unfolding reassign
reassign-inode_to_item t i id = ground (arith)

-- If another inode already stands for the new id (a delta sync ran before the upload's reply),
-- both inodes answer to that id afterwards: the table is not consistent.
pub reassign_known_id :
    (t : InodeTable) (i j : ℕ) (id : String)
    → get_item_id j t ≡ some id
    → i ≢ j
    → (get_item_id i (reassign i id t) ≡ some id)
      × (get_item_id j (reassign i id t) ≡ some id)
      × (¬ IsConsistent (reassign i id t))
unfolding get_item_id
reassign_known_id t i j id p h =
    let at_i : Map.get i (reassign i id t).inode_to_item ≡ some id =
      rw reassign-inode_to_item (get-insert_self i id t.inode_to_item) in
    let at_j : Map.get j (reassign i id t).inode_to_item ≡ some id =
      rw reassign-inode_to_item
        (ground (arith, get-insert i j id t.inode_to_item, nat_eq.beq_iff i j)) in
    (at_i, at_j, λ c. h (ground (arith, c.forward i id at_i, c.forward j id at_j)))
