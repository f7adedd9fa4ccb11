-- ===== src/Vfs/Tree/Errors.antt =====
-- crates/carminedesktop-vfs/src/core_ops.rs: what a removal leaves, whether it succeeds or fails.
use carmine_desktop.Common.{
  ℕ, ◌≡◌, refl, ap, ◌∙◌, String, true, Option, none, some, List, [], ◌∷◌, arith, Option-cases, inl,
  inr, if_lem, nat_eq, string_eq, is_some,
}
use carmine_desktop.Common.Map
use carmine_desktop.Common.Map.{get-remove_self, get-insert_self, get-insert}
use carmine_desktop.Graph
use carmine_desktop.Graph.{Service}
use carmine_desktop.Inode
use carmine_desktop.Item.{DriveItem, Result, ok, err, is_folder}
use carmine_desktop.Memory
use carmine_desktop.Memory.{MemoryCache}
use carmine_desktop.Store
use carmine_desktop.Store.{get_item_by_id, is_tombstoned}
use carmine_desktop.Upload.{VfsEvent, World, emit, local_deleted}
use carmine_desktop.Vfs.{
  CoreOps, VfsEnv, VfsResult, success, failure, send_event, set_memory, set_inodes, set_store,
  display_path_under, graph_call, directory_not_empty, set_writeback,
}
use carmine_desktop.Vfs.Content.{set_disk}
use carmine_desktop.Vfs.Frame.{
  IsFramed, find_child-IsFramed, display_path_under-IsFramed, IsFramed-trans,
}
use carmine_desktop.Vfs.Lookup.{find_child}
use carmine_desktop.Vfs.Rename.{rmdir, check_empty, folder_removed, remove_remote_folder}
use carmine_desktop.Vfs.Tree.{
  remove_child, forget_item, cleanup_deleted_item, delete_remote, unlinked, unlink, is_local,
}

-- The store, the pending writes, the disk cache and the open files are as before.
abbrev pub IsIntact : CoreOps → CoreOps → Type 0
IsIntact v w =
    (w.world.store ≡ v.world.store)
    × (w.world.writeback ≡ v.world.writeback)
    × (w.disk ≡ v.disk)
    × (w.open_files ≡ v.open_files)

-- The item has left the store, the inode table and memory, and the store remembers its deletion.
abbrev pub IsGone : ℕ → String → CoreOps → Type 0
IsGone ino id w =
    (get_item_by_id id w.world.store ≡ none)
    × (is_tombstoned id w.world.store ≡ true)
    × (Inode.get_inode id w.world.inodes ≡ none)
    × (Map.get ino w.world.memory.entries ≡ none)

-- What a removal of the child that was found ends with.
abbrev pub IsRemoval : CoreOps → Option (ℕ × DriveItem) → CoreOps × VfsResult (Unit {0}) → Type 0
IsRemoval v none (w, success _) = ⊥
IsRemoval v (some child) (w, success _) = IsGone child.0 child.1.id w
IsRemoval v found (w, failure e) = IsIntact v w

IsFramed-IsIntact : (v w : CoreOps) → IsFramed v w → IsIntact v w
IsFramed-IsIntact v w f = (f.store, f.writeback, f.disk, f.open_files)

invalidate_absent :
    (ino : ℕ) (m : MemoryCache) → Map.get ino (Memory.invalidate ino m).entries ≡ none
unfolding Memory.invalidate
invalidate_absent ino m = get-remove_self ino m.entries

IsIntact-trans : (a b c : CoreOps) → IsIntact a b → IsIntact b c → IsIntact a c
IsIntact-trans a b c p q = (q.0 ∙ p.0, q.1 ∙ p.1, q.2 ∙ p.2, q.3 ∙ p.3)

get_inode-remove_by_item_id :
    (id : String) (t : Inode.InodeTable) → Inode.get_inode id (Inode.remove_by_item_id id t) ≡ none
unfolding Inode.get_inode Inode.remove_by_item_id
get_inode-remove_by_item_id id t = elim (Option-cases (Map.get id t.item_to_inode)) [
  | inl e ↦ rw (e, Inode.remove_by_item_id) e
  | inr (ino, e) ↦ rw (e, Inode.remove_by_item_id) (get-remove_self id t.item_to_inode)
]

-- A change to the children of another entry brings no entry back.
get-remove_child_absent :
    (ino parent : ℕ) (name : String) (m : MemoryCache)
    → Map.get ino m.entries ≡ none
    → Map.get ino (Memory.remove_child parent name m).entries ≡ none
unfolding Memory.remove_child Memory.update_children
get-remove_child_absent ino parent name m h = elim (Option-cases (Map.get parent m.entries)) [
  | inl e ↦ rw (e, Memory.update_children) h
  | inr (entry, e) ↦ elim (Option-cases entry.children) [
    | inl q ↦ rw (e, q, Memory.update_children) h
    | inr (children, q) ↦
        rw (e, q, Memory.update_children)
          (ground (
            arith,
            get-insert parent ino
                (record entry { children = some (Memory.child_removed name children) }) m.entries,
            nat_eq.beq_iff parent ino,
          ))
  ]
]

-- The store after the deletion of an item.
delete_with_tombstone-gone :
    (now : ℕ) (drive_id id : String) (s : Store.SqliteStore)
    → (get_item_by_id id (Store.delete_with_tombstone now drive_id id s) ≡ none)
      × (is_tombstoned id (Store.delete_with_tombstone now drive_id id s) ≡ true)
unfolding Store.delete_with_tombstone get_item_by_id is_tombstoned
delete_with_tombstone-gone now drive_id id s = (
  rw (get-remove_self id s.items, get_item_by_id) refl,
  ap is_some (get-insert_self id _ s.tombstones),
)

module _ (service : Service) (env : VfsEnv) where
  send_event-IsGone :
      (event : VfsEvent) (ino : ℕ) (id : String) (w : CoreOps)
      → IsGone ino id w
      → IsGone ino id (send_event service env event w)
  unfolding send_event emit
  send_event-IsGone event ino id w h =
      if_lem (λ (x : World). IsGone ino id (record w { world = x })) env.upload.listening h h

  cleanup_deleted_item-IsGone :
      (id : String) (ino : ℕ) (v : CoreOps)
      → IsGone ino id (cleanup_deleted_item service env id ino v)
  unfolding cleanup_deleted_item forget_item set_memory set_inodes set_store set_disk set_writeback
  cleanup_deleted_item-IsGone id ino v =
      let (no_row, buried) =
        delete_with_tombstone-gone env.seconds env.upload.drive_id id v.world.store in
      (
        no_row,
        buried,
        get_inode-remove_by_item_id id v.world.inodes,
        invalidate_absent ino v.world.memory,
      )

  unlinked-IsRemoval :
      (parent_ino : ℕ) (name : String) (child : ℕ × DriveItem) (path : String) (v : CoreOps)
      (r : CoreOps × VfsResult (Unit {0}))
      → IsIntact v r.0
      → IsRemoval v (some child) (unlinked service env parent_ino name child.0 child.1 path r)
  unfolding unlinked
  unlinked-IsRemoval parent_ino name child path v (w, failure e) intact = intact
  unlinked-IsRemoval parent_ino name child path v (w, success _) intact =
      let w' = remove_child service env parent_ino name w in
      send_event-IsGone (local_deleted path child.1.id (is_folder child.1)) child.0 child.1.id
        (cleanup_deleted_item service env child.1.id child.0 w')
        (cleanup_deleted_item-IsGone child.1.id child.0 w')

  folder_removed-IsRemoval :
      (parent_ino : ℕ) (name : String) (child : ℕ × DriveItem) (path : String) (v : CoreOps)
      (r : CoreOps × VfsResult (Unit {0}))
      → IsIntact v r.0
      → IsRemoval v
          (some child)
          (folder_removed service env parent_ino name child.0 child.1.id path r)
  unfolding folder_removed remove_child set_memory set_inodes set_store
  folder_removed-IsRemoval parent_ino name child path v (w, failure e) intact = intact
  folder_removed-IsRemoval parent_ino name child path v (w, success _) intact =
      let (no_row, buried) =
        delete_with_tombstone-gone env.seconds env.upload.drive_id child.1.id w.world.store in
      let v1 = set_memory (Memory.invalidate child.0 w.world.memory) w in
      let v2 = remove_child service env parent_ino name v1 in
      let v3 = set_inodes (Inode.remove_by_item_id child.1.id v2.world.inodes) v2 in
      let v4 =
        set_store
          (Store.delete_with_tombstone env.seconds env.upload.drive_id child.1.id v3.world.store)
          v3 in
      send_event-IsGone (local_deleted path child.1.id true) child.0 child.1.id v4 (
        no_row,
        buried,
        get_inode-remove_by_item_id child.1.id w.world.inodes,
        get-remove_child_absent child.0 parent_ino name (Memory.invalidate child.0 w.world.memory)
            (invalidate_absent child.0 w.world.memory),
      )

  delete_remote-IsIntact :
      (label id : String) (v : CoreOps) → IsIntact v (delete_remote service env label id v).0
  unfolding delete_remote graph_call
  delete_remote-IsIntact label id v =
      if_lem (λ (r : CoreOps × VfsResult (Unit {0})). IsIntact v r.0) (is_local id)
        (refl, refl, refl, refl) (refl, refl, refl, refl)

  remove_remote_folder-IsIntact :
      (id : String) (r : CoreOps × Result (List DriveItem))
      → IsIntact r.0 (remove_remote_folder service env id r).0
  unfolding remove_remote_folder
  remove_remote_folder-IsIntact id (v, err e) = (refl, refl, refl, refl)
  remove_remote_folder-IsIntact id (v, ok (x ∷ children)) = (refl, refl, refl, refl)
  remove_remote_folder-IsIntact id (v, ok []) = delete_remote-IsIntact "rmdir delete failed: " id v

  check_empty-IsIntact :
      (ino : ℕ) (id : String) (v : CoreOps) → IsIntact v (check_empty service env ino id v).0
  unfolding check_empty graph_call set_memory
  check_empty-IsIntact ino id v =
      let (memory, children) = Memory.get_children env.upload.now ino v.world.memory in
      if_lem (λ (r : CoreOps × VfsResult (Unit {0})). IsIntact v r.0) (is_local id)
        (either (set_memory memory v) children (refl, refl, refl, refl))
        (remove_remote_folder-IsIntact id
          (graph_call service.children (Graph.list_children env.upload.drive_id id) v))
    where
      either :
          (w : CoreOps) (children : Option (List (String × ℕ)))
          → IsIntact v w
          → IsIntact v
              (elim children as (λ _. CoreOps × VfsResult (Unit {0})) [
                | some (x ∷ rest) ↦ (w, failure directory_not_empty)
                | _ ↦ (w, success tt)
              ]).0
      either w none h = h
      either w (some []) h = h
      either w (some (x ∷ rest)) h = h

  -- A file is removed, or nothing is: after a success the item that the name stood for has left the
  -- store, the inode table and memory, and the store holds its tombstone; after a failure the store,
  -- the pending writes, the disk cache and the open files are as before.
  pub unlink-IsRemoval :
      (parent_ino : ℕ) (name : String) (v : CoreOps)
      → IsRemoval v
          (find_child service env parent_ino name v).1
          (unlink service env parent_ino name v)
  unfolding unlink
  unlink-IsRemoval parent_ino name v =
      let w = (find_child service env parent_ino name v).0 in
      let f = find_child-IsFramed service env parent_ino name v in
      elim (Option-cases (find_child service env parent_ino name v).1) [
        | inl e ↦ rw (e, unlink) (IsFramed-IsIntact v w f)
        | inr (child, e) ↦
            let (u, path) = display_path_under service env parent_ino name w in
            let g = IsFramed-IsIntact v u (
              IsFramed-trans v w u f (display_path_under-IsFramed service env parent_ino name w)) in
            rw (e, unlink)
              (unlinked-IsRemoval parent_ino name child path v
                (delete_remote service env "unlink failed: " child.1.id u)
                (IsIntact-trans v u (delete_remote service env "unlink failed: " child.1.id u).0 g
                  (delete_remote-IsIntact "unlink failed: " child.1.id u)))
      ]

  -- A folder is removed, or nothing is, in the same sense.
  pub rmdir-IsRemoval :
      (parent_ino : ℕ) (name : String) (v : CoreOps)
      → IsRemoval v
          (find_child service env parent_ino name v).1
          (rmdir service env parent_ino name v)
  unfolding rmdir
  rmdir-IsRemoval parent_ino name v =
      let w = (find_child service env parent_ino name v).0 in
      let f = find_child-IsFramed service env parent_ino name v in
      elim (Option-cases (find_child service env parent_ino name v).1) [
        | inl e ↦ rw (e, rmdir) (IsFramed-IsIntact v w f)
        | inr (child, e) ↦
            let (u, path) = display_path_under service env parent_ino name w in
            let g = IsFramed-IsIntact v u (
              IsFramed-trans v w u f (display_path_under-IsFramed service env parent_ino name w)) in
            rw (e, rmdir)
              (if_lem (IsRemoval v (some child)) (is_folder child.1)
                (folder_removed-IsRemoval parent_ino name child path v
                  (check_empty service env child.0 child.1.id u)
                  (IsIntact-trans v u (check_empty service env child.0 child.1.id u).0 g
                    (check_empty-IsIntact child.0 child.1.id u)))
                (IsFramed-IsIntact v w f))
      ]
