-- ===== src/Vfs/Content/Pending.antt =====
-- crates/carminedesktop-vfs/src/core_ops.rs: a pending write is what a file reads as.
use carmine_desktop.Common.{
  ℕ, ◌≡◌, refl, ap, ◌∙◌, String, Option, some, Option-cases, inl, inr, and_then,
}
use carmine_desktop.Graph.{Service}
use carmine_desktop.Inode
use carmine_desktop.Inode.{InodeTable}
use carmine_desktop.Item.{DriveItem}
use carmine_desktop.Memory
use carmine_desktop.Store
use carmine_desktop.Vfs.{CoreOps, VfsEnv, success, set_memory, lookup_item, lookup_stored}
use carmine_desktop.Vfs.Content.{read_known, read_content}
use carmine_desktop.Vfs.Frame.{lookup_item-IsFramed}
use carmine_desktop.Writeback
use carmine_desktop.Writeback.{Bytes}

module _ (service : Service) (env : VfsEnv) (ino : ℕ) (v : CoreOps) where
  lookup_stored-inodes : (lookup_stored service env ino v).0.world.inodes ≡ v.world.inodes
  unfolding lookup_stored set_memory
  lookup_stored-inodes =
      elim (Option-cases (
        and_then (Inode.get_item_id ino v.world.inodes)
          (λ item_id. Store.get_item_by_id item_id v.world.store))) [
            | inl e ↦ rw (e, lookup_stored) refl
            | inr (found, e) ↦ rw (e, lookup_stored) refl
          ]

-- A lookup leaves the inode table.
pub lookup_item-inodes :
    (service : Service) (env : VfsEnv) (ino : ℕ) (v : CoreOps)
    → (lookup_item service env ino v).0.world.inodes ≡ v.world.inodes
unfolding lookup_item set_memory
lookup_item-inodes service env ino v =
    let (memory, found) = Memory.get env.upload.now ino v.world.memory in
    elim (Option-cases found) [
      | inl e ↦ rw (e, lookup_item) (lookup_stored-inodes service env ino (set_memory memory v))
      | inr (item, e) ↦ rw (e, lookup_item) refl
    ]

read_known_pending :
    (service : Service) (env : VfsEnv) (ino : ℕ) (item_id : String) (content : Bytes)
    (r : CoreOps × Option DriveItem)
    → Writeback.read env.upload.drive_id item_id r.0.world.writeback ≡ some content
    → (read_known service env ino item_id r).1 ≡ success content
unfolding read_known
read_known_pending service env ino item_id content (v, item) pending = rw (pending, read_known) refl

-- Offline or not, and whatever the caches hold.
pub read_content_pending :
    (service : Service) (env : VfsEnv) (ino : ℕ) (v : CoreOps) (item_id : String) (content : Bytes)
    → Inode.get_item_id ino v.world.inodes ≡ some item_id
    → Writeback.read env.upload.drive_id item_id v.world.writeback ≡ some content
    → (read_content service env ino v).1 ≡ success content
unfolding read_content
read_content_pending service env ino v item_id content known pending =
    rw (known, read_content)
      (read_known_pending service env ino item_id content (lookup_item service env ino v) (
        ap (Writeback.read env.upload.drive_id item_id)
          (lookup_item-IsFramed service env ino v).writeback
        ∙ pending))

-- A lookup changes nothing but what memory holds.
pub lookup_item_sets_memory :
    (service : Service) (env : VfsEnv) (ino : ℕ) (v : CoreOps)
    → (m : Memory.MemoryCache) × ((lookup_item service env ino v).0 ≡ set_memory m v)
unfolding lookup_item lookup_stored set_memory
lookup_item_sets_memory service env ino v =
    let (memory, found) = Memory.get env.upload.now ino v.world.memory in
    elim (Option-cases found) [
      | inr (item, e) ↦ (memory, rw (e, lookup_item) refl)
      | inl e ↦
          elim (Option-cases (
            and_then (Inode.get_item_id ino v.world.inodes)
              (λ item_id. Store.get_item_by_id item_id v.world.store))) [
                | inl q ↦ (memory, rw (e, q, lookup_item, lookup_stored) refl)
                | inr (stored, q) ↦ (
                  Memory.insert env.upload.now ino stored.1 memory,
                  rw (e, q, lookup_item, lookup_stored) refl,
                )
              ]
    ]
