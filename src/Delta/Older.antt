-- ===== src/Delta/Older.antt =====
-- crates/carminedesktop-cache/src/sync.rs: what the steps of a delta sync keep of the caches.
use carmine_desktop.Common.{
  ℕ, ◌≡◌, String, true, false, Option, none, some, List, [], ◌∷◌, arith, Option-cases, inl, inr,
  if_lem, ◌==◌, nat_eq, string_eq, pair_eq, is_some, if◌then◌else◌,
}
use carmine_desktop.Common.Map
use carmine_desktop.Common.Map.{get-insert, get-insert_self, get-remove}
use carmine_desktop.Delta.{
  Caches, SyncEnv, Progress, allocate_if, delta_deleted, invalidate_content, delta_upserted,
  delta_item, delta_items, content_changed,
}
use carmine_desktop.Disk
use carmine_desktop.Disk.{DiskCache, DiskIo, has, content_path, notify_change}
use carmine_desktop.Disk.Reads.{notify_change-IsQuiet}
use carmine_desktop.Inode.{InodeTable, get_inode, allocate}
use carmine_desktop.Item.{DriveItem, parent_id, Result, ok}
use carmine_desktop.Memory.{MemoryCache}
use carmine_desktop.Pins.{elem}
use carmine_desktop.Store

-- An allocation gives the item an inode that the table holds, and keeps every other.
pub get_inode-allocate_self :
    (id : String) (t : InodeTable) → get_inode id (allocate id t).0 ≡ some (allocate id t).1
unfolding get_inode allocate
get_inode-allocate_self id t = elim (Option-cases (Map.get id t.item_to_inode)) [
  | inl e ↦ rw (e, allocate) (get-insert_self id t.next_inode t.item_to_inode)
  | inr (i, e) ↦ rw (e, allocate) e
]

pub get_inode-allocate :
    (id j : String) (i : ℕ) (t : InodeTable)
    → get_inode j t ≡ some i
    → get_inode j (allocate id t).0 ≡ some i
unfolding get_inode allocate
get_inode-allocate id j i t h = elim (Option-cases (Map.get id t.item_to_inode)) [
  | inl e ↦
      rw (e, allocate)
        (ground (arith, get-insert id j t.next_inode t.item_to_inode, string_eq.beq_iff id j))
  | inr (k, e) ↦ rw (e, allocate) h
]

pub get_inode-allocate_if :
    (id : Option String) (j : String) (i : ℕ) (t : InodeTable)
    → get_inode j t ≡ some i
    → get_inode j (allocate_if id t).0 ≡ some i
unfolding allocate_if
get_inode-allocate_if none j i t h = h
get_inode-allocate_if (some id) j i t h = get_inode-allocate id j i t h

-- A removal brings no file.
has-remove :
    (io : DiskIo) (d id : String) (e j : String) (c : DiskCache)
    → has e j c ≡ false
    → has e j (Disk.remove io d id c).0 ≡ false
unfolding has Disk.remove
has-remove io d id e j c h =
    let path = content_path d id in
    let rest : DiskCache = record c {
      files = Map.remove path c.files;
      tracker = Map.remove (d, id) c.tracker;
    } in
    let P : DiskCache × Result (Unit {0}) → Type 0 = λ r. has e j r.0 ≡ false in
    let gone : P (notify_change d id rest, ok tt) =
      rw ((notify_change-IsQuiet d id rest).0)
        (ground (arith, get-remove path (content_path e j) c.files)) in
    if_lem P (is_some (Map.get path c.files)) (if_lem P (io.removes path) gone h) gone

-- Later caches: no inode is lost, no file comes in, and no mark is taken away.
pub record IsOlder (drive_id : String) (c c' : Caches) : Type 0 where
  pub inode_kept :
      (id : String) (i : ℕ) → get_inode id c.inodes ≡ some i → get_inode id c'.inodes ≡ some i
  pub no_file : (id : String) → has drive_id id c.disk ≡ false → has drive_id id c'.disk ≡ false
  pub still_dirty : (i : ℕ) → elem i c.dirty_inodes ≡ true → elem i c'.dirty_inodes ≡ true

pub IsOlder-refl : (drive_id : String) (c : Caches) → IsOlder drive_id c c
IsOlder-refl drive_id c = record {
  inode_kept = λ id i h. h;
  no_file = λ id h. h;
  still_dirty = λ i h. h;
}

pub IsOlder-trans :
    (drive_id : String) (a b c : Caches)
    → IsOlder drive_id a b
    → IsOlder drive_id b c
    → IsOlder drive_id a c
IsOlder-trans drive_id a b c p q = record {
  inode_kept = λ id i h. q.inode_kept id i (p.inode_kept id i h);
  no_file = λ id h. q.no_file id (p.no_file id h);
  still_dirty = λ i h. q.still_dirty i (p.still_dirty i h);
}

pub IsOlder-memory :
    (drive_id : String) (a b : Caches) (m : MemoryCache)
    → IsOlder drive_id a b
    → IsOlder drive_id a (record b { memory = m })
IsOlder-memory drive_id a b m h = record {
  inode_kept = h.inode_kept;
  no_file = h.no_file;
  still_dirty = h.still_dirty;
}

module _ (env : SyncEnv) (item : DriveItem) (p : Progress) where
  pub delta_deleted-IsOlder : IsOlder env.drive_id p.caches (delta_deleted env item p).caches
  unfolding delta_deleted
  delta_deleted-IsOlder = record {
    inode_kept = λ id i h. get_inode-allocate item.id id i _ (get_inode-allocate_if _ id i _ h);
    no_file = λ id h. has-remove env.disk_io env.drive_id item.id env.drive_id id _ h;
    still_dirty = λ i h. h;
  }

  pub invalidate_content-IsOlder :
      (inode : ℕ) → IsOlder env.drive_id p.caches (invalidate_content env inode item p).caches
  unfolding invalidate_content
  invalidate_content-IsOlder inode = record {
    inode_kept = λ id i h. h;
    no_file = λ id h. has-remove env.disk_io env.drive_id item.id env.drive_id id _ h;
    still_dirty = λ i h. ground arith;
  }

  pub allocated-IsOlder : IsOlder env.drive_id p.caches (record p.caches {
    inodes = (allocate_if (parent_id item) (allocate item.id p.caches.inodes).0).0;
  })
  allocated-IsOlder = record {
    inode_kept = λ id i h. get_inode-allocate_if _ id i _ (get_inode-allocate item.id id i _ h);
    no_file = λ id h. h;
    still_dirty = λ i h. h;
  }

module _ (env : SyncEnv) where
  delta_upserted-IsOlder :
      (item : DriveItem) (p : Progress)
      → IsOlder env.drive_id p.caches (delta_upserted env item p).caches
  unfolding delta_upserted
  delta_upserted-IsOlder item p =
      let (inodes, inode) = allocate item.id p.caches.inodes in
      let (inodes', parent_inode) = allocate_if (parent_id item) inodes in
      let p' : Progress = record p { caches = record p.caches { inodes = inodes' } } in
      let P : Progress → Type 0 = λ q. IsOlder env.drive_id p.caches q.caches in
      IsOlder-memory env.drive_id p.caches
        (if content_changed item p.caches.store
          then invalidate_content env inode item p'
          else p').caches
        _
        (if_lem P (content_changed item p.caches.store)
          (IsOlder-trans env.drive_id p.caches p'.caches
            (invalidate_content env inode item p').caches (allocated-IsOlder env item p)
            (invalidate_content-IsOlder env item p' inode))
          (allocated-IsOlder env item p))

  pub delta_item-IsOlder :
      (item : DriveItem) (p : Progress)
      → IsOlder env.drive_id p.caches (delta_item env item p).caches
  unfolding delta_item
  delta_item-IsOlder item p =
      let P : Progress → Type 0 = λ q. IsOlder env.drive_id p.caches q.caches in
      if_lem P (item.name == "") (delta_deleted-IsOlder env item p) (
        if_lem P (Store.is_tombstoned item.id p.caches.store) (IsOlder-refl env.drive_id p.caches)
          (delta_upserted-IsOlder item p))

  pub delta_items-IsOlder :
      (items : List DriveItem) (p : Progress)
      → IsOlder env.drive_id p.caches (delta_items env items p).caches
  unfolding delta_items
  delta_items-IsOlder [] p = IsOlder-refl env.drive_id p.caches
  delta_items-IsOlder (item ∷ items) p =
      IsOlder-trans env.drive_id p.caches (delta_item env item p).caches _
        (delta_item-IsOlder item p) (delta_items-IsOlder items (delta_item env item p))
