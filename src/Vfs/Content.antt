-- ===== src/Vfs/Content.antt =====
-- crates/carminedesktop-vfs/src/core_ops.rs: the content of files. Pending writes come first, then
-- the disk cache where it is fresh, then the server. The wait for a streaming download is answered
-- by an argument.
use text.Mathlib.Text.{starts_with}
use carmine_desktop.Common.{
  ℕ, ◌+◌, String, Bool, true, false, not, ◌&&◌, ◌||◌, Option, none, some, List, [], ◌∷◌,
  if◌then◌else◌, ltb, ◌==◌, nat_eq, string_eq, option_beq, and_then, unwrap_or, length, is_some,
}
use carmine_desktop.Common.Map
use carmine_desktop.Common.Map.{Map}
use carmine_desktop.Disk
use carmine_desktop.Files
use carmine_desktop.Files.{
  OpenFile, DownloadState, complete, streaming, resize, truncate_entry, reserve_entry,
}
use carmine_desktop.Graph
use carmine_desktop.Graph.{Service, small_file_limit, display}
use carmine_desktop.Inode
use carmine_desktop.Item.{DriveItem, parent_id, is_locked, Error, Result, ok, err}
use carmine_desktop.Memory
use carmine_desktop.Names.{◌++◌}
use carmine_desktop.Pins.{elem}
use carmine_desktop.Store
use carmine_desktop.Upload.{file_locked, flush_inode_async}
use carmine_desktop.Vfs.{
  CoreOps, VfsEnv, VfsError, VfsResult, success, failure, not_found, io_error, set_memory,
  set_inodes, set_store, set_writeback, graph_call, graph_with_timeout, send_event, lookup_item,
}
use carmine_desktop.Writeback
use carmine_desktop.Writeback.{Bytes, overwrite, bytes_or_empty}
pub mod Pending
pub mod Fresh

abbrev pub offline_error : VfsError
offline_error = io_error "file not available offline"

abbrev pub remove_all : ℕ → List ℕ → List ℕ
remove_all n [] = []
remove_all n (m ∷ ms) = let rest = remove_all n ms in if m == n then rest else m ∷ rest

unfoldable pub set_disk : Disk.DiskCache → CoreOps → CoreOps
set_disk disk v = record v { disk = disk }

unfoldable pub mark_dirty : ℕ → CoreOps → CoreOps
mark_dirty ino v = record v { dirty_inodes = ino ∷ v.dirty_inodes }

unfoldable pub is_dirty : ℕ → CoreOps → Bool
is_dirty ino v = elem ino v.dirty_inodes

unfoldable pub clear_dirty : ℕ → CoreOps → CoreOps
clear_dirty ino v = record v { dirty_inodes = remove_all ino v.dirty_inodes }

-- The cached content has the size and the etag of the item; both etags are there.
unfoldable pub is_fresh : Option DriveItem → Bytes → Option String → Bool
is_fresh none content disk_etag = false
is_fresh (some item) content disk_etag =
    length content == item.size && (is_some disk_etag && option_beq disk_etag item.etag)

module _ (service : Service) (env : VfsEnv) where
  abbrev pub drive : String
  drive = env.upload.drive_id

  -- `get_with_etag` and the check; a stale file is removed.
  unfoldable pub fresh_cached : ℕ → String → Option DriveItem → CoreOps → CoreOps × Option Bytes
  unfolding set_disk is_dirty is_fresh
  fresh_cached ino item_id item v =
      if is_dirty ino v
      then (v, none)
      else let (disk, cached) = Disk.get_with_etag env.seconds drive item_id v.disk in
        elim cached [
          | none ↦ (set_disk disk v, none)
          | some found ↦
              if is_fresh item found.0 found.1
              then (set_disk disk v, some found.0)
              else (set_disk (Disk.remove env.disk_io drive item_id disk).0 v, none)
        ]

  -- What the disk cache holds, fresh or not.
  unfoldable pub cached_offline : String → CoreOps → CoreOps × VfsResult Bytes
  unfolding set_disk
  cached_offline item_id v =
      let (disk, cached) = Disk.get_with_etag env.seconds drive item_id v.disk in
      (set_disk disk v, elim cached [ some found ↦ success found.0 | none ↦ failure offline_error ])

  unfoldable pub downloaded :
      ℕ → String → Option String → CoreOps × VfsResult Bytes → CoreOps × VfsResult Bytes
  unfolding set_disk clear_dirty
  downloaded ino item_id etag (v, failure e) = (v, failure e)
  downloaded ino item_id etag (v, success content) =
      let v' = clear_dirty ino v in
      (
        set_disk (Disk.put env.disk_io env.seconds drive item_id content etag v'.disk).0 v',
        success content,
      )

  unfoldable pub download : ℕ → String → Option DriveItem → CoreOps → CoreOps × VfsResult Bytes
  unfolding graph_with_timeout downloaded
  download ino item_id item v =
      downloaded ino item_id (and_then item (λ i. i.etag))
        (graph_with_timeout service env service.content (Graph.download_content drive item_id) v)

  -- A content that is not in the disk cache, or stale there, is downloaded.
  unfoldable pub read_missed :
      ℕ → String → Option DriveItem → CoreOps × Option Bytes → CoreOps × VfsResult Bytes
  unfolding download
  read_missed ino item_id item (v, some content) = (v, success content)
  read_missed ino item_id item (v, none) = download ino item_id item v

  -- From the writeback buffer on.
  unfoldable pub read_known : ℕ → String → CoreOps × Option DriveItem → CoreOps × VfsResult Bytes
  unfolding cached_offline fresh_cached read_missed
  read_known ino item_id (v, item) = elim (Writeback.read drive item_id v.world.writeback) [
    | some content ↦ (v, success content)
    | none ↦
        if v.offline
        then cached_offline item_id v
        else read_missed ino item_id item (fresh_cached ino item_id item v)
  ]

  unfoldable pub read_content : ℕ → CoreOps → CoreOps × VfsResult Bytes
  unfolding lookup_item read_known
  read_content ino v = elim (Inode.get_item_id ino v.world.inodes) [
    | none ↦ (v, failure not_found)
    | some item_id ↦ read_known ino item_id (lookup_item service env ino v)
  ]
