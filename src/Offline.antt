-- ===== src/Offline.antt =====
-- crates/carminedesktop-cache/src/offline.rs: `OfflineManager`, which pins folders and downloads what
-- is below them, over the caches and the service. The task that a pin spawns is a value, which
-- `run_download` runs.
use carmine_desktop.Common.{
  ℕ, zero, suc, ◌+◌, ◌%◌, String, Bool, true, false, not, ◌&&◌, ◌||◌, Option, none, some, List, [],
  ◌∷◌, if◌then◌else◌, ltb, leb, ◌==◌, nat_eq, string_eq, unwrap_or,
}
use carmine_desktop.Delta.{Caches}
use carmine_desktop.Disk
use carmine_desktop.Disk.{DiskCache, DiskIo}
use carmine_desktop.Graph
use carmine_desktop.Graph.{Call, Service, display}
use carmine_desktop.Inode.{u64_modulus}
use carmine_desktop.Item.{DriveItem, is_folder, Result, ok, err}
use carmine_desktop.Names.{◌++◌, decimal, digits_of_i64}
use carmine_desktop.Pins
use carmine_desktop.Pins.{PinStore, PinnedFolder}
use carmine_desktop.Pins.Kept.{pin_filter}
use carmine_desktop.Store
use carmine_desktop.Writeback.{Bytes}
pub mod Pinning
pub mod Downloads
pub mod Outcome

-- What the callbacks are told.
pub data Notice : Type 0 where
  download_error : String → String → Notice
  download_complete : String → Notice

-- `notices` holds the calls of the callbacks, the newest first; the two tests say which are set.
pub record OfflineManager : Type 0 where
  pub pin_store : PinStore
  pub caches : Caches
  pub ttl_secs : ℕ
  pub max_folder_bytes : ℕ
  pub on_download_error : Bool
  pub on_download_complete : Bool
  pub notices : List Notice

-- The drive, the clock in seconds and the file system.
pub record OfflineEnv : Type 0 where
  pub drive_id : String
  pub now : ℕ
  pub disk_io : DiskIo

-- A spawned task: the folder, the name for the callbacks, its inode, the counter of inodes, and
-- whether its end is told.
pub record Download : Type 0 where
  pub item_id : String
  pub label : String
  pub root_inode : ℕ
  pub next_inode : ℕ
  pub tells_end : Bool

unfoldable pub set_ttl_secs : ℕ → OfflineManager → OfflineManager
set_ttl_secs ttl m = record m { ttl_secs = ttl }

unfoldable pub set_max_folder_bytes : ℕ → OfflineManager → OfflineManager
set_max_folder_bytes max m = record m { max_folder_bytes = max }

unfoldable pub set_download_error_handler : OfflineManager → OfflineManager
set_download_error_handler m = record m { on_download_error = true }

unfoldable pub set_download_complete_handler : OfflineManager → OfflineManager
set_download_complete_handler m = record m { on_download_complete = true }

unfoldable pub set_disk : DiskCache → OfflineManager → OfflineManager
set_disk disk m = record m { caches = record m.caches { disk = disk } }

unfoldable pub add_call : Call → OfflineManager → OfflineManager
add_call call m = record m { caches = record m.caches { calls = call ∷ m.caches.calls } }

-- A row that breaks a constraint is logged and left out.
unfoldable pub persist_item : String → ℕ → DriveItem → Option ℕ → OfflineManager → OfflineManager
persist_item drive_id inode item parent_inode m = record m {
  caches = record m.caches {
    store = (Store.upsert_item inode drive_id item parent_inode m.caches.store).0;
  };
}

-- The inode that the table holds for an item, which is not the one given to it if it was there.
unfoldable pub actual_inode : String → ℕ → OfflineManager → ℕ
actual_inode item_id inode m = unwrap_or (Store.get_inode item_id m.caches.store) inode

module _ (service : Service) (env : OfflineEnv) where
  unfoldable pub get_item : String → OfflineManager → OfflineManager × Result DriveItem
  unfolding add_call
  get_item item_id m =
      let call = Graph.get_item env.drive_id item_id in
      (add_call call m, service.server m.caches.calls call)

  -- The cache's filter asks the pins as they are now.
  unfoldable pub put_content :
      DriveItem → OfflineManager × Result Bytes → OfflineManager × Result (Unit {0})
  unfolding set_disk
  put_content item (m, err e) = (m, err e)
  put_content item (m, ok content) =
      let (disk, r) =
        Disk.put env.disk_io env.now env.drive_id item.id content item.etag (record m.caches.disk {
          eviction_filter = some (pin_filter env.now m.caches.store m.pin_store);
        }) in
      (set_disk disk m, r)

  unfoldable pub download_file : DriveItem → OfflineManager → OfflineManager × Result (Unit {0})
  unfolding put_content add_call
  download_file item m =
      let call = Graph.download_content env.drive_id item.id in
      put_content item (add_call call m, service.content m.caches.calls call)

  -- A file that the disk cache holds already is left as it is.
  unfoldable pub cache_file : DriveItem → OfflineManager → OfflineManager × Result (Unit {0})
  unfolding download_file set_disk
  cache_file child m =
      let (disk, cached) = Disk.get env.now env.drive_id child.id m.caches.disk in
      let m' = set_disk disk m in
      elim cached [ some content ↦ (m', ok tt) | none ↦ download_file child m' ]

  -- The error of the first file that fails ends the loop.
  unfoldable pub redownload_all :
      List DriveItem → OfflineManager → OfflineManager × Result (Unit {0})
  unfolding download_file
  redownload_all [] m = (m, ok tt)
  redownload_all (item ∷ items) m =
      let skip = redownload_all items m in
      let (m', r) = download_file item m in
      let next = redownload_all items m' in
      if Pins.is_protected env.now env.drive_id item.id m.caches.store m.pin_store
        && not (is_folder item)
      then elim r [ ok _ ↦ next | err e ↦ (m', err e) ]
      else skip

  unfoldable pub redownload_changed_items :
      List DriveItem → OfflineManager → OfflineManager × Result (Unit {0})
  unfolding redownload_all
  redownload_changed_items [] m = (m, ok tt)
  redownload_changed_items (item ∷ items) m = elim (Pins.list_all m.pin_store) [
    | [] ↦ (m, ok tt)
    | pin ∷ pins ↦ redownload_all (item ∷ items) m
  ]
