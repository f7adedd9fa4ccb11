-- ===== src/Tests/Offline.antt =====
-- Pinning and downloading at concrete inputs.
use carmine_desktop.Common.{
  Bool, ◌≡◌, ℕ, String, refl, true, false, Option, none, some, and_then, List, [], ◌∷◌, string_eq,
  pair_eq, nat_eq,
}
use carmine_desktop.Common.Map
use carmine_desktop.Disk
use carmine_desktop.Graph.{Call, Service}
use carmine_desktop.Item.{DriveItem, Result, ok, err, locked}
use carmine_desktop.Offline.{
  OfflineManager, OfflineEnv, Download, download_complete, redownload_changed_items,
}
use carmine_desktop.Offline.Downloads.{run_download, resume_incomplete}
use carmine_desktop.Offline.Outcome.{IsPinOutcome, pin_folder-IsPinOutcome}
use carmine_desktop.Offline.Pinning.{pin_folder}
use carmine_desktop.Tests.{file_item}
use carmine_desktop.Tests.Delta.{caches, named_file}
use carmine_desktop.Tests.Disk.{working}

-- The folder "F", of which the service first tells no size.
abbrev folder_item : ℕ → DriveItem
folder_item size = record (file_item "F" none) {
  name = "Reports";
  size = size;
  folder = some (record { child_count = 1 });
}

abbrev size_told : List Call → ℕ
size_told [] = 0
size_told (call ∷ calls) = 30

-- "01B" is in "F".
abbrev serving : Service
serving = record {
  server = λ calls call. ok (folder_item (size_told calls));
  children = λ calls call. ok (record (named_file "v1") { id = "01B" } ∷ []);
  content = λ calls call. ok (7 ∷ 8 ∷ []);
  done = λ calls call. ok tt;
  delta = λ calls call. err locked;
  is_late = λ calls call. false;
}

abbrev env : OfflineEnv
env = record { drive_id = "d"; now = 500; disk_io = working }

abbrev manager : ℕ → OfflineManager
manager max_folder_bytes = record {
  pin_store = [];
  caches = record caches { store = carmine_desktop.Store.new };
  ttl_secs = 100;
  max_folder_bytes = max_folder_bytes;
  on_download_error = true;
  on_download_complete = true;
  notices = [];
}

abbrev one_decimal : ℕ → ℕ → String
one_decimal n d = "1.0"

pin_folder-IsPinOutcome_example :
    IsPinOutcome serving env "F"
      (manager 40)
      (pin_folder serving env one_decimal "F" "Reports" (manager 40))
pin_folder-IsPinOutcome_example =
    pin_folder-IsPinOutcome serving env one_decimal "F" "Reports" (manager 40)

abbrev pinned : OfflineManager
pinned = (pin_folder serving env one_decimal "F" "Reports" (manager 40)).0

abbrev task : Download
task = record {
  item_id = "F";
  label = "Reports";
  root_inode = 1000000;
  next_inode = 1000001;
  tells_end = true;
}

test_too_large :
    (pin_folder serving env one_decimal "F" "Reports" (manager 20)).1
    ≡ ok (
      carmine_desktop.Offline.Pinning.rejected
          "folder 'Reports' (30 bytes) exceeds maximum size limit (20 bytes)",
      none,
    )
unfolding pin_folder carmine_desktop.Item.is_folder carmine_desktop.Names.decimal
test_too_large = refl

test_pinned :
    (pin_folder serving env one_decimal "F" "Reports" (manager 40)).1
    ≡ ok (carmine_desktop.Offline.Pinning.accepted, some task)
unfolding pin_folder carmine_desktop.Item.is_folder carmine_desktop.Store.get_inode Map.get
    carmine_desktop.Store.upsert_item carmine_desktop.Store.new Map.insert carmine_desktop.Pins.pin
test_pinned = refl

abbrev notices_of : OfflineManager → Option (List carmine_desktop.Offline.Notice)
notices_of m = some m.notices

test_told :
    and_then (run_download serving env 3 task pinned) notices_of
    ≡ some (download_complete "Reports" ∷ [])
unfolding pin_folder run_download carmine_desktop.Item.is_folder Disk.get Map.get Disk.put Disk.new
    Map.insert carmine_desktop.Writeback.sanitize_filename Map.remove
    carmine_desktop.Writeback.tmp_name carmine_desktop.Pins.pin
test_told = refl

abbrev has_file : String → OfflineManager → Option Bool
has_file id m = some (Disk.has "d" id m.caches.disk)

test_downloaded : and_then (run_download serving env 3 task pinned) (has_file "01B") ≡ some true
unfolding pin_folder run_download Disk.has carmine_desktop.Item.is_folder Disk.get Map.get Disk.put
    Disk.new Map.insert carmine_desktop.Writeback.sanitize_filename Map.remove
    carmine_desktop.Writeback.tmp_name carmine_desktop.Pins.pin
test_downloaded = refl

test_resumed :
    resume_incomplete 510 pinned
    ≡ record {
      item_id = "F";
      label = "F";
      root_inode = 1000000;
      next_inode = 2000000;
      tells_end = false;
    }
      ∷ []
unfolding pin_folder resume_incomplete carmine_desktop.Pins.health carmine_desktop.Item.is_folder
    carmine_desktop.Pins.pin Map.insert Map.get carmine_desktop.Store.upsert_item
    carmine_desktop.Store.new Map.remove carmine_desktop.Store.get_inode
test_resumed = refl

test_not_below : (redownload_changed_items serving env (named_file "v2" ∷ []) pinned).0 ≡ pinned
unfolding pin_folder redownload_changed_items carmine_desktop.Item.is_folder
    carmine_desktop.Pins.list_all carmine_desktop.Pins.pin Map.insert
    carmine_desktop.Pins.is_protected Map.get Map.remove carmine_desktop.Store.upsert_item
    carmine_desktop.Store.new
test_not_below = refl
