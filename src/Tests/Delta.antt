-- ===== src/Tests/Delta.antt =====
-- A delta sync at a concrete input.
use carmine_desktop.Common.{
  ◌≡◌, ◌⊎◌, ℕ, String, refl, true, false, none, some, List, [], ◌∷◌, string_eq,
}
use carmine_desktop.Delta.{Caches, SyncEnv, tombstone_secs, run_delta_sync, resolve_relative_path}
use carmine_desktop.Delta.Invalidated.{IsSynced, run_delta_sync-IsSynced}
use carmine_desktop.Delta.Recorded.{IsRecorded, run_delta_sync-IsRecorded}
use carmine_desktop.Disk
use carmine_desktop.Graph.{Service, delta_query}
use carmine_desktop.Inode
use carmine_desktop.Item.{DriveItem, ok, err, locked}
use carmine_desktop.Memory
use carmine_desktop.Store
use carmine_desktop.Tests.{file_item}
use carmine_desktop.Tests.Disk.{working}

-- The file "01A" under an etag.
abbrev pub named_file : String → DriveItem
named_file etag = record (file_item "01A" (some etag)) {
  file = some (record { mime_type = none; hashes = none });
}

-- An item without a name is one that was deleted.
abbrev pub deleted_item : String → DriveItem
deleted_item id = record (file_item id none) { name = ""; parent_reference = none }

-- "01A" has changed and "01B" is gone.
abbrev pub changing : Service
changing = record {
  server = λ calls call. err locked;
  children = λ calls call. ok [];
  content = λ calls call. ok (7 ∷ []);
  done = λ calls call. ok tt;
  delta = λ calls call.
      ok (record { value = named_file "v2" ∷ deleted_item "01B" ∷ []; delta_link = some "t2" });
  is_late = λ calls call. false;
}

abbrev pub synced : SyncEnv
synced = record { drive_id = "d"; now = 1000; seconds = 500; disk_io = working; observing = true }

abbrev pub caches : Caches
caches = record {
  inodes = (Inode.allocate "01A" (Inode.allocate "parent" Inode.new).0).0;
  memory = Memory.new none;
  store = (Store.upsert_item 3 "d" (named_file "v1") none Store.new).0;
  disk = (Disk.put working 400 "d" "01A" (1 ∷ 2 ∷ 3 ∷ []) (some "v1") (Disk.new 0)).0;
  dirty_inodes = [];
  observed = [];
  calls = [];
}

run_delta_sync-IsSynced_example : IsSynced "d" caches (run_delta_sync synced changing caches)
run_delta_sync-IsSynced_example = run_delta_sync-IsSynced synced changing caches (λ k. refl)

run_delta_sync-IsRecorded_example :
    IsRecorded "d" caches.store
      (Store.purge_tombstones_older_than 500 tombstone_secs caches.store)
      (changing.delta [] (delta_query "d" (Store.get_delta_token "d" caches.store)))
      (run_delta_sync synced changing caches)
run_delta_sync-IsRecorded_example = run_delta_sync-IsRecorded synced changing caches

test_observed : (run_delta_sync synced changing caches).0.observed ≡ 3 ∷ []
unfolding run_delta_sync Store.apply_delta Store.is_tombstoned carmine_desktop.Common.Map.get
    Store.purge_tombstones_older_than Store.upsert_item Store.new Store.get_item_by_id
    carmine_desktop.Common.Map.insert Inode.allocate Inode.new carmine_desktop.Common.Map.remove
test_observed = refl

test_path :
    resolve_relative_path (record (named_file "v1") {
      parent_reference =
          some (record { drive_id = none; id = none; path = some "/drives/d/root:/Reports" });
    })
    ≡ some ("Reports" ∷ "report.docx" ∷ [])
unfolding resolve_relative_path
test_path = refl
