-- ===== src/Tests/Vfs.antt =====
-- The file operations at concrete inputs.
use carmine_desktop.Common.{
  ◌≡◌, refl, true, false, none, some, [], ◌∷◌, string_eq, nat_eq, arith, ◌+◌, ◌<◌,
}
use carmine_desktop.Common.Map
use carmine_desktop.Delta.{Caches, DeltaSyncResult, run_delta_sync}
use carmine_desktop.Files
use carmine_desktop.Files.{OpenFile, complete, ensure_complete}
use carmine_desktop.Inode
use carmine_desktop.Inode.Consistent.{IsConsistent, IsConsistent-new, allocate-IsConsistent}
use carmine_desktop.Item.{ok}
use carmine_desktop.Memory
use carmine_desktop.Store
use carmine_desktop.Tests.Delta.{changing, synced, caches, named_file}
use carmine_desktop.Tests.Disk.{working}
use carmine_desktop.Tests.Upload.{alone}
use carmine_desktop.Vfs.{CoreOps, VfsEnv, success, failure, not_found}
use carmine_desktop.Vfs.Content.{read_content}
use carmine_desktop.Vfs.Content.Fresh.{answer_of, read_content-run_delta_sync}
use carmine_desktop.Vfs.Frame.{IsFramed, find_child-IsFramed}
use carmine_desktop.Vfs.Handles.{release_file, write_handle}
use carmine_desktop.Vfs.Handles.Released.{read_content-release_file-write_handle}
use carmine_desktop.Vfs.Lookup.{find_child}
use carmine_desktop.Vfs.Tree.{unlink}
use carmine_desktop.Vfs.Tree.Errors.{IsRemoval, unlink-IsRemoval}
use carmine_desktop.Writeback
use carmine_desktop.Writeback.{overwrite}

abbrev mounted : VfsEnv
mounted = record {
  upload = alone;
  disk_io = working;
  seconds = 500;
  nanos = 17;
  syncing = true;
  invalidating = false;
}

-- Inode 3 is the file "01A", inode 2 its folder "parent".
abbrev opened : OpenFile
opened = record {
  ino = 3;
  content = complete (1 ∷ 2 ∷ []);
  dirty = false;
  stale = false;
  logical_size = none;
}

abbrev drive_of : Caches → CoreOps
drive_of c = record {
  world = record {
    inodes = c.inodes;
    memory = c.memory;
    store = c.store;
    writeback = Writeback.new;
    calls = [];
    events = [];
  };
  disk = c.disk;
  dirty_inodes = c.dirty_inodes;
  open_files = record { files = (1, opened) ∷ []; next_handle = 2 };
  offline = false;
  requests = [];
  invalidated = [];
}

known : Inode.get_item_id 3 caches.inodes ≡ some "01A"
unfolding Inode.get_item_id Map.get Inode.insert_pair Map.insert Inode.allocate Inode.new Map.remove
known = refl

handle : Files.get 1 (drive_of caches).open_files ≡ some opened
unfolding Files.get Map.get
handle = refl

ready : ensure_complete none opened ≡ some (1 ∷ 2 ∷ [])
unfolding ensure_complete
ready = refl

read_content-release_file-write_handle_example :
    (read_content changing mounted 3
      (release_file changing mounted 1
        (write_handle changing mounted none 1 3 (9 ∷ []) (drive_of caches)).0).0).1
    ≡ success (overwrite 3 (9 ∷ []) (Files.flushed_content (1 ∷ 2 ∷ []) none))
read_content-release_file-write_handle_example =
    read_content-release_file-write_handle changing mounted none 1 3 (9 ∷ []) opened (1 ∷ 2 ∷ [])
      "01A" (drive_of caches) handle ready tt known

test_written :
    (read_content changing mounted 3
      (release_file changing mounted 1
        (write_handle changing mounted none 1 3 (9 ∷ []) (drive_of caches)).0).0).1
    ≡ success (1 ∷ 2 ∷ 0 ∷ 9 ∷ [])
unfolding read_content release_file write_handle Inode.get_item_id Map.get Files.remove Files.get
    Memory.get Memory.new Inode.allocate Inode.new Map.insert Map.remove Store.get_item_by_id
    Store.upsert_item Store.new Writeback.read Memory.insert Writeback.write
test_written = refl

-- A name that only the server knows.
find_child-IsFramed_example :
    IsFramed (drive_of caches) (find_child changing mounted 2 "REPORT.docx" (drive_of caches)).0
find_child-IsFramed_example = find_child-IsFramed changing mounted 2 "REPORT.docx" (drive_of caches)

-- The file stands in the store under its folder.
abbrev listed : CoreOps
listed =
    drive_of
      (record caches { store = (Store.upsert_item 3 "d" (named_file "v1") (some 2) Store.new).0 })

unlink-IsRemoval_example :
    IsRemoval listed
      (find_child changing mounted 2 "REPORT.docx" listed).1
      (unlink changing mounted 2 "REPORT.docx" listed)
unlink-IsRemoval_example = unlink-IsRemoval changing mounted 2 "REPORT.docx" listed

test_unlinked : (unlink changing mounted 2 "REPORT.docx" listed).1 ≡ success tt
unfolding unlink Memory.get_children Map.get Memory.new carmine_desktop.Vfs.Lookup.stored_by_name
    Store.get_children Store.upsert_item Store.new Map.insert
test_unlinked = refl

abbrev after_sync : Caches
after_sync = (run_delta_sync synced changing caches).0

-- What the sync reports.
abbrev reported : DeltaSyncResult
reported = record {
  changed_items = named_file "v2" ∷ [];
  deleted_items = record { id = "01B"; name = ""; parent_path = none } ∷ [];
}

ran : run_delta_sync synced changing caches ≡ (after_sync, ok reported)
unfolding run_delta_sync Store.apply_delta Store.is_tombstoned Map.get
    Store.purge_tombstones_older_than Store.upsert_item Store.new Store.get_item_by_id Map.insert
    Map.remove
ran = refl

inodes_after : after_sync.inodes ≡ (Inode.allocate "01B" caches.inodes).0
unfolding run_delta_sync Inode.allocate Map.get Store.apply_delta Inode.new Store.is_tombstoned
    Map.insert Store.purge_tombstones_older_than Map.remove Store.upsert_item Store.new
    Store.get_item_by_id
inodes_after = refl

next_inode_of : (Inode.allocate "parent" Inode.new).0.next_inode ≡ 3
unfolding Inode.allocate Map.get Inode.new
next_inode_of = refl

next_inode_then : caches.inodes.next_inode ≡ 4
unfolding Inode.allocate Map.get Inode.new Map.insert Map.remove
next_inode_then = refl

after_sync-IsConsistent : IsConsistent after_sync.inodes
after_sync-IsConsistent =
    let one = allocate-IsConsistent "parent" Inode.new IsConsistent-new new_bound in
    let two =
      allocate-IsConsistent "01A" (Inode.allocate "parent" Inode.new).0 one.0
        (omega (arith, next_inode_of)) in
    rw inodes_after
      (allocate-IsConsistent "01B" caches.inodes two.0 (omega (arith, next_inode_then))).0
  where
    new_bound : Inode.new.next_inode + 1 < Inode.u64_modulus
    new_bound = unfold Inode.new in omega arith

inode_after : Inode.get_inode "01A" after_sync.inodes ≡ some 3
unfolding Inode.get_inode Map.get run_delta_sync Store.apply_delta Store.is_tombstoned
    Store.purge_tombstones_older_than Store.upsert_item Store.new Store.get_item_by_id Map.insert
    Inode.allocate Map.remove Inode.new
inode_after = refl

read_content-run_delta_sync_example :
    (read_content changing mounted 3 (drive_of after_sync)).1 ≡ answer_of false (ok (7 ∷ []))
unfolding Writeback.read Map.get Writeback.new
read_content-run_delta_sync_example =
    read_content-run_delta_sync changing mounted synced caches after_sync reported (named_file "v2")
      [] [] 3 (drive_of after_sync) (λ k. refl) ran refl after_sync-IsConsistent inode_after refl
      refl refl refl
