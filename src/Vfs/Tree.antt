-- ===== src/Vfs/Tree.antt =====
-- crates/carminedesktop-vfs/src/core_ops.rs: files and folders made, removed and renamed. A new file
-- has an id of this program until it is uploaded.
use text.Mathlib.Text.{starts_with}
use carmine_desktop.Common.{
  ℕ, String, Bool, true, false, not, ◌&&◌, ◌||◌, Option, none, some, List, [], ◌∷◌, if◌then◌else◌,
  ◌==◌, nat_eq, string_eq, is_some, unwrap_or,
}
use carmine_desktop.Disk
use carmine_desktop.Files
use carmine_desktop.Files.{complete}
use carmine_desktop.Graph
use carmine_desktop.Graph.{Call, Service, display}
use carmine_desktop.Inode
use carmine_desktop.Item.{DriveItem, ParentReference, is_folder, parent_id, Result, ok, err}
use carmine_desktop.Memory
use carmine_desktop.Names.{◌++◌, decimal, conflict_name}
use carmine_desktop.Store
use carmine_desktop.Upload.{local_deleted, local_renamed, conflict_detected}
use carmine_desktop.Vfs.{
  CoreOps, VfsEnv, VfsError, VfsResult, success, failure, not_found, not_a_directory,
  directory_not_empty, io_error, set_memory, set_inodes, set_store, set_writeback, graph_call,
  send_event, cache_item, display_path_under,
}
use carmine_desktop.Vfs.Content.{set_disk, is_dirty}
use carmine_desktop.Vfs.Lookup.{find_child, has_server_conflict}
use carmine_desktop.Writeback
pub mod Errors

abbrev pub is_local : String → Bool
is_local item_id = starts_with item_id "local:"

abbrev pub digits_of_nanos : ℕ
digits_of_nanos = 39

module _ (service : Service) (env : VfsEnv) where
  abbrev drive : String
  drive = env.upload.drive_id

  -- The item of a file that only this program knows.
  unfoldable pub local_item : String → String → ℕ → Option ℕ → DriveItem
  unfolding decimal
  local_item parent_item_id name size modified = record {
    id = "local:" ++ decimal digits_of_nanos env.nanos;
    name = name;
    size = size;
    last_modified = some (unwrap_or modified env.upload.timestamp);
    created = some env.upload.timestamp;
    etag = none;
    parent_reference =
        some (record { drive_id = some drive; id = some parent_item_id; path = none });
    folder = none;
    file = some (record { mime_type = none; hashes = none });
    publication = none;
    download_url = none;
    web_url = none;
  }

  -- The item in memory, and in its folder's children.
  unfoldable pub add_item : ℕ → String → DriveItem → CoreOps → CoreOps × ℕ
  unfolding cache_item set_memory
  add_item parent_ino name item v =
      let (v', ino) = cache_item service env item v in
      (set_memory (Memory.add_child parent_ino name ino v'.world.memory) v', ino)

  unfoldable pub create_file : ℕ → String → CoreOps → CoreOps × VfsResult (ℕ × ℕ × DriveItem)
  unfolding local_item add_item
  create_file parent_ino name v = elim (Inode.get_item_id parent_ino v.world.inodes) [
    | none ↦ (v, failure not_found)
    | some parent_item_id ↦
        let item = local_item parent_item_id name 0 none in
        let (v', ino) = add_item parent_ino name item v in
        let (open_files, fh) = Files.insert ino (complete []) v'.open_files in
        (record v' { open_files = open_files }, success (fh, ino, item))
  ]

  unfoldable pub register_new :
      ℕ → String → ℕ → Option ℕ → CoreOps → CoreOps × VfsResult (ℕ × DriveItem)
  unfolding local_item add_item set_store
  register_new parent_ino name size modified v =
      elim (Inode.get_item_id parent_ino v.world.inodes) [
        | none ↦ (v, failure not_found)
        | some parent_item_id ↦
            let item = local_item parent_item_id name size modified in
            let (v', ino) = add_item parent_ino name item v in
            (
              set_store (Store.upsert_item ino drive item (some parent_ino) v'.world.store).0 v',
              success (ino, item),
            )
      ]

  unfoldable pub register_local_file :
      ℕ → String → ℕ → Option ℕ → CoreOps → CoreOps × VfsResult (ℕ × DriveItem)
  unfolding find_child register_new
  register_local_file parent_ino name size modified v =
      let (v', found) = find_child service env parent_ino name v in
      elim found [
        | some child ↦ (v', success child)
        | none ↦ register_new parent_ino name size modified v'
      ]

  unfoldable pub made_folder :
      ℕ → String → CoreOps × Result DriveItem → CoreOps × VfsResult (ℕ × DriveItem)
  unfolding add_item
  made_folder parent_ino name (v, err e) = (v, failure (io_error ("mkdir failed: " ++ display e)))
  made_folder parent_ino name (v, ok item) =
      let (v', ino) = add_item parent_ino name item v in (v', success (ino, item))

  unfoldable pub mkdir : ℕ → String → CoreOps → CoreOps × VfsResult (ℕ × DriveItem)
  unfolding graph_call made_folder
  mkdir parent_ino name v = elim (Inode.get_item_id parent_ino v.world.inodes) [
    | none ↦ (v, failure not_found)
    | some parent_item_id ↦
        made_folder parent_ino name
          (graph_call service.server (Graph.create_folder drive parent_item_id name) v)
  ]

  unfoldable pub remove_child : ℕ → String → CoreOps → CoreOps
  unfolding set_memory
  remove_child parent_ino name v = set_memory (Memory.remove_child parent_ino name v.world.memory) v

  -- The item leaves memory, the inode table and the store, where it is remembered as deleted.
  unfoldable pub forget_item : String → ℕ → CoreOps → CoreOps
  unfolding set_memory set_inodes set_store
  forget_item item_id ino v =
      let v1 = set_memory (Memory.invalidate ino v.world.memory) v in
      let v2 = set_inodes (Inode.remove_by_item_id item_id v1.world.inodes) v1 in
      set_store (Store.delete_with_tombstone env.seconds drive item_id v2.world.store) v2

  unfoldable pub cleanup_deleted_item : String → ℕ → CoreOps → CoreOps
  unfolding forget_item set_disk set_writeback
  cleanup_deleted_item item_id ino v =
      let v1 = forget_item item_id ino v in
      let v2 = set_disk (Disk.remove env.disk_io drive item_id v1.disk).0 v1 in
      set_writeback (Writeback.remove env.upload.remove_io drive item_id v2.world.writeback).0 v2

  -- The server is asked to delete the item, if it knows it.
  unfoldable pub delete_remote : String → String → CoreOps → CoreOps × VfsResult (Unit {0})
  unfolding graph_call
  delete_remote label item_id v =
      if is_local item_id
      then (v, success tt)
      else let (v', answer) = graph_call service.done (Graph.delete_item drive item_id) v in
        (v', elim answer [ ok _ ↦ success tt | err e ↦ failure (io_error (label ++ display e)) ])

  unfoldable pub unlinked :
      ℕ
      → String
      → ℕ
      → DriveItem
      → String
      → CoreOps × VfsResult (Unit {0})
      → CoreOps × VfsResult (Unit {0})
  unfolding remove_child cleanup_deleted_item send_event
  unlinked parent_ino name ino item path (v, failure e) = (v, failure e)
  unlinked parent_ino name ino item path (v, success _) = (
    send_event service env (local_deleted path item.id (is_folder item))
        (cleanup_deleted_item item.id ino (remove_child parent_ino name v)),
    success tt,
  )

  unfoldable pub unlink : ℕ → String → CoreOps → CoreOps × VfsResult (Unit {0})
  unfolding find_child display_path_under delete_remote unlinked
  unlink parent_ino name v =
      let (v', found) = find_child service env parent_ino name v in
      elim found [
        | none ↦ (v', failure not_found)
        | some child ↦
            let (v'', path) = display_path_under service env parent_ino name v' in
            unlinked parent_ino name child.0 child.1 path
              (delete_remote "unlink failed: " child.1.id v'')
      ]
