-- ===== src/Vfs/Rename.antt =====
-- crates/carminedesktop-vfs/src/core_ops.rs: `rmdir` and `rename`.
use carmine_desktop.Common.{
  ℕ, String, Bool, true, false, not, ◌&&◌, Option, none, some, List, [], ◌∷◌, if◌then◌else◌, ◌==◌,
  nat_eq, string_eq,
}
use carmine_desktop.Graph
use carmine_desktop.Graph.{Call, Service, display}
use carmine_desktop.Inode
use carmine_desktop.Item.{DriveItem, ParentReference, is_folder, Result, ok, err}
use carmine_desktop.Memory
use carmine_desktop.Names.{◌++◌, conflict_name}
use carmine_desktop.Store
use carmine_desktop.Upload.{local_deleted, local_renamed, conflict_detected, parent_or_empty}
use carmine_desktop.Vfs.{
  CoreOps, VfsEnv, VfsResult, success, failure, not_found, not_a_directory, directory_not_empty,
  io_error, set_memory, set_inodes, set_store, graph_call, send_event, display_path_under,
}
use carmine_desktop.Vfs.Content.{is_dirty}
use carmine_desktop.Vfs.Lookup.{find_child, has_server_conflict}
use carmine_desktop.Vfs.Tree.{is_local, remove_child, cleanup_deleted_item, delete_remote}

abbrev is_empty {ℓ} : {A : Type ℓ} → List A → Bool
is_empty [] = true
is_empty (x ∷ xs) = false

module _ (service : Service) (env : VfsEnv) where
  abbrev drive : String
  drive = env.upload.drive_id

  -- The server's folder must be empty, and is deleted.
  unfoldable pub remove_remote_folder :
      String → CoreOps × Result (List DriveItem) → CoreOps × VfsResult (Unit {0})
  unfolding delete_remote
  remove_remote_folder item_id (v, err e) =
      (v, failure (io_error ("rmdir list_children failed: " ++ display e)))
  remove_remote_folder item_id (v, ok (x ∷ children)) = (v, failure directory_not_empty)
  remove_remote_folder item_id (v, ok []) =
      delete_remote service env "rmdir delete failed: " item_id v

  unfoldable pub check_empty : ℕ → String → CoreOps → CoreOps × VfsResult (Unit {0})
  unfolding graph_call remove_remote_folder set_memory
  check_empty ino item_id v =
      if is_local item_id
      then (let (memory, children) = Memory.get_children env.upload.now ino v.world.memory in
          let v' = set_memory memory v in
          elim children [
            | some (x ∷ rest) ↦ (v', failure directory_not_empty)
            | _ ↦ (v', success tt)
          ])
      else remove_remote_folder item_id
          (graph_call service.children (Graph.list_children drive item_id) v)

  unfoldable pub folder_removed :
      ℕ
      → String
      → ℕ
      → String
      → String
      → CoreOps × VfsResult (Unit {0})
      → CoreOps × VfsResult (Unit {0})
  unfolding remove_child send_event set_memory set_inodes set_store
  folder_removed parent_ino name ino item_id path (v, failure e) = (v, failure e)
  folder_removed parent_ino name ino item_id path (v, success _) =
      let v1 = set_memory (Memory.invalidate ino v.world.memory) v in
      let v2 = remove_child service env parent_ino name v1 in
      let v3 = set_inodes (Inode.remove_by_item_id item_id v2.world.inodes) v2 in
      let v4 =
        set_store (Store.delete_with_tombstone env.seconds drive item_id v3.world.store) v3 in
      (send_event service env (local_deleted path item_id true) v4, success tt)

  unfoldable pub rmdir : ℕ → String → CoreOps → CoreOps × VfsResult (Unit {0})
  unfolding find_child display_path_under check_empty folder_removed
  rmdir parent_ino name v =
      let (v', found) = find_child service env parent_ino name v in
      elim found [
        | none ↦ (v', failure not_found)
        | some child ↦
            if is_folder child.1
            then (let (v'', path) = display_path_under service env parent_ino name v' in
                folder_removed parent_ino name child.0 child.1.id path
                  (check_empty child.0 child.1.id v''))
            else (v', failure not_a_directory)
      ]

  -- The server's version of a file that is about to be replaced, saved beside it.
  unfoldable pub conflict_saved :
      DriveItem → String → CoreOps × Result DriveItem → CoreOps × VfsResult (Unit {0})
  unfolding send_event
  conflict_saved existing cname (v, err e) =
      (v, failure (io_error ("conflict copy upload failed: " ++ display e)))
  conflict_saved existing cname (v, ok _) =
      (send_event service env (conflict_detected existing.name cname) v, success tt)

  unfoldable pub save_replaced : DriveItem → CoreOps → CoreOps × VfsResult (Unit {0})
  unfolding graph_call conflict_saved conflict_name
  save_replaced existing v =
      let cname = conflict_name existing.name env.upload.timestamp in
      if parent_or_empty existing == ""
      then (v, success tt)
      else let (v', answer) =
          graph_call service.content (Graph.download_content drive existing.id) v in
        elim answer [
          | err e ↦ (v', success tt)
          | ok content ↦ conflict_saved existing cname (
              graph_call service.server
                (Graph.upload_small drive (parent_or_empty existing) cname content none) v')
        ]

  -- A remote file with other content on the server is saved first.
  unfoldable pub protect_replaced : ℕ → DriveItem → CoreOps → CoreOps × VfsResult (Unit {0})
  unfolding is_dirty has_server_conflict save_replaced
  protect_replaced ino existing v =
      if not (is_local existing.id) && not (is_folder existing)
      then (if is_dirty ino v
          then save_replaced existing v
          else let (v', conflict) = has_server_conflict service env existing v in
            if conflict then save_replaced existing v' else (v', success tt))
      else (v, success tt)

  -- The existing destination is deleted; the server's answer is not looked at.
  unfoldable pub replace_existing :
      ℕ → String → ℕ → DriveItem → CoreOps × VfsResult (Unit {0}) → CoreOps × VfsResult (Unit {0})
  unfolding delete_remote remove_child cleanup_deleted_item
  replace_existing new_parent_ino new_name ino existing (v, failure e) = (v, failure e)
  replace_existing new_parent_ino new_name ino existing (v, success _) =
      let v' = (delete_remote service env "" existing.id v).0 in
      (
        cleanup_deleted_item service env existing.id ino
            (remove_child service env new_parent_ino new_name v'),
        success tt,
      )

  unfoldable pub clear_destination : ℕ → String → String → CoreOps → CoreOps × VfsResult (Unit {0})
  unfolding find_child protect_replaced replace_existing
  clear_destination new_parent_ino new_name item_id v =
      let (v', found) = find_child service env new_parent_ino new_name v in
      elim found [
        | none ↦ (v', success tt)
        | some existing ↦
            if existing.1.id == item_id
            then (v', success tt)
            else replace_existing new_parent_ino new_name existing.0 existing.1
                (protect_replaced existing.0 existing.1 v')
      ]

  abbrev pub set_parent : Option String → Option ParentReference → Option ParentReference
  set_parent (some pid) (some p) = some (record p { id = some pid })
  set_parent _ p = p

  -- The item under its new name, in the store and in memory.
  unfoldable pub store_renamed : ℕ → ℕ → DriveItem → CoreOps → CoreOps
  unfolding set_store set_memory
  store_renamed new_parent_ino ino updated v =
      let store = (Store.upsert_item ino drive updated (some new_parent_ino) v.world.store).0 in
      let v' = set_store store v in
      set_memory (Memory.insert env.upload.now ino updated v'.world.memory) v'

  unfoldable pub remote_renamed :
      ℕ → ℕ → CoreOps × Result DriveItem → CoreOps × VfsResult (Unit {0})
  unfolding store_renamed
  remote_renamed new_parent_ino ino (v, err e) =
      (v, failure (io_error ("rename failed: " ++ display e)))
  remote_renamed new_parent_ino ino (v, ok updated) =
      (store_renamed new_parent_ino ino updated v, success tt)

  unfoldable pub rename_item :
      ℕ
      → String
      → Option String
      → ℕ
      → DriveItem
      → CoreOps × VfsResult (Unit {0})
      → CoreOps × VfsResult (Unit {0})
  unfolding graph_call remote_renamed store_renamed
  rename_item new_parent_ino new_name new_pid ino item (v, failure e) = (v, failure e)
  rename_item new_parent_ino new_name new_pid ino item (v, success _) =
      if is_local item.id
      then (
        store_renamed new_parent_ino ino
            (record item {
              name = new_name;
              parent_reference = set_parent new_pid item.parent_reference;
            })
            v,
        success tt,
      )
      else remote_renamed new_parent_ino ino
          (graph_call service.server (Graph.update_item drive item.id (some new_name) new_pid) v)

  -- The children of both folders, and the event.
  unfoldable pub renamed :
      ℕ
      → String
      → ℕ
      → String
      → ℕ × DriveItem
      → String
      → String
      → CoreOps × VfsResult (Unit {0})
      → CoreOps × VfsResult (Unit {0})
  unfolding remove_child set_memory send_event
  renamed parent_ino name new_parent_ino new_name child old_path new_path (v, failure e) =
      (v, failure e)
  renamed parent_ino name new_parent_ino new_name child old_path new_path (v, success _) =
      let v' = remove_child service env parent_ino name v in
      (
        send_event service env
            (local_renamed old_path new_path child.1.id (is_folder child.1)
              (not (parent_ino == new_parent_ino)))
            (set_memory (Memory.add_child new_parent_ino new_name child.0 v'.world.memory) v'),
        success tt,
      )

  -- `none` where the new folder is not known.
  unfoldable pub new_parent_id : ℕ → ℕ → CoreOps → Option (Option String)
  new_parent_id parent_ino new_parent_ino v =
      if parent_ino == new_parent_ino
      then some none
      else elim (Inode.get_item_id new_parent_ino v.world.inodes) [
        | none ↦ none
        | some pid ↦ some (some pid)
      ]

  unfoldable pub rename : ℕ → String → ℕ → String → CoreOps → CoreOps × VfsResult (Unit {0})
  unfolding find_child display_path_under new_parent_id clear_destination rename_item renamed
  rename parent_ino name new_parent_ino new_name v =
      let (v', found) = find_child service env parent_ino name v in
      elim found [
        | none ↦ (v', failure not_found)
        | some child ↦
            let (v1, old_path) = display_path_under service env parent_ino name v' in
            let (v2, new_path) = display_path_under service env new_parent_ino new_name v1 in
            elim (new_parent_id parent_ino new_parent_ino v2) [
              | none ↦ (v2, failure not_found)
              | some new_pid ↦
                  renamed parent_ino name new_parent_ino new_name child old_path new_path (
                    rename_item new_parent_ino new_name new_pid child.0 child.1
                      (clear_destination new_parent_ino new_name child.1.id v2))
            ]
      ]
