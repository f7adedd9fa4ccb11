-- ===== src/Offline/Downloads.antt =====
-- crates/carminedesktop-cache/src/offline.rs: `recursive_download`, the tasks that run it, and
-- `OfflineManager::resume_incomplete`.
use carmine_desktop.Common.{
  ℕ, zero, suc, ◌+◌, ◌%◌, String, Bool, true, false, ◌&&◌, Option, none, some, List, [], ◌∷◌,
  if◌then◌else◌, ltb, leb, nat_eq, string_eq,
}
use carmine_desktop.Graph
use carmine_desktop.Graph.{Call, Service, display}
use carmine_desktop.Inode.{u64_modulus}
use carmine_desktop.Item.{DriveItem, is_folder, Result, ok, err}
use carmine_desktop.Pins
use carmine_desktop.Pins.{PinStore, PinnedFolder}
use carmine_desktop.Offline.{
  OfflineManager, OfflineEnv, Download, persist_item, actual_inode, cache_file, add_call,
  download_error, download_complete,
}

-- The manager's part and the counter of inodes that a task holds.
pub record Progress : Type 0 where
  pub manager : OfflineManager
  pub next_inode : ℕ

abbrev pub with_manager : ℕ → OfflineManager × Result (Unit {0}) → Progress × Result (Unit {0})
with_manager next (m, r) = (record { manager = m; next_inode = next }, r)

module _ (service : Service) (env : OfflineEnv) where
  unfoldable pub enter :
      Bool
      → (String → ℕ → Progress → Progress × Option (Result (Unit {0})))
      → DriveItem
      → ℕ
      → Progress
      → Progress × Option (Result (Unit {0}))
  unfolding cache_file
  enter true visit child inode p = visit child.id inode p
  enter false visit child inode p =
      let (q, r) = with_manager p.next_inode (cache_file service env child p.manager) in (q, some r)

  -- The children in turn, up to the first error; `visit` goes into a folder and answers none where it
  -- is too deep.
  unfoldable pub download_children :
      (String → ℕ → Progress → Progress × Option (Result (Unit {0})))
      → ℕ
      → List DriveItem
      → Progress
      → Progress × Option (Result (Unit {0}))
  unfolding persist_item actual_inode enter
  download_children visit parent [] p = (p, some (ok tt))
  download_children visit parent (child ∷ children) p =
      let inode = p.next_inode in
      let next = (inode + 1) % u64_modulus in
      let m = persist_item env.drive_id inode child (some parent) p.manager in
      let (p', r) =
        enter (is_folder child) visit child (actual_inode child.id inode m)
          (record { manager = m; next_inode = next }) in
      let rest = download_children visit parent children p' in
      elim r [ none ↦ (p', none) | some (err e) ↦ (p', some (err e)) | some (ok _) ↦ rest ]

  -- As many levels of folders as the fuel says; deeper ones give none.
  unfoldable pub recursive_download :
      ℕ → String → ℕ → Progress → Progress × Option (Result (Unit {0}))
  unfolding download_children add_call
  recursive_download zero folder_id parent p = (p, none)
  recursive_download (suc levels) folder_id parent p =
      let call = Graph.list_children env.drive_id folder_id in
      let q = record p { manager = add_call call p.manager } in
      elim (service.children p.manager.caches.calls call) [
        | err e ↦ (q, some (err e))
        | ok children ↦ download_children (recursive_download levels) parent children q
      ]

  -- What the callback that is set is told at a task's end.
  unfoldable pub tell_end : Download → Result (Unit {0}) → OfflineManager → OfflineManager
  unfolding display
  tell_end task (ok _) m =
      if task.tells_end && m.on_download_complete
      then record m { notices = download_complete task.label ∷ m.notices }
      else m
  tell_end task (err e) m =
      if m.on_download_error
      then record m { notices = download_error task.label (display e) ∷ m.notices }
      else m

  unfoldable pub run_download : ℕ → Download → OfflineManager → Option OfflineManager
  unfolding recursive_download tell_end
  run_download levels task m =
      let (p, r) =
        recursive_download levels task.item_id task.root_inode
          (record { manager = m; next_inode = task.next_inode }) in
      elim r [ none ↦ none | some r ↦ some (tell_end task r p.manager) ]

abbrev pub resumed_inode : ℕ
resumed_inode = 2000000

unfoldable pub resume_task : String → OfflineManager → Download
resume_task item_id m = record {
  item_id = item_id;
  label = item_id;
  root_inode = actual_inode item_id resumed_inode m;
  next_inode = resumed_inode;
  tells_end = false;
}

unfoldable pub resume_tasks :
    OfflineManager → List ((String × String) × PinnedFolder × ℕ × ℕ) → List Download
unfolding resume_task
resume_tasks m [] = []
resume_tasks m (((drive_id, item_id), p, total_files, cached_files) ∷ pins) =
    let rest = resume_tasks m pins in
    if leb total_files cached_files && ltb 0 total_files then rest else resume_task item_id m ∷ rest

-- The tasks that are spawned for the pins whose files are not all in the disk cache.
unfoldable pub resume_incomplete : ℕ → OfflineManager → List Download
unfolding resume_tasks
resume_incomplete now m =
    resume_tasks m (Pins.health now m.caches.store m.caches.disk.tracker m.pin_store)
