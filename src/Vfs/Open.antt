-- ===== src/Vfs/Open.antt =====
-- crates/carminedesktop-vfs/src/core_ops.rs: `open_file`. What the server says of the file comes
-- before the disk cache, so that a stale content is not taken for fresh.
use text.Mathlib.Text.{starts_with}
use carmine_desktop.Common.{
  ℕ, String, not, Option, none, some, [], ◌∷◌, if◌then◌else◌, ltb, ◌==◌, nat_eq, string_eq,
  option_beq, and_then,
}
use carmine_desktop.Common.Map.{Map}
use carmine_desktop.Files
use carmine_desktop.Files.{OpenFile, DownloadState, complete, streaming}
use carmine_desktop.Graph
use carmine_desktop.Graph.{Service, small_file_limit}
use carmine_desktop.Inode
use carmine_desktop.Item.{DriveItem, parent_id, is_locked}
use carmine_desktop.Memory
use carmine_desktop.Names.{◌++◌, decimal, digits_of_i64}
use carmine_desktop.Store
use carmine_desktop.Upload.{file_locked}
use carmine_desktop.Vfs.{
  CoreOps, VfsEnv, VfsResult, success, failure, not_found, io_error, set_memory, set_inodes,
  set_store, graph_with_timeout, send_event, lookup_item,
}
use carmine_desktop.Vfs.Content.{fresh_cached, cached_offline, read_content}
use carmine_desktop.Writeback
use carmine_desktop.Writeback.{Bytes, bytes_or_empty}

-- `find_by_ino`: the first handle of the inode.
unfoldable pub find_by_ino : ℕ → Map ℕ OpenFile → Option (ℕ × OpenFile)
find_by_ino ino [] = none
find_by_ino ino ((fh, f) ∷ files) =
    let rest = find_by_ino ino files in if f.ino == ino then some (fh, f) else rest

-- `content.as_complete()`
abbrev pub as_complete : DownloadState → Option Bytes
as_complete (complete content) = some content
as_complete (streaming size) = none

module _ (service : Service) (env : VfsEnv) where
  abbrev drive : String
  drive = env.upload.drive_id

  unfoldable pub open_with : ℕ → DownloadState → CoreOps → CoreOps × VfsResult ℕ
  open_with ino content v =
      let (open_files, fh) = Files.insert ino content v.open_files in
      (record v { open_files = open_files }, success fh)

  unfoldable pub open_read : ℕ → CoreOps × VfsResult Bytes → CoreOps × VfsResult ℕ
  unfolding open_with
  open_read ino (v, success content) = open_with ino (complete content) v
  open_read ino (v, failure e) = (v, failure e)

  -- The server's metadata of a changed file go to memory and the store.
  unfoldable pub refresh_metadata : ℕ → DriveItem → CoreOps → CoreOps
  unfolding set_memory set_inodes set_store
  refresh_metadata ino fresh v =
      let v1 = set_memory (Memory.insert env.upload.now ino fresh v.world.memory) v in
      let stored = λ (parent : Option ℕ) (w : CoreOps).
        set_store (Store.upsert_item ino drive fresh parent w.world.store).0 w in
      let v2 : CoreOps = elim (parent_id fresh) [
        | none ↦ stored none v1
        | some pid ↦
            let (inodes, parent_ino) = Inode.allocate pid v1.world.inodes in
            stored (some parent_ino) (set_inodes inodes v1)
      ] in
      if env.invalidating then record v2 { invalidated = ino ∷ v2.invalidated } else v2

  unfoldable pub refreshed :
      ℕ → Option DriveItem → CoreOps × VfsResult DriveItem → CoreOps × Option DriveItem
  unfolding send_event refresh_metadata
  refreshed ino item (v, failure e) = (v, item)
  refreshed ino item (v, success fresh) =
      let v' = if is_locked fresh then send_event service env (file_locked fresh.name) v else v in
      let stale = not (option_beq (and_then item (λ i. i.etag)) fresh.etag) in
      (if stale then refresh_metadata ino fresh v' else v', some fresh)

  abbrev pub size_or_zero : Option DriveItem → ℕ
  size_or_zero none = 0
  size_or_zero (some item) = item.size

  abbrev pub max_streaming_buffer_size : ℕ
  max_streaming_buffer_size = 268435456

  -- Not cached: a small file is read whole, a large one is streamed in the background.
  unfoldable pub open_uncached : ℕ → Option DriveItem → CoreOps → CoreOps × VfsResult ℕ
  unfolding open_read read_content open_with
  open_uncached ino item v =
      let size = size_or_zero item in
      if ltb size small_file_limit
      then open_read ino (read_content service env ino v)
      else if ltb max_streaming_buffer_size size
      then (
        v,
        failure (
            io_error (
              "file too large for streaming buffer: "
              ++ decimal digits_of_i64 size
              ++ " bytes (max 268435456)")),
      )
      else open_with ino (streaming size) v

  unfoldable pub open_online : ℕ → String → Option DriveItem → CoreOps → CoreOps × VfsResult ℕ
  unfolding graph_with_timeout refreshed fresh_cached open_with open_uncached
  open_online ino item_id item v =
      let (v', fresh) =
        refreshed ino item
          (graph_with_timeout service env service.server (Graph.get_item drive item_id) v) in
      let (v'', cached) = fresh_cached service env ino item_id fresh v' in
      elim cached [
        | some content ↦ open_with ino (complete content) v''
        | none ↦ open_uncached ino fresh v''
      ]

  -- A file that was never uploaded has its content in another handle or in the buffer.
  unfoldable pub local_content : ℕ → String → CoreOps → Bytes
  unfolding find_by_ino
  local_content ino item_id v =
      elim (and_then (find_by_ino ino v.open_files.files) (λ found. as_complete found.1.content)) [
        | some content ↦ content
        | none ↦ bytes_or_empty (Writeback.read drive item_id v.world.writeback)
      ]

  unfoldable pub open_file : ℕ → CoreOps → CoreOps × VfsResult ℕ
  unfolding local_content open_with lookup_item cached_offline open_read open_online
  open_file ino v = elim (Inode.get_item_id ino v.world.inodes) [
    | none ↦ (v, failure not_found)
    | some item_id ↦
        if starts_with item_id "local:"
        then open_with ino (complete (local_content ino item_id v)) v
        else let (v', item) = lookup_item service env ino v in
          elim (Writeback.read drive item_id v'.world.writeback) [
            | some content ↦ open_with ino (complete content) v'
            | none ↦
                if v'.offline
                then open_read ino (cached_offline service env item_id v')
                else open_online ino item_id item v'
          ]
  ]
