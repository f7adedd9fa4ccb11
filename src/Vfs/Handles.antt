-- ===== src/Vfs/Handles.antt =====
-- crates/carminedesktop-vfs/src/core_ops.rs: reads and writes of open files, and how their content
-- comes into the buffer of pending writes. The progress of a streaming download and the answer of
-- the sync processor are arguments.
use carmine_desktop.Common.{
  ℕ, ◌+◌, ◌-◌, min, String, Bool, true, false, not, ◌&&◌, Option, none, some, List, [], ◌∷◌,
  if◌then◌else◌, ltb, leb, ◌==◌, nat_eq, string_eq, length, take, drop,
}
use carmine_desktop.Common.Map
use carmine_desktop.Common.Map.{Map}
use carmine_desktop.Disk
use carmine_desktop.Files
use carmine_desktop.Files.{
  OpenFile, DownloadState, complete, streaming, resize, ensure_complete, write_buffer, write_entry,
  truncate_entry, reserve_entry, flushed_content,
}
use carmine_desktop.Graph
use carmine_desktop.Graph.{Service, display}
use carmine_desktop.Inode
use carmine_desktop.Item.{DriveItem, Result, ok, err}
use carmine_desktop.Memory
use carmine_desktop.Names.{◌++◌}
use carmine_desktop.Sync.{SyncRequest, flush, flush_sync}
use carmine_desktop.Upload.{flush_inode_async}
use carmine_desktop.Vfs.{
  CoreOps, VfsEnv, VfsError, VfsResult, success, failure, not_found, timed_out, io_error,
  set_memory, set_writeback, graph_call, lookup_item,
}
use carmine_desktop.Vfs.Content.{read_content, set_disk}
use carmine_desktop.Vfs.Open.{find_by_ino}
use carmine_desktop.Writeback
use carmine_desktop.Writeback.{Bytes, bytes_or_empty}
pub mod Released

abbrev pub incomplete : VfsError
incomplete = io_error "dirty file in non-complete state"

-- The error of a wait for a download that failed; its text is the download's.
abbrev pub wait_failed : VfsError
wait_failed = io_error "download failed"

abbrev pub set_entry : ℕ → OpenFile → CoreOps → CoreOps
set_entry fh f v = record v {
  open_files = record v.open_files { files = Map.insert fh f v.open_files.files };
}

abbrev pub random_access_threshold : ℕ
random_access_threshold = 2097152

-- A streaming download: how far it is, what a wait for a range ends with, what the buffer then holds.
pub record Stream : Type 0 where
  pub downloaded : ℕ
  pub waited : VfsResult (Unit {0})
  pub range : ℕ → ℕ → Bytes

-- The answer to a synchronous flush.
pub data FlushReply : Type 0 where
  replied : Bool → FlushReply
  closed : FlushReply
  elapsed : FlushReply

module _ (service : Service) (env : VfsEnv) where
  abbrev drive : String
  drive = env.upload.drive_id

  -- `if let Some(mut item) = self.lookup_item(ino) { item.size = …; memory.insert(ino, item) }`
  unfoldable pub update_size : ℕ → ℕ → CoreOps → CoreOps
  unfolding lookup_item set_memory
  update_size ino size v =
      let (v', found) = lookup_item service env ino v in
      elim found [
        | none ↦ v'
        | some item ↦
            set_memory
              (Memory.insert env.upload.now ino (record item { size = size }) v'.world.memory) v'
      ]

  -- `writeback.write`, with its error as that of the callback.
  unfoldable pub write_pending : String → String → Bytes → CoreOps → CoreOps × VfsResult (Unit {0})
  unfolding set_writeback
  write_pending label item_id content v =
      let (writeback, answer) =
        Writeback.write env.upload.persist_io drive item_id content v.world.writeback in
      (
        set_writeback writeback v,
        elim answer [ ok _ ↦ success tt | err e ↦ failure (io_error (label ++ display e)) ],
      )

  -- Pending content, else cached content, else nothing.
  unfoldable pub existing_content : String → CoreOps → CoreOps × Bytes
  unfolding set_disk
  existing_content item_id v = elim (Writeback.read drive item_id v.world.writeback) [
    | some content ↦ (v, content)
    | none ↦
        let (disk, cached) = Disk.get env.seconds drive item_id v.disk in
        (set_disk disk v, bytes_or_empty cached)
  ]

  unfoldable pub resized : ℕ → ℕ → CoreOps × VfsResult (Unit {0}) → CoreOps × VfsResult (Unit {0})
  unfolding update_size
  resized ino size (v, failure e) = (v, failure e)
  resized ino size (v, success _) = (update_size ino size v, success tt)

  -- An open file is truncated in its handle, another in the buffer of pending writes.
  unfoldable pub truncate : Option Bytes → ℕ → ℕ → CoreOps → CoreOps × VfsResult (Unit {0})
  unfolding find_by_ino truncate_entry existing_content resize write_pending resized
  truncate awaited ino new_size v = elim (find_by_ino ino v.open_files.files) [
    | some found ↦ elim (truncate_entry awaited new_size found.1) [
      | none ↦ (v, failure wait_failed)
      | some f ↦ resized ino new_size (set_entry found.0 f v, success tt)
    ]
    | none ↦ elim (Inode.get_item_id ino v.world.inodes) [
      | none ↦ (v, failure not_found)
      | some item_id ↦
          let (v', content) = if new_size == 0 then (v, []) else existing_content item_id v in
          resized ino new_size
            (write_pending "truncate writeback failed: " item_id (resize new_size content) v')
    ]
  ]

  unfoldable pub ensure_buffer_capacity :
      Option Bytes → ℕ → ℕ → CoreOps → CoreOps × VfsResult (Unit {0})
  unfolding find_by_ino reserve_entry
  ensure_buffer_capacity awaited ino capacity v = elim (find_by_ino ino v.open_files.files) [
    | none ↦ (v, success tt)
    | some found ↦ elim (reserve_entry awaited capacity found.1) [
      | none ↦ (v, failure wait_failed)
      | some f ↦ (set_entry found.0 f v, success tt)
    ]
  ]

  unfoldable pub write_to_buffer : ℕ → ℕ → Bytes → CoreOps → CoreOps × VfsResult ℕ
  unfolding existing_content write_buffer write_pending
  write_to_buffer ino offset bytes v = elim (Inode.get_item_id ino v.world.inodes) [
    | none ↦ (v, failure not_found)
    | some item_id ↦
        let (v', existing) = existing_content item_id v in
        let (v'', written) =
          write_pending "write buffer failed: " item_id (write_buffer offset bytes existing) v' in
        (v'', elim written [ success _ ↦ success (length bytes) | failure e ↦ failure e ])
  ]

  unfoldable pub flush_inode : ℕ → CoreOps → CoreOps × VfsResult (Unit {0})
  unfolding flush_inode_async
  flush_inode ino v =
      let (world, uploaded) = flush_inode_async service.server env.upload ino v.world in
      (
        record v { world = world },
        if uploaded then success tt else failure (io_error "flush_inode upload failed"),
      )

  unfoldable pub release_dirty : OpenFile → CoreOps → CoreOps × VfsResult (Unit {0})
  unfolding flushed_content write_pending
  release_dirty f v = elim (Inode.get_item_id f.ino v.world.inodes) [
    | none ↦ (v, failure not_found)
    | some item_id ↦ elim f.content [
      | streaming size ↦ (v, failure incomplete)
      | complete content ↦
          write_pending "release writeback failed: " item_id
            (flushed_content content f.logical_size) v
    ]
  ]

  -- A handle is closed; what was written through it comes into the buffer.
  unfoldable pub release_file : ℕ → CoreOps → CoreOps × VfsResult (Unit {0})
  unfolding release_dirty
  release_file fh v =
      let (open_files, removed) = Files.remove fh v.open_files in
      let v' = record v { open_files = open_files } in
      elim removed [
        | none ↦ (v', success tt)
        | some f ↦ if f.dirty then release_dirty f v' else (v', success tt)
      ]

  unfoldable pub refresh_with : ℕ → CoreOps × VfsResult Bytes → CoreOps × VfsResult (Unit {0})
  refresh_with fh (v, failure e) = (v, failure e)
  refresh_with fh (v, success content) = elim (Files.get fh v.open_files) [
    | none ↦ (v, failure not_found)
    | some f ↦
        if f.stale
        then (set_entry fh (record f { content = complete content; stale = false }) v, success tt)
        else (v, success tt)
  ]

  unfoldable pub refresh_stale_handle : ℕ → ℕ → CoreOps → CoreOps × VfsResult (Unit {0})
  unfolding read_content refresh_with
  refresh_stale_handle fh ino v = refresh_with fh (read_content service env ino v)

  abbrev pub slice : ℕ → ℕ → Bytes → Bytes
  slice offset size content =
      if leb (length content) offset
      then []
      else take (min (offset + size) (length content) - offset) (drop offset content)

  unfoldable pub read_streaming : Stream → OpenFile → ℕ → ℕ → CoreOps → CoreOps × VfsResult Bytes
  unfolding graph_call
  read_streaming stream f offset size v =
      if leb (offset + size) stream.downloaded
      then (v, success (stream.range offset size))
      else if leb offset (stream.downloaded + random_access_threshold)
      then (
        v,
        elim stream.waited [
          | success _ ↦ success (stream.range offset size)
          | failure e ↦ failure e
        ],
      )
      else elim (Inode.get_item_id f.ino v.world.inodes) [
        | none ↦ (v, failure not_found)
        | some item_id ↦
            let (v', answer) =
              graph_call service.content (Graph.download_range drive item_id offset size) v in
            (
              v',
              elim answer [
                | ok bytes ↦ success bytes
                | err e ↦ failure (io_error ("range download failed: " ++ display e))
              ],
            )
      ]

  unfoldable pub read_entry :
      Stream → ℕ → ℕ → ℕ → CoreOps × VfsResult (Unit {0}) → CoreOps × VfsResult Bytes
  unfolding read_streaming
  read_entry stream fh offset size (v, failure e) = (v, failure e)
  read_entry stream fh offset size (v, success _) = elim (Files.get fh v.open_files) [
    | none ↦ (v, failure not_found)
    | some f ↦ elim f.content [
      | complete content ↦ (v, success (slice offset size content))
      | streaming total ↦ read_streaming stream f offset size v
    ]
  ]

  -- A handle whose file has changed on the server is read anew, unless it was written to.
  unfoldable pub read_handle : Stream → ℕ → ℕ → ℕ → CoreOps → CoreOps × VfsResult Bytes
  unfolding refresh_stale_handle read_entry
  read_handle stream fh offset size v = elim (Files.get fh v.open_files) [
    | none ↦ (v, failure not_found)
    | some f ↦
        read_entry stream fh offset size
          (if f.stale && not f.dirty then refresh_stale_handle fh f.ino v else (v, success tt))
  ]

  unfoldable pub write_handle : Option Bytes → ℕ → ℕ → Bytes → CoreOps → CoreOps × VfsResult ℕ
  unfolding write_entry update_size
  write_handle awaited fh offset bytes v = elim (Files.get fh v.open_files) [
    | none ↦ (v, failure not_found)
    | some f ↦ elim (write_entry awaited offset bytes f) [
      | none ↦ (v, failure wait_failed)
      | some written ↦
          (update_size f.ino written.1 (set_entry fh written.0 v), success (length bytes))
    ]
  ]
