-- ===== src/Vfs/Flush.antt =====
-- crates/carminedesktop-vfs/src/core_ops.rs: `flush_handle`, the copy between two open files, and
-- the read of a range without a handle.
use carmine_desktop.Common.{
  ℕ, String, Bool, true, false, Option, none, some, [], ◌∷◌, if◌then◌else◌, nat_eq, string_eq,
  length,
}
use carmine_desktop.Disk
use carmine_desktop.Files
use carmine_desktop.Files.{OpenFile, complete, ensure_complete, write_buffer, flushed_content}
use carmine_desktop.Graph
use carmine_desktop.Graph.{Service, display}
use carmine_desktop.Inode
use carmine_desktop.Item.{ok, err}
use carmine_desktop.Names.{◌++◌}
use carmine_desktop.Sync.{SyncRequest, flush, flush_sync}
use carmine_desktop.Vfs.{
  CoreOps, VfsEnv, VfsResult, success, failure, not_found, timed_out, io_error, graph_call,
}
use carmine_desktop.Vfs.Content.{set_disk}
use carmine_desktop.Vfs.Handles.{
  FlushReply, replied, closed, elapsed, Stream, set_entry, update_size, write_pending, flush_inode,
  read_handle, wait_failed,
}
use carmine_desktop.Writeback.{Bytes}

unfoldable pub send_request : SyncRequest → CoreOps → CoreOps
send_request request v = record v { requests = request ∷ v.requests }

abbrev pub reply_result : FlushReply → VfsResult (Unit {0})
reply_result (replied true) = success tt
reply_result (replied false) = failure (io_error "flush upload failed")
reply_result closed = failure (io_error "sync processor closed")
reply_result elapsed = failure timed_out

module _ (service : Service) (env : VfsEnv) where
  abbrev drive : String
  drive = env.upload.drive_id

  -- The upload: handed to the sync processor, waited for or not, or done here.
  unfoldable pub request_upload :
      Bool → ℕ → FlushReply → ℕ → CoreOps × VfsResult (Unit {0}) → CoreOps × VfsResult (Unit {0})
  unfolding send_request flush_inode
  request_upload wait done reply ino (v, failure e) = (v, failure e)
  request_upload wait done reply ino (v, success _) =
      if env.syncing
      then (if wait
          then (send_request (flush_sync ino done) v, reply_result reply)
          else (send_request (flush ino) v, success tt))
      else flush_inode service env ino v

  -- The handle counts as clean once the upload is done or handed on.
  unfoldable pub mark_clean : ℕ → CoreOps × VfsResult (Unit {0}) → CoreOps × VfsResult (Unit {0})
  mark_clean fh (v, failure e) = (v, failure e)
  mark_clean fh (v, success _) = elim (Files.get fh v.open_files) [
    | none ↦ (v, success tt)
    | some f ↦ (set_entry fh (record f { dirty = false }) v, success tt)
  ]

  unfoldable pub flush_entry :
      Bool → ℕ → FlushReply → ℕ → OpenFile → Bytes → CoreOps → CoreOps × VfsResult (Unit {0})
  unfolding flushed_content write_pending request_upload mark_clean
  flush_entry wait done reply fh f content v = elim (Inode.get_item_id f.ino v.world.inodes) [
    | none ↦ (v, failure not_found)
    | some item_id ↦ mark_clean fh (
        request_upload wait done reply f.ino (
          write_pending service env "flush writeback failed: " item_id
            (flushed_content content f.logical_size) v))
  ]

  -- `done` is the waiter of a synchronous flush and `reply` the answer that it gets.
  unfoldable pub flush_handle :
      Option Bytes → Bool → ℕ → FlushReply → ℕ → CoreOps → CoreOps × VfsResult (Unit {0})
  unfolding ensure_complete flush_entry
  flush_handle awaited wait done reply fh v = elim (Files.get fh v.open_files) [
    | none ↦ (v, failure not_found)
    | some f ↦
        if f.dirty
        then elim (ensure_complete awaited f) [
          | none ↦ (v, failure wait_failed)
          | some content ↦
              flush_entry wait done reply fh f content
                (set_entry fh (record f { content = complete content }) v)
        ]
        else (v, success tt)
  ]

  -- The bytes read are written to the other handle; its logical size stays.
  unfoldable pub copy_bytes :
      Option Bytes → ℕ → ℕ → ℕ → CoreOps × VfsResult Bytes → CoreOps × VfsResult ℕ
  unfolding ensure_complete write_buffer update_size
  copy_bytes awaited fh_out offset_out ino_out (v, failure e) = (v, failure e)
  copy_bytes awaited fh_out offset_out ino_out (v, success []) = (v, success 0)
  copy_bytes awaited fh_out offset_out ino_out (v, success (b ∷ bytes)) =
      elim (Files.get fh_out v.open_files) [
        | none ↦ (v, failure not_found)
        | some f ↦ elim (ensure_complete awaited f) [
          | none ↦ (v, failure wait_failed)
          | some buf ↦
              let buf' = write_buffer offset_out (b ∷ bytes) buf in
              let f' = record f { content = complete buf'; dirty = true } in
              (
                update_size service env ino_out (length buf') (set_entry fh_out f' v),
                success (length (b ∷ bytes)),
              )
        ]
      ]

  unfoldable pub copy_file_range_fallback :
      Stream → Option Bytes → ℕ → ℕ → ℕ → ℕ → ℕ → ℕ → CoreOps → CoreOps × VfsResult ℕ
  unfolding read_handle copy_bytes
  copy_file_range_fallback stream awaited fh_in offset_in fh_out offset_out len ino_out v =
      copy_bytes awaited fh_out offset_out ino_out
        (read_handle service env stream fh_in offset_in len v)

  -- The disk cache, fresh or not, else the server.
  unfoldable pub read_range_direct : ℕ → ℕ → ℕ → CoreOps → CoreOps × VfsResult Bytes
  unfolding set_disk graph_call
  read_range_direct ino offset len v = elim (Inode.get_item_id ino v.world.inodes) [
    | none ↦ (v, failure not_found)
    | some item_id ↦
        let (disk, cached) = Disk.get_range env.seconds drive item_id offset len v.disk in
        let v' = set_disk disk v in
        elim cached [
          | some bytes ↦ (v', success bytes)
          | none ↦
              let (v'', answer) =
                graph_call service.content (Graph.download_range drive item_id offset len) v' in
              (
                v'',
                elim answer [
                  | ok bytes ↦ success bytes
                  | err e ↦ failure (io_error ("range download failed: " ++ display e))
                ],
              )
        ]
  ]
