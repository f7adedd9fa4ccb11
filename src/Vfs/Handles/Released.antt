-- ===== src/Vfs/Handles/Released.antt =====
-- crates/carminedesktop-vfs/src/core_ops.rs: what is written through a handle is read after its
-- release.
use carmine_desktop.Common.{
  ℕ, ◌≡◌, sym, ap, ◌∙◌, String, true, Option, some, arith, Option-cases, inl, inr, nat_eq,
}
use carmine_desktop.Common.Map.{get-insert_self}
use carmine_desktop.Files
use carmine_desktop.Files.{
  OpenFile, DownloadState, complete, ensure_complete, write_entry, flushed_content,
}
use carmine_desktop.Files.Content.{IsWhole, write_entry-overwrite}
use carmine_desktop.Graph.{Service}
use carmine_desktop.Inode
use carmine_desktop.Vfs.{CoreOps, VfsEnv, success, lookup_item, set_memory, set_writeback}
use carmine_desktop.Vfs.Content.{read_content}
use carmine_desktop.Vfs.Content.Pending.{lookup_item-inodes, read_content_pending}
use carmine_desktop.Vfs.Frame.{lookup_item-IsFramed}
use carmine_desktop.Vfs.Handles.{
  set_entry, update_size, write_pending, release_dirty, release_file, write_handle,
}
use carmine_desktop.Writeback.{Bytes, overwrite}
use carmine_desktop.Writeback.Reads.{read-write}

write_entry-fields :
    (awaited : Option Bytes) (offset : ℕ) (chunk : Bytes) (f : OpenFile) (out : OpenFile × ℕ)
    → write_entry awaited offset chunk f ≡ some out
    → (out.0.dirty ≡ true) × (out.0.ino ≡ f.ino)
unfolding write_entry
write_entry-fields awaited offset chunk f out h = elim (Option-cases (ensure_complete awaited f)) [
  | inl e ↦ ground (arith, e)
  | inr (buf, e) ↦ elim (Option-cases f.logical_size) [
    | inl l ↦ ground (arith, e, l)
    | inr (ls, l) ↦ ground (arith, e, l)
  ]
]

module _ (service : Service) (env : VfsEnv) where
  update_size-keeps :
      (ino size : ℕ) (v : CoreOps)
      → ((update_size service env ino size v).open_files ≡ v.open_files)
        × ((update_size service env ino size v).world.inodes ≡ v.world.inodes)
  unfolding update_size set_memory
  update_size-keeps ino size v = elim (Option-cases (lookup_item service env ino v).1) [
    | inl e ↦
        rw (e, update_size)
          (
            (lookup_item-IsFramed service env ino v).open_files,
            lookup_item-inodes service env ino v,
          )
    | inr (item, e) ↦
        rw (e, update_size)
          (
            (lookup_item-IsFramed service env ino v).open_files,
            lookup_item-inodes service env ino v,
          )
  ]

  -- A handle that was written to leaves its content in the buffer of pending writes, even where the
  -- disk refuses it.
  release_dirty-read :
      (f : OpenFile) (buf : Bytes) (item_id : String) (v : CoreOps)
      → f.content ≡ complete buf
      → Inode.get_item_id f.ino v.world.inodes ≡ some item_id
      → (read_content service env f.ino (release_dirty service env f v).0).1
        ≡ success (flushed_content buf f.logical_size)
  unfolding release_dirty write_pending set_writeback
  release_dirty-read f buf item_id v c known =
      rw (known, c, release_dirty)
        (read_content_pending service env f.ino _ item_id (flushed_content buf f.logical_size) known
          ((read-write env.upload.drive_id item_id v.world.writeback env.upload.persist_io
            (flushed_content buf f.logical_size)).0))

  -- The release of a dirty handle.
  release_file-read :
      (fh : ℕ) (f : OpenFile) (buf : Bytes) (item_id : String) (v : CoreOps)
      → Files.get fh v.open_files ≡ some f
      → f.dirty ≡ true
      → f.content ≡ complete buf
      → Inode.get_item_id f.ino v.world.inodes ≡ some item_id
      → (read_content service env f.ino (release_file service env fh v).0).1
        ≡ success (flushed_content buf f.logical_size)
  unfolding release_file Files.remove Files.get
  release_file-read fh f buf item_id v held dirty c known =
      rw (held, dirty, release_file) (release_dirty-read f buf item_id _ c known)

  -- After a handle's release `read_content` gives what was written through it, whatever the caches
  -- hold, with the disk refusing the pending file or not, offline or not: the chunk laid over what the
  -- handle held before, with zeros in a gap. The handle's download has come in, the bytes past its
  -- logical size are 0, and its inode is known.
  pub read_content-release_file-write_handle :
      (awaited : Option Bytes) (fh offset : ℕ) (chunk : Bytes) (f : OpenFile) (buf : Bytes)
      (item_id : String) (v : CoreOps)
      → Files.get fh v.open_files ≡ some f
      → ensure_complete awaited f ≡ some buf
      → IsWhole buf f.logical_size
      → Inode.get_item_id f.ino v.world.inodes ≡ some item_id
      → (read_content service env f.ino
          (release_file service env fh (write_handle service env awaited fh offset chunk v).0).0).1
        ≡ success (overwrite offset chunk (flushed_content buf f.logical_size))
  unfolding write_handle Files.get
  read_content-release_file-write_handle awaited fh offset chunk f buf item_id v held e whole
        known =
      let (out, (written, (wrote, (c, (same, rest))))) =
        write_entry-overwrite awaited offset chunk f buf e whole in
      let (dirty, ino) = write_entry-fields awaited offset chunk f out wrote in
      let w = update_size service env f.ino out.1 (set_entry fh out.0 v) in
      let keeps = update_size-keeps f.ino out.1 (set_entry fh out.0 v) in
      let found : Files.get fh w.open_files ≡ some out.0 =
        ap (Files.get fh) keeps.0 ∙ get-insert_self fh out.0 v.open_files.files in
      let there : Inode.get_item_id out.0.ino w.world.inodes ≡ some item_id =
        rw (ino, keeps.1) known in
      rw (held, wrote, write_handle)
        (ap (λ (i : ℕ). (read_content service env i (release_file service env fh w).0).1) (sym ino)
          ∙ release_file-read fh out.0 written item_id w found dirty c there
          ∙ ap success same)
