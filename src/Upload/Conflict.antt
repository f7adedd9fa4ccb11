-- ===== src/Upload/Conflict.antt =====
-- crates/carminedesktop-vfs/src/sync_processor.rs: the calls that `flush_inode_async` makes for an
-- item that the server has, and what it does to a write that comes while it waits.
use text.Mathlib.Text.{starts_with}
use carmine_desktop.Common.{
  ℕ, String, Bool, true, false, Option, none, some, List, ◌∷◌, ◌≡◌, ◌∙◌, ap, ◌<◌, arith, ◌==◌,
  length, string_eq, pair_eq, ltb, option_beq,
}
use carmine_desktop.Graph.{Call, get_item, upload_small, Server, upload_call, small_file_limit}
use carmine_desktop.Item.{DriveItem, Result, ok, err}
use carmine_desktop.Names.{is_transient_file, conflict_name}
use carmine_desktop.Upload.{
  World, Env, perform, emit, remove_pending, parent_or_empty, save_conflict_copy, check_conflict,
  upload_done, conclude, upload_content, flush_item,
}
use carmine_desktop.Upload.Safe.{is_ok}
use carmine_desktop.Writeback
use carmine_desktop.Writeback.{Bytes, WriteBackBuffer, read, write, pending_path}
use carmine_desktop.Writeback.Reads.{read-remove}

remove-ok : (d i : String) (b : WriteBackBuffer) → (Writeback.remove true d i b).1 ≡ ok tt
unfolding Writeback.remove
remove-ok d i b = ground arith

module _ (server : Server) (env : Env) (item_id : String) (content : Bytes) where
  upload_done_lem :
      (ino : ℕ) (is_new : Bool) (size : ℕ) (item : DriveItem) (w : World)
      → ((upload_done server env ino item_id is_new size item w).calls ≡ w.calls)
        × ((upload_done server env ino item_id is_new size item w).writeback
            ≡ (Writeback.remove env.remove_io env.drive_id item_id w.writeback).0)
  unfolding upload_done emit remove_pending
  upload_done_lem ino is_new size item w = ground arith

  -- Once an upload is accepted, the calls stand and the entry is removed.
  conclude_accepted :
      (ino : ℕ) (is_new : Bool) (item : DriveItem) (call : Call) (w : World)
      → is_ok (server w.calls call) ≡ true
      → ((conclude server env ino item_id is_new item content (perform server env call w)).0.calls
          ≡ call ∷ w.calls)
        × ((conclude server env ino item_id is_new item content
              (perform server env call w)).0.writeback
            ≡ (Writeback.remove env.remove_io env.drive_id item_id
                (env.meanwhile (call ∷ w.calls) w.writeback)).0)
  unfolding conclude perform
  conclude_accepted ino is_new item call w accepted = go (server w.calls call) accepted
    where
      after : World
      after = (perform server env call w).0

      go :
          (r : Result DriveItem)
          → is_ok r ≡ true
          → ((conclude server env ino item_id is_new item content (after, r)).0.calls ≡ after.calls)
            × ((conclude server env ino item_id is_new item content (after, r)).0.writeback
                ≡ (Writeback.remove env.remove_io env.drive_id item_id after.writeback).0)
      go (ok u) h = upload_done_lem ino is_new (length content) u after
      go (err e) h = absurd (ground (arith, h))

  upload_content_accepted :
      (ino : ℕ) (item : DriveItem) (m : Option String) (w : World)
      → length content < small_file_limit
      → is_ok
          (server w.calls (upload_small env.drive_id (parent_or_empty item) item.name content m))
        ≡ true
      → ((upload_content server env ino item_id false item content (w, some m)).0.calls
          ≡ upload_small env.drive_id (parent_or_empty item) item.name content m ∷ w.calls)
        × ((upload_content server env ino item_id false item content (w, some m)).0.writeback
            ≡ (Writeback.remove env.remove_io env.drive_id item_id (
                env.meanwhile
                  (upload_small env.drive_id (parent_or_empty item) item.name content m ∷ w.calls)
                  (Writeback.persist env.persist_io env.drive_id item_id w.writeback).0)).0)
  unfolding upload_content upload_call
  upload_content_accepted ino item m w small accepted =
      let is_small : ltb (length content) small_file_limit ≡ true = ground (arith, small) in
      rw is_small (
        conclude_accepted ino false item
          (upload_small env.drive_id (parent_or_empty item) item.name content m)
          (record w {
            writeback = (Writeback.persist env.persist_io env.drive_id item_id w.writeback).0;
          })
          accepted)

  module _ (ino : ℕ) (item : DriveItem) (w : World) (cached : String) (server_item : DriveItem)
      (lasting : is_transient_file item.name ≡ false)
      (existing : starts_with item_id "local:" ≡ false) (small : length content < small_file_limit)
      (has_etag : item.etag ≡ some cached)
      (answered : server w.calls (get_item env.drive_id item_id) ≡ ok server_item) where
    -- For content under 4 MiB of an item that is neither transient nor new: if the server answers
    -- with the cached etag and accepts the upload, the calls made are that question and an upload
    -- on the condition that the etag is still the same.
    pub flush_item-if_match :
        server_item.etag ≡ some cached
        → is_ok (
            server
              (get_item env.drive_id item_id ∷ w.calls)
              (upload_small env.drive_id (parent_or_empty item) item.name content (some cached)))
          ≡ true
        → (flush_item server env ino item_id content item w).0.calls
          ≡ upload_small env.drive_id (parent_or_empty item) item.name content (some cached)
            ∷ get_item env.drive_id item_id
            ∷ w.calls
    unfolding flush_item check_conflict perform
    flush_item-if_match same accepted =
        let asked : World = (perform server env (get_item env.drive_id item_id) w).0 in
        let checked : check_conflict server env item_id false item content w
            ≡ (asked, some (some cached)) =
          ground (arith, has_etag, answered, same, string_eq.beq_iff cached cached) in
        rw (lasting, existing, checked)
          (upload_content_accepted ino item (some cached) asked small accepted).0

    -- For content under 4 MiB of an item with a parent that is neither transient nor new: if the
    -- server answers with another etag than the cached one and accepts the uploads, the content is
    -- uploaded under a conflict name and then over the server's version, without a condition.
    pub flush_item-overwrites :
        option_beq server_item.etag (some cached) ≡ false
        → (parent_or_empty item == "") ≡ false
        → is_ok (
            server (get_item env.drive_id item_id ∷ w.calls) (
              upload_small env.drive_id
                (parent_or_empty item)
                (conflict_name item.name env.timestamp)
                content
                none))
          ≡ true
        → is_ok (
            server
              (upload_small env.drive_id
                  (parent_or_empty item)
                  (conflict_name item.name env.timestamp)
                  content
                  none
                ∷ get_item env.drive_id item_id
                ∷ w.calls)
              (upload_small env.drive_id (parent_or_empty item) item.name content none))
          ≡ true
        → (flush_item server env ino item_id content item w).0.calls
          ≡ upload_small env.drive_id (parent_or_empty item) item.name content none
            ∷ upload_small env.drive_id
                (parent_or_empty item)
                (conflict_name item.name env.timestamp)
                content
                none
            ∷ get_item env.drive_id item_id
            ∷ w.calls
    unfolding flush_item check_conflict save_conflict_copy perform emit
    flush_item-overwrites changed has_parent copied accepted =
        let asked : World = (perform server env (get_item env.drive_id item_id) w).0 in
        let copy =
          upload_small env.drive_id (parent_or_empty item) (conflict_name item.name env.timestamp)
            content none in
        let copied_world : World = (save_conflict_copy server env item content asked).0 in
        let saved : (save_conflict_copy server env item content asked) ≡ (copied_world, some none) =
          ground (arith, has_parent, copied) in
        let calls : copied_world.calls ≡ copy ∷ get_item env.drive_id item_id ∷ w.calls =
          ground (arith, has_parent, copied) in
        let checked : check_conflict server env item_id false item content w
            ≡ (copied_world, some none) =
          ground (arith, has_etag, answered, changed, saved) in
        rw (lasting, existing, checked)
          ((upload_content_accepted ino item none copied_world small (rw calls accepted)).0
            ∙ ap
                (λ (cs : List Call).
                  upload_small env.drive_id (parent_or_empty item) item.name content none ∷ cs)
                calls)

  -- If the upload of content under 4 MiB of an existing item is accepted and the file system lets
  -- the entry be removed, nothing is pending for the item at the end, and the last content sent is
  -- the one read before the upload, also where another task wrote to the entry while the upload
  -- was awaited.
  pub upload_content-forgets :
      (ino : ℕ) (item : DriveItem) (m : Option String) (w : World)
      → length content < small_file_limit
      → env.remove_io ≡ true
      → is_ok
          (server w.calls (upload_small env.drive_id (parent_or_empty item) item.name content m))
        ≡ true
      → (read env.drive_id item_id
            (upload_content server env ino item_id false item content (w, some m)).0.writeback
          ≡ none)
        × ((upload_content server env ino item_id false item content (w, some m)).0.calls
            ≡ upload_small env.drive_id (parent_or_empty item) item.name content m ∷ w.calls)
  upload_content-forgets ino item m w small removable accepted =
      let (calls, buffer) = upload_content_accepted ino item m w small accepted in
      (rw (buffer, removable) (read-remove env.drive_id item_id _ true remove_ok).0, calls)
    where
      before : WriteBackBuffer
      before =
          env.meanwhile
            (upload_small env.drive_id (parent_or_empty item) item.name content m ∷ w.calls)
            (Writeback.persist env.persist_io env.drive_id item_id w.writeback).0

      remove_ok : (Writeback.remove true env.drive_id item_id before).1 ≡ ok tt
      remove_ok = remove-ok env.drive_id item_id before
