-- ===== src/Vfs/Content/Fresh.antt =====
-- crates/carminedesktop-vfs/src/core_ops.rs and crates/carminedesktop-cache/src/sync.rs: a file that
-- has changed on the server is read from there.
use mathlib.Core.Path.{subst}
use carmine_desktop.Common.{
  ℕ, ◌≡◌, refl, ap, ◌∙◌, String, Bool, true, false, Option, none, some, List, [], ◌∷◌, ◌++◌, arith,
  All, and_then, if_cases,
}
use carmine_desktop.Delta.{Caches, SyncEnv, DeltaSyncResult, run_delta_sync}
use carmine_desktop.Delta.Invalidated.{IsInvalidated, IsSynced, run_delta_sync-IsSynced}
use carmine_desktop.Graph
use carmine_desktop.Graph.{Call, Service}
use carmine_desktop.Inode
use carmine_desktop.Inode.Consistent.{IsConsistent}
use carmine_desktop.Item.{DriveItem, Result, ok, err}
use carmine_desktop.Pins.{elem}
use carmine_desktop.Vfs.{
  CoreOps, VfsEnv, VfsResult, success, failure, from_core_error, timed_out, lookup_item,
  graph_with_timeout, graph_call, timed_result, set_memory,
}
use carmine_desktop.Vfs.Content.{
  is_dirty, fresh_cached, download, downloaded, read_missed, read_known, read_content,
}
use carmine_desktop.Vfs.Content.Pending.{lookup_item_sets_memory}
use carmine_desktop.Writeback
use carmine_desktop.Writeback.{Bytes}

-- What a limited call gives its caller.
abbrev pub answer_of : Bool → Result Bytes → VfsResult Bytes
answer_of true answer = failure timed_out
answer_of false (ok content) = success content
answer_of false (err e) = failure (from_core_error e)

module _ (service : Service) (env : VfsEnv) (ino : ℕ) (item_id : String) where
  downloaded-answer :
      (etag : Option String) (late : Bool) (v : CoreOps) (answer : Result Bytes)
      → (downloaded service env ino item_id etag (timed_result late (v, answer))).1
        ≡ answer_of late answer
  unfolding downloaded timed_result
  downloaded-answer etag true v answer = refl
  downloaded-answer etag false v (ok content) = refl
  downloaded-answer etag false v (err e) = refl

  fresh_cached_dirty :
      (item : Option DriveItem) (v : CoreOps)
      → is_dirty ino v ≡ true
      → fresh_cached service env ino item_id item v ≡ (v, none)
  unfolding fresh_cached
  fresh_cached_dirty item v dirty = rw (dirty, fresh_cached) refl

  read_missed-answer :
      (item : Option DriveItem) (v : CoreOps)
      → (read_missed service env ino item_id item (v, none)).1
        ≡ answer_of
            (service.is_late v.world.calls (Graph.download_content env.upload.drive_id item_id))
            (service.content v.world.calls (Graph.download_content env.upload.drive_id item_id))
  unfolding read_missed download graph_with_timeout graph_call
  read_missed-answer item v =
      let call = Graph.download_content env.upload.drive_id item_id in
      downloaded-answer (and_then item (λ i. i.etag)) (service.is_late v.world.calls call)
        (record v { world = record v.world { calls = call ∷ v.world.calls } })
        (service.content v.world.calls call)

  read_known_dirty :
      (r : CoreOps × Option DriveItem)
      → Writeback.read env.upload.drive_id item_id r.0.world.writeback ≡ none
      → r.0.offline ≡ false
      → is_dirty ino r.0 ≡ true
      → (read_known service env ino item_id r).1
        ≡ answer_of
            (service.is_late r.0.world.calls (Graph.download_content env.upload.drive_id item_id))
            (service.content r.0.world.calls (Graph.download_content env.upload.drive_id item_id))
  unfolding read_known
  read_known_dirty (v, item) free online dirty =
      let call = Graph.download_content env.upload.drive_id item_id in
      let P : CoreOps × VfsResult Bytes → Type 0 = λ r.
        r.1 ≡ answer_of (service.is_late v.world.calls call) (service.content v.world.calls call) in
      rw (free, read_known)
        (if_cases P v.offline (λ off. ground (arith, off, online))
          (λ _.
            ap (λ (x : CoreOps × Option Bytes). (read_missed service env ino item_id item x).1)
              (fresh_cached_dirty item v dirty)
            ∙ read_missed-answer item v))

  -- Online and with no pending write, a file whose inode is marked dirty reads as the server answers.
  read_content_dirty :
      (v : CoreOps)
      → Inode.get_item_id ino v.world.inodes ≡ some item_id
      → Writeback.read env.upload.drive_id item_id v.world.writeback ≡ none
      → v.offline ≡ false
      → is_dirty ino v ≡ true
      → (read_content service env ino v).1
        ≡ answer_of
            (service.is_late v.world.calls (Graph.download_content env.upload.drive_id item_id))
            (service.content v.world.calls (Graph.download_content env.upload.drive_id item_id))
  unfolding read_content set_memory is_dirty
  read_content_dirty v known free online dirty =
      let (m, e) = lookup_item_sets_memory service env ino v in
      let r = lookup_item service env ino v in
      let call = Graph.download_content env.upload.drive_id item_id in
      rw (known, read_content)
        (read_known_dirty r
            (ap (λ (w : CoreOps). Writeback.read env.upload.drive_id item_id w.world.writeback) e
              ∙ free)
            (ap (λ (w : CoreOps). w.offline) e ∙ online)
            (ap (λ (w : CoreOps). is_dirty ino w) e ∙ dirty)
          ∙ ap
              (λ (calls : List Call).
                answer_of (service.is_late calls call) (service.content calls call))
              (ap (λ (w : CoreOps). w.world.calls) e))

all_middle {ℓ κ} :
    {A : Type ℓ} (P : A → Type κ) (xs ys : List A) (x : A) → All P (xs ++ (x ∷ ys)) → P x
all_middle P [] ys x h = h.0
all_middle P (y ∷ xs) ys x h = all_middle P xs ys x h.1

-- A file that a delta sync reports as changed is read from the server by the next read, however much
-- of it the disk cache holds: where the mounted drive has the sync's inode table and marks, is
-- online, and has no pending write of the file. The table is consistent, and the file system lets
-- files be removed.
pub read_content-run_delta_sync :
    (service : Service) (env : VfsEnv) (sync : SyncEnv) (c c' : Caches) (r : DeltaSyncResult)
    (item : DriveItem) (before after : List DriveItem) (ino : ℕ) (v : CoreOps)
    → ((k : String × String) → sync.disk_io.removes k ≡ true)
    → run_delta_sync sync service c ≡ (c', ok r)
    → r.changed_items ≡ before ++ (item ∷ after)
    → IsConsistent c'.inodes
    → Inode.get_inode item.id c'.inodes ≡ some ino
    → v.world.inodes ≡ c'.inodes
    → v.dirty_inodes ≡ c'.dirty_inodes
    → v.offline ≡ false
    → Writeback.read env.upload.drive_id item.id v.world.writeback ≡ none
    → (read_content service env ino v).1
      ≡ answer_of
          (service.is_late v.world.calls (Graph.download_content env.upload.drive_id item.id))
          (service.content v.world.calls (Graph.download_content env.upload.drive_id item.id))
unfolding Inode.get_inode Inode.get_item_id is_dirty
read_content-run_delta_sync service env sync c c' r item before after ino v removes ran listed
      consistent known inodes marks online free =
    let synced =
      subst (IsSynced sync.drive_id c) ran (run_delta_sync-IsSynced sync service c removes) in
    let (marked, gone) =
      all_middle (IsInvalidated sync.drive_id c') before after item
        (subst (All (IsInvalidated sync.drive_id c')) listed synced.1) in
    read_content_dirty service env ino item.id v
      (ap (λ (t : Inode.InodeTable). Inode.get_item_id ino t) inodes
        ∙ consistent.backward ino item.id known)
      free online (ap (elem ino) marks ∙ (rw known at marked))
