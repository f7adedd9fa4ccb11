-- ===== src/Upload/Safe.antt =====
-- crates/carminedesktop-vfs/src/sync_processor.rs: what becomes of the pending content in
-- `flush_inode_async`, when no other task changes the entry meanwhile.
use text.Mathlib.Text.{starts_with}
use mathlib.Core.Path.{subst}
use carmine_desktop.Common.{
  ℕ, String, Bool, true, false, Option, none, some, List, [], ◌∷◌, ◌≡◌, refl, sym, ◌∙◌, ◌⊎◌, inl,
  inr, arith, Bool-cases, Option-cases, if_cases, ◌==◌, length, string_eq, pair_eq, ltb,
}
use carmine_desktop.Common.Map
use carmine_desktop.Common.Map.{get-insert_self}
use carmine_desktop.Graph.{
  Call, get_item, upload_small, upload_large, Server, upload_call, small_file_limit,
}
use carmine_desktop.Inode
use carmine_desktop.Item.{DriveItem, Error, Result, ok, err, locked}
use carmine_desktop.Names.{is_transient_file, conflict_name}
use carmine_desktop.Upload.{
  VfsEvent, World, Env, perform, emit, remove_pending, lookup_metadata, parent_or_empty,
  save_conflict_copy, check_conflict, upload_done, upload_locked, upload_failure, conclude,
  upload_content, flush_item, flush_inode_async,
}
use carmine_desktop.Writeback.{Bytes, WriteBackBuffer, read, persist}

read-persist :
    (io : Bool) (d i : String) (b : WriteBackBuffer) → read d i (persist io d i b).0 ≡ read d i b
unfolding read persist
read-persist io d i b = elim (Option-cases (Map.get (d, i) b.buffers)) [
  | inl e ↦ ground (arith, e)
  | inr (v, e) ↦ ground (arith, e)
]

-- The drive and the content that a call uploads.
abbrev pub uploaded : Call → Option (String × Bytes)
uploaded (upload_small d p name content m) = some (d, content)
uploaded (upload_large d i content m) = some (d, content)
uploaded call = none

abbrev pub is_ok : Result DriveItem → Bool
is_ok (ok item) = true
is_ok (err e) = false

Result-cases : (r : Result DriveItem) → ((x : DriveItem) × (r ≡ ok x)) ⊎ ((e : Error) × (r ≡ err e))
Result-cases (ok x) = inl (x, refl)
Result-cases (err e) = inr (e, refl)

-- The last call carries the content, and the server accepted it.
abbrev pub IsSaved : Server → String → Bytes → List Call → Type 0
IsSaved server d content [] = ⊥
IsSaved server d content (call ∷ calls) =
    (uploaded call ≡ some (d, content)) × (is_ok (server calls call) ≡ true)

module _ (server : Server) (env : Env) (item_id : String) (content : Bytes)
    (quiet : (calls : List Call) (b : WriteBackBuffer)
      → read env.drive_id item_id (env.meanwhile calls b) ≡ read env.drive_id item_id b) where
  abbrev pub IsKept : World → Type 0
  IsKept w = read env.drive_id item_id w.writeback ≡ some content

  -- A flush that reports success has the content on the server; one that does not has it pending.
  abbrev pub IsSafe : World × Bool → Type 0
  IsSafe (w, true) = IsSaved server env.drive_id content w.calls
  IsSafe (w, false) = IsKept w

  emit_lem :
      (event : VfsEvent) (w : World)
      → ((emit server env event w).writeback ≡ w.writeback)
        × ((emit server env event w).calls ≡ w.calls)
  unfolding emit
  emit_lem event w = ground arith

  perform-IsKept : (call : Call) (w : World) → IsKept w → IsKept (perform server env call w).0
  unfolding perform
  perform-IsKept call w kept = quiet (call ∷ w.calls) w.writeback ∙ kept

  upload_locked-IsSafe :
      (item : DriveItem) (w : World) → IsKept w → IsSafe (upload_locked server env item_id item w)
  unfolding upload_locked perform emit remove_pending
  upload_locked-IsSafe item w kept = elim (Bool-cases (parent_or_empty item == "")) [
    | inl e ↦ ground (arith, e, kept)
    | inr e ↦
        rw (e, kept)
          (elim (Result-cases (
            server w.calls (
              upload_small env.drive_id (parent_or_empty item)
                (conflict_name item.name env.timestamp) content none))) [
                  | inl (u, f) ↦ ground (arith, e, kept, f)
                  | inr (x, f) ↦ ground (
                    arith,
                    e,
                    kept,
                    f,
                    quiet
                        (upload_small env.drive_id (parent_or_empty item)
                            (conflict_name item.name env.timestamp) content none
                          ∷ w.calls)
                        w.writeback,
                  )
                ])
  ]

  upload_failure-IsSafe :
      (item : DriveItem) (e : Error) (w : World)
      → IsKept w
      → IsSafe (upload_failure server env item_id item e w)
  unfolding upload_failure emit
  upload_failure-IsSafe item locked w kept = upload_locked-IsSafe item w kept
  upload_failure-IsSafe item e w kept = ground (arith, kept)

  upload_done-calls :
      (ino : ℕ) (is_new : Bool) (size : ℕ) (item : DriveItem) (w : World)
      → (upload_done server env ino item_id is_new size item w).calls ≡ w.calls
  unfolding upload_done emit remove_pending
  upload_done-calls ino is_new size item w = ground arith

  conclude_cases :
      (ino : ℕ) (is_new : Bool) (item : DriveItem) (w : World) (r : Result DriveItem)
      → IsKept w
      → (is_ok r ≡ true → IsSaved server env.drive_id content w.calls)
      → IsSafe (conclude server env ino item_id is_new item content (w, r))
  unfolding conclude
  conclude_cases ino is_new item w (ok u) kept saved =
      subst (λ (calls : List Call). IsSaved server env.drive_id content calls)
        (sym (upload_done-calls ino is_new (length content) u w)) (saved refl)
  conclude_cases ino is_new item w (err e) kept saved = upload_failure-IsSafe item e w kept

  -- After an upload of the content.
  conclude-IsSafe :
      (ino : ℕ) (is_new : Bool) (item : DriveItem) (call : Call) (w : World)
      → uploaded call ≡ some (env.drive_id, content)
      → IsKept w
      → IsSafe (conclude server env ino item_id is_new item content (perform server env call w))
  unfolding perform
  conclude-IsSafe ino is_new item call w up kept =
      conclude_cases ino is_new item (perform server env call w).0 (server w.calls call)
        (perform-IsKept call w kept) (λ accepted. (up, accepted))

  upload_content-IsSafe :
      (ino : ℕ) (is_new : Bool) (item : DriveItem) (r : World × Option (Option String))
      → IsKept r.0
      → IsSafe (upload_content server env ino item_id is_new item content r)
  unfolding upload_content upload_call
  upload_content-IsSafe ino is_new item (w, none) kept = kept
  upload_content-IsSafe ino true item (w, some etag) kept =
      if_cases (λ (r : World × Bool). IsSafe r) (parent_or_empty item == "")
        (λ _. read-persist env.persist_io env.drive_id item_id w.writeback ∙ kept)
        (λ _.
          conclude-IsSafe ino true item
            (upload_small env.drive_id (parent_or_empty item) item.name content none) _ refl
            (read-persist env.persist_io env.drive_id item_id w.writeback ∙ kept))
  upload_content-IsSafe ino false item (w, some etag) kept =
      elim (Bool-cases (ltb (length content) small_file_limit)) [
        | inl e ↦ rw e (
            conclude-IsSafe ino false item
              (upload_small env.drive_id (parent_or_empty item) item.name content etag) _ refl
              (read-persist env.persist_io env.drive_id item_id w.writeback ∙ kept))
        | inr e ↦ rw e (
            conclude-IsSafe ino false item (upload_large env.drive_id item_id content etag) _ refl
              (read-persist env.persist_io env.drive_id item_id w.writeback ∙ kept))
      ]

  save_conflict_copy-IsKept :
      (item : DriveItem) (w : World)
      → IsKept w
      → IsKept (save_conflict_copy server env item content w).0
  unfolding save_conflict_copy perform emit
  save_conflict_copy-IsKept item w kept = ground (
    arith,
    kept,
    quiet
        (upload_small env.drive_id (parent_or_empty item) (conflict_name item.name env.timestamp)
            content none
          ∷ w.calls)
        w.writeback,
  )

  check_conflict-IsKept :
      (is_new : Bool) (item : DriveItem) (w : World)
      → IsKept w
      → IsKept (check_conflict server env item_id is_new item content w).0
  unfolding check_conflict
  check_conflict-IsKept is_new item w kept =
      let asked = (perform server env (get_item env.drive_id item_id) w).0 in
      let asked_kept = perform-IsKept (get_item env.drive_id item_id) w kept in
      ground (arith, kept, asked_kept, save_conflict_copy-IsKept item asked asked_kept)

  flush_item-IsSafe :
      (ino : ℕ) (item : DriveItem) (w : World)
      → IsKept w
      → is_transient_file item.name ≡ false
      → IsSafe (flush_item server env ino item_id content item w)
  unfolding flush_item
  flush_item-IsSafe ino item w kept lasting = rw lasting (
      upload_content-IsSafe ino (starts_with item_id "local:") item _
        (check_conflict-IsKept (starts_with item_id "local:") item w kept))

  -- If no other task changes what is read of the entry while a call is awaited, a flush of an inode
  -- that has an item id and pending content loses nothing: the item is a transient file, or the
  -- flush reports success and the last call made carries the content and was accepted, or it
  -- reports failure and the content is still pending.
  pub flush_inode_async-IsSafe :
      (ino : ℕ) (w : World)
      → Inode.get_item_id ino w.inodes ≡ some item_id
      → IsKept w
      → ((item : DriveItem) × (((lookup_metadata server env ino item_id w).1 ≡ some item)
            × (is_transient_file item.name ≡ true)))
        ⊎ IsSafe (flush_inode_async server env ino w)
  unfolding flush_inode_async lookup_metadata
  flush_inode_async-IsSafe ino w known kept =
      (elim (Option-cases (lookup_metadata server env ino item_id w).1) [
        | inl e ↦ inr (rw (known, kept, e, flush_inode_async) kept)
        | inr (item, e) ↦ elim (Bool-cases (is_transient_file item.name)) [
          | inl t ↦ inl (item, (e, t))
          | inr t ↦ inr (
              rw (known, kept, e, flush_inode_async)
                (flush_item-IsSafe ino item (lookup_metadata server env ino item_id w).0 kept t))
        ]
      ])
