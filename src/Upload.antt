-- ===== src/Upload.antt =====
-- crates/carminedesktop-vfs/src/sync_processor.rs: `flush_inode_async`, the upload of one pending
-- write, and the path that it reports.
use text.Mathlib.Text.{starts_with}
use carmine_desktop.Common.{
  ℕ, zero, suc, String, Bool, true, false, not, Option, none, some, List, [], ◌∷◌, if◌then◌else◌,
  ◌==◌, nat_eq, string_eq, is_some, unwrap_or, option_beq, and_then, length,
}
use carmine_desktop.Graph.{Call, get_item, upload_small, Server, upload_call, display}
use carmine_desktop.Inode
use carmine_desktop.Inode.{InodeTable, root_inode}
use carmine_desktop.Item.{DriveItem, parent_id, Error, Result, ok, err, precondition_failed, locked}
use carmine_desktop.Memory
use carmine_desktop.Memory.{MemoryCache}
use carmine_desktop.Names.{◌++◌, is_transient_file, conflict_name}
use carmine_desktop.Store
use carmine_desktop.Store.{SqliteStore}
use carmine_desktop.Writeback
use carmine_desktop.Writeback.{WriteBackBuffer, Bytes}
pub mod Safe
pub mod Conflict

-- `VfsEvent` of core_ops.rs.
pub data VfsEvent : Type 0 where
  conflict_detected : String → String → VfsEvent
  writeback_failed : String → VfsEvent
  upload_failed : String → String → VfsEvent
  file_locked : String → VfsEvent
  delete_failed : String → String → VfsEvent
  local_uploaded : String → String → Bool → ℕ → Bool → VfsEvent
  local_deleted : String → String → Bool → VfsEvent
  local_renamed : String → String → String → Bool → Bool → VfsEvent

-- What the upload works on; the calls made and the events sent, the newest first.
pub record World : Type 0 where
  pub inodes : InodeTable
  pub memory : MemoryCache
  pub store : SqliteStore
  pub writeback : WriteBackBuffer
  pub calls : List Call
  pub events : List VfsEvent

-- The drive, the clocks, whether someone listens to events, whether the file system accepts a
-- persist and a remove, and what other tasks do to the buffer while a call is awaited.
pub record Env : Type 0 where
  pub drive_id : String
  pub now : ℕ
  pub timestamp : ℕ
  pub listening : Bool
  pub persist_io : Bool
  pub remove_io : Bool
  pub meanwhile : List Call → WriteBackBuffer → WriteBackBuffer

-- The walk of `build_upload_path` up the parents; each name found is put before the others.
unfoldable pub walk_up :
    ℕ → InodeTable → ℕ → Option String → MemoryCache → List String → MemoryCache × List String
walk_up now inodes safety none memory segments = (memory, segments)
walk_up now inodes zero (some pid) memory segments = (memory, segments)
walk_up now inodes (suc safety) (some pid) memory segments = elim (Inode.get_inode pid inodes) [
  | none ↦ (memory, segments)
  | some pino ↦ elim (pino == root_inode) [
    | true ↦ (memory, segments)
    | false ↦
        let (memory', found) = Memory.get now pino memory in
        elim found [
          | none ↦ (memory', segments)
          | some item ↦ walk_up now inodes safety (parent_id item) memory' (item.name ∷ segments)
        ]
  ]
]

unfoldable pub join : List String → String
join [] = ""
join (s ∷ []) = s
join (s ∷ t ∷ rest) = s ++ "/" ++ join (t ∷ rest)

abbrev pub append_name : List String → String → List String
append_name [] name = name ∷ []
append_name (s ∷ rest) name = s ∷ append_name rest name

unfoldable pub build_upload_path : ℕ → InodeTable → DriveItem → MemoryCache → MemoryCache × String
unfolding walk_up join
build_upload_path now inodes updated_item memory =
    let (memory', segments) = walk_up now inodes 256 (parent_id updated_item) memory [] in
    (memory', "/" ++ join (append_name segments updated_item.name))

abbrev pub parent_or_empty : DriveItem → String
parent_or_empty item = unwrap_or (parent_id item) ""

module _ (server : Server) (env : Env) where
  unfoldable pub emit : VfsEvent → World → World
  emit event w = if env.listening then record w { events = event ∷ w.events } else w

  -- A call is made and its answer awaited.
  unfoldable pub perform : Call → World → World × Result DriveItem
  perform call w = (
    record w { calls = call ∷ w.calls; writeback = env.meanwhile (call ∷ w.calls) w.writeback },
    server w.calls call,
  )

  unfoldable pub remove_pending : String → World → World
  remove_pending item_id w = record w {
    writeback = (Writeback.remove env.remove_io env.drive_id item_id w.writeback).0;
  }

  -- The item's metadata: from memory, else from the store.
  unfoldable pub lookup_metadata : ℕ → String → World → World × Option DriveItem
  lookup_metadata ino item_id w =
      let (memory, found) = Memory.get env.now ino w.memory in
      (
        record w { memory = memory },
        elim found [
          | some item ↦ some item
          | none ↦ elim (Store.get_item_by_id item_id w.store) [
            | none ↦ none
            | some found ↦ some found.1
          ]
        ],
      )

  unfoldable pub clean_transient : ℕ → String → DriveItem → World → World
  unfolding remove_pending
  clean_transient ino item_id item w =
      let w' = remove_pending item_id w in
      let memory = Memory.invalidate ino w'.memory in
      record w' {
        memory = elim (and_then (parent_id item) (λ pid. Inode.get_inode pid w'.inodes)) [
          | none ↦ memory
          | some parent_ino ↦ Memory.remove_child parent_ino item.name memory
        ];
        inodes = Inode.remove_by_item_id item_id w'.inodes;
      }

  -- The server's version is another: the content is saved beside it. `none` gives the flush up.
  unfoldable pub save_conflict_copy : DriveItem → Bytes → World → World × Option (Option String)
  unfolding perform emit
  save_conflict_copy item content w =
      let cname = conflict_name item.name env.timestamp in
      if parent_or_empty item == ""
      then (emit (conflict_detected item.name cname) w, some none)
      else let (w', answer) =
          perform (upload_small env.drive_id (parent_or_empty item) cname content none) w in
        elim answer [
          | err e ↦ (
            emit (upload_failed item.name ("conflict copy upload failed: " ++ display e)) w',
            none,
          )
          | ok _ ↦ (emit (conflict_detected item.name cname) w', some none)
        ]

  -- The conflict check: the etag to match, or `none` to give up.
  unfoldable pub check_conflict :
      String → Bool → DriveItem → Bytes → World → World × Option (Option String)
  unfolding perform save_conflict_copy
  check_conflict item_id is_new_file item content w =
      if is_new_file then (w, some none) else elim item.etag [
        | none ↦ (w, some none)
        | some cached_etag ↦
            let (w', answer) = perform (get_item env.drive_id item_id) w in
            elim answer [
              | err e ↦ (w', some none)
              | ok server_item ↦
                  if option_beq server_item.etag (some cached_etag)
                  then (w', some server_item.etag)
                  else save_conflict_copy item content w'
            ]
      ]

  unfoldable pub upload_done : ℕ → String → Bool → ℕ → DriveItem → World → World
  unfolding emit remove_pending
  upload_done ino item_id is_new_file size updated_item w =
      let inodes = if is_new_file then Inode.reassign ino updated_item.id w.inodes else w.inodes in
      let (memory, file_path) = build_upload_path env.now inodes updated_item w.memory in
      emit (local_uploaded file_path updated_item.id is_new_file size false) (
        remove_pending item_id
          (record w { inodes = inodes; memory = Memory.insert env.now ino updated_item memory }))

  abbrev pub fail_locked : DriveItem → World → World × Bool
  fail_locked item w = (emit (upload_failed item.name "file is locked on OneDrive") w, false)

  -- A locked file's content is read again and saved under a conflict name.
  unfoldable pub upload_locked : String → DriveItem → World → World × Bool
  unfolding perform emit remove_pending
  upload_locked item_id item w =
      let cname = conflict_name item.name env.timestamp in
      if parent_or_empty item == ""
      then fail_locked item w
      else elim (Writeback.read env.drive_id item_id w.writeback) [
        | none ↦ fail_locked item w
        | some content ↦
            let (w', answer) =
              perform (upload_small env.drive_id (parent_or_empty item) cname content none) w in
            elim answer [
              | ok _ ↦ (emit (file_locked item.name) (remove_pending item_id w'), true)
              | err e ↦ fail_locked item w'
            ]
      ]

  unfoldable pub upload_failure : String → DriveItem → Error → World → World × Bool
  unfolding emit upload_locked
  upload_failure item_id item precondition_failed w =
      (emit (conflict_detected item.name (item.name ++ " (server version changed)")) w, false)
  upload_failure item_id item locked w = upload_locked item_id item w
  upload_failure item_id item e w =
      (emit (upload_failed item.name ("upload failed: " ++ display e)) w, false)

  unfoldable pub conclude :
      ℕ → String → Bool → DriveItem → Bytes → World × Result DriveItem → World × Bool
  unfolding upload_done upload_failure
  conclude ino item_id is_new_file item content (w, ok updated_item) =
      (upload_done ino item_id is_new_file (length content) updated_item w, true)
  conclude ino item_id is_new_file item content (w, err e) = upload_failure item_id item e w

  abbrev pub perform_if : Result Call → World → World × Result DriveItem
  perform_if (ok call) w = perform call w
  perform_if (err e) w = (w, err e)

  -- From the conflict check on: persist, upload, conclude.
  unfoldable pub upload_content :
      ℕ → String → Bool → DriveItem → Bytes → World × Option (Option String) → World × Bool
  unfolding perform conclude
  upload_content ino item_id is_new_file item content (w, none) = (w, false)
  upload_content ino item_id is_new_file item content (w, some server_etag) =
      let w' = record w {
        writeback = (Writeback.persist env.persist_io env.drive_id item_id w.writeback).0;
      } in
      if is_new_file
      then (if parent_or_empty item == ""
          then (w', false)
          else conclude ino item_id is_new_file item content (
              perform (upload_small env.drive_id (parent_or_empty item) item.name content none) w'))
      else conclude ino item_id is_new_file item content (
          perform_if
            (upload_call env.drive_id (parent_or_empty item) (some item_id) item.name content
              server_etag)
            w')

  unfoldable pub flush_item : ℕ → String → Bytes → DriveItem → World → World × Bool
  unfolding clean_transient check_conflict upload_content
  flush_item ino item_id content item w =
      let is_new_file = starts_with item_id "local:" in
      if is_transient_file item.name
      then (clean_transient ino item_id item w, true)
      else upload_content ino item_id is_new_file item content
          (check_conflict item_id is_new_file item content w)

  unfoldable pub flush_inode_async : ℕ → World → World × Bool
  unfolding lookup_metadata flush_item
  flush_inode_async ino w = elim (Inode.get_item_id ino w.inodes) [
    | none ↦ (w, true)
    | some item_id ↦ elim (Writeback.read env.drive_id item_id w.writeback) [
      | none ↦ (w, true)
      | some content ↦
          let (w', found) = lookup_metadata ino item_id w in
          elim found [ none ↦ (w', false) | some item ↦ flush_item ino item_id content item w' ]
    ]
  ]
