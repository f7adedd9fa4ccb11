-- ===== src/Vfs.antt =====
-- crates/carminedesktop-vfs/src/core_ops.rs: `CoreOps`, the state behind a mounted drive, its calls
-- of the Graph service and its lookups in the caches. A callback is one step: other tasks do not run
-- between its parts, but in `Env.meanwhile` of an upload.
use carmine_desktop.Common.{
  ℕ, zero, suc, String, Bool, true, false, ◌&&◌, ◌||◌, Option, none, some, List, [], ◌∷◌, map,
  if◌then◌else◌, ◌==◌, nat_eq, string_eq, and_then, unwrap_or,
}
use carmine_desktop.Common.Map.{Map}
use carmine_desktop.Disk.{DiskCache, DiskIo}
use carmine_desktop.Files.{OpenFileTable, get_content_size_by_ino}
use carmine_desktop.Graph.{Call, Service, display}
use carmine_desktop.Inode
use carmine_desktop.Inode.{InodeTable, root_inode}
use carmine_desktop.Item.{DriveItem, parent_id, Error, graph_api, network, Result, ok, err}
use carmine_desktop.Memory
use carmine_desktop.Memory.{MemoryCache}
use carmine_desktop.Names.{◌++◌, codes, codes_beq, lower}
use carmine_desktop.Store
use carmine_desktop.Store.{SqliteStore}
use carmine_desktop.Sync.{SyncRequest}
use carmine_desktop.Upload.{World, Env, VfsEvent, emit, join, append_name}
use carmine_desktop.Writeback.{WriteBackBuffer}
pub mod Frame
pub mod Lookup
pub mod Content
pub mod Open
pub mod Handles
pub mod Flush
pub mod Tree
pub mod Rename

pub data VfsError : Type 0 where
  not_found : VfsError
  not_a_directory : VfsError
  directory_not_empty : VfsError
  permission_denied : VfsError
  timed_out : VfsError
  quota_exceeded : VfsError
  io_error : String → VfsError

pub data VfsResult {ℓ} (A : Type ℓ) : Type ℓ where
  success : A → VfsResult A
  failure : VfsError → VfsResult A

abbrev pub starts_with_codes : List ℕ → List ℕ → Bool
starts_with_codes prefix [] = codes_beq prefix []
starts_with_codes [] (y ∷ ys) = true
starts_with_codes (x ∷ xs) (y ∷ ys) = x == y && starts_with_codes xs ys

abbrev pub contains_codes : List ℕ → List ℕ → Bool
contains_codes part [] = starts_with_codes part []
contains_codes part (y ∷ ys) = starts_with_codes part (y ∷ ys) || contains_codes part ys

-- `VfsError::from_core_error`
unfoldable pub from_core_error : Error → VfsError
from_core_error (graph_api status message) =
    if contains_codes (codes "quota") (map lower (codes message))
    then quota_exceeded
    else if status == 403
    then permission_denied
    else if status == 404
    then not_found
    else if status == 507
    then quota_exceeded
    else io_error (display (graph_api status message))
from_core_error (network s) = timed_out
from_core_error e = io_error (display e)

-- `requests` are those sent to the sync processor and `invalidated` the inodes that the kernel is
-- told of, both the newest first.
pub record CoreOps : Type 0 where
  pub world : World
  pub disk : DiskCache
  pub dirty_inodes : List ℕ
  pub open_files : OpenFileTable
  pub offline : Bool
  pub requests : List SyncRequest
  pub invalidated : List ℕ

-- The environment of the uploads, the file system of the disk cache, the store's clock, the clock
-- that names new files, and whether there are a sync processor and an invalidator.
pub record VfsEnv : Type 0 where
  pub upload : Env
  pub disk_io : DiskIo
  pub seconds : ℕ
  pub nanos : ℕ
  pub syncing : Bool
  pub invalidating : Bool

unfoldable pub set_memory : MemoryCache → CoreOps → CoreOps
set_memory memory v = record v { world = record v.world { memory = memory } }

unfoldable pub set_inodes : InodeTable → CoreOps → CoreOps
set_inodes inodes v = record v { world = record v.world { inodes = inodes } }

unfoldable pub set_store : SqliteStore → CoreOps → CoreOps
set_store store v = record v { world = record v.world { store = store } }

unfoldable pub set_writeback : WriteBackBuffer → CoreOps → CoreOps
set_writeback writeback v = record v { world = record v.world { writeback = writeback } }

unfoldable pub set_offline : CoreOps → CoreOps
set_offline v = record v { offline = true }

abbrev pub is_network : Error → Bool
is_network (network s) = true
is_network e = false

-- A call is made; its answer is not waited for with a limit.
unfoldable pub graph_call {ℓ} :
    {A : Type ℓ} → (List Call → Call → Result A) → Call → CoreOps → CoreOps × Result A
graph_call answer call v = (
  record v { world = record v.world { calls = call ∷ v.world.calls } },
  answer v.world.calls call,
)

-- What a limited call gives: no answer in time and a network error set the offline flag.
unfoldable pub timed_result {ℓ} : {A : Type ℓ} → Bool → CoreOps × Result A → CoreOps × VfsResult A
unfolding set_offline from_core_error
timed_result true (v, answer) = (set_offline v, failure timed_out)
timed_result false (v, ok a) = (v, success a)
timed_result false (v, err e) =
    (if is_network e then set_offline v else v, failure (from_core_error e))

module _ (service : Service) (env : VfsEnv) where
  unfoldable pub graph_with_timeout {ℓ} :
      {A : Type ℓ} → (List Call → Call → Result A) → Call → CoreOps → CoreOps × VfsResult A
  unfolding graph_call timed_result
  graph_with_timeout answer call v =
      timed_result (service.is_late v.world.calls call) (graph_call answer call v)

  unfoldable pub send_event : VfsEvent → CoreOps → CoreOps
  unfolding emit
  send_event event v = record v { world = emit service.server env.upload event v.world }

  -- `inodes.allocate`, and the item in memory under its inode.
  unfoldable pub cache_item : DriveItem → CoreOps → CoreOps × ℕ
  unfolding set_inodes set_memory
  cache_item item v =
      let (inodes, ino) = Inode.allocate item.id v.world.inodes in
      let v' = set_inodes inodes v in
      (set_memory (Memory.insert env.upload.now ino item v'.world.memory) v', ino)

  -- An item that memory does not hold, from the store.
  unfoldable pub lookup_stored : ℕ → CoreOps → CoreOps × Option DriveItem
  unfolding set_memory
  lookup_stored inode v =
      elim (and_then (Inode.get_item_id inode v.world.inodes)
        (λ item_id. Store.get_item_by_id item_id v.world.store)) [
          | none ↦ (v, none)
          | some found ↦ (
            set_memory (Memory.insert env.upload.now inode found.1 v.world.memory) v,
            some found.1,
          )
        ]

  unfoldable pub lookup_item : ℕ → CoreOps → CoreOps × Option DriveItem
  unfolding set_memory lookup_stored
  lookup_item inode v =
      let (memory, found) = Memory.get env.upload.now inode v.world.memory in
      let v' = set_memory memory v in
      elim found [ some item ↦ (v', some item) | none ↦ lookup_stored inode v' ]

  -- The size of an open file is that of its handle.
  unfoldable pub lookup_item_for_getattr : ℕ → CoreOps → CoreOps × Option (DriveItem × Bool)
  unfolding lookup_item
  lookup_item_for_getattr ino v =
      let (v', found) = lookup_item ino v in
      (
        v',
        elim found [
          | none ↦ none
          | some item ↦ elim (get_content_size_by_ino ino v'.open_files) [
            | some handle_size ↦ some (record item { size = handle_size }, true)
            | none ↦ some (item, false)
          ]
        ],
      )

  -- The names from an inode up to the root, each found put before the others.
  unfoldable pub path_segments : ℕ → ℕ → CoreOps → List String → CoreOps × List String
  unfolding lookup_item
  path_segments zero cur v segments = (v, segments)
  path_segments (suc safety) cur v segments = elim (cur == root_inode) [
    | true ↦ (v, segments)
    | false ↦
        let (v', found) = lookup_item cur v in
        elim found [
          | none ↦ (v', segments)
          | some item ↦
              elim (and_then (parent_id item) (λ pid. Inode.get_inode pid v'.world.inodes)) [
                | none ↦ (v', item.name ∷ segments)
                | some pino ↦ path_segments safety pino v' (item.name ∷ segments)
              ]
        ]
  ]

  unfoldable pub display_path_under : ℕ → String → CoreOps → CoreOps × String
  unfolding path_segments
  display_path_under parent_ino name v =
      let (v', segments) = path_segments 256 parent_ino v [] in
      (v', "/" ++ join (append_name segments name))

  unfoldable pub display_path_of : ℕ → CoreOps → CoreOps × Option String
  unfolding lookup_item display_path_under
  display_path_of ino v =
      if ino == root_inode
      then (v, some "/")
      else let (v', found) = lookup_item ino v in
        elim found [
          | none ↦ (v', none)
          | some item ↦ elim (parent_id item) [
            | none ↦ (v', none)
            | some pid ↦
                let parent_ino = unwrap_or (Inode.get_inode pid v'.world.inodes) root_inode in
                let (v'', path) = display_path_under parent_ino item.name v' in (v'', some path)
          ]
        ]
