-- ===== src/Delta.antt =====
-- crates/carminedesktop-cache/src/sync.rs: the delta sync of a drive, over the caches of
-- `CacheManager` (manager.rs) and the inode table, whose `allocate` is the allocator that main.rs
-- passes. The timer runs it for each drive.
use carmine_desktop.Common.{
  ℕ, String, Bool, true, false, not, ◌&&◌, Option, none, some, List, [], ◌∷◌, ◌++◌, if◌then◌else◌,
  ◌==◌, string_eq, is_some, unwrap_or, and_then,
}
use carmine_desktop.Disk
use carmine_desktop.Disk.{DiskCache, DiskIo}
use carmine_desktop.Graph.{Call, delta_query, Service, DeltaResponse}
use carmine_desktop.Inode
use carmine_desktop.Inode.{InodeTable}
use carmine_desktop.Item.{DriveItem, parent_id, Result, ok, err}
use carmine_desktop.Memory
use carmine_desktop.Memory.{MemoryCache}
use carmine_desktop.Store
use carmine_desktop.Store.{SqliteStore}
use Prim.Native.Char.{code}
use carmine_desktop.Common.{nat_eq}
pub mod Older
pub mod Rows
pub mod Listed
pub mod Recorded
pub mod Invalidated

-- `str::strip_prefix`
unfoldable pub strip_prefix : String → String → Option String
strip_prefix String.[] s = some s
strip_prefix (String.◌∷◌ p ps) String.[] = none
strip_prefix (String.◌∷◌ p ps) (String.◌∷◌ c s) =
    let rest = strip_prefix ps s in if code p == code c then rest else none

-- What follows the first occurrence of a text.
unfoldable pub after_first : String → String → Option String
unfolding strip_prefix
after_first pattern String.[] = strip_prefix pattern ""
after_first pattern (String.◌∷◌ c s) = elim (strip_prefix pattern (String.◌∷◌ c s)) [
  | some rest ↦ some rest
  | none ↦ after_first pattern s
]

abbrev pub without_slash : String → String
without_slash s = unwrap_or (strip_prefix "/" s) s

unfoldable pub strip_drive_root_prefix : String → String
unfolding strip_prefix after_first
strip_drive_root_prefix path = elim (strip_prefix "/drive/root:" path) [
  | some rest ↦ without_slash rest
  | none ↦ elim (after_first "/root:" path) [ some rest ↦ without_slash rest | none ↦ "" ]
]

-- A relative path is the list of the parts that are joined.
unfoldable pub path_under : String → String → List String
unfolding strip_drive_root_prefix
path_under parent_path name =
    let relative_parent = strip_drive_root_prefix parent_path in
    if relative_parent == "" then name ∷ [] else relative_parent ∷ name ∷ []

abbrev pub parent_path_of : DriveItem → Option String
parent_path_of item = and_then item.parent_reference (λ p. p.path)

unfoldable pub resolve_relative_path : DriveItem → Option (List String)
unfolding path_under
resolve_relative_path item =
    and_then (parent_path_of item) (λ path. some (path_under path item.name))

pub record DeletedItemInfo : Type 0 where
  pub id : String
  pub name : String
  pub parent_path : Option String

unfoldable pub resolve_deleted_path : DeletedItemInfo → Option (List String)
unfolding path_under
resolve_deleted_path info =
    if info.name == ""
    then none
    else and_then info.parent_path (λ path. some (path_under path info.name))

pub record DeltaSyncResult : Type 0 where
  pub changed_items : List DriveItem
  pub deleted_items : List DeletedItemInfo

-- The caches; `observed` holds the calls of the observer, the newest first.
pub record Caches : Type 0 where
  pub inodes : InodeTable
  pub memory : MemoryCache
  pub store : SqliteStore
  pub disk : DiskCache
  pub dirty_inodes : List ℕ
  pub observed : List ℕ
  pub calls : List Call

-- The drive, the clocks of the memory cache and of the store, the file system, and whether there is
-- an observer.
pub record SyncEnv : Type 0 where
  pub drive_id : String
  pub now : ℕ
  pub seconds : ℕ
  pub disk_io : DiskIo
  pub observing : Bool

-- The loop's variables.
pub record Progress : Type 0 where
  pub caches : Caches
  pub upserts : List (ℕ × DriveItem × Option ℕ)
  pub deletes : List String
  pub result : DeltaSyncResult

-- `inode_allocator(id)`, where there is an id.
unfoldable pub allocate_if : Option String → InodeTable → InodeTable × Option ℕ
allocate_if none t = (t, none)
allocate_if (some id) t = let (t', inode) = Inode.allocate id t in (t', some inode)

abbrev pub invalidate_if : Option ℕ → MemoryCache → MemoryCache
invalidate_if none m = m
invalidate_if (some inode) m = Memory.invalidate inode m

-- What is known of an item that the server has deleted, and its parent's id.
unfoldable pub deleted_info : String → SqliteStore → DeletedItemInfo × Option String
deleted_info id s = elim (Store.get_item_by_id id s) [
  | some found ↦ (
    record { id = id; name = found.1.name; parent_path = parent_path_of found.1 },
    parent_id found.1,
  )
  | none ↦ (record { id = id; name = ""; parent_path = none }, none)
]

-- The etag that the store holds and the server's are there and differ.
unfoldable pub etag_changed : Option String → Option String → Bool
etag_changed (some old) (some new) = not (old == new)
etag_changed (some old) none = false
etag_changed none etag = false

unfoldable pub content_changed : DriveItem → SqliteStore → Bool
unfolding etag_changed
content_changed item s =
    is_some item.file
    && etag_changed (and_then (Store.get_item_by_id item.id s) (λ found. found.1.etag)) item.etag

unfoldable pub begin : Caches → Progress
begin c = record {
  caches = c;
  upserts = [];
  deletes = [];
  result = record { changed_items = []; deleted_items = [] };
}

abbrev pub tombstone_secs : ℕ
tombstone_secs = 300

-- The end of the transaction.
unfoldable pub finish_delta :
    Progress → SqliteStore × Result (Unit {0}) → Caches × Result DeltaSyncResult
finish_delta p (store, ok _) = (record p.caches { store = store }, ok p.result)
finish_delta p (store, err e) = (record p.caches { store = store }, err e)

module _ (env : SyncEnv) where
  unfoldable pub delta_deleted : DriveItem → Progress → Progress
  unfolding deleted_info allocate_if
  delta_deleted item p =
      let c = p.caches in
      let (info, pid) = deleted_info item.id c.store in
      let (inodes, parent_ino) = allocate_if pid c.inodes in
      let (inodes', inode) = Inode.allocate item.id inodes in
      record p {
        caches = record c {
          inodes = inodes';
          memory = invalidate_if parent_ino (Memory.invalidate inode c.memory);
          disk = (Disk.remove env.disk_io env.drive_id item.id c.disk).0;
        };
        deletes = p.deletes ++ (item.id ∷ []);
        result = record p.result { deleted_items = p.result.deleted_items ++ (info ∷ []) };
      }

  -- The cached content of a changed file is thrown away, and its inode marked.
  unfoldable pub invalidate_content : ℕ → DriveItem → Progress → Progress
  invalidate_content inode item p =
      let c = p.caches in
      record p {
        caches = record c {
          disk = (Disk.remove env.disk_io env.drive_id item.id c.disk).0;
          dirty_inodes = inode ∷ c.dirty_inodes;
          observed = if env.observing then inode ∷ c.observed else c.observed;
        };
        result = record p.result { changed_items = p.result.changed_items ++ (item ∷ []) };
      }

  unfoldable pub delta_upserted : DriveItem → Progress → Progress
  unfolding allocate_if content_changed invalidate_content
  delta_upserted item p =
      let (inodes, inode) = Inode.allocate item.id p.caches.inodes in
      let (inodes', parent_inode) = allocate_if (parent_id item) inodes in
      let p' = record p { caches = record p.caches { inodes = inodes' } } in
      let q =
        if content_changed item p'.caches.store then invalidate_content inode item p' else p' in
      record q {
        caches = record q.caches {
          memory = invalidate_if parent_inode (Memory.insert env.now inode item q.caches.memory);
        };
        upserts = q.upserts ++ ((inode, item, parent_inode) ∷ []);
      }

  -- An item without a name is deleted; one that was deleted here is not brought back.
  unfoldable pub delta_item : DriveItem → Progress → Progress
  unfolding delta_deleted delta_upserted
  delta_item item p =
      if item.name == ""
      then delta_deleted item p
      else if Store.is_tombstoned item.id p.caches.store
      then p
      else delta_upserted item p

  unfoldable pub delta_items : List DriveItem → Progress → Progress
  unfolding delta_item
  delta_items [] p = p
  delta_items (item ∷ items) p = delta_items items (delta_item item p)

  -- After the loop: the transaction, if the answer holds a new token.
  unfoldable pub record_delta : Option String → Progress → Caches × Result DeltaSyncResult
  unfolding finish_delta
  record_delta delta_link p =
      let new_token = unwrap_or delta_link "" in
      if new_token == ""
      then (p.caches, ok p.result)
      else finish_delta p
          (Store.apply_delta env.drive_id p.upserts p.deletes new_token p.caches.store)

  unfoldable pub apply_response : Caches → Result DeltaResponse → Caches × Result DeltaSyncResult
  unfolding delta_items record_delta begin
  apply_response c (err e) = (c, err e)
  apply_response c (ok response) =
      record_delta response.delta_link (delta_items response.value (begin c))

  -- The caches without old tombstones, and the question for the delta since the last token.
  unfoldable pub purged : Caches → Caches
  purged c = record c {
    store = Store.purge_tombstones_older_than env.seconds tombstone_secs c.store;
  }

  unfoldable pub delta_call : Caches → Call
  delta_call c = delta_query env.drive_id (Store.get_delta_token env.drive_id c.store)

  unfoldable pub run_delta_sync : Service → Caches → Caches × Result DeltaSyncResult
  unfolding purged delta_call apply_response
  run_delta_sync service c =
      let p = purged c in
      let call = delta_call p in
      apply_response (record p { calls = call ∷ p.calls }) (service.delta p.calls call)
