-- ===== src/Disk.antt =====
-- crates/carminedesktop-cache/src/disk.rs: the cache of file contents on the disk, with a table that
-- tracks them. The table answers every statement; the file system answers as `DiskIo` says. A
-- content is written to a `.tmp` path, which may be the file of another item, and renamed; a put that
-- fails leaves the files as they were. An item id is a file name, as in the writeback buffer.
use carmine_desktop.Common.{
  ℕ, ◌+◌, ◌-◌, String, Bool, true, false, ◌||◌, Option, none, some, List, [], ◌∷◌, if◌then◌else◌,
  leb, ◌==◌, nat_eq, string_eq, pair_eq, length, take, drop, and_then,
}
use carmine_desktop.Common.Map
use carmine_desktop.Common.Map.{Map}
use carmine_desktop.Common.Map.Sort.{sort_by}
use carmine_desktop.Item.{Result, ok, err, Error, cache}
use carmine_desktop.Writeback.{Bytes, sanitize_filename, tmp_path, renamed}
pub mod Budget
pub mod Reads
pub mod Protected

-- A row of `cache_entries`.
pub record CacheEntry : Type 0 where
  pub etag : Option String
  pub file_size : ℕ
  pub last_access : ℕ

-- `on_change` is set or not; `notified` holds its calls.
pub record DiskCache : Type 0 where
  pub max_size_bytes : ℕ
  pub files : Map (String × String) Bytes
  pub tracker : Map (String × String) CacheEntry
  pub eviction_filter : Option (String → String → Bool)
  pub on_change : Bool
  pub notified : List (String × String)

-- Whether a write succeeds, and whether a file can be removed.
pub record DiskIo : Type 0 where
  pub writes : Bool
  pub removes : String × String → Bool

unfoldable pub new : ℕ → DiskCache
new max_size_bytes = record {
  max_size_bytes = max_size_bytes;
  files = [];
  tracker = [];
  eviction_filter = none;
  on_change = false;
  notified = [];
}

unfoldable pub set_cache_change_handler : DiskCache → DiskCache
set_cache_change_handler d = record d { on_change = true }

unfoldable pub notify_change : String → String → DiskCache → DiskCache
notify_change drive_id item_id d =
    if d.on_change then record d { notified = (drive_id, item_id) ∷ d.notified } else d

abbrev pub content_path : String → String → String × String
content_path drive_id item_id = (drive_id, sanitize_filename item_id)

unfoldable pub has : String → String → DiskCache → Bool
has drive_id item_id d = Map.contains_key (content_path drive_id item_id) d.files

-- `UPDATE cache_entries SET last_access = datetime('now') WHERE …`
unfoldable pub touch : ℕ → String → String → DiskCache → DiskCache
touch now drive_id item_id d = elim (Map.get (drive_id, item_id) d.tracker) [
  | none ↦ d
  | some entry ↦ record d {
    tracker = Map.insert (drive_id, item_id) (record entry { last_access = now }) d.tracker;
  }
]

unfoldable pub get : ℕ → String → String → DiskCache → DiskCache × Option Bytes
unfolding touch
get now drive_id item_id d = elim (Map.get (content_path drive_id item_id) d.files) [
  | none ↦ (d, none)
  | some content ↦ (touch now drive_id item_id d, some content)
]

-- A range that ends past the file is cut; past the end of the file nothing is read, and the access
-- is not recorded (but for an empty range, which `read_exact` always fills).
unfoldable pub get_range : ℕ → String → String → ℕ → ℕ → DiskCache → DiskCache × Option Bytes
unfolding touch
get_range now drive_id item_id offset len d =
    elim (Map.get (content_path drive_id item_id) d.files) [
      | none ↦ (d, none)
      | some content ↦
          if len == 0 || leb (offset + len) (length content)
          then (touch now drive_id item_id d, some (take len (drop offset content)))
          else if leb (length content) offset
          then (d, some [])
          else (
            touch now drive_id item_id d,
            some (take (length content - offset) (drop offset content)),
          )
    ]

unfoldable pub get_with_etag :
    ℕ → String → String → DiskCache → DiskCache × Option (Bytes × Option String)
unfolding touch
get_with_etag now drive_id item_id d = elim (Map.get (content_path drive_id item_id) d.files) [
  | none ↦ (d, none)
  | some content ↦ (
    touch now drive_id item_id d,
    some (content, and_then (Map.get (drive_id, item_id) d.tracker) (λ entry. entry.etag)),
  )
]

-- `SUM(file_size)`
unfoldable pub sum_sizes : Map (String × String) CacheEntry → ℕ
sum_sizes [] = 0
sum_sizes ((k, entry) ∷ m) = entry.file_size + sum_sizes m

unfoldable pub total_size : DiskCache → ℕ
unfolding sum_sizes
total_size d = sum_sizes d.tracker

unfoldable pub entry_count : DiskCache → ℕ
entry_count d = length d.tracker

abbrev pub is_protected : Option (String → String → Bool) → String × String → Bool
is_protected none k = false
is_protected (some f) k = f k.0 k.1

-- One turn of the eviction: the file, if it can be removed, and the row in any case.
unfoldable pub evict_entry : DiskIo → String × String → DiskCache → DiskCache
unfolding notify_change
evict_entry io (drive_id, item_id) d =
    let path = content_path drive_id item_id in
    notify_change drive_id item_id (record d {
      files = if io.removes path then Map.remove path d.files else d.files;
      tracker = Map.remove (drive_id, item_id) d.tracker;
    })

unfoldable pub evict_loop :
    DiskIo
    → Option (String → String → Bool)
    → ℕ
    → ℕ
    → Map (String × String) CacheEntry
    → DiskCache
    → DiskCache
unfolding evict_entry
evict_loop io filter to_free freed [] d = d
evict_loop io filter to_free freed ((k, entry) ∷ entries) d =
    let skip = evict_loop io filter to_free freed entries d in
    let next =
      evict_loop io filter to_free (freed + entry.file_size) entries (evict_entry io k d) in
    if leb to_free freed then d else if is_protected filter k then skip else next

abbrev pub by_last_access : CacheEntry → ℕ
by_last_access entry = entry.last_access

unfoldable pub evict_if_needed : DiskIo → DiskCache → DiskCache
unfolding total_size evict_loop
evict_if_needed io d =
    if d.max_size_bytes == 0
    then d
    else if leb (total_size d) d.max_size_bytes
    then d
    else evict_loop io d.eviction_filter (total_size d - d.max_size_bytes) 0
        (sort_by by_last_access d.tracker) d

-- The file and its row, before the eviction.
unfoldable pub put_entry : ℕ → String → String → Bytes → Option String → DiskCache → DiskCache
unfolding renamed
put_entry now drive_id item_id content etag d = record d {
  files = renamed (tmp_path drive_id item_id) (content_path drive_id item_id) content d.files;
  tracker =
      Map.insert (drive_id, item_id)
        (record { etag = etag; file_size = length content; last_access = now }) d.tracker;
}

unfoldable pub put :
    DiskIo → ℕ → String → String → Bytes → Option String → DiskCache → DiskCache × Result (Unit {0})
unfolding put_entry notify_change evict_if_needed
put io now drive_id item_id content etag d =
    if io.writes
    then (
      evict_if_needed io
          (notify_change drive_id item_id (put_entry now drive_id item_id content etag d)),
      ok tt,
    )
    else (d, err (cache "write cache failed"))

-- A file that does not exist is no error.
unfoldable pub remove : DiskIo → String → String → DiskCache → DiskCache × Result (Unit {0})
unfolding notify_change
remove io drive_id item_id d =
    let path = content_path drive_id item_id in
    let removed = notify_change drive_id item_id (record d {
      files = Map.remove path d.files;
      tracker = Map.remove (drive_id, item_id) d.tracker;
    }) in
    if Map.contains_key path d.files
    then if io.removes path then (removed, ok tt) else (d, err (cache "remove cache failed"))
    else (removed, ok tt)

-- The folder is removed and made again.
unfoldable pub clear : Bool → DiskCache → DiskCache × Result (Unit {0})
clear io d =
    if io
    then (record d { files = []; tracker = [] }, ok tt)
    else (d, err (cache "clear cache failed"))

unfoldable pub set_eviction_filter : (String → String → Bool) → DiskCache → DiskCache
set_eviction_filter filter d = record d { eviction_filter = some filter }
