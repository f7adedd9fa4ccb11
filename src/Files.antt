-- ===== src/Files.antt =====
-- crates/carminedesktop-vfs/src/core_ops.rs: the table of open files, and what the operations on a
-- handle do to its entry. The outcome of the wait for a streaming download is an argument.
use carmine_desktop.Common.{
  ℕ, ◌+◌, ◌-◌, ◌%◌, max, Bool, true, false, ◌&&◌, ◌||◌, Option, none, some, List, [], ◌∷◌, ◌++◌,
  if◌then◌else◌, ltb, ◌==◌, nat_eq, length, take, drop, replicate, is_some, String,
}
use carmine_desktop.Common.Map
use carmine_desktop.Common.Map.{Map}
use carmine_desktop.Inode.{u64_modulus}
use carmine_desktop.Writeback.{Bytes}
pub mod Positions
pub mod Content
pub mod Sizes

-- A streaming download is known by its total size.
pub data DownloadState : Type 0 where
  complete : Bytes → DownloadState
  streaming : ℕ → DownloadState

pub record OpenFile : Type 0 where
  pub ino : ℕ
  pub content : DownloadState
  pub dirty : Bool
  pub stale : Bool
  pub logical_size : Option ℕ

pub record OpenFileTable : Type 0 where
  pub files : Map ℕ OpenFile
  pub next_handle : ℕ

unfoldable pub new : OpenFileTable
new = record { files = []; next_handle = 1 }

-- `fetch_add` wraps at 2^64.
unfoldable pub insert : ℕ → DownloadState → OpenFileTable → OpenFileTable × ℕ
insert ino content t = (
  record {
    files =
        Map.insert t.next_handle
          (record {
            ino = ino;
            content = content;
            dirty = false;
            stale = false;
            logical_size = none;
          })
          t.files;
    next_handle = (t.next_handle + 1) % u64_modulus;
  },
  t.next_handle,
)

unfoldable pub get : ℕ → OpenFileTable → Option OpenFile
get fh t = Map.get fh t.files

unfoldable pub remove : ℕ → OpenFileTable → OpenFileTable × Option OpenFile
remove fh t = (record t { files = Map.remove fh t.files }, Map.get fh t.files)

abbrev pub size_of : OpenFile → ℕ
size_of f = elim f.logical_size [
  | some ls ↦ ls
  | none ↦ elim f.content [ complete chunk ↦ length chunk | streaming total_size ↦ total_size ]
]

-- Of the first handle that is found.
unfoldable pub size_by_ino : ℕ → Map ℕ OpenFile → Option ℕ
size_by_ino ino [] = none
size_by_ino ino ((_, f) ∷ files) =
    let rest = size_by_ino ino files in if f.ino == ino then some (size_of f) else rest

unfoldable pub get_content_size_by_ino : ℕ → OpenFileTable → Option ℕ
unfolding size_by_ino
get_content_size_by_ino ino t = size_by_ino ino t.files

unfoldable pub stale_by_ino : ℕ → Map ℕ OpenFile → Map ℕ OpenFile
stale_by_ino ino [] = []
stale_by_ino ino ((fh, f) ∷ files) =
    (fh, if f.ino == ino then record f { stale = true } else f) ∷ stale_by_ino ino files

unfoldable pub mark_stale_by_ino : ℕ → OpenFileTable → OpenFileTable
unfolding stale_by_ino
mark_stale_by_ino ino t = record t { files = stale_by_ino ino t.files }

unfoldable pub any_handle : (OpenFile → Bool) → Map ℕ OpenFile → Bool
any_handle test [] = false
any_handle test ((_, f) ∷ files) = test f || any_handle test files

unfoldable pub has_open_handles : ℕ → OpenFileTable → Bool
unfolding any_handle
has_open_handles ino t = any_handle (λ f. f.ino == ino) t.files

unfoldable pub has_dirty_handles : ℕ → OpenFileTable → Bool
unfolding any_handle
has_dirty_handles ino t = any_handle (λ f. f.ino == ino && f.dirty) t.files

-- `Vec::resize(n, 0)`
unfoldable pub resize : ℕ → Bytes → Bytes
resize n buf = take n buf ++ replicate (n - length buf) 0

-- The buffer of an entry whose download is complete, or has been waited for; `none` if it failed.
unfoldable pub ensure_complete : Option Bytes → OpenFile → Option Bytes
ensure_complete awaited f = elim f.content [
  | complete chunk ↦ some chunk
  | streaming total_size ↦ awaited
]

-- `buf[offset..write_end].copy_from_slice(chunk)` on a buffer that is long enough.
unfoldable pub patch : ℕ → Bytes → Bytes → Bytes
patch offset chunk buf = take offset buf ++ (chunk ++ drop (offset + length chunk) buf)

unfoldable pub write_buffer : ℕ → Bytes → Bytes → Bytes
unfolding resize patch
write_buffer offset chunk buf =
    let write_end = offset + length chunk in
    patch offset chunk (if ltb (length buf) write_end then resize write_end buf else buf)

-- The entry that `write_handle` leaves, and the size that it reports.
unfoldable pub write_entry : Option Bytes → ℕ → Bytes → OpenFile → Option (OpenFile × ℕ)
unfolding ensure_complete write_buffer
write_entry awaited offset chunk f = elim (ensure_complete awaited f) [
  | none ↦ none
  | some buf ↦
      let buf' = write_buffer offset chunk buf in
      let f' = record f { content = complete buf'; dirty = true } in
      elim f.logical_size [
        | none ↦ some (f', length buf')
        | some ls ↦
            let new_ls = max ls (offset + length chunk) in
            some (record f' { logical_size = some new_ls }, new_ls)
      ]
]

-- The entry that `truncate` leaves.
unfoldable pub truncate_entry : Option Bytes → ℕ → OpenFile → Option OpenFile
unfolding ensure_complete resize
truncate_entry awaited new_size f = elim (ensure_complete awaited f) [
  | none ↦ none
  | some buf ↦ some (record f {
    content = complete (resize new_size buf);
    dirty = true;
    logical_size = some new_size;
  })
]

-- The entry that `ensure_buffer_capacity` leaves.
unfoldable pub reserve_entry : Option Bytes → ℕ → OpenFile → Option OpenFile
unfolding ensure_complete resize
reserve_entry awaited capacity f = elim (ensure_complete awaited f) [
  | none ↦ none
  | some buf ↦ some (record f {
    content = complete (if ltb (length buf) capacity then resize capacity buf else buf);
  })
]

-- What `flush_handle` and `release_file` write to the buffer: `Vec::truncate` to the logical size.
unfoldable pub flushed_content : Bytes → Option ℕ → Bytes
flushed_content buf none = buf
flushed_content buf (some size) = take size buf
