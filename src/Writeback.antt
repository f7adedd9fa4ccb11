-- ===== src/Writeback.antt =====
-- crates/carminedesktop-cache/src/writeback.rs: the buffer of writes that are not uploaded yet, in
-- memory and under the `pending` folder. A file stands under its drive and its encoded item id; a
-- `.tmp` file beside it is a file of the same folder, so that it may be that of another item. Each
-- operation is told by `io` whether its file system calls succeed; those of a persist that fails leave
-- the files as they were. An item id is a file name: not empty, "." or "..", and without a separator.
use Prim.Native.Char.{Char, code}
use carmine_desktop.Common.{
  ℕ, ◌+◌, ◌-◌, String, Bool, true, false, not, ◌&&◌, ◌||◌, Option, none, some, List, [], ◌∷◌, ◌++◌,
  if◌then◌else◌, ◌==◌, nat_eq, string_eq, pair_eq, length, take, drop, replicate, is_some,
}
use carmine_desktop.Common.Map
use carmine_desktop.Common.Map.{Map}
use carmine_desktop.Item.{Result, ok, err, Error, cache}
use carmine_desktop.Names
use carmine_desktop.Names.{codes, ends_with}
pub mod Encoding
pub mod Reads

abbrev pub Bytes : Type 0
Bytes = List ℕ

-- `item_id.replace(':', "%3A")`
unfoldable pub sanitize_filename : String → String
sanitize_filename String.[] = ""
sanitize_filename (String.◌∷◌ c s) =
    let rest = sanitize_filename s in
    if code c == b':'
    then String.◌∷◌ "%" (String.◌∷◌ "3" (String.◌∷◌ "A" rest))
    else String.◌∷◌ c rest

abbrev pub is_escape : Char → Char → Char → Bool
is_escape a b c = code a == b'%' && (code b == b'3' && code c == b'A')

-- `name.replace("%3A", ":")`
unfoldable pub unsanitize_filename : String → String
unsanitize_filename (String.◌∷◌ a (String.◌∷◌ b (String.◌∷◌ c s))) = elim (is_escape a b c) [
  | true ↦ String.◌∷◌ ":" (unsanitize_filename s)
  | false ↦ String.◌∷◌ a (unsanitize_filename (String.◌∷◌ b (String.◌∷◌ c s)))
]
unsanitize_filename s = s

-- The text before the last dot, and what `Path::file_stem` makes of it: a name that begins with its
-- only dot is its own stem.
unfoldable pub before_last_dot : String → Option String
before_last_dot String.[] = none
before_last_dot (String.◌∷◌ c s) = elim (before_last_dot s) [
  | some t ↦ some (String.◌∷◌ c t)
  | none ↦ if code c == b'.' then some "" else none
]

abbrev pub stem_or : String → Option String → String
stem_or name none = name
stem_or name (some String.[]) = name
stem_or name (some (String.◌∷◌ c s)) = String.◌∷◌ c s

-- `path.with_extension("tmp")`: "a", "a.b" and "a.tmp" all have "a.tmp".
unfoldable pub tmp_name : String → String
unfolding before_last_dot
tmp_name name = Names.◌++◌ (stem_or name (before_last_dot name)) ".tmp"

-- `buffers` by drive and item; the files, `.tmp` files among them, by drive and file name.
pub record WriteBackBuffer : Type 0 where
  pub buffers : Map (String × String) Bytes
  pub files : Map (String × String) Bytes

unfoldable pub new : WriteBackBuffer
new = record { buffers = []; files = [] }

abbrev pub pending_path : String → String → String × String
pending_path drive_id item_id = (drive_id, sanitize_filename item_id)

abbrev pub tmp_path : String → String → String × String
tmp_path drive_id item_id = (drive_id, tmp_name (sanitize_filename item_id))

-- The files after a file is written to the `.tmp` path and renamed.
unfoldable pub renamed :
    String × String
    → String × String
    → Bytes
    → Map (String × String) Bytes
    → Map (String × String) Bytes
renamed tmp path content files =
    Map.insert path content (Map.remove tmp (Map.insert tmp content files))

-- `persist`: the buffer is written to the `.tmp` file, which is renamed.
unfoldable pub persist :
    Bool → String → String → WriteBackBuffer → WriteBackBuffer × Result (Unit {0})
unfolding renamed
persist io drive_id item_id w = elim (Map.get (drive_id, item_id) w.buffers) [
  | none ↦ (w, ok tt)
  | some content ↦
      if io
      then (
        record w {
          files =
              renamed (tmp_path drive_id item_id) (pending_path drive_id item_id) content w.files;
        },
        ok tt,
      )
      else (w, err (cache "persist pending failed"))
]

unfoldable pub write :
    Bool → String → String → Bytes → WriteBackBuffer → WriteBackBuffer × Result (Unit {0})
unfolding persist
write io drive_id item_id content w =
    persist io drive_id item_id
      (record w { buffers = Map.insert (drive_id, item_id) content w.buffers })

-- A write at an offset of a file: a gap is filled with zeros.
unfoldable pub overwrite : ℕ → Bytes → Bytes → Bytes
overwrite offset chunk bytes =
    take offset bytes
    ++ (replicate (offset - length bytes) 0 ++ (chunk ++ drop (offset + length chunk) bytes))

abbrev pub bytes_or_empty : Option Bytes → Bytes
bytes_or_empty none = []
bytes_or_empty (some b) = b

unfoldable pub write_chunk :
    Bool → String → String → ℕ → Bytes → WriteBackBuffer → WriteBackBuffer × Result (Unit {0})
unfolding overwrite
write_chunk io drive_id item_id offset chunk w =
    let tmp = tmp_path drive_id item_id in
    if io
    then (
      record w {
        files =
            Map.insert tmp (overwrite offset chunk (bytes_or_empty (Map.get tmp w.files))) w.files;
      },
      ok tt,
    )
    else (w, err (cache "write chunk failed"))

unfoldable pub finish_chunked_write :
    Bool → String → String → WriteBackBuffer → WriteBackBuffer × Result (Unit {0})
finish_chunked_write io drive_id item_id w =
    let path = pending_path drive_id item_id in
    let tmp = tmp_path drive_id item_id in
    elim (Map.get tmp w.files) [
      | none ↦ (w, err (cache "rename pending failed"))
      | some content ↦
          if io
          then (record w { files = Map.insert path content (Map.remove tmp w.files) }, ok tt)
          else (w, err (cache "rename pending failed"))
    ]

-- Memory first, then the disk.
unfoldable pub read : String → String → WriteBackBuffer → Option Bytes
read drive_id item_id w = elim (Map.get (drive_id, item_id) w.buffers) [
  | some buf ↦ some buf
  | none ↦ Map.get (pending_path drive_id item_id) w.files
]

-- A file that is not there is no error.
unfoldable pub remove :
    Bool → String → String → WriteBackBuffer → WriteBackBuffer × Result (Unit {0})
remove io drive_id item_id w =
    let path = pending_path drive_id item_id in
    let w' = record w { buffers = Map.remove (drive_id, item_id) w.buffers } in
    if not (Map.contains_key path w.files)
    then (w', ok tt)
    else if io
    then (record w' { files = Map.remove path w.files }, ok tt)
    else (w', err (cache "remove pending failed"))

unfoldable pub has_pending : String → String → WriteBackBuffer → Bool
has_pending drive_id item_id w =
    Map.contains_key (drive_id, item_id) w.buffers
    || Map.contains_key (pending_path drive_id item_id) w.files

-- The entries of the folder; leftover `.tmp` files are skipped.
unfoldable pub list_pending_files : List (String × String) → List (String × String)
unfolding unsanitize_filename
list_pending_files [] = []
list_pending_files ((drive_id, name) ∷ entries) =
    let rest = list_pending_files entries in
    if ends_with (codes name) (codes ".tmp")
    then rest
    else (drive_id, unsanitize_filename name) ∷ rest

unfoldable pub list_pending : WriteBackBuffer → List (String × String)
unfolding list_pending_files
list_pending w = list_pending_files (Map.keys w.files)

-- A crash loses what is in memory.
unfoldable pub crash : WriteBackBuffer → WriteBackBuffer
crash w = record w { buffers = [] }
