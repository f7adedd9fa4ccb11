-- ===== src/Pending.antt =====
-- crates/carminedesktop-vfs/src/pending.rs: what is done with pending writes after a crash, in the
-- background and before a drive is unmounted. The server is a parameter; the file system answers as
-- the environment says.
use Prim.Native.Char.{code}
use text.Mathlib.Text.{starts_with}
use carmine_desktop.Common.{
  ℕ, suc, String, Bool, true, false, not, ◌&&◌, Option, none, some, List, [], ◌∷◌, if◌then◌else◌,
  ◌==◌, nat_eq, string_eq, pair_eq, unwrap_or, length, take,
}
use carmine_desktop.Common.Map
use carmine_desktop.Common.Map.{Map}
use carmine_desktop.Graph.{Call, Server, upload_call}
use carmine_desktop.Item.{DriveItem, Result, ok, err}
use carmine_desktop.Names.{◌++◌}
use carmine_desktop.Store
use carmine_desktop.Store.{SqliteStore}
use carmine_desktop.Upload.{parent_or_empty}
use carmine_desktop.Writeback
use carmine_desktop.Writeback.{WriteBackBuffer, Bytes}
pub mod Saved

-- The buffer, the store and the calls made; the files of the recovery folders, by folder and name,
-- and the lines of their manifests, the newest first.
pub record Recovery : Type 0 where
  pub writeback : WriteBackBuffer
  pub store : SqliteStore
  pub calls : List Call
  pub recovered : Map (String × String) Bytes
  pub manifest : List (String × String × ℕ)

-- Whether pending files can be removed, and whether a recovery folder and a file in it can be made,
-- and its manifest written.
pub record RecoveryIo : Type 0 where
  pub removes : Bool
  pub saves : Bool
  pub manifests : Bool

-- `item_id.replace(':', "_")`
unfoldable pub recovery_name : String → String
recovery_name String.[] = ""
recovery_name (String.◌∷◌ c s) =
    let rest = recovery_name s in String.◌∷◌ (if code c == b':' then "_" else c) rest

-- The name of the file, which the drive has no part in.
abbrev pub recovery_file : String → String
recovery_file item_id = recovery_name item_id ++ ".bin"

-- The parent and the name to upload an item under.
unfoldable pub resolve_upload_params : String → SqliteStore → String × String
resolve_upload_params item_id s = elim (Store.get_item_by_id item_id s) [
  | some found ↦ (parent_or_empty found.1, found.1.name)
  | none ↦ ("", item_id)
]

abbrev pub is_local : String → Bool
is_local item_id = starts_with item_id "local:"

module _ (server : Server) (io : RecoveryIo) where
  unfoldable pub remove_entry : String → String → Recovery → Recovery
  remove_entry drive_id item_id r = record r {
    writeback = (Writeback.remove io.removes drive_id item_id r.writeback).0;
  }

  unfoldable pub save_to_recovery : String → String → String → Recovery → Recovery × Bool
  unfolding remove_entry
  save_to_recovery drive_id item_id dir r = elim (Writeback.read drive_id item_id r.writeback) [
    | none ↦ (remove_entry drive_id item_id r, false)
    | some content ↦
        if io.saves
        then (
          remove_entry drive_id item_id (record r {
            recovered = Map.insert (dir, recovery_file item_id) content r.recovered;
            manifest =
                if io.manifests
                then (drive_id, item_id, length content) ∷ r.manifest
                else r.manifest;
          }),
          true,
        )
        else (r, false)
  ]

  -- The answer to the upload.
  unfoldable pub conclude_upload : String → String → Recovery × Result DriveItem → Recovery × Bool
  unfolding remove_entry
  conclude_upload drive_id item_id (r, ok _) = (remove_entry drive_id item_id r, true)
  conclude_upload drive_id item_id (r, err e) = (r, false)

  unfoldable pub perform_upload : Result Call → Recovery → Recovery × Result DriveItem
  perform_upload (ok call) r = (record r { calls = call ∷ r.calls }, server r.calls call)
  perform_upload (err e) r = (r, err e)

  -- A file that was never uploaded is saved, or thrown away where there is no folder to save it in;
  -- the content of any other is uploaded without a condition.
  unfoldable pub recover_single : String → String → Option String → Recovery → Recovery × Bool
  unfolding save_to_recovery conclude_upload perform_upload resolve_upload_params
  recover_single drive_id item_id recovery_dir r =
      if is_local item_id
      then elim recovery_dir [
        | some dir ↦ save_to_recovery drive_id item_id dir r
        | none ↦ (remove_entry drive_id item_id r, false)
      ]
      else elim (Writeback.read drive_id item_id r.writeback) [
        | none ↦ (r, false)
        | some content ↦
            let (parent, name) = resolve_upload_params item_id r.store in
            conclude_upload drive_id item_id
              (perform_upload (upload_call drive_id parent (some item_id) name content none) r)
      ]

  -- Each entry in turn; the number of those that the test counts and that succeeded.
  unfoldable pub recover_all :
      (String → Bool) → Option String → List (String × String) → Recovery → Recovery × ℕ
  unfolding recover_single
  recover_all counts dir [] r = (r, 0)
  recover_all counts dir ((drive_id, item_id) ∷ entries) r =
      let (r', done) = recover_single drive_id item_id dir r in
      let (r'', n) = recover_all counts dir entries r' in
      (r'', if counts item_id && done then suc n else n)

  -- Counts the local files that were saved.
  unfoldable pub recover_pending_writes : Option String → Recovery → Recovery × ℕ
  unfolding recover_all
  recover_pending_writes dir r = recover_all is_local dir (Writeback.list_pending r.writeback) r

  unfoldable pub entries_of :
      (String → Bool) → String → List (String × String) → List (String × String)
  entries_of test drive_id [] = []
  entries_of test drive_id ((d, i) ∷ entries) =
      let rest = entries_of test drive_id entries in
      if d == drive_id && test i then (d, i) ∷ rest else rest

  -- Counts the uploads; local files are left alone.
  unfoldable pub retry_pending_writes_for_drive : String → Option String → Recovery → Recovery × ℕ
  unfolding recover_all entries_of
  retry_pending_writes_for_drive drive_id dir r =
      recover_all (λ i. true) dir
        (entries_of (λ i. not (is_local i)) drive_id (Writeback.list_pending r.writeback)) r

  -- Before an unmount; `in_time` entries are done with before the 30 seconds are over.
  unfoldable pub flush_pending : ℕ → String → Option String → Recovery → Recovery
  unfolding recover_all entries_of
  flush_pending in_time drive_id dir r =
      (recover_all (λ i. true) dir
        (take in_time (entries_of (λ i. true) drive_id (Writeback.list_pending r.writeback))) r).0
