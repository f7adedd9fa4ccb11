-- ===== src/Tests/Upload.antt =====
-- The upload of a pending write at concrete inputs.
use carmine_desktop.Common.{
  ℕ, String, ◌≡◌, ◌⊎◌, ◌<◌, refl, true, false, Option, none, some, List, [], ◌∷◌, arith, length,
  string_eq, nat_eq,
}
use carmine_desktop.Graph.{Call, Server, get_item, upload_small, small_file_limit}
use carmine_desktop.Inode
use carmine_desktop.Item.{DriveItem, ok}
use carmine_desktop.Memory
use carmine_desktop.Names.{is_transient_file, conflict_name}
use carmine_desktop.Store
use carmine_desktop.Tests.{file_item}
use carmine_desktop.Upload.{
  World, Env, lookup_metadata, flush_item, flush_inode_async, upload_content,
}
use carmine_desktop.Upload.Conflict.{
  flush_item-if_match, flush_item-overwrites, upload_content-forgets,
}
use carmine_desktop.Upload.Safe.{IsSafe, flush_inode_async-IsSafe}
use carmine_desktop.Writeback
use carmine_desktop.Writeback.{Bytes, WriteBackBuffer, read}

-- A server that has the item under an etag and accepts every upload.
abbrev accepting : String → Server
accepting etag calls call = ok (file_item "01A" (some etag))

-- No other task works on the buffer.
abbrev pub alone : Env
alone = record {
  drive_id = "d";
  now = 1000;
  timestamp = 1741;
  listening = true;
  persist_io = true;
  remove_io = true;
  meanwhile = λ calls b. b;
}

abbrev content : Bytes
content = 1 ∷ 2 ∷ 3 ∷ []

abbrev written : WriteBackBuffer
written = (Writeback.write true "d" "01A" content Writeback.new).0

-- Inode 3 is the item "01A", cached under the etag "v1", with content to upload.
abbrev dirty : World
dirty = record {
  inodes = Inode.insert_pair 3 "01A" Inode.new;
  memory = Memory.insert 900 3 (file_item "01A" (some "v1")) (Memory.new none);
  store = Store.new;
  writeback = written;
  calls = [];
  events = [];
}

item_of_3 : Inode.get_item_id 3 dirty.inodes ≡ some "01A"
unfolding Inode.get_item_id Inode.insert_pair carmine_desktop.Common.Map.get
    carmine_desktop.Common.Map.insert
item_of_3 = refl

content_of_3 : read "d" "01A" dirty.writeback ≡ some content
unfolding read carmine_desktop.Common.Map.get Writeback.write carmine_desktop.Common.Map.insert
content_of_3 = refl

flush_inode_async-IsSafe_example :
    ((item : DriveItem) × (((lookup_metadata (accepting "v1") alone 3 "01A" dirty).1 ≡ some item)
        × (is_transient_file item.name ≡ true)))
    ⊎ IsSafe
        (accepting "v1")
        alone
        "01A"
        content
        (λ calls b. refl)
        (flush_inode_async (accepting "v1") alone 3 dirty)
flush_inode_async-IsSafe_example =
    flush_inode_async-IsSafe (accepting "v1") alone "01A" content (λ calls b. refl) 3 dirty
      item_of_3 content_of_3

test_flush :
    (flush_inode_async (accepting "v1") alone 3 dirty).0.calls
    ≡ upload_small "d" "parent" "report.docx" content (some "v1") ∷ get_item "d" "01A" ∷ []
unfolding flush_inode_async Inode.get_item_id carmine_desktop.Common.Map.get Inode.insert_pair
    carmine_desktop.Common.Map.insert read Writeback.write Memory.get Memory.insert Memory.new
    is_transient_file carmine_desktop.Graph.upload_call
test_flush = refl

lasting : is_transient_file "report.docx" ≡ false
unfolding is_transient_file
lasting = refl

flush_item-if_match_example :
    (flush_item (accepting "v1") alone 3 "01A" content (file_item "01A" (some "v1")) dirty).0.calls
    ≡ upload_small "d" "parent" "report.docx" content (some "v1") ∷ get_item "d" "01A" ∷ []
flush_item-if_match_example =
    flush_item-if_match (accepting "v1") alone "01A" content 3 (file_item "01A" (some "v1")) dirty
      "v1" (file_item "01A" (some "v1")) lasting refl (omega arith) refl refl refl refl

flush_item-overwrites_example :
    (flush_item (accepting "v2") alone 3 "01A" content (file_item "01A" (some "v1")) dirty).0.calls
    ≡ upload_small "d" "parent" "report.docx" content none
      ∷ upload_small "d" "parent" (conflict_name "report.docx" 1741) content none
      ∷ get_item "d" "01A"
      ∷ []
flush_item-overwrites_example =
    flush_item-overwrites (accepting "v2") alone "01A" content 3 (file_item "01A" (some "v1")) dirty
      "v1" (file_item "01A" (some "v2")) lasting refl (omega arith) refl refl refl refl refl refl

-- A user who saves other content of the item while a call is awaited.
abbrev busy : Env
busy = record alone { meanwhile = λ calls b. (Writeback.write true "d" "01A" (9 ∷ []) b).0 }

upload_content-forgets_example :
    (read "d" "01A"
        (upload_content
          (accepting "v1")
          busy
          3
          "01A"
          false
          (file_item "01A" (some "v1"))
          content
          (dirty, some none)).0.writeback
      ≡ none)
    × ((upload_content
          (accepting "v1")
          busy
          3
          "01A"
          false
          (file_item "01A" (some "v1"))
          content
          (dirty, some none)).0.calls
        ≡ upload_small "d" "parent" "report.docx" content none ∷ [])
upload_content-forgets_example =
    upload_content-forgets (accepting "v1") busy "01A" content 3 (file_item "01A" (some "v1")) none
      dirty (omega arith) refl refl
