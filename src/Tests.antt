-- ===== src/Tests.antt =====
-- Runs of the model at concrete inputs, and the data they share.
use carmine_desktop.Common.{ℕ, String, Option, none, some, ◌≡◌, refl, true}
use carmine_desktop.Item.{DriveItem, ParentReference}
use carmine_desktop.Names.{conflict_name, is_transient_file}
mod Inode
mod Sync
mod Store
mod Writeback
mod Memory
mod Upload
mod Graph
mod Files
mod Disk
mod Pins
mod Pending
mod Delta
mod Offline
mod Vfs

-- A file "report.docx" under the folder "parent".
abbrev pub file_item : String → Option String → DriveItem
file_item id etag = record {
  id = id;
  name = "report.docx";
  size = 3;
  last_modified = none;
  created = none;
  etag = etag;
  parent_reference = some (record { drive_id = none; id = some "parent"; path = none });
  folder = none;
  file = none;
  publication = none;
  download_url = none;
  web_url = none;
}

test_conflict_name : conflict_name "report.docx" 1741 ≡ "report.conflict.1741.docx"
unfolding conflict_name
test_conflict_name = refl

test_transient : is_transient_file "~WRS0001.TMP" ≡ true
unfolding is_transient_file
test_transient = refl
