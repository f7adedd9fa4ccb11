-- ===== src/Graph.antt =====
-- crates/carminedesktop-graph/src/client.rs and crates/carminedesktop-core/src/error.rs: the calls of
-- the Graph service as the rest of the program sees them. The service is a parameter: what it
-- answers to a call may depend on all calls before it.
use carmine_desktop.Common.{
  ℕ, String, Option, none, some, List, [], ◌∷◌, if◌then◌else◌, ltb, length, Bool,
}
use carmine_desktop.Item.{
  DriveItem, Error, auth, graph_api, cache, filesystem, config, network, precondition_failed,
  locked, io, other, Result, ok, err,
}
use carmine_desktop.Names.{◌++◌, decimal, digits_of_i64}
use carmine_desktop.Writeback.{Bytes}
pub mod Retry
pub mod Chunks

pub data Call : Type 0 where
  get_item : String → String → Call
  upload_small : String → String → String → Bytes → Option String → Call
  upload_large : String → String → Bytes → Option String → Call
  list_children : String → String → Call
  download_content : String → String → Call
  download_range : String → String → ℕ → ℕ → Call
  delete_item : String → String → Call
  create_folder : String → String → String → Call
  update_item : String → String → Option String → Option String → Call
  delta_query : String → Option String → Call

-- The answer to a call, after the calls made before it, the newest first.
abbrev pub Server : Type 0
Server = List Call → Call → Result DriveItem

pub record DeltaResponse : Type 0 where
  pub value : List DriveItem
  pub delta_link : Option String

-- The service with the answers that are not one item. `server` answers the other calls; `is_late`
-- says whether a call takes longer than a file system callback waits.
pub record Service : Type 0 where
  pub server : Server
  pub children : List Call → Call → Result (List DriveItem)
  pub content : List Call → Call → Result Bytes
  pub done : List Call → Call → Result (Unit {0})
  pub delta : List Call → Call → Result DeltaResponse
  pub is_late : List Call → Call → Bool

abbrev pub small_file_limit : ℕ
small_file_limit = 4194304

-- `GraphClient::upload`: the call to make, or the error of a large file with no item id.
unfoldable pub upload_call :
    String → String → Option String → String → Bytes → Option String → Result Call
upload_call drive_id parent_id item_id name content if_match =
    if ltb (length content) small_file_limit
    then ok (upload_small drive_id parent_id name content if_match)
    else elim item_id [
      | none ↦ err (graph_api 0 "item_id required for large file upload")
      | some id ↦ ok (upload_large drive_id id content if_match)
    ]

-- The texts of the errors.
unfoldable pub display : Error → String
display (auth s) = "authentication failed: " ++ s
display (graph_api status message) =
    "Graph API error: " ++ decimal digits_of_i64 status ++ " " ++ message
display (cache s) = "cache error: " ++ s
display (filesystem s) = "filesystem error: " ++ s
display (config s) = "configuration error: " ++ s
display (network s) = "network error: " ++ s
display precondition_failed = "precondition failed: server content changed (412)"
display locked = "resource locked (423)"
display (io s) = "I/O error: " ++ s
display (other s) = s
