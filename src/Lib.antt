-- ===== src/Lib.antt =====
-- Carmine Desktop, a client that mounts drives of OneDrive and SharePoint as local folders. This library
-- models what the client does with a drive: the file operations of the mounted drive, the caches under them,
-- the path of a local change to the server, and the way of a change on the server into the caches.
--
-- The parts and how they interact. The virtual file system names items by inodes
-- (crates/carminedesktop-vfs/src/inode.rs). Its operations (crates/carminedesktop-vfs/src/core_ops.rs) look
-- an item up in memory (crates/carminedesktop-cache/src/memory.rs), in the store
-- (crates/carminedesktop-cache/src/sqlite.rs) and on the server, in this order, and read its content from the
-- writeback buffer (crates/carminedesktop-cache/src/writeback.rs), the disk cache
-- (crates/carminedesktop-cache/src/disk.rs) and the server. A file written through a handle stands in the
-- writeback buffer until it is uploaded. The sync processor
-- (crates/carminedesktop-vfs/src/sync_processor.rs) takes flush requests, waits for a window in which
-- further requests are merged, starts uploads, retries failed ones and answers those who wait. An upload
-- (`flush_inode_async`) reads the buffer, looks the item up, asks the server for conflicts, sends the content
-- (crates/carminedesktop-graph/src/client.rs), and updates the inode table, memory and the buffer. What is
-- pending at a crash is recovered at the next mount (crates/carminedesktop-vfs/src/pending.rs). A delta sync
-- (crates/carminedesktop-cache/src/sync.rs) brings the server's changes into the store and memory, throws the
-- content of changed files away and marks their inodes, so that they are read again. Pins
-- (crates/carminedesktop-cache/src/pin_store.rs) keep folders in the disk cache.
--
-- The files:
-- - Common: names of the libraries, tests into Bool, lists over the native numbers, equality as an
--   instance, hash maps as association lists (Common/Map) that hold a key once (Common/Map/Unique) and that a
--   query sorts (Common/Map/Sort).
-- - Item: `DriveItem` and its facets (crates/carminedesktop-core/src/types.rs), `Error` (error.rs).
-- - Names: `names_match`, `is_transient_file`, `conflict_name` of
--   crates/carminedesktop-vfs/src/core_ops.rs.
-- - Inode: `InodeTable`, one function per method; Inode/Consistent and Inode/Reassign on its invariant.
-- - Sync: the variables of `processor_loop` as a record, one function per branch of its `select!`;
--   Sync/Loop: recovery, the loop over events, the shutdown phase; Sync/Sound and Sync/Runs: the
--   invariant; Sync/Waiters, Sync/Retry, Sync/Schedule: answers, backoff, debouncing.
-- - Writeback: `WriteBackBuffer`; Writeback/Encoding: file names; Writeback/Reads: what is read.
-- - Memory: `MemoryCache`; Memory/Evict: eviction; Memory/Reads: what is read after an insertion.
-- - Store: `SqliteStore`; Store/Inserted: the insertion; Store/Tombstones: local deletes; Store/Rows: the
--   rows as the next mount reads them.
-- - Disk: `DiskCache`; Disk/Budget and Disk/Protected: eviction; Disk/Reads: ranges.
-- - Offline: `OfflineManager` (crates/carminedesktop-cache/src/offline.rs); Offline/Pinning: `pin_folder`;
--   Offline/Downloads: the downloads of a pinned folder; Offline/Outcome: what pinning does to the pins.
-- - Pins: `PinStore`, and the sweep of expired pins (crates/carminedesktop-cache/src/offline.rs);
--   Pins/Protection: the walk over the ancestors; Pins/Expiry: the sweep; Pins/Kept: the disk cache with the
--   pins as its filter, as crates/carminedesktop-cache/src/manager.rs joins them.
-- - Delta: `run_delta_sync`; Delta/Older: what every step of it keeps; Delta/Listed: what the loop takes from
--   the answer; Delta/Rows and Delta/Recorded: the rows and the token; Delta/Invalidated: marks and contents.
-- - Graph: the calls and the answers of the service; Graph/Retry: `with_retry`; Graph/Chunks:
--   `upload_large`.
-- - Files: `OpenFileTable` and the entries of open handles in core_ops.rs; Files/Positions: buffers by
--   position; Files/Content: writes against a plain file; Files/Sizes: truncation and reservation.
-- - Upload: `flush_inode_async` and `build_upload_path`; Upload/Safe: what becomes of the content;
--   Upload/Conflict: the calls made.
-- - Pending: `recover_pending_writes`, `retry_pending_writes_for_drive`, `flush_pending`; Pending/Saved: what
--   becomes of the contents.
-- - Vfs: `CoreOps`, its errors and its offline switch; Vfs/Lookup: names, listings, paths; Vfs/Content:
--   `read_content`; Vfs/Open: `open_file`; Vfs/Handles: reading, writing, truncating and releasing;
--   Vfs/Flush: `flush_handle`, copies between handles, direct reads; Vfs/Tree: creating and deleting;
--   Vfs/Rename: `rmdir` and `rename`. Vfs/Frame: what a lookup leaves alone; Vfs/Content/Pending and
--   Vfs/Handles/Released: a write and what `read_content` gives after it; Vfs/Content/Fresh: delta sync and reading;
--   Vfs/Tree/Errors: `unlink`.
-- - Tests: runs at concrete inputs.
--
-- Conventions. Numbers are natural numbers; a counter or an inode of 64 bits wraps at 2^64, where the
-- source adds without a check. A clock reading is a number that the caller passes in. A hash map is an
-- association list; where the source's order of keys is not fixed, the list's order stands for it. A file
-- system call succeeds or fails as a Boolean argument says; a write of a file that fails leaves the files as
-- they were, those under `.tmp` paths included. A table holds an inode as a signed number. An item id is a
-- file name of its own: not empty, "." or "..", and without a separator. The service is a function from
-- the calls made before and the call to the answer; `Service` has one such function per kind of answer. While an upload's
-- call is awaited, other tasks may change the writeback buffer: `meanwhile` of `Env` says how; that they
-- change other parts is not modelled. The file operations and a delta sync run undisturbed.
--
-- Bounds and fuel. `walk_up` and `path_segments` climb 256 parents and `is_protected` 50, as the source does.
-- `decimal` has 19 digits, those of an `i64`, and a name of a new local item 39, those of a `u128`. `subtree`
-- goes down as many levels as the table has rows, more than a path without a repetition can have.
-- `retry_loop` has fuel 4, one more than the retries, and `upload_chunks` one more than the length of the
-- content; the results below include that both end. `recursive_download` goes as many levels down as its
-- fuel says and gives no result below them, as nothing bounds the depth of the service's folders.
-- All other recursions are structural.
--
-- Not modelled: the bias of `select!` and the semaphore (every order of events is a run); logging; the
-- HTTP requests; SQL errors other than broken constraints; the timer of delta sync; of `CoreOps` the quota,
-- the copy on the server and the chunks of a `StreamingBuffer` (the bytes that a reader waits for are an
-- argument); printing of fractions; configuration, authentication, WinFsp and the desktop application.
pub mod Common
pub mod Inode
pub mod Sync
pub mod Item
pub mod Names
pub mod Memory
pub mod Writeback
pub mod Store
pub mod Disk
pub mod Pins
pub mod Delta
pub mod Offline
pub mod Graph
pub mod Upload
pub mod Files
pub mod Pending
pub mod Vfs
pub mod Tests
