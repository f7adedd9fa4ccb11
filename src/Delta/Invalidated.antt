-- ===== src/Delta/Invalidated.antt =====
-- crates/carminedesktop-cache/src/sync.rs: what becomes of the cached content of changed files.
use carmine_desktop.Common.{
  ℕ, ◌≡◌, String, Bool, true, false, Option, none, some, List, [], ◌∷◌, arith, Option-cases, inl,
  inr, if_lem, ◌==◌, nat_eq, string_eq, All, All-append, All-map, if◌then◌else◌, unwrap_or,
}
use carmine_desktop.Delta.{
  Caches, SyncEnv, Progress, DeltaSyncResult, allocate_if, delta_deleted, invalidate_content,
  delta_upserted, delta_item, delta_items, content_changed, record_delta, finish_delta,
  apply_response, purged, delta_call, run_delta_sync, begin,
}
use carmine_desktop.Delta.Older.{
  IsOlder, IsOlder-refl, IsOlder-trans, IsOlder-memory, delta_deleted-IsOlder,
  invalidate_content-IsOlder, allocated-IsOlder, get_inode-allocate_self, get_inode-allocate_if,
  delta_items-IsOlder,
}
use carmine_desktop.Disk.{has, content_path}
use carmine_desktop.Disk.Reads.{has-remove_self}
use carmine_desktop.Graph.{Service, DeltaResponse}
use carmine_desktop.Inode.{get_inode, allocate}
use carmine_desktop.Item.{DriveItem, parent_id, Result, ok, err}
use carmine_desktop.Pins.{elem}
use carmine_desktop.Store

abbrev pub is_marked : Option ℕ → Caches → Bool
is_marked none c = false
is_marked (some i) c = elem i c.dirty_inodes

-- The item's inode is marked dirty, and the disk cache has no file for it.
abbrev pub IsInvalidated : String → Caches → DriveItem → Type 0
IsInvalidated drive_id c item =
    (is_marked (get_inode item.id c.inodes) c ≡ true) × (has drive_id item.id c.disk ≡ false)

IsInvalidated-later :
    (drive_id : String) (c c' : Caches) (item : DriveItem)
    → IsOlder drive_id c c'
    → IsInvalidated drive_id c item
    → IsInvalidated drive_id c' item
IsInvalidated-later drive_id c c' item older h = elim (Option-cases (get_inode item.id c.inodes)) [
  | inl e ↦ ground (arith, e, h)
  | inr (i, e) ↦ (
    ground (arith, e, h, older.inode_kept item.id i e, older.still_dirty i),
    older.no_file item.id h.1,
  )
]

abbrev AllInvalidated : SyncEnv → Progress → Type 0
AllInvalidated env p = All (IsInvalidated env.drive_id p.caches) p.result.changed_items

module _ (env : SyncEnv) (removes : (k : String × String) → env.disk_io.removes k ≡ true) where
  delta_deleted-AllInvalidated :
      (item : DriveItem) (p : Progress)
      → AllInvalidated env p
      → AllInvalidated env (delta_deleted env item p)
  unfolding delta_deleted
  delta_deleted-AllInvalidated item p h =
      All-map _ _
        (λ x. IsInvalidated-later env.drive_id p.caches _ x (delta_deleted-IsOlder env item p))
        p.result.changed_items h

  invalidate_content-AllInvalidated :
      (inode : ℕ) (item : DriveItem) (p : Progress)
      → get_inode item.id p.caches.inodes ≡ some inode
      → AllInvalidated env p
      → AllInvalidated env (invalidate_content env inode item p)
  unfolding invalidate_content
  invalidate_content-AllInvalidated inode item p e h =
      All-append _ p.result.changed_items (item ∷ [])
        (All-map _ _
          (λ x.
            IsInvalidated-later env.drive_id p.caches _ x
              (invalidate_content-IsOlder env item p inode))
          p.result.changed_items h)
        (
          (
            ground (arith, e, nat_eq.beq_iff inode inode),
            has-remove_self env.disk_io env.drive_id item.id p.caches.disk
                (removes (content_path env.drive_id item.id)),
          ),
          tt,
        )

  delta_upserted-AllInvalidated :
      (item : DriveItem) (p : Progress)
      → AllInvalidated env p
      → AllInvalidated env (delta_upserted env item p)
  unfolding delta_upserted
  delta_upserted-AllInvalidated item p h =
      let (inodes, inode) = allocate item.id p.caches.inodes in
      let (inodes', parent_inode) = allocate_if (parent_id item) inodes in
      let p' : Progress = record p { caches = record p.caches { inodes = inodes' } } in
      let q : Progress =
        if content_changed item p.caches.store then invalidate_content env inode item p' else p' in
      let h' : AllInvalidated env p' =
        All-map _ _
          (λ x.
            IsInvalidated-later env.drive_id p.caches p'.caches x (allocated-IsOlder env item p))
          p.result.changed_items h in
      let k : AllInvalidated env q =
        if_lem (AllInvalidated env) (content_changed item p.caches.store)
          (invalidate_content-AllInvalidated inode item p'
            (get_inode-allocate_if (parent_id item) item.id inode inodes
              (get_inode-allocate_self item.id p.caches.inodes))
            h')
          h' in
      All-map _ _
        (λ x.
          IsInvalidated-later env.drive_id q.caches _ x
            (IsOlder-memory env.drive_id q.caches q.caches _ (IsOlder-refl env.drive_id q.caches)))
        q.result.changed_items k

  delta_items-AllInvalidated :
      (items : List DriveItem) (p : Progress)
      → AllInvalidated env p
      → AllInvalidated env (delta_items env items p)
  unfolding delta_items
  delta_items-AllInvalidated [] p h = h
  delta_items-AllInvalidated (item ∷ items) p h =
      delta_items-AllInvalidated items (delta_item env item p) (one item p h)
    where
      one :
          (item : DriveItem) (p : Progress)
          → AllInvalidated env p
          → AllInvalidated env (delta_item env item p)
      one item p h =
          unfold delta_item in
          if_lem (AllInvalidated env) (item.name == "") (delta_deleted-AllInvalidated item p h) (
            if_lem (AllInvalidated env) (Store.is_tombstoned item.id p.caches.store) h
              (delta_upserted-AllInvalidated item p h))

-- The caches after a sync, and the items reported as changed.
abbrev pub IsSynced : String → Caches → Caches × Result DeltaSyncResult → Type 0
IsSynced drive_id c (c', ok r) =
    IsOlder drive_id c c' × All (IsInvalidated drive_id c') r.changed_items
IsSynced drive_id c (c', err e) = IsOlder drive_id c c'

IsOlder-store :
    (drive_id : String) (a b : Caches) (s : Store.SqliteStore)
    → IsOlder drive_id a b
    → IsOlder drive_id a (record b { store = s })
IsOlder-store drive_id a b s h = record {
  inode_kept = h.inode_kept;
  no_file = h.no_file;
  still_dirty = h.still_dirty;
}

finish_delta-IsSynced :
    (drive_id : String) (c : Caches) (p : Progress) (r : Store.SqliteStore × Result (Unit {0}))
    → IsOlder drive_id c p.caches
    → All (IsInvalidated drive_id p.caches) p.result.changed_items
    → IsSynced drive_id c (finish_delta p r)
unfolding finish_delta
finish_delta-IsSynced drive_id c p (store, err e) older h =
    IsOlder-store drive_id c p.caches store older
finish_delta-IsSynced drive_id c p (store, ok _) older h = (
  IsOlder-store drive_id c p.caches store older,
  All-map _ _
      (λ x.
        IsInvalidated-later drive_id p.caches _ x
          (IsOlder-store drive_id p.caches p.caches store (IsOlder-refl drive_id p.caches)))
      p.result.changed_items h,
)

apply_response-IsSynced :
    (env : SyncEnv) (c : Caches) (answer : Result DeltaResponse)
    → ((k : String × String) → env.disk_io.removes k ≡ true)
    → IsSynced env.drive_id c (apply_response env c answer)
unfolding apply_response record_delta begin
apply_response-IsSynced env c (err e) removes = IsOlder-refl env.drive_id c
apply_response-IsSynced env c (ok response) removes =
    let p = delta_items env response.value (begin c) in
    let older = delta_items-IsOlder env response.value (begin c) in
    let h = delta_items-AllInvalidated env removes response.value (begin c) tt in
    if_lem (IsSynced env.drive_id c) (unwrap_or response.delta_link "" == "") (older, h)
      (finish_delta-IsSynced env.drive_id c p _ older h)

-- Of the caches the first step changes the store's tombstones and the calls.
IsSynced-earlier :
    (drive_id : String) (c b : Caches) (r : Caches × Result DeltaSyncResult)
    → IsOlder drive_id c b
    → IsSynced drive_id b r
    → IsSynced drive_id c r
IsSynced-earlier drive_id c b (c', ok x) h k = (IsOlder-trans drive_id c b c' h k.0, k.1)
IsSynced-earlier drive_id c b (c', err e) h k = IsOlder-trans drive_id c b c' h k

-- A sync reports a file as changed only with its inode marked dirty and its cached content thrown
-- away, so that it is not read again. On every branch no inode is lost, no content comes into the
-- disk cache and no mark is taken away. The file system lets the files be removed.
pub run_delta_sync-IsSynced :
    (env : SyncEnv) (service : Service) (c : Caches)
    → ((k : String × String) → env.disk_io.removes k ≡ true)
    → IsSynced env.drive_id c (run_delta_sync env service c)
unfolding run_delta_sync purged
run_delta_sync-IsSynced env service c removes =
    let p = purged env c in
    let b : Caches = record p { calls = delta_call env p ∷ p.calls } in
    IsSynced-earlier env.drive_id c b (run_delta_sync env service c)
      (record { inode_kept = λ id i h. h; no_file = λ id h. h; still_dirty = λ i h. h })
      (apply_response-IsSynced env b (service.delta p.calls (delta_call env p)) removes)
