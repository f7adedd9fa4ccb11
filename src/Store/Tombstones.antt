-- ===== src/Store/Tombstones.antt =====
-- crates/carminedesktop-cache/src/sqlite.rs: a local delete is not undone by what the server lists.
use carmine_desktop.Common.{
  ℕ, ◌-◌, ◌≤◌, ◌≡◌, ◌≢◌, ap, ◌∙◌, String, true, Option, none, some, List, [], ◌∷◌, arith,
  Bool-cases, Option-cases, inl, inr, nat_eq, string_eq, All,
}
use carmine_desktop.Common.Map
use carmine_desktop.Common.Map.{Map, get-cons, get-insert, get-remove, get-insert_ne, get-remove_ne}
use carmine_desktop.Item.{DriveItem}
use carmine_desktop.Store.Inserted.{updated, fresh, insert_row_cases}
use carmine_desktop.Store.{
  Row, Tombstone, SqliteStore, is_tombstoned, insert_row, upsert_item, get_item_by_id,
  delete_with_tombstone, purge, purge_tombstones_older_than, delta_upserts, delta_deletes,
  apply_delta, set_delta_token,
}

-- What the program does to the store between a local delete and the server's word on it: it takes
-- in items from any listing, applies deltas, deletes other items, purges old tombstones.
pub data Op : Type 0 where
  upsert : ℕ → String → DriveItem → Option ℕ → Op
  delta : String → List (ℕ × DriveItem × Option ℕ) → List String → String → Op
  delete : ℕ → String → String → Op
  purge_old : ℕ → ℕ → Op

unfoldable pub apply : Op → SqliteStore → SqliteStore
apply (upsert inode drive_id item parent) s = (upsert_item inode drive_id item parent s).0
apply (delta drive_id items ids token) s = (apply_delta drive_id items ids token s).0
apply (delete now drive_id item_id) s = delete_with_tombstone now drive_id item_id s
apply (purge_old now secs) s = purge_tombstones_older_than now secs s

unfoldable pub run : List Op → SqliteStore → SqliteStore
run [] s = s
run (op ∷ ops) s = run ops (apply op s)

-- The operation does not confirm the item's deletion, does not delete it anew, and purges nothing
-- as young as its tombstone.
abbrev pub Spares : String → ℕ → Op → Type 0
Spares id at (upsert inode drive_id item parent) = Unit
Spares id at (delta drive_id items ids token) = All (λ x. x ≢ id) ids
Spares id at (delete now drive_id item_id) = item_id ≢ id
Spares id at (purge_old now secs) = now - secs ≤ at

-- The item has no row, and a tombstone of the given date.
pub record IsBuried (id : String) (at : ℕ) (s : SqliteStore) : Type 0 where
  pub drive : String
  pub dated : Map.get id s.tombstones ≡ some (record { drive_id = drive; deleted_at = at })
  pub absent : Map.get id s.items ≡ none

insert_row_ne :
    (id : String) (inode : ℕ) (drive_id : String) (item : DriveItem) (parent : Option ℕ)
    (rows rows' : Map String Row)
    → item.id ≢ id
    → insert_row inode drive_id item parent rows ≡ some rows'
    → Map.get id rows' ≡ Map.get id rows
insert_row_ne id inode drive_id item parent rows rows' ne h =
    elim (insert_row_cases inode drive_id item parent rows rows' h) [
      | inl (row, _, e) ↦ rw e (get-insert_ne item.id id ne (updated row item parent) rows)
      | inr (_, _, e) ↦ rw e (get-insert_ne item.id id ne (fresh inode drive_id item parent) rows)
    ]

delta_upserts_buried :
    (id drive_id : String) (tombstones : Map String Tombstone)
    (items : List (ℕ × DriveItem × Option ℕ)) (rows rows' : Map String Row)
    → Map.contains_key id tombstones ≡ true
    → Map.get id rows ≡ none
    → delta_upserts drive_id tombstones items rows ≡ some rows'
    → Map.get id rows' ≡ none
unfolding delta_upserts
delta_upserts_buried id drive_id tombstones [] rows rows' t a h = ground arith
delta_upserts_buried id drive_id tombstones ((inode, item, parent) ∷ items) rows rows' t a h =
    elim (Bool-cases (Map.contains_key item.id tombstones)) [
      | inl skip ↦
          delta_upserts_buried id drive_id tombstones items rows rows' t a
            (rw (skip, delta_upserts) at h)
      | inr take ↦ elim (Option-cases (insert_row inode drive_id item parent rows)) [
        | inl e ↦ absurd (ground arith)
        | inr (r, e) ↦
            delta_upserts_buried id drive_id tombstones items r rows' t
              (insert_row_ne id inode drive_id item parent rows r
                  (λ p. ground (arith, ap (λ (x : String). Map.contains_key x tombstones) p)) e
                ∙ a)
              (rw (take, e, delta_upserts) at h)
      ]
    ]

delta_deletes-IsBuried :
    (id : String) (at : ℕ) (ids : List String) (s : SqliteStore)
    → All (λ x. x ≢ id) ids
    → IsBuried id at s
    → IsBuried id at (delta_deletes ids s)
unfolding delta_deletes
delta_deletes-IsBuried id at [] s ne b = b
delta_deletes-IsBuried id at (x ∷ ids) s ne b = delta_deletes-IsBuried id at ids _ ne.1 (record {
  drive = b.drive;
  dated = get-remove_ne x id ne.0 s.tombstones ∙ b.dated;
  absent = get-remove_ne x id ne.0 s.items ∙ b.absent;
})

get-purge :
    (id : String) (cutoff : ℕ) (t : Tombstone) (m : Map String Tombstone)
    → Map.get id m ≡ some t
    → cutoff ≤ t.deleted_at
    → Map.get id (purge cutoff m) ≡ some t
unfolding purge Map.get
get-purge id cutoff t [] h le = h
get-purge id cutoff t ((j, u) ∷ m) h le = elim (Bool-cases (string_eq.beq j id)) [
  | inl same ↦ ground arith
  | inr other ↦ ground (arith, get-purge id cutoff t m (ground arith) le)
]

upsert-IsBuried :
    (id : String) (at inode : ℕ) (drive_id : String) (item : DriveItem) (parent : Option ℕ)
    (s : SqliteStore)
    → IsBuried id at s
    → IsBuried id at (upsert_item inode drive_id item parent s).0
unfolding upsert_item is_tombstoned
upsert-IsBuried id at inode drive_id item parent s b =
    elim (Bool-cases (Map.contains_key item.id s.tombstones)) [
      | inl skip ↦ rw (skip, upsert_item) b
      | inr take ↦ elim (Option-cases (insert_row inode drive_id item parent s.items)) [
        | inl e ↦ rw (take, e, upsert_item) b
        | inr (rows, e) ↦
            rw (take, e, upsert_item)
              (record {
                drive = b.drive;
                dated = b.dated;
                absent =
                    insert_row_ne id inode drive_id item parent s.items rows
                      (λ p.
                        ground
                          (arith, b.dated, ap (λ (x : String). Map.contains_key x s.tombstones) p))
                      e
                    ∙ b.absent;
              })
      ]
    ]

delta-IsBuried :
    (id : String) (at : ℕ) (drive_id : String) (items : List (ℕ × DriveItem × Option ℕ))
    (ids : List String) (token : String) (s : SqliteStore)
    → All (λ x. x ≢ id) ids
    → IsBuried id at s
    → IsBuried id at (apply_delta drive_id items ids token s).0
unfolding apply_delta set_delta_token
delta-IsBuried id at drive_id items ids token s ne b =
    elim (Option-cases (delta_upserts drive_id s.tombstones items s.items)) [
      | inl e ↦ rw (e, apply_delta) b
      | inr (rows, e) ↦
          rw (e, apply_delta)
            (let c =
                delta_deletes-IsBuried id at ids (record s { items = rows }) ne
                  (record {
                    drive = b.drive;
                    dated = b.dated;
                    absent =
                        delta_upserts_buried id drive_id s.tombstones items s.items rows
                          (ground (arith, b.dated)) b.absent e;
                  }) in
              record { drive = c.drive; dated = c.dated; absent = c.absent })
    ]

run-IsBuried :
    (id : String) (at : ℕ) (ops : List Op) (s : SqliteStore)
    → All (Spares id at) ops
    → IsBuried id at s
    → IsBuried id at (run ops s)
unfolding run apply purge_tombstones_older_than delete_with_tombstone
run-IsBuried id at [] s h b = b
run-IsBuried id at (upsert inode drive_id item parent ∷ ops) s h b =
    run-IsBuried id at ops _ h.1 (upsert-IsBuried id at inode drive_id item parent s b)
run-IsBuried id at (delta drive_id items ids token ∷ ops) s h b =
    run-IsBuried id at ops _ h.1 (delta-IsBuried id at drive_id items ids token s h.0 b)
run-IsBuried id at (delete now drive_id item_id ∷ ops) s h b =
    run-IsBuried id at ops _ h.1 (record {
      drive = b.drive;
      dated =
          get-insert_ne item_id id h.0 (record { drive_id = drive_id; deleted_at = now })
            s.tombstones
          ∙ b.dated;
      absent = get-remove_ne item_id id h.0 s.items ∙ b.absent;
    })
run-IsBuried id at (purge_old now secs ∷ ops) s h b = run-IsBuried id at ops _ h.1 (record {
  drive = b.drive;
  dated =
      get-purge id (now - secs) (record { drive_id = b.drive; deleted_at = at }) s.tombstones
        b.dated h.0;
  absent = b.absent;
})

-- An item that was deleted locally stays away: whatever listings and deltas bring it back in, it
-- has no row as long as no delta confirms the deletion, it is not deleted anew, and no purge takes
-- tombstones as young as its own.
pub get_item_by_id-run :
    (id drive_id : String) (now : ℕ) (ops : List Op) (s : SqliteStore)
    → All (Spares id now) ops
    → get_item_by_id id (run ops (delete_with_tombstone now drive_id id s)) ≡ none
unfolding get_item_by_id delete_with_tombstone
get_item_by_id-run id drive_id now ops s h =
    let b = run-IsBuried id now ops (delete_with_tombstone now drive_id id s) h (record {
      drive = drive_id;
      dated =
          Map.get-insert_self id (record { drive_id = drive_id; deleted_at = now }) s.tombstones;
      absent = Map.get-remove_self id s.items;
    }) in
    ground (arith, b.absent)
