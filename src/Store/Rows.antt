-- ===== src/Store/Rows.antt =====
-- crates/carminedesktop-cache/src/sqlite.rs: the schema's constraints hold of every store that the
-- operations reach, and the inode table of the next mount can be seeded from it.
use carmine_desktop.Common.{
  ℕ, ◌≤◌, ◌<◌, ◌≡◌, ◌≢◌, sym, String, false, Option, none, some, List, [], ◌∷◌, arith, Bool-cases,
  Option-cases, inl, inr, nat_eq, string_eq, All, if_lem, some_inj, unwrap_or, max,
}
use mathlib.Core.Path.{subst}
use carmine_desktop.Common.Map
use carmine_desktop.Common.Map.{Map}
use carmine_desktop.Inode.{seed, new_starting_after}
use carmine_desktop.Inode.Consistent.{IsConsistent, IsFresh, IsDistinct, seed-IsConsistent}
use carmine_desktop.Item.{DriveItem, Result}
use carmine_desktop.Store.{
  Row, Tombstone, SqliteStore, new, inode_taken, insert_row, upsert_item, is_tombstoned,
  delete_with_tombstone, purge_tombstones_older_than, delta_upserts, delta_deletes, apply_delta,
  set_delta_token, i64_limit, signed_max, max_inode_of, max_inode, pairs_of, all_inode_pairs,
}
use carmine_desktop.Store.Inserted.{insert_row_cases}
use carmine_desktop.Store.Tombstones.{Op, upsert, delta, delete, purge_old, apply, run}

module _ {κ} (P : ℕ × String → Type κ) (k : String) where
  All-pairs_of-remove :
      (m : Map String Row) → All P (pairs_of m) → All P (pairs_of (Map.remove k m))
  unfolding pairs_of Map.remove
  All-pairs_of-remove [] h = tt
  All-pairs_of-remove ((j, r) ∷ m) h = elim (Bool-cases (string_eq.beq j k)) [
    | inl same ↦ rw (same, Map.remove) (All-pairs_of-remove m h.1)
    | inr other ↦ rw (other, Map.remove) (h.0, All-pairs_of-remove m h.1)
  ]

  All-pairs_of-get :
      (m : Map String Row) (row : Row)
      → All P (pairs_of m)
      → Map.get k m ≡ some row
      → P (row.inode, k)
  unfolding pairs_of Map.get
  All-pairs_of-get [] row h e = absurd (ground arith)
  All-pairs_of-get ((j, r) ∷ m) row h e = elim (Bool-cases (string_eq.beq j k)) [
    | inl same ↦
        let jk : j ≡ k = (string_eq.beq_iff j k).0 same in
        let at : some r ≡ some row = ground arith in
        let p : ◌≡◌ {A = ℕ × String} (r.inode, j) (row.inode, k) = ground arith in subst P p h.0
    | inr other ↦ All-pairs_of-get m row h.1 (ground arith)
  ]

IsDistinct-remove :
    (k : String) (m : Map String Row)
    → IsDistinct (pairs_of m)
    → IsDistinct (pairs_of (Map.remove k m))
unfolding pairs_of Map.remove
IsDistinct-remove k [] d = tt
IsDistinct-remove k ((j, r) ∷ m) d = elim (Bool-cases (string_eq.beq j k)) [
  | inl same ↦ rw (same, Map.remove) (IsDistinct-remove k m d.1)
  | inr other ↦
      rw (other, Map.remove)
        (All-pairs_of-remove (λ p. (r.inode ≢ p.0) × (j ≢ p.1)) k m d.0, IsDistinct-remove k m d.1)
]

IsFresh-known :
    (k : String) (m : Map String Row) (row : Row)
    → IsDistinct (pairs_of m)
    → Map.get k m ≡ some row
    → IsFresh row.inode k (pairs_of (Map.remove k m))
unfolding pairs_of Map.remove Map.get
IsFresh-known k [] row d e = tt
IsFresh-known k ((j, r) ∷ m) row d e = elim (Bool-cases (string_eq.beq j k)) [
  | inl same ↦
      let jk : j ≡ k = (string_eq.beq_iff j k).0 same in
      let at : some r ≡ some row = ground arith in
      let p : ◌≡◌ {A = ℕ × String} (r.inode, j) (row.inode, k) = ground arith in
      rw (same, Map.remove)
        (All-pairs_of-remove (λ q. (row.inode ≢ q.0) × (k ≢ q.1)) k m
          (subst (λ (q : ℕ × String). IsFresh q.0 q.1 (pairs_of m)) p d.0))
  | inr other ↦
      let at : Map.get k m ≡ some row = ground arith in
      let (a, b) = All-pairs_of-get (λ p. (r.inode ≢ p.0) × (j ≢ p.1)) k m row d.0 at in
      rw (other, Map.remove) ((λ q. a (sym q), λ q. b (sym q)), IsFresh-known k m row d.1 at)
]

IsFresh-free :
    (inode : ℕ) (k : String) (m : Map String Row)
    → inode_taken inode m ≡ false
    → Map.get k m ≡ none
    → IsFresh inode k (pairs_of m)
unfolding inode_taken pairs_of Map.get
IsFresh-free inode k [] t e = tt
IsFresh-free inode k ((j, r) ∷ m) t e = (
  (λ p. ground (arith, nat_eq.beq_iff r.inode inode), λ p. ground (arith, string_eq.beq_iff j k)),
  IsFresh-free inode k m (ground arith) (ground arith),
)

insert_row-IsDistinct :
    (inode : ℕ) (drive_id : String) (item : DriveItem) (parent : Option ℕ)
    (rows rows' : Map String Row)
    → IsDistinct (pairs_of rows)
    → insert_row inode drive_id item parent rows ≡ some rows'
    → IsDistinct (pairs_of rows')
unfolding Map.insert pairs_of
insert_row-IsDistinct inode drive_id item parent rows rows' d h =
    elim (insert_row_cases inode drive_id item parent rows rows' h) [
      | inl (row, at, e) ↦
          rw e (IsFresh-known item.id rows row d at, IsDistinct-remove item.id rows d)
      | inr (absent, free, e) ↦ rw e (
        All-pairs_of-remove (λ q. (inode ≢ q.0) × (item.id ≢ q.1)) item.id rows
            (IsFresh-free inode item.id rows free absent),
        IsDistinct-remove item.id rows d,
      )
    ]

delta_upserts-IsDistinct :
    (drive_id : String) (tombstones : Map String Tombstone)
    (items : List (ℕ × DriveItem × Option ℕ)) (rows rows' : Map String Row)
    → IsDistinct (pairs_of rows)
    → delta_upserts drive_id tombstones items rows ≡ some rows'
    → IsDistinct (pairs_of rows')
unfolding delta_upserts
delta_upserts-IsDistinct drive_id tombstones [] rows rows' d h =
    subst (λ (r : Map String Row). IsDistinct (pairs_of r)) (some_inj h) d
delta_upserts-IsDistinct drive_id tombstones ((inode, item, parent) ∷ items) rows rows' d h =
    elim (Bool-cases (Map.contains_key item.id tombstones)) [
      | inl skip ↦
          delta_upserts-IsDistinct drive_id tombstones items rows rows' d
            (rw (skip, delta_upserts) at h)
      | inr take ↦ elim (Option-cases (insert_row inode drive_id item parent rows)) [
        | inl e ↦ absurd (ground arith)
        | inr (r, e) ↦
            delta_upserts-IsDistinct drive_id tombstones items r rows'
              (insert_row-IsDistinct inode drive_id item parent rows r d e)
              (rw (take, e, delta_upserts) at h)
      ]
    ]

delta_deletes-IsDistinct :
    (ids : List String) (s : SqliteStore)
    → IsDistinct (pairs_of s.items)
    → IsDistinct (pairs_of (delta_deletes ids s).items)
unfolding delta_deletes
delta_deletes-IsDistinct [] s d = d
delta_deletes-IsDistinct (id ∷ ids) s d =
    delta_deletes-IsDistinct ids _ (IsDistinct-remove id s.items d)

apply-IsDistinct :
    (op : Op) (s : SqliteStore)
    → IsDistinct (pairs_of s.items)
    → IsDistinct (pairs_of (apply op s).items)
unfolding apply upsert_item is_tombstoned apply_delta set_delta_token delete_with_tombstone
    purge_tombstones_older_than
apply-IsDistinct (upsert inode drive_id item parent) s d =
    if_lem (λ (r : SqliteStore × Result (Unit {0})). IsDistinct (pairs_of r.0.items))
      (Map.contains_key item.id s.tombstones) d
      (elim (Option-cases (insert_row inode drive_id item parent s.items)) [
        | inl e ↦ rw e d
        | inr (rows, e) ↦ rw e (insert_row-IsDistinct inode drive_id item parent s.items rows d e)
      ])
apply-IsDistinct (delta drive_id items ids token) s d =
    elim (Option-cases (delta_upserts drive_id s.tombstones items s.items)) [
      | inl e ↦ rw (e, apply_delta, apply) d
      | inr (rows, e) ↦
          rw (e, apply_delta, apply)
            (delta_deletes-IsDistinct ids (record s { items = rows })
              (delta_upserts-IsDistinct drive_id s.tombstones items s.items rows d e))
    ]
apply-IsDistinct (delete now drive_id item_id) s d = IsDistinct-remove item_id s.items d
apply-IsDistinct (purge_old now secs) s d = d

run-IsDistinct :
    (ops : List Op) (s : SqliteStore)
    → IsDistinct (pairs_of s.items)
    → IsDistinct (pairs_of (run ops s).items)
unfolding run
run-IsDistinct [] s d = d
run-IsDistinct (op ∷ ops) s d = run-IsDistinct ops (apply op s) (apply-IsDistinct op s d)

-- Under 2^63 the table's order is that of the inodes.
max_inode_of-cons :
    (id : String) (row : Row) (m : Map String Row)
    → row.inode < i64_limit
    → unwrap_or (max_inode_of m) 0 < i64_limit
    → unwrap_or (max_inode_of ((id, row) ∷ m)) 0 ≡ max row.inode (unwrap_or (max_inode_of m) 0)
unfolding max_inode_of signed_max
max_inode_of-cons id row m h k = ground (arith, h, k)

max_inode_of_bounded :
    (m : Map String Row)
    → All (λ p. p.0 < i64_limit) (pairs_of m)
    → unwrap_or (max_inode_of m) 0 < i64_limit
unfolding max_inode_of pairs_of
max_inode_of_bounded [] h = omega arith
max_inode_of_bounded ((id, row) ∷ m) h =
    let ih = max_inode_of_bounded m h.1 in omega (arith, h.0, ih, max_inode_of-cons id row m h.0 ih)

max_inode_of_bounds :
    (m : Map String Row) (n : ℕ)
    → All (λ p. p.0 < i64_limit) (pairs_of m)
    → unwrap_or (max_inode_of m) 0 ≤ n
    → All (λ p. p.0 ≤ n) (pairs_of m)
unfolding pairs_of
max_inode_of_bounds [] n b h = tt
max_inode_of_bounds ((id, row) ∷ m) n b h =
    let e = max_inode_of-cons id row m b.0 (max_inode_of_bounded m b.1) in
    (omega (arith, e), max_inode_of_bounds m n b.1 (omega (arith, e)))

-- However a store was filled from an empty one, if its inodes are all under 2^63, the inode table of
-- the next mount, which starts after the largest of them and is seeded with the store's rows, is
-- consistent.
pub seed-run-IsConsistent :
    (ops : List Op)
    → All (λ p. p.0 < i64_limit) (all_inode_pairs (run ops new))
    → IsConsistent
        (seed (all_inode_pairs (run ops new)) (new_starting_after (max_inode (run ops new))))
unfolding max_inode all_inode_pairs
seed-run-IsConsistent ops h =
    let rows = (run ops new).items in
    seed-IsConsistent (max_inode (run ops new)) (pairs_of rows)
      (omega (arith, max_inode_of_bounded rows h))
      (run-IsDistinct ops new (unfold new pairs_of in tt))
      (max_inode_of_bounds rows (max_inode (run ops new)) h (omega arith))
