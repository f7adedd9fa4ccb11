-- ===== src/Tests/Store.antt =====
-- The metadata store at concrete inputs.
use carmine_desktop.Common.{
  ℕ, ◌≡◌, ◌≢◌, ◌≤◌, ◌<◌, ◌+◌, ◌-◌, refl, none, some, List, [], ◌∷◌, arith, string_eq, nat_eq, All,
}
use carmine_desktop.Inode.{seed, new_starting_after}
use carmine_desktop.Inode.Consistent.{IsConsistent}
use carmine_desktop.Store.{
  SqliteStore, i64_limit, new, delete_with_tombstone, get_item_by_id, max_inode, all_inode_pairs,
}
use carmine_desktop.Store.Rows.{seed-run-IsConsistent}
use carmine_desktop.Store.Tombstones.{Op, upsert, delta, purge_old, delete, run, get_item_by_id-run}
use carmine_desktop.Tests.{file_item}

-- A listing and a delta that still hold the item, and a purge of old tombstones.
abbrev late_news : List Op
late_news =
    upsert 9 "d" (file_item "a" none) none
    ∷ delta "d" ((10, file_item "a" none, none) ∷ (11, file_item "b" none, none) ∷ []) ("c" ∷ [])
        "token"
    ∷ purge_old 5000 4000
    ∷ []

get_item_by_id-run_example :
    get_item_by_id "a" (run late_news (delete_with_tombstone 1000 "d" "a" new)) ≡ none
get_item_by_id-run_example =
    get_item_by_id-run "a" "d" 1000 late_news new (
      tt,
      (((λ e. absurd (ground (arith, (string_eq.beq_iff "c" "a").1 e))), tt), (omega arith, tt)),
    )

test_new_item :
    get_item_by_id "b" (run late_news (delete_with_tombstone 1000 "d" "a" new))
    ≡ some (11, file_item "b" none)
unfolding get_item_by_id run delete_with_tombstone new carmine_desktop.Common.Map.get
    carmine_desktop.Store.Tombstones.apply carmine_desktop.Store.purge_tombstones_older_than
    carmine_desktop.Store.apply_delta carmine_desktop.Store.upsert_item
    carmine_desktop.Common.Map.insert carmine_desktop.Common.Map.remove
test_new_item = refl

inodes_small : All (λ p. p.0 < i64_limit) (all_inode_pairs (run late_news new))
unfolding all_inode_pairs run new carmine_desktop.Store.Tombstones.apply
    carmine_desktop.Store.purge_tombstones_older_than carmine_desktop.Store.apply_delta
    carmine_desktop.Common.Map.get carmine_desktop.Store.upsert_item
    carmine_desktop.Common.Map.insert carmine_desktop.Common.Map.remove
inodes_small = (omega arith, (omega arith, tt))

seed-run-IsConsistent_example : IsConsistent (
    seed (all_inode_pairs (run late_news new)) (new_starting_after (max_inode (run late_news new))))
seed-run-IsConsistent_example = seed-run-IsConsistent late_news inodes_small

-- An inode of 2^63 is negative in the table, so that it is not the largest.
test_signed :
    max_inode (
      run
        (upsert 5 "d" (file_item "a" none) none
          ∷ upsert i64_limit "d" (file_item "b" none) none
          ∷ [])
        new)
    ≡ 5
unfolding max_inode run new carmine_desktop.Store.Tombstones.apply carmine_desktop.Store.upsert_item
    carmine_desktop.Common.Map.get carmine_desktop.Common.Map.insert
    carmine_desktop.Common.Map.remove
test_signed = refl
