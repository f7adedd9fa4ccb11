-- ===== src/Tests/Disk.antt =====
-- The disk cache at concrete inputs.
use carmine_desktop.Common.{
  ◌≡◌, ◌≢◌, ◌≤◌, ◌⊎◌, ℕ, String, refl, true, false, Option, none, some, [], ◌∷◌, arith, ◌==◌,
  string_eq, pair_eq,
}
use carmine_desktop.Common.Map
use carmine_desktop.Common.Map.Unique.{IsUnique}
use carmine_desktop.Disk.{
  CacheEntry, DiskCache, DiskIo, get, get_range, evict_if_needed, total_size, is_protected,
}
use carmine_desktop.Disk.Budget.{Key, evict_if_needed_over_budget}
use carmine_desktop.Disk.Reads.{get_range-get, slice_of}

abbrev pub working : DiskIo
working = record { writes = true; removes = λ k. true }

abbrev pub tracked : ℕ → ℕ → CacheEntry
tracked size access = record { etag = some "v1"; file_size = size; last_access = access }

abbrev pub first : Key
first = ("d", "01A")

abbrev pub second : Key
second = ("d", "01B")

-- Seven bytes in a cache of five, of which the second item is protected.
abbrev full : DiskCache
full = record {
  max_size_bytes = 5;
  files = (first, 1 ∷ 2 ∷ 3 ∷ 4 ∷ []) ∷ (second, 5 ∷ 6 ∷ 7 ∷ []) ∷ [];
  tracker = (first, tracked 4 2) ∷ (second, tracked 3 1) ∷ [];
  eviction_filter = some (λ d i. i == "01B");
  on_change = true;
  notified = [];
}

full-IsUnique : IsUnique full.tracker
unfolding Map.get
full-IsUnique = (refl, (refl, tt))

-- The older of the two is protected, so the other goes.
kept_row : Map.get second (evict_if_needed working full).tracker ≡ some (tracked 3 1)
unfolding Map.get evict_if_needed carmine_desktop.Common.Map.Sort.sort_by Map.remove
kept_row = refl

test_evicted : (evict_if_needed working full).notified ≡ first ∷ []
unfolding evict_if_needed carmine_desktop.Common.Map.Sort.sort_by
test_evicted = refl

evict_if_needed_over_budget_example :
    (total_size (evict_if_needed working full) ≤ 5)
    ⊎ (is_protected full.eviction_filter second ≡ true)
evict_if_needed_over_budget_example =
    evict_if_needed_over_budget working full second (tracked 3 1) full-IsUnique (ground arith)
      kept_row

-- A range that ends past the file.
get_range-get_example : (get_range 9 "d" "01A" 2 10 full).1 ≡ slice_of 2 10 (get 9 "d" "01A" full).1
get_range-get_example = get_range-get 9 2 10 "d" "01A" full

test_range : (get_range 9 "d" "01A" 2 10 full).1 ≡ some (3 ∷ 4 ∷ [])
unfolding get_range Map.get carmine_desktop.Writeback.sanitize_filename
test_range = refl
