-- ===== src/Tests/Memory.antt =====
-- The memory cache at concrete inputs.
use carmine_desktop.Common.{
  ◌≡◌, ◌≤◌, ◌+◌, ◌-◌, ◌/◌, ◌&&◌, not, refl, true, none, some, [], ◌∷◌, arith, length, nat_eq, ltb,
  if◌then◌else◌,
}
use carmine_desktop.Common.Map
use carmine_desktop.Common.Map.Unique.{IsUnique}
use carmine_desktop.Memory.{
  MemoryCache, CachedEntry, max_entries, insert, insert_entry, maybe_evict, get, is_protected,
}
use carmine_desktop.Memory.Evict.{maybe_evict_keeps_protected, length-insert_entry}
use carmine_desktop.Memory.Reads.{get-insert_dated}
use carmine_desktop.Tests.{file_item}

abbrev entry : CachedEntry
entry = record { item = file_item "a" none; children = none; inserted_at = 0; last_access = 0 }

-- One entry, with a filter that protects every item.
abbrev protecting : MemoryCache
protecting = record {
  entries = (2, entry) ∷ [];
  ttl_secs = 60;
  eviction_filter = some (λ item. true);
}

protecting-IsUnique : IsUnique protecting.entries
protecting-IsUnique = (Map.get-nil 2, tt)

entry_found : Map.get 2 protecting.entries ≡ some entry
unfolding Map.get
entry_found = refl

test_expired : (get 61000 2 (record protecting { eviction_filter = none })).1 ≡ none
unfolding get Map.get
test_expired = refl

test_expired_protected : (get 61000 2 protecting).1 ≡ some (file_item "a" none)
unfolding get Map.get
test_expired_protected = refl

maybe_evict_keeps_protected_example : Map.get 2 (maybe_evict protecting).entries ≡ some entry
maybe_evict_keeps_protected_example =
    maybe_evict_keeps_protected protecting 2 entry protecting-IsUnique entry_found refl

abbrev empty : MemoryCache
empty = record { entries = []; ttl_secs = 60; eviction_filter = none }

length-insert_entry_example :
    length (insert_entry 5 2 (file_item "a" none) none empty).entries ≤ max_entries + 1
length-insert_entry_example =
    length-insert_entry empty 5 2 (file_item "a" none) none tt refl (omega arith)

get-insert_dated_example : (get 61500 2 (insert 1000 2 (file_item "a" none) empty)).1 ≡ (
    if ltb 60 ((61500 - 1000) / 1000) && not (is_protected none (file_item "a" none))
    then none
    else some (file_item "a" none))
get-insert_dated_example = get-insert_dated 1000 61500 2 (file_item "a" none) empty
