-- ===== src/Memory/Reads.antt =====
-- crates/carminedesktop-cache/src/memory.rs: what `get` returns after an insertion.
use carmine_desktop.Common.{
  ℕ, ◌-◌, ◌/◌, ◌≡◌, refl, not, ◌&&◌, none, some, if◌then◌else◌, ltb, leb, length, arith, nat_eq,
  if_lem,
}
use carmine_desktop.Common.Map
use carmine_desktop.Item.{DriveItem}
use carmine_desktop.Memory.{
  MemoryCache, CachedEntry, max_entries, is_protected, maybe_evict, insert_entry, insert, get,
}

maybe_evict_settings :
    (c : MemoryCache)
    → ((maybe_evict c).ttl_secs ≡ c.ttl_secs)
      × ((maybe_evict c).eviction_filter ≡ c.eviction_filter)
unfolding maybe_evict
maybe_evict_settings c =
    if_lem
      (λ (d : MemoryCache). (d.ttl_secs ≡ c.ttl_secs) × (d.eviction_filter ≡ c.eviction_filter))
      (leb (length c.entries) max_entries) (refl, refl) (refl, refl)

-- After an insertion, `get` returns the item until more seconds have passed than the cache keeps an
-- entry, and after that exactly if the filter protects it.
pub get-insert_dated :
    (now later inode : ℕ) (item : DriveItem) (c : MemoryCache)
    → (get later inode (insert now inode item c)).1 ≡ (
        if ltb c.ttl_secs ((later - now) / 1000) && not (is_protected c.eviction_filter item)
        then none
        else some item)
unfolding get insert insert_entry
get-insert_dated now later inode item c =
    let entry : CachedEntry = record {
      item = item;
      children = none;
      inserted_at = now;
      last_access = now;
    } in
    let (ttl, filter) = maybe_evict_settings c in
    rw (Map.get-insert_self inode entry (maybe_evict c).entries, get, ttl, filter) (ground arith)
