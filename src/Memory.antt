-- ===== src/Memory.antt =====
-- crates/carminedesktop-cache/src/memory.rs: the cache of items in memory. The clock is a number of
-- milliseconds, read once by each operation; `eviction_filter` says which items are protected.
use carmine_desktop.Common.{
  ℕ, ◌+◌, ◌-◌, ◌/◌, String, Bool, true, false, not, ◌&&◌, Option, none, some, List, [], ◌∷◌,
  if◌then◌else◌, ltb, leb, ◌==◌, nat_eq, string_eq, length, unwrap_or,
}
use carmine_desktop.Common.Map
use carmine_desktop.Common.Map.{Map}
use carmine_desktop.Item.{DriveItem}
use carmine_desktop.Names.{eq_ignore_ascii_case}
pub mod Evict
pub mod Reads

abbrev pub default_ttl_secs : ℕ
default_ttl_secs = 60

abbrev pub max_entries : ℕ
max_entries = 10000

abbrev pub evict_to : ℕ
evict_to = 8000

pub record CachedEntry : Type 0 where
  pub item : DriveItem
  pub children : Option (Map String ℕ)
  pub inserted_at : ℕ
  pub last_access : ℕ

pub record MemoryCache : Type 0 where
  pub entries : Map ℕ CachedEntry
  pub ttl_secs : ℕ
  pub eviction_filter : Option (DriveItem → Bool)

unfoldable pub new : Option ℕ → MemoryCache
new ttl_secs = record {
  entries = [];
  ttl_secs = unwrap_or ttl_secs default_ttl_secs;
  eviction_filter = none;
}

unfoldable pub set_eviction_filter : (DriveItem → Bool) → MemoryCache → MemoryCache
set_eviction_filter filter c = record c { eviction_filter = some filter }

-- `is_some_and(|f| f(&entry.item))`
abbrev pub is_protected : Option (DriveItem → Bool) → DriveItem → Bool
is_protected none item = false
is_protected (some f) item = f item

abbrev pub is_expired : ℕ → MemoryCache → CachedEntry → Bool
is_expired now c entry = ltb c.ttl_secs ((now - entry.inserted_at) / 1000)

-- The entry that an access leaves: a protected one that has expired is dated anew.
abbrev pub touched : ℕ → MemoryCache → CachedEntry → CachedEntry
touched now c entry =
    if is_expired now c entry
    then record entry { inserted_at = now; last_access = now }
    else record entry { last_access = now }

unfoldable pub get : ℕ → ℕ → MemoryCache → MemoryCache × Option DriveItem
get now inode c = elim (Map.get inode c.entries) [
  | none ↦ (c, none)
  | some entry ↦
      if is_expired now c entry && not (is_protected c.eviction_filter entry.item)
      then (record c { entries = Map.remove inode c.entries }, none)
      else (
        record c { entries = Map.insert inode (touched now c entry) c.entries },
        some entry.item,
      )
]

-- Unlike `get`, this leaves an expired entry where it is.
unfoldable pub get_children : ℕ → ℕ → MemoryCache → MemoryCache × Option (Map String ℕ)
get_children now parent_inode c = elim (Map.get parent_inode c.entries) [
  | none ↦ (c, none)
  | some entry ↦
      if is_expired now c entry && not (is_protected c.eviction_filter entry.item)
      then (c, none)
      else (
        record c { entries = Map.insert parent_inode (touched now c entry) c.entries },
        entry.children,
      )
]

-- `sort_by_key` on the last access: a stable sort, here by insertion.
unfoldable pub insert_by_access : ℕ × CachedEntry → Map ℕ CachedEntry → Map ℕ CachedEntry
insert_by_access (i, e) [] = (i, e) ∷ []
insert_by_access (i, e) ((j, d) ∷ sorted) =
    let rest = insert_by_access (i, e) sorted in
    if leb e.last_access d.last_access then (i, e) ∷ (j, d) ∷ sorted else (j, d) ∷ rest

unfoldable pub sort_by_access : Map ℕ CachedEntry → Map ℕ CachedEntry
unfolding insert_by_access
sort_by_access [] = []
sort_by_access ((i, e) ∷ m) = insert_by_access (i, e) (sort_by_access m)

-- The loop of `maybe_evict`, over the sorted entries; `left` is `to_remove - removed`.
unfoldable pub evict_loop :
    Option (DriveItem → Bool) → ℕ → Map ℕ CachedEntry → Map ℕ CachedEntry → Map ℕ CachedEntry
evict_loop filter left [] entries = entries
evict_loop filter left ((inode, entry) ∷ sorted) entries =
    let skip = evict_loop filter left sorted entries in
    let take = evict_loop filter (left - 1) sorted (Map.remove inode entries) in
    if leb left 0 then entries else if is_protected filter entry.item then skip else take

unfoldable pub maybe_evict : MemoryCache → MemoryCache
unfolding sort_by_access evict_loop
maybe_evict c = if leb (length c.entries) max_entries then c else record c {
  entries =
      evict_loop c.eviction_filter (length c.entries - evict_to) (sort_by_access c.entries)
        c.entries;
}

unfoldable pub insert_entry : ℕ → ℕ → DriveItem → Option (Map String ℕ) → MemoryCache → MemoryCache
unfolding maybe_evict
insert_entry now inode item children c =
    let c' = maybe_evict c in
    record c' {
      entries =
          Map.insert inode
            (record { item = item; children = children; inserted_at = now; last_access = now })
            c'.entries;
    }

unfoldable pub insert : ℕ → ℕ → DriveItem → MemoryCache → MemoryCache
unfolding insert_entry
insert now inode item c = insert_entry now inode item none c

unfoldable pub insert_with_children : ℕ → ℕ → DriveItem → Map String ℕ → MemoryCache → MemoryCache
unfolding insert_entry
insert_with_children now inode item children c = insert_entry now inode item (some children) c

-- The first key that the test accepts. (The order of a hash map's keys is not fixed.)
unfoldable pub find_key : (String → Bool) → Map String ℕ → Option String
find_key test [] = none
find_key test ((k, v) ∷ m) = let rest = find_key test m in if test k then some k else rest

abbrev pub remove_if_some : Option String → Map String ℕ → Map String ℕ
remove_if_some none children = children
remove_if_some (some k) children = Map.remove k children

unfoldable pub child_added : String → ℕ → Map String ℕ → Map String ℕ
unfolding find_key eq_ignore_ascii_case
child_added name child_inode children =
    let dup = find_key (λ k. eq_ignore_ascii_case k name && not (k == name)) children in
    Map.insert name child_inode (remove_if_some dup children)

unfoldable pub child_removed : String → Map String ℕ → Map String ℕ
unfolding find_key eq_ignore_ascii_case
child_removed name children =
    if Map.contains_key name children
    then Map.remove name children
    else elim (find_key (λ k. eq_ignore_ascii_case k name) children) [
      | some key ↦ Map.remove key children
      | none ↦ Map.remove name children
    ]

-- `if let Some(mut entry) = … && let Some(children) = &mut entry.children { … }`
unfoldable pub update_children : (Map String ℕ → Map String ℕ) → ℕ → MemoryCache → MemoryCache
update_children f parent_inode c = elim (Map.get parent_inode c.entries) [
  | none ↦ c
  | some entry ↦ elim entry.children [
    | none ↦ c
    | some children ↦ record c {
      entries = Map.insert parent_inode (record entry { children = some (f children) }) c.entries;
    }
  ]
]

unfoldable pub add_child : ℕ → String → ℕ → MemoryCache → MemoryCache
unfolding update_children child_added
add_child parent_inode name child_inode c =
    update_children (child_added name child_inode) parent_inode c

unfoldable pub remove_child : ℕ → String → MemoryCache → MemoryCache
unfolding update_children child_removed
remove_child parent_inode name c = update_children (child_removed name) parent_inode c

unfoldable pub invalidate : ℕ → MemoryCache → MemoryCache
invalidate inode c = record c { entries = Map.remove inode c.entries }

unfoldable pub clear : MemoryCache → MemoryCache
clear c = record c { entries = [] }
