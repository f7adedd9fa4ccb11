-- ===== src/Memory/Evict.antt =====
-- crates/carminedesktop-cache/src/memory.rs: what eviction takes and what it keeps.
use carmine_desktop.Common.{
  ℕ, suc, ◌+◌, ◌-◌, ◌≤◌, ◌<◌, ◌≡◌, refl, sym, ap, ◌∙◌, String, min, leb_false→lt, leb→le,
  lt→leb_false, Bool, true, Option, none, some, [], ◌∷◌, arith, Bool-cases, inl, inr, ◌==◌, nat_eq,
  if◌then◌else◌, length, leb, if_lem,
}
use carmine_desktop.Common.Map
use carmine_desktop.Common.Map.{Map, get-cons, get-remove, get-insert, get-remove_ne}
use carmine_desktop.Common.Map.Unique.{IsUnique, length-remove, remove-IsUnique, length-insert-le}
use carmine_desktop.Item.{DriveItem}
use carmine_desktop.Memory.{
  CachedEntry, MemoryCache, is_protected, insert_by_access, sort_by_access, evict_loop, maybe_evict,
  insert_entry, max_entries, evict_to,
}

-- Sorting keeps what a key finds.
get-insert_by_access :
    (i : ℕ) (e : CachedEntry) (m : Map ℕ CachedEntry) (k : ℕ)
    → Map.get i m ≡ none
    → Map.get k (insert_by_access (i, e) m) ≡ (if i == k then some e else Map.get k m)
unfolding insert_by_access Map.get
get-insert_by_access i e [] k h = refl
get-insert_by_access i e ((j, d) ∷ m) k h = ground (
  arith,
  nat_eq.beq_iff j i,
  nat_eq.beq_iff j k,
  nat_eq.beq_iff i k,
  get-insert_by_access i e m k,
)

insert_by_access-IsUnique :
    (i : ℕ) (e : CachedEntry) (m : Map ℕ CachedEntry)
    → Map.get i m ≡ none
    → IsUnique m
    → IsUnique (insert_by_access (i, e) m)
unfolding insert_by_access
insert_by_access-IsUnique i e [] h u = (Map.get-nil i, tt)
insert_by_access-IsUnique i e ((j, d) ∷ m) h u =
    let absent : Map.get i m ≡ none = ground (arith, get-cons i j d m) in
    if_lem (λ (l : Map ℕ CachedEntry). IsUnique l) (leb e.last_access d.last_access) (h, u)
      (
        ground (
          arith,
          get-insert_by_access i e m j absent,
          get-cons i j d m,
          u.0,
          nat_eq.beq_iff j i,
          nat_eq.beq_iff i j,
        ),
        insert_by_access-IsUnique i e m absent u.1,
      )

length-insert_by_access :
    (p : ℕ × CachedEntry) (m : Map ℕ CachedEntry) → length (insert_by_access p m) ≡ suc (length m)
unfolding insert_by_access
length-insert_by_access (i, e) [] = refl
length-insert_by_access (i, e) ((j, d) ∷ m) = ground (arith, length-insert_by_access (i, e) m)

-- The sorted entries are those of the map.
record IsSortOf (sorted m : Map ℕ CachedEntry) : Type 0 where
  unique : IsUnique sorted
  same : (k : ℕ) → Map.get k sorted ≡ Map.get k m
  long : length sorted ≡ length m

sort_by_access-IsSortOf : (m : Map ℕ CachedEntry) → IsUnique m → IsSortOf (sort_by_access m) m
unfolding sort_by_access
sort_by_access-IsSortOf [] u = record { unique = tt; same = λ k. refl; long = refl }
sort_by_access-IsSortOf ((i, e) ∷ m) u =
    let s = sort_by_access-IsSortOf m u.1 in
    record {
      unique = insert_by_access-IsUnique i e (sort_by_access m) (s.same i ∙ u.0) s.unique;
      same = λ k. ground (
        arith,
        get-insert_by_access i e (sort_by_access m) k (s.same i ∙ u.0),
        get-cons k i e m,
        s.same k,
      );
      long = length-insert_by_access (i, e) (sort_by_access m) ∙ ap suc s.long;
    }

-- What holds of the entry under a key holds of it in the rest of a map with unique keys.
later :
    (j : ℕ) (d : CachedEntry) (m : Map ℕ CachedEntry) (P : ℕ → CachedEntry → Type 0)
    → IsUnique ((j, d) ∷ m)
    → ((i : ℕ) (e : CachedEntry) → Map.get i ((j, d) ∷ m) ≡ some e → P i e)
    → (i : ℕ) (e : CachedEntry) → Map.get i m ≡ some e
    → P i e
later j d m P u h i e p = h i e (ground (arith, get-cons i j d m, nat_eq.beq_iff j i, u.0))

abbrev IsKept : Option (DriveItem → Bool) → ℕ → ℕ → CachedEntry → Type 0
IsKept filter i k e = i ≡ k → is_protected filter e.item ≡ true

-- A key that stands in the sorted list with a protected entry only is not removed.
evict_loop_keeps :
    (filter : Option (DriveItem → Bool)) (left : ℕ) (sorted entries : Map ℕ CachedEntry) (i : ℕ)
    → IsUnique sorted
    → ((k : ℕ) (e : CachedEntry) → Map.get k sorted ≡ some e → IsKept filter i k e)
    → Map.get i (evict_loop filter left sorted entries) ≡ Map.get i entries
unfolding evict_loop
evict_loop_keeps filter left [] entries i u h = refl
evict_loop_keeps filter left ((j, d) ∷ sorted) entries i u h = elim (Bool-cases (leb left 0)) [
  | inl done ↦ rw (done, evict_loop)
  | inr more ↦ elim (Bool-cases (is_protected filter d.item)) [
    | inl keep ↦
        rw (more, keep, evict_loop)
          (evict_loop_keeps filter left sorted entries i u.1
            (later j d sorted (IsKept filter i) u h))
    | inr drop ↦
        rw (more, drop, evict_loop)
          (evict_loop_keeps filter (left - 1) sorted (Map.remove j entries) i u.1
              (later j d sorted (IsKept filter i) u h)
            ∙ get-remove_ne j i
                (λ p. ground (arith, h j d (ground (arith, get-cons j j d sorted)) (sym p)))
                entries)
  ]
]

-- In a cache that holds a key once, an entry that the filter protects is there after an eviction
-- as it was before.
pub maybe_evict_keeps_protected :
    (c : MemoryCache) (i : ℕ) (e : CachedEntry)
    → IsUnique c.entries
    → Map.get i c.entries ≡ some e
    → is_protected c.eviction_filter e.item ≡ true
    → Map.get i (maybe_evict c).entries ≡ some e
unfolding maybe_evict
maybe_evict_keeps_protected c i e u h p =
    let s = sort_by_access-IsSortOf c.entries u in
    if_lem (λ (d : MemoryCache). Map.get i d.entries ≡ some e) (leb (length c.entries) max_entries)
      h
      (evict_loop_keeps c.eviction_filter (length c.entries - evict_to) (sort_by_access c.entries)
          c.entries i s.unique (λ k d q r. ground (arith, s.same k))
        ∙ h)

-- With no filter the loop removes as many entries as it is told, while there are any.
length-evict_loop :
    (left : ℕ) (sorted entries : Map ℕ CachedEntry)
    → IsUnique sorted
    → IsUnique entries
    → ((k : ℕ) (e : CachedEntry) → Map.get k sorted ≡ some e → Map.get k entries ≡ some e)
    → length (evict_loop none left sorted entries) + min left (length sorted) ≡ length entries
unfolding evict_loop
length-evict_loop left [] entries u v h = omega arith
length-evict_loop left ((j, d) ∷ sorted) entries u v h = elim (Bool-cases (leb left 0)) [
  | inl done ↦ rw (done, evict_loop) (ground arith)
  | inr more ↦
      rw (more, evict_loop)
        (let at = h j d (ground (arith, get-cons j j d sorted)) in
          omega (
            arith,
            length-remove j entries d v at,
            leb_false→lt left 0 more,
            length-evict_loop (left - 1) sorted (Map.remove j entries) u.1
                (remove-IsUnique j entries v)
                (λ k e p.
                  get-remove_ne j k (λ q. ground (arith, u.0, ap (λ (n : ℕ). Map.get n sorted) q))
                    entries
                  ∙ later j d sorted (λ k e. Map.get k entries ≡ some e) u h k e p),
          ))
]

abbrev entry_of : ℕ → DriveItem → Option (Map String ℕ) → CachedEntry
entry_of now item children = record {
  item = item;
  children = children;
  inserted_at = now;
  last_access = now;
}

maybe_evict_small :
    (c : MemoryCache) → leb (length c.entries) max_entries ≡ true → maybe_evict c ≡ c
unfolding maybe_evict
maybe_evict_small c h = rw (h, maybe_evict)

-- With no filter, an eviction from more than 10,000 entries leaves 8,000.
pub length-maybe_evict :
    (c : MemoryCache)
    → IsUnique c.entries
    → c.eviction_filter ≡ none
    → max_entries < length c.entries
    → length (maybe_evict c).entries ≡ evict_to
unfolding maybe_evict
length-maybe_evict c u f h =
    let s = sort_by_access-IsSortOf c.entries u in
    rw (lt→leb_false _ _ h, maybe_evict, f)
      (omega (
        arith,
        s.long,
        length-evict_loop (length c.entries - evict_to) (sort_by_access c.entries) c.entries
            s.unique u (λ k e p. sym (s.same k) ∙ p),
      ))

-- In a cache that holds a key once and has no filter, an insertion leaves 10,001 entries at most,
-- if there were no more before.
pub length-insert_entry :
    (c : MemoryCache) (now inode : ℕ) (item : DriveItem) (children : Option (Map String ℕ))
    → IsUnique c.entries
    → c.eviction_filter ≡ none
    → length c.entries ≤ max_entries + 1
    → length (insert_entry now inode item children c).entries ≤ max_entries + 1
unfolding insert_entry
length-insert_entry c now inode item children u f h =
    elim (Bool-cases (leb (length c.entries) max_entries)) [
      | inl small ↦ omega (
        arith,
        length-insert-le inode (entry_of now item children) (maybe_evict c).entries,
        ap (λ (d : MemoryCache). length d.entries) (maybe_evict_small c small),
        leb→le _ _ small,
      )
      | inr large ↦ omega (
        arith,
        length-insert-le inode (entry_of now item children) (maybe_evict c).entries,
        length-maybe_evict c u f (leb_false→lt _ _ large),
      )
    ]
