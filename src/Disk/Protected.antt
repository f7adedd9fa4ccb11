-- ===== src/Disk/Protected.antt =====
-- crates/carminedesktop-cache/src/disk.rs: contents that the eviction filter protects.
use carmine_desktop.Common.{
  ℕ, ◌+◌, ◌-◌, ◌≡◌, refl, sym, ap, ◌∙◌, String, Bool, true, false, Option, some, [], ◌∷◌, arith,
  ◌==◌, nat_eq, string_eq, pair_eq, leb, if_cases, if_lem, if◌then◌else◌, length,
}
use carmine_desktop.Common.Map
use carmine_desktop.Common.Map.{Map, get-cons, get-remove_ne, get-insert, get-insert_ne}
use carmine_desktop.Common.Map.Unique.{IsUnique, insert-IsUnique}
use carmine_desktop.Common.Map.Sort.{sort_by, sort_by-same}
use carmine_desktop.Item.{Result}
use carmine_desktop.Writeback.{Bytes, sanitize_filename, tmp_path}
use carmine_desktop.Writeback.Reads.{is_tmp, get-renamed_ne, tmp_path-distinct}
use carmine_desktop.Writeback.Encoding.{has_escape, sanitize_filename-injective}
use carmine_desktop.Disk.{
  CacheEntry, DiskCache, DiskIo, notify_change, total_size, is_protected, evict_entry, evict_loop,
  evict_if_needed, by_last_access, put_entry, put, content_path,
}
use carmine_desktop.Disk.Budget.{Key, key_eq}
use carmine_desktop.Disk.Reads.{notify_change-IsQuiet}

-- Two ids with no "%3A" in them have files of their own.
content_path-distinct :
    (j k : Key)
    → has_escape j.1 ≡ false
    → has_escape k.1 ≡ false
    → ¬ (j ≡ k)
    → ¬ (content_path j.0 j.1 ≡ content_path k.0 k.1)
content_path-distinct (a, s) (b, t) hs ht ne e =
    ne (
      cc (ap (λ (p : Key). p.0) e, sanitize_filename-injective s t hs ht (ap (λ (p : Key). p.1) e)))

-- The file and the row of `k` are those of `d`.
abbrev pub IsKept : Key → DiskCache → DiskCache → Type 0
IsKept k d c =
    (Map.get (content_path k.0 k.1) c.files ≡ Map.get (content_path k.0 k.1) d.files)
    × (Map.get k c.tracker ≡ Map.get k d.tracker)

IsKept-trans : (k : Key) (d c b : DiskCache) → IsKept k c b → IsKept k d c → IsKept k d b
IsKept-trans k d c b p q = (p.0 ∙ q.0, p.1 ∙ q.1)

-- Every id in the table is one with no "%3A".
abbrev pub IsPlain : Map Key CacheEntry → Type 0
IsPlain m = (k : Key) (e : CacheEntry) → Map.get k m ≡ some e → has_escape k.1 ≡ false

module _ (io : DiskIo) (filter : Option (String → String → Bool)) (k : Key)
    (plain : has_escape k.1 ≡ false) (kept : is_protected filter k ≡ true) where
  evict_entry-IsKept :
      (j : Key) (d : DiskCache)
      → has_escape j.1 ≡ false
      → ¬ (j ≡ k)
      → IsKept k d (evict_entry io j d)
  unfolding evict_entry
  evict_entry-IsKept (drive, id) d h ne =
      let path = content_path drive id in
      let rest : DiskCache = record d {
        files = if io.removes path then Map.remove path d.files else d.files;
        tracker = Map.remove (drive, id) d.tracker;
      } in
      let quiet = notify_change-IsQuiet drive id rest in
      (
        ap (Map.get (content_path k.0 k.1)) quiet.0
            ∙ if_lem
                (λ (m : Map Key Bytes).
                  Map.get (content_path k.0 k.1) m ≡ Map.get (content_path k.0 k.1) d.files)
                (io.removes path)
                (get-remove_ne path (content_path k.0 k.1)
                  (content_path-distinct (drive, id) k h plain ne) d.files)
                refl,
        ap (Map.get k) quiet.1 ∙ get-remove_ne (drive, id) k ne d.tracker,
      )

  evict_loop-IsKept :
      (to_free freed : ℕ) (entries : Map Key CacheEntry) (d : DiskCache)
      → IsUnique entries
      → IsPlain entries
      → IsKept k d (evict_loop io filter to_free freed entries d)
  unfolding evict_loop
  evict_loop-IsKept to_free freed [] d u h = (refl, refl)
  evict_loop-IsKept to_free freed ((j, e) ∷ entries) d u h =
      let h' : IsPlain entries =
        λ i a p. h i a (ground (arith, get-cons i j e entries, key_eq.beq_iff j i, u.0)) in
      if_lem (IsKept k d) (leb to_free freed) (refl, refl)
        (if_cases (IsKept k d) (is_protected filter j)
          (λ _. evict_loop-IsKept to_free freed entries d u.1 h')
          (λ drop.
            IsKept-trans k d (evict_entry io j d)
              (evict_loop io filter to_free (freed + e.file_size) entries (evict_entry io j d))
              (evict_loop-IsKept to_free (freed + e.file_size) entries (evict_entry io j d) u.1 h')
              (evict_entry-IsKept j d
                (h j e (ground (arith, get-cons j j e entries, key_eq.beq_iff j j)))
                (λ p. ground (arith, drop, kept, ap (is_protected filter) p)))))

evict_if_needed-IsKept :
    (io : DiskIo) (k : Key) (d : DiskCache)
    → has_escape k.1 ≡ false
    → is_protected d.eviction_filter k ≡ true
    → IsUnique d.tracker
    → IsPlain d.tracker
    → IsKept k d (evict_if_needed io d)
unfolding evict_if_needed
evict_if_needed-IsKept io k d plain kept u h =
    let (unique, same) = sort_by-same by_last_access d.tracker u in
    if_lem (IsKept k d) (d.max_size_bytes == 0) (refl, refl)
      (if_lem (IsKept k d) (leb (total_size d) d.max_size_bytes) (refl, refl)
        (evict_loop-IsKept io d.eviction_filter k plain kept (total_size d - d.max_size_bytes) 0
          (sort_by by_last_access d.tracker) d unique (λ i a p. h i a (sym (same i) ∙ p))))

-- A put of another item keeps the file and the row of every item that the eviction filter protects,
-- however far the cache is over its budget, where the item's file name does not end with ".tmp", no
-- tracked id holds "%3A" and the table holds a key once.
pub put_keeps_protected :
    (io : DiskIo) (now : ℕ) (drive_id item_id : String) (content : Bytes) (etag : Option String)
    (d : DiskCache) (k : Key)
    → ¬ ((drive_id, item_id) ≡ k)
    → has_escape item_id ≡ false
    → has_escape k.1 ≡ false
    → is_tmp (sanitize_filename k.1) ≡ false
    → is_protected d.eviction_filter k ≡ true
    → IsUnique d.tracker
    → IsPlain d.tracker
    → IsKept k d (put io now drive_id item_id content etag d).0
unfolding put put_entry
put_keeps_protected io now drive_id item_id content etag d k ne plain plain' named kept u h =
    let j : Key = (drive_id, item_id) in
    let row : CacheEntry = record { etag = etag; file_size = length content; last_access = now } in
    let e = put_entry now drive_id item_id content etag d in
    let c = notify_change drive_id item_id e in
    let quiet = notify_change-IsQuiet drive_id item_id e in
    let put_kept : IsKept k d c = (
      ap (Map.get (content_path k.0 k.1)) quiet.0
          ∙ get-renamed_ne (tmp_path drive_id item_id) (content_path drive_id item_id)
              (content_path k.0 k.1) content d.files
              (tmp_path-distinct drive_id item_id (content_path k.0 k.1) named)
              (content_path-distinct j k plain plain' ne),
      ap (Map.get k) quiet.1 ∙ get-insert_ne j k ne row d.tracker,
    ) in
    let P : DiskCache × Result (Unit {0}) → Type 0 = λ r. IsKept k d r.0 in
    if_lem P io.writes
      (IsKept-trans k d c (evict_if_needed io c)
        (evict_if_needed-IsKept io k c plain' (ap (λ f. is_protected f k) quiet.3 ∙ kept)
          (rw (quiet.1) (insert-IsUnique j row d.tracker u))
          (rw (quiet.1) (λ i a p.
            ground (arith, get-insert j i row d.tracker, key_eq.beq_iff j i, h i a, p, plain))))
        put_kept)
      (refl, refl)
