-- ===== src/Disk/Budget.antt =====
-- crates/carminedesktop-cache/src/disk.rs: what an eviction leaves.
use carmine_desktop.Common.{
  ℕ, ◌+◌, ◌-◌, ◌≤◌, ◌≡◌, sym, ap, ◌∙◌, String, Bool, true, Option, none, some, [], ◌∷◌, arith,
  Bool-cases, inl, inr, ◌⊎◌, ◌==◌, nat_eq, string_eq, pair_eq, leb, leb→le, leb_false→lt, if_cases,
  Eq,
}
use carmine_desktop.Common.Map
use carmine_desktop.Common.Map.{Map, get-cons, get-nil, get-remove, get-remove_ne}
use carmine_desktop.Common.Map.Unique.{IsUnique, remove-IsUnique, remove_absent}
use carmine_desktop.Common.Map.Sort.{sort_by, sort_by-same}
use carmine_desktop.Disk.{
  CacheEntry, DiskCache, DiskIo, notify_change, sum_sizes, total_size, is_protected, evict_entry,
  evict_loop, evict_if_needed, by_last_access,
}

abbrev pub Key : Type 0
Key = String × String

abbrev pub key_eq : Eq Key
key_eq = pair_eq

evict_entry-tracker :
    (io : DiskIo) (k : Key) (d : DiskCache) → (evict_entry io k d).tracker ≡ Map.remove k d.tracker
unfolding evict_entry notify_change
evict_entry-tracker io (drive, id) d = ground arith

sum_sizes-remove :
    (k : Key) (m : Map Key CacheEntry) (e : CacheEntry)
    → IsUnique m
    → Map.get k m ≡ some e
    → sum_sizes (Map.remove k m) + e.file_size ≡ sum_sizes m
unfolding sum_sizes Map.get Map.remove
sum_sizes-remove k [] e u h = ground arith
sum_sizes-remove k ((j, d) ∷ m) e u h = elim (Bool-cases (j == k)) [
  | inl same ↦ rw same (ground (arith, remove_absent k m, key_eq.beq_iff j k, u.0))
  | inr other ↦ rw other (ground (arith, sum_sizes-remove k m e u.1))
]

-- The entries that the loop has still to visit are rows of the table.
abbrev IsIn : Map Key CacheEntry → DiskCache → Type 0
IsIn entries d =
    (k : Key) (e : CacheEntry) → Map.get k entries ≡ some e → Map.get k d.tracker ≡ some e

module _ (io : DiskIo) (filter : Option (String → String → Bool)) (to_free : ℕ) where
  IsIn-evict_entry :
      (k : Key) (e : CacheEntry) (entries : Map Key CacheEntry) (d : DiskCache)
      → Map.get k entries ≡ none
      → IsIn ((k, e) ∷ entries) d
      → IsIn entries (evict_entry io k d)
  IsIn-evict_entry k e entries d u h j a p = ground (
    arith,
    evict_entry-tracker io k d,
    get-remove k j d.tracker,
    key_eq.beq_iff k j,
    get-cons j k e entries,
    h j a,
    u,
    p,
  )

  -- The rows of `d` are protected under `k`, or enough is freed.
  abbrev IsFreed : ℕ → Key → CacheEntry → DiskCache → Type 0
  IsFreed total k e d =
      Map.get k d.tracker ≡ some e
      → (sum_sizes d.tracker + to_free ≤ total) ⊎ (is_protected filter k ≡ true)

  evict_loop-IsFreed :
      (freed total : ℕ) (entries : Map Key CacheEntry) (d : DiskCache) (k : Key) (e : CacheEntry)
      → IsUnique entries
      → IsUnique d.tracker
      → IsIn entries d
      → sum_sizes d.tracker + freed ≡ total
      → (Map.get k entries ≡ none → (Map.get k d.tracker ≡ none) ⊎ (is_protected filter k ≡ true))
      → IsFreed total k e (evict_loop io filter to_free freed entries d)
  unfolding evict_loop
  evict_loop-IsFreed freed total [] d k e u v h s q =
      λ r. elim (q (get-nil k)) [ inl absent ↦ ground arith | inr kept ↦ inr kept ]
  evict_loop-IsFreed freed total ((j, a) ∷ entries) d k e u v h s q =
      if_cases (IsFreed total k e) (leb to_free freed)
        (λ done r. inl (omega (arith, leb→le _ _ done)))
        (λ more.
          if_cases (IsFreed total k e) (is_protected filter j)
            (λ keep.
              evict_loop-IsFreed freed total entries d k e u.1 v
                (λ i b p. h i b (ground (arith, get-cons i j a entries, key_eq.beq_iff j i, u.0))) s
                (λ p. ground (arith, q, get-cons k j a entries, key_eq.beq_iff j k)))
            (λ drop.
              evict_loop-IsFreed (freed + a.file_size) total entries (evict_entry io j d) k e u.1
                (rw (evict_entry-tracker io j d) (remove-IsUnique j d.tracker v))
                (IsIn-evict_entry j a entries d u.0 h)
                (omega (
                  arith,
                  s,
                  ap sum_sizes (evict_entry-tracker io j d),
                  sum_sizes-remove j d.tracker a v
                      (h j a (ground (arith, get-cons j j a entries, key_eq.beq_iff j j))),
                ))
                (λ p. ground (
                  arith,
                  q,
                  get-cons k j a entries,
                  key_eq.beq_iff j k,
                  evict_entry-tracker io j d,
                  get-remove j k d.tracker,
                ))))

-- Where the tracked contents are still larger than the budget after an eviction, every one of them
-- is protected by the filter. The budget is not 0, which stands for no limit, and the table holds a
-- key once.
pub evict_if_needed_over_budget :
    (io : DiskIo) (d : DiskCache) (k : Key) (e : CacheEntry)
    → IsUnique d.tracker
    → ¬ (d.max_size_bytes ≡ 0)
    → Map.get k (evict_if_needed io d).tracker ≡ some e
    → (total_size (evict_if_needed io d) ≤ d.max_size_bytes)
      ⊎ (is_protected d.eviction_filter k ≡ true)
unfolding evict_if_needed total_size
evict_if_needed_over_budget io d k e u m =
    let (unique, same) = sort_by-same by_last_access d.tracker u in
    let P : DiskCache → Type 0 = λ c.
      Map.get k c.tracker ≡ some e
      → (sum_sizes c.tracker ≤ d.max_size_bytes) ⊎ (is_protected d.eviction_filter k ≡ true) in
    if_cases P (d.max_size_bytes == 0) (λ z r. ground (arith))
      (λ _.
        if_cases P (leb (sum_sizes d.tracker) d.max_size_bytes) (λ small r. inl (leb→le _ _ small))
          (λ large r.
            elim (evict_loop-IsFreed io d.eviction_filter (sum_sizes d.tracker - d.max_size_bytes) 0
              (sum_sizes d.tracker) (sort_by by_last_access d.tracker) d k e unique u
              (λ i b p. sym (same i) ∙ p) (omega arith) (λ p. inl (sym (same k) ∙ p)) r) [
                | inl less ↦ inl (omega (arith, leb_false→lt _ _ large))
                | inr kept ↦ inr kept
              ]))

-- A table whose every row may say that the sum is in the budget is in the budget.
sum_sizes_by_rows :
    (m : Map Key CacheEntry) (bound : ℕ)
    → ((k : Key) (e : CacheEntry) → Map.get k m ≡ some e → sum_sizes m ≤ bound)
    → sum_sizes m ≤ bound
unfolding sum_sizes
sum_sizes_by_rows [] bound h = omega arith
sum_sizes_by_rows ((k, e) ∷ m) bound h =
    h k e (ground (arith, get-cons k k e m, key_eq.beq_iff k k))

-- With no filter an eviction brings the tracked contents down to the budget, where that is not 0
-- and the table holds a key once.
pub total_size-evict_if_needed :
    (io : DiskIo) (d : DiskCache)
    → IsUnique d.tracker
    → ¬ (d.max_size_bytes ≡ 0)
    → d.eviction_filter ≡ none
    → total_size (evict_if_needed io d) ≤ d.max_size_bytes
unfolding total_size
total_size-evict_if_needed io d u m f =
    sum_sizes_by_rows (evict_if_needed io d).tracker d.max_size_bytes (λ k e p.
      elim (evict_if_needed_over_budget io d k e u m p) [
        | inl small ↦ small
        | inr kept ↦ ground (arith, f)
      ])
