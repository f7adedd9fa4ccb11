-- ===== src/Disk/Reads.antt =====
-- crates/carminedesktop-cache/src/disk.rs: what is read after a put or a removal, and ranges.
use carmine_desktop.Common.{
  ℕ, zero, suc, ◌+◌, ◌-◌, ◌≤◌, ◌≡◌, refl, ap, ◌∙◌, String, true, false, Option, none, some, [], ◌∷◌,
  List, arith, inl, inr, nat_eq, string_eq, pair_eq, if_cases, length, take, drop, length-drop,
  if_lem, is_some, Option-cases,
}
use carmine_desktop.Common.Map
use carmine_desktop.Common.Map.{
  Map, get-cons, get-remove, get-insert, get-remove_ne, get-insert_ne, get-insert_self,
  get-remove_self,
}
use carmine_desktop.Item.{Result, ok, err}
use carmine_desktop.Writeback.{Bytes, tmp_path}
use carmine_desktop.Writeback.Reads.{get-renamed_self}
use carmine_desktop.Disk.{
  CacheEntry, DiskCache, DiskIo, notify_change, sum_sizes, total_size, evict_if_needed, put_entry,
  put, remove, get, get_range, get_with_etag, content_path, has,
}
use carmine_desktop.Disk.Budget.{Key}

take_long {ℓ} :
    {A : Type ℓ} (n m : ℕ) (l : List A) → length l ≤ n → length l ≤ m → take n l ≡ take m l
take_long zero zero [] h k = refl
take_long zero (suc m) [] h k = refl
take_long (suc n) zero [] h k = refl
take_long (suc n) (suc m) [] h k = refl
take_long zero m (x ∷ l) h k = ground arith
take_long (suc n) zero (x ∷ l) h k = ground arith
take_long (suc n) (suc m) (x ∷ l) h k =
    ap (λ r. x ∷ r) (take_long n m l (omega arith) (omega arith))

drop_long {ℓ} : {A : Type ℓ} (n : ℕ) (l : List A) → length l ≤ n → drop n l ≡ []
drop_long zero [] h = refl
drop_long (suc n) [] h = refl
drop_long zero (x ∷ l) h = ground arith
drop_long (suc n) (x ∷ l) h = drop_long n l (omega arith)

take-nil {ℓ} : {A : Type ℓ} (n : ℕ) → take {A = A} n [] ≡ []
take-nil zero = refl
take-nil (suc n) = refl

abbrev pub slice_of : ℕ → ℕ → Option Bytes → Option Bytes
slice_of offset len none = none
slice_of offset len (some content) = some (take len (drop offset content))

-- A range read is the slice of what a whole read gives, whatever the range: one that ends past the
-- content is cut, one that starts past it is empty, and where there is no file both give nothing.
pub get_range-get :
    (now offset len : ℕ) (drive_id item_id : String) (d : DiskCache)
    → (get_range now drive_id item_id offset len d).1
      ≡ slice_of offset len (get now drive_id item_id d).1
unfolding get_range get
get_range-get now offset len drive_id item_id d =
    elim (Option-cases (Map.get (content_path drive_id item_id) d.files)) [
      | inl e ↦ rw (e, get_range, get) refl
      | inr (content, e) ↦
          rw (e, get_range, get)
            (ground (
              arith,
              take_long (length content - offset) len (drop offset content),
              length-drop offset content,
              drop_long offset content,
              take-nil {A = ℕ} len,
            ))
    ]

sum_sizes-remove-le : (k : Key) (m : Map Key CacheEntry) → sum_sizes (Map.remove k m) ≤ sum_sizes m
unfolding sum_sizes Map.remove
sum_sizes-remove-le k [] = omega arith
sum_sizes-remove-le k ((j, e) ∷ m) = ground (arith, sum_sizes-remove-le k m)

evict_if_needed_small :
    (io : DiskIo) (d : DiskCache)
    → sum_sizes d.tracker ≤ d.max_size_bytes
    → evict_if_needed io d ≡ d
unfolding evict_if_needed total_size
evict_if_needed_small io d h = ground arith

-- What a call of the handler leaves as it is.
abbrev pub IsQuiet : DiskCache → DiskCache → Type 0
IsQuiet d c =
    (c.files ≡ d.files)
    × (c.tracker ≡ d.tracker)
    × (c.max_size_bytes ≡ d.max_size_bytes)
    × (c.eviction_filter ≡ d.eviction_filter)

pub notify_change-IsQuiet :
    (drive_id item_id : String) (d : DiskCache) → IsQuiet d (notify_change drive_id item_id d)
unfolding notify_change
notify_change-IsQuiet drive_id item_id d =
    if_lem (IsQuiet d) d.on_change (refl, refl, refl, refl) (refl, refl, refl, refl)

-- A put that fits in the budget evicts nothing.
put_small :
    (io : DiskIo) (now : ℕ) (drive_id item_id : String) (content : Bytes) (etag : Option String)
    (d : DiskCache)
    → io.writes ≡ true
    → total_size d + length content ≤ d.max_size_bytes
    → IsQuiet
        (put_entry now drive_id item_id content etag d)
        (put io now drive_id item_id content etag d).0
unfolding put total_size
put_small io now drive_id item_id content etag d h small =
    let e = put_entry now drive_id item_id content etag d in
    let quiet = notify_change-IsQuiet drive_id item_id e in
    let budget : sum_sizes (notify_change drive_id item_id e).tracker
        ≤ (notify_change drive_id item_id e).max_size_bytes =
      rw (quiet.1, quiet.2)
        (unfold sum_sizes Map.insert put_entry in
          omega (arith, sum_sizes-remove-le (drive_id, item_id) d.tracker)) in
    rw (h, evict_if_needed_small io (notify_change drive_id item_id e) budget, put) quiet

get_with_etag_lem :
    (now : ℕ) (drive_id item_id : String) (d : DiskCache) (content : Bytes) (row : CacheEntry)
    → Map.get (content_path drive_id item_id) d.files ≡ some content
    → Map.get (drive_id, item_id) d.tracker ≡ some row
    → (get_with_etag now drive_id item_id d).1 ≡ some (content, row.etag)
unfolding get_with_etag
get_with_etag_lem now drive_id item_id d content row f t = rw (f, t, get_with_etag) refl

-- What is put is read back with its etag, where the write succeeds and the content fits in what is
-- left of the budget.
pub get_with_etag-put :
    (io : DiskIo) (now later : ℕ) (drive_id item_id : String) (content : Bytes)
    (etag : Option String) (d : DiskCache)
    → io.writes ≡ true
    → total_size d + length content ≤ d.max_size_bytes
    → (get_with_etag later drive_id item_id (put io now drive_id item_id content etag d).0).1
      ≡ some (content, etag)
unfolding put_entry
get_with_etag-put io now later drive_id item_id content etag d h small =
    let path = content_path drive_id item_id in
    let row : CacheEntry = record { etag = etag; file_size = length content; last_access = now } in
    let quiet = put_small io now drive_id item_id content etag d h small in
    get_with_etag_lem later drive_id item_id (put io now drive_id item_id content etag d).0 content
      row
      (ap (Map.get path) quiet.0
        ∙ get-renamed_self (tmp_path drive_id item_id) path content d.files)
      (ap (Map.get (drive_id, item_id)) quiet.1 ∙ get-insert_self (drive_id, item_id) row d.tracker)

abbrev IsRemoved : String → String → DiskCache → DiskCache × Result (Unit {0}) → Type 0
IsRemoved drive_id item_id d (c, ok _) =
    (has drive_id item_id c ≡ false)
    × (Map.get (drive_id, item_id) c.tracker ≡ none)
    × (total_size c ≤ total_size d)
IsRemoved drive_id item_id d (c, err e) = (c ≡ d) × (has drive_id item_id d ≡ true)

-- A removal that returns no error leaves neither the file nor its row and tracks no more than
-- before; one that returns an error leaves the cache as it was, with the file in it.
pub remove-IsRemoved :
    (io : DiskIo) (drive_id item_id : String) (d : DiskCache)
    → IsRemoved drive_id item_id d (remove io drive_id item_id d)
unfolding remove has total_size
remove-IsRemoved io drive_id item_id d =
    let path = content_path drive_id item_id in
    let rest : DiskCache = record d {
      files = Map.remove path d.files;
      tracker = Map.remove (drive_id, item_id) d.tracker;
    } in
    let quiet = notify_change-IsQuiet drive_id item_id rest in
    let gone : IsRemoved drive_id item_id d (notify_change drive_id item_id rest, ok tt) =
      rw (quiet.0, quiet.1)
        (
          ap is_some (get-remove_self path d.files),
          get-remove_self (drive_id, item_id) d.tracker,
          sum_sizes-remove-le (drive_id, item_id) d.tracker,
        ) in
    let P : DiskCache × Result (Unit {0}) → Type 0 = IsRemoved drive_id item_id d in
    if_cases P (is_some (Map.get path d.files))
      (λ there. if_lem P (io.removes path) gone (refl, there)) (λ _. gone)

-- Where the file can be removed, it is.
pub has-remove_self :
    (io : DiskIo) (drive_id item_id : String) (d : DiskCache)
    → io.removes (content_path drive_id item_id) ≡ true
    → has drive_id item_id (remove io drive_id item_id d).0 ≡ false
unfolding remove has
has-remove_self io drive_id item_id d h =
    let path = content_path drive_id item_id in
    let rest : DiskCache = record d {
      files = Map.remove path d.files;
      tracker = Map.remove (drive_id, item_id) d.tracker;
    } in
    let P : DiskCache × Result (Unit {0}) → Type 0 = λ r. has drive_id item_id r.0 ≡ false in
    let gone : P (notify_change drive_id item_id rest, ok tt) =
      rw ((notify_change-IsQuiet drive_id item_id rest).0)
        (ap is_some (get-remove_self path d.files)) in
    if_lem P (is_some (Map.get path d.files))
      (if_cases P (io.removes path) (λ _. gone) (λ locked. ground (arith, h, locked))) gone
