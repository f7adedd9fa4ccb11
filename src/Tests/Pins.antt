-- ===== src/Tests/Pins.antt =====
-- The pins at concrete inputs.
use carmine_desktop.Common.{
  ◌≡◌, ◌↔◌, ℕ, String, refl, ap, sym, Bool-cases, inl, inr, true, false, Option, none, some, [],
  ◌∷◌, arith, string_eq, pair_eq,
}
use carmine_desktop.Common.Map
use carmine_desktop.Common.Map.{get-cons, get-nil}
use carmine_desktop.Common.Map.Unique.{IsUnique}
use carmine_desktop.Disk.{CacheEntry, DiskCache, put}
use carmine_desktop.Disk.Budget.{Key, key_eq}
use carmine_desktop.Disk.Protected.{IsKept, IsPlain}
use carmine_desktop.Pins.{
  PinStore, PinnedFolder, is_protected, is_pinned, process_expired, max_ancestors,
}
use carmine_desktop.Pins.Expiry.{only_live, get-process_expired}
use carmine_desktop.Pins.Kept.{pin_filter, pinned_content-put}
use carmine_desktop.Pins.Protection.{IsBelowPin, is_protected_iff}
use carmine_desktop.Store
use carmine_desktop.Store.{SqliteStore, Row}
use carmine_desktop.Tests.{file_item}
use carmine_desktop.Writeback.Encoding.{has_escape}
use carmine_desktop.Tests.Disk.{working, tracked, first}

abbrev row : ℕ → Option ℕ → String → Row
row inode parent id = record {
  inode = inode;
  parent_inode = parent;
  drive_id = "d";
  item = file_item id none;
}

-- The file "01A" in the folder "F".
abbrev stored : SqliteStore
stored = record Store.new { items = ("F", row 2 none "F") ∷ ("01A", row 3 (some 2) "01A") ∷ [] }

-- "F" is pinned until 500, and "G" until 100.
abbrev pins : PinStore
pins =
    (("d", "F"), record { pinned_at = 10; expires_at = 500 })
    ∷ (("d", "G"), record { pinned_at = 10; expires_at = 100 })
    ∷ []

pins-IsUnique : IsUnique pins
unfolding Map.get
pins-IsUnique = (refl, (refl, tt))

file_below : IsBelowPin max_ancestors 200 "d" "01A" stored pins
unfolding is_pinned Map.get carmine_desktop.Pins.parent_item_id
file_below = (1, omega arith, ("F", refl, refl))

is_protected_iff_example :
    (is_protected 200 "d" "01A" stored pins ≡ true)
    ↔ IsBelowPin max_ancestors 200 "d" "01A" stored pins
is_protected_iff_example = is_protected_iff 200 "d" stored pins "01A"

test_protected : is_protected 200 "d" "01A" stored pins ≡ true
unfolding is_protected Map.get
test_protected = refl

get-process_expired_example :
    (Map.get ("d", "G") (process_expired 200 pins).0 ≡ only_live 200 (Map.get ("d", "G") pins))
    × (is_pinned 200 "d" "G" (process_expired 200 pins).0 ≡ is_pinned 200 "d" "G" pins)
get-process_expired_example = get-process_expired 200 pins ("d", "G") pins-IsUnique

test_expired : (process_expired 200 pins).1 ≡ "G" ∷ []
unfolding process_expired
test_expired = refl

other_item : ¬ ◌≡◌ {A = Key} ("d", "01B") first
other_item p = ground (arith, (string_eq.beq_iff "01B" "01A").1 (ap (λ (q : Key). q.1) p))

-- Two bytes fit; the pinned file takes them.
abbrev small : DiskCache
small = record {
  max_size_bytes = 2;
  files = (first, 1 ∷ 2 ∷ []) ∷ [];
  tracker = (first, tracked 2 1) ∷ [];
  eviction_filter = some (pin_filter 200 stored pins);
  on_change = false;
  notified = [];
}

small-IsUnique : IsUnique small.tracker
unfolding Map.get
small-IsUnique = (refl, tt)

small-IsPlain : IsPlain small.tracker
small-IsPlain k e h = elim (Bool-cases (key_eq.beq first k)) [
  | inl same ↦ ap (λ (p : Key). has_escape p.1) (sym ((key_eq.beq_iff first k).0 same))
  | inr other ↦
      ground (arith, get-cons k first (tracked 2 1) [], get-nil {V = CacheEntry} k, h, other)
]

pinned_content-put_example :
    IsKept first small (put working 200 "d" "01B" (7 ∷ 8 ∷ 9 ∷ []) none small).0
unfolding carmine_desktop.Writeback.sanitize_filename
pinned_content-put_example =
    pinned_content-put working 200 "d" "01B" (7 ∷ 8 ∷ 9 ∷ []) none small first stored pins refl
      file_below other_item refl refl refl small-IsUnique small-IsPlain
