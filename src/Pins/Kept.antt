-- ===== src/Pins/Kept.antt =====
-- crates/carminedesktop-cache/src/pin_store.rs and disk.rs: the pins as the filter of the disk cache,
-- the way the application sets it.
use carmine_desktop.Common.{ℕ, ◌≡◌, ap, ◌∙◌, String, Bool, false, Option, some, string_eq, pair_eq}
use carmine_desktop.Common.Map.Unique.{IsUnique}
use carmine_desktop.Disk.{DiskCache, DiskIo, put, is_protected}
use carmine_desktop.Disk.Budget.{Key}
use carmine_desktop.Disk.Protected.{IsKept, IsPlain, put_keeps_protected}
use carmine_desktop.Pins
use carmine_desktop.Pins.{PinStore, max_ancestors}
use carmine_desktop.Pins.Protection.{IsBelowPin, is_protected_iff}
use carmine_desktop.Store.{SqliteStore}
use carmine_desktop.Writeback.{Bytes, sanitize_filename}
use carmine_desktop.Writeback.Reads.{is_tmp}
use carmine_desktop.Writeback.Encoding.{has_escape}

-- `move |drive_id, item_id| pin_store.is_protected(drive_id, item_id)`
unfoldable pub pin_filter : ℕ → SqliteStore → PinStore → String → String → Bool
pin_filter now s pins drive_id item_id = Pins.is_protected now drive_id item_id s pins

pub pinned_content-put :
    (io : DiskIo) (now : ℕ) (drive_id item_id : String) (content : Bytes) (etag : Option String)
    (d : DiskCache) (k : Key) (s : SqliteStore) (pins : PinStore)
    → d.eviction_filter ≡ some (pin_filter now s pins)
    → IsBelowPin max_ancestors now k.0 k.1 s pins
    → ¬ ((drive_id, item_id) ≡ k)
    → has_escape item_id ≡ false
    → has_escape k.1 ≡ false
    → is_tmp (sanitize_filename k.1) ≡ false
    → IsUnique d.tracker
    → IsPlain d.tracker
    → IsKept k d (put io now drive_id item_id content etag d).0
unfolding pin_filter
pinned_content-put io now drive_id item_id content etag d k s pins filter below ne plain plain'
      named u h =
    put_keeps_protected io now drive_id item_id content etag d k ne plain plain' named
      (ap (λ f. is_protected f k) filter ∙ (is_protected_iff now k.0 s pins k.1).1 below) u h
