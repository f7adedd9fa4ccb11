-- ===== src/Pins/Expiry.antt =====
-- crates/carminedesktop-cache/src/pin_store.rs and offline.rs: pins and time.
use carmine_desktop.Common.{
  ℕ, ◌+◌, ◌≡◌, refl, ap, ◌∙◌, String, Option, none, some, [], ◌∷◌, arith, Option-cases, Bool-cases,
  inl, inr, ◌&&◌, ltb, leb, is_some, if◌then◌else◌, ◌==◌, string_eq, pair_eq,
}
use carmine_desktop.Common.Map
use carmine_desktop.Common.Map.{Map, get-cons, get-nil, get-remove, get-insert}
use carmine_desktop.Common.Map.Unique.{IsUnique}
use carmine_desktop.Disk.Budget.{Key, key_eq}
use carmine_desktop.Pins.{
  PinnedFolder, PinStore, pin, update_expires_at, last_date, unpin, is_live, is_pinned,
  list_expired, unpin_all, process_expired,
}

module _ (now later ttl_secs : ℕ) (drive_id item_id : String) (pins : PinStore) where
  -- A pin lasts for its time from the moment it is set, if that ends at the last date at most; if not
  -- it is refused. The pins of other items stay as they are.
  pub is_pinned-pin :
      (k : Key)
      → is_pinned later k.0 k.1 (pin now drive_id item_id ttl_secs pins).0 ≡ (
          if ◌==◌ {A = Key} (drive_id, item_id) k && leb (now + ttl_secs) last_date
          then ltb later (now + ttl_secs)
          else is_pinned later k.0 k.1 pins)
  unfolding is_pinned pin
  is_pinned-pin (a, b) =
      let until : PinnedFolder = record { pinned_at = now; expires_at = now + ttl_secs } in
      elim (Bool-cases (leb (now + ttl_secs) last_date)) [
        | inl fits ↦ rw fits (ground (arith, get-insert (drive_id, item_id) (a, b) until pins))
        | inr late ↦ rw late (ground (arith, late))
      ]

  -- So does a refresh of one that is there.
  pub is_pinned-update_expires_at :
      (k : Key)
      → is_pinned later k.0 k.1 (update_expires_at now drive_id item_id ttl_secs pins).0 ≡ (
          if ◌==◌ {A = Key} (drive_id, item_id) k && leb (now + ttl_secs) last_date
          then is_some (Map.get (drive_id, item_id) pins) && ltb later (now + ttl_secs)
          else is_pinned later k.0 k.1 pins)
  unfolding is_pinned update_expires_at
  is_pinned-update_expires_at (a, b) =
      let j : Key = (drive_id, item_id) in
      elim (Option-cases (Map.get j pins)) [
        | inl absent ↦ rw absent (ground (arith, absent, key_eq.beq_iff j (a, b)))
        | inr (p, found) ↦ elim (Bool-cases (leb (now + ttl_secs) last_date)) [
          | inl fits ↦
              rw (found, fits)
                (ground
                  (arith, get-insert j (a, b) (record p { expires_at = now + ttl_secs }) pins))
          | inr late ↦ rw (found, late) (ground (arith, found, late))
        ]
      ]

get-unpin_all :
    (expired pins : PinStore) (k : Key)
    → Map.get k (unpin_all expired pins).0
      ≡ (if is_some (Map.get k expired) then none else Map.get k pins)
unfolding unpin_all unpin
get-unpin_all [] pins k = ground (arith, get-nil {V = PinnedFolder} k)
get-unpin_all (((drive_id, item_id), p) ∷ expired) pins k = ground (
  arith,
  get-unpin_all expired (unpin drive_id item_id pins) k,
  get-remove (drive_id, item_id) k pins,
  get-cons k (drive_id, item_id) p expired,
)

abbrev pub only_live : ℕ → Option PinnedFolder → Option PinnedFolder
only_live now none = none
only_live now (some p) = if leb p.expires_at now then none else some p

list_expired_absent :
    (now : ℕ) (pins : PinStore) (k : Key)
    → Map.get k pins ≡ none
    → Map.get k (list_expired now pins) ≡ none
unfolding list_expired
list_expired_absent now [] k h = h
list_expired_absent now ((j, p) ∷ pins) k h = ground (
  arith,
  list_expired_absent now pins k,
  get-cons k j p pins,
  get-cons k j p (list_expired now pins),
)

get-list_expired :
    (now : ℕ) (pins : PinStore) (k : Key)
    → IsUnique pins
    → (if is_some (Map.get k (list_expired now pins)) then none else Map.get k pins)
      ≡ only_live now (Map.get k pins)
unfolding list_expired
get-list_expired now [] k u = ground (arith, get-nil {V = PinnedFolder} k)
get-list_expired now ((j, p) ∷ pins) k u = ground (
  arith,
  get-list_expired now pins k u.1,
  get-cons k j p pins,
  get-cons k j p (list_expired now pins),
  key_eq.beq_iff j k,
  list_expired_absent now pins k,
  u.0,
)

-- The sweep of expired pins takes away exactly those whose time is over and keeps every other with
-- its dates, where the table holds a key once. So no item's protection changes by it.
pub get-process_expired :
    (now : ℕ) (pins : PinStore) (k : Key)
    → IsUnique pins
    → (Map.get k (process_expired now pins).0 ≡ only_live now (Map.get k pins))
      × (is_pinned now k.0 k.1 (process_expired now pins).0 ≡ is_pinned now k.0 k.1 pins)
unfolding process_expired is_pinned
get-process_expired now pins k u =
    let e = get-unpin_all (list_expired now pins) pins k ∙ get-list_expired now pins k u in
    (e, ap (is_live now) e ∙ live (Map.get k pins))
  where
    live : (p : Option PinnedFolder) → is_live now (only_live now p) ≡ is_live now p
    live none = refl
    live (some p) = ground arith
