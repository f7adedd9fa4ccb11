-- ===== src/Offline/Outcome.antt =====
-- crates/carminedesktop-cache/src/offline.rs: what `pin_folder` does to the pins on each branch.
use mathlib.Core.Path.{subst}
use carmine_desktop.Common.{
  ℕ, zero, suc, ◌+◌, ◌≤◌, ◌≡◌, ◌⊎◌, refl, sym, ap, String, true, false, Option, none, some, List,
  arith, ltb, leb, ◌==◌, ◌&&◌, nat_eq, string_eq, pair_eq, if_cases, Bool-cases, inl, inr,
}
use carmine_desktop.Common.Map
use carmine_desktop.Common.Map.{get-insert_self, get-insert_ne}
use carmine_desktop.Graph
use carmine_desktop.Graph.{Call, Service}
use carmine_desktop.Item.{DriveItem, is_folder, Result, ok, err, cache}
use carmine_desktop.Pins
use carmine_desktop.Pins.{is_pinned, PinnedFolder}
use carmine_desktop.Offline.{OfflineManager, OfflineEnv, Download, persist_item, get_item, add_call}
use carmine_desktop.Offline.Pinning.{
  PinResult, accepted, rejected, persist_pinned, pin_checked, refreshed_size, pin_sized, sized,
  pin_found, pin_folder,
}

-- Pins, rows and contents are those of before.
abbrev pub IsUntouched : OfflineManager → OfflineManager → Type 0
IsUntouched m n =
    (n.pin_store ≡ m.pin_store)
    × (n.caches.store ≡ m.caches.store)
    × (n.caches.disk ≡ m.caches.disk)

-- The service has answered a question for the item with one that satisfies `P`.
abbrev pub IsAnswered : Service → OfflineEnv → String → (DriveItem → Type 0) → Type 0
IsAnswered service env item_id P =
    (calls : List Call) × (item : DriveItem) × (service.server calls
        (Graph.get_item env.drive_id item_id)
      ≡ ok item)
    × P item

abbrev pub IsWithin : ℕ → DriveItem → Type 0
IsWithin max_bytes item = (max_bytes ≡ 0) ⊎ (item.size ≤ max_bytes)

-- The item is pinned up to the end of its time and not after it, no other pin is touched, and no
-- content is; the task is for the item.
abbrev pub IsPinnedNow : OfflineEnv → String → OfflineManager → OfflineManager → Download → Type 0
IsPinnedNow env item_id m n task =
    ((t : ℕ) → is_pinned t env.drive_id item_id n.pin_store ≡ ltb t (env.now + m.ttl_secs))
    × ((k : String × String)
        → ¬ ((env.drive_id, item_id) ≡ k)
        → Map.get k n.pin_store ≡ Map.get k m.pin_store)
    × (n.caches.disk ≡ m.caches.disk)
    × (task.item_id ≡ item_id)

abbrev pub IsPinOutcome :
    Service
    → OfflineEnv
    → String
    → OfflineManager
    → OfflineManager × Result (PinResult × Option Download)
    → Type 0
IsPinOutcome service env item_id m (n, err e) = IsUntouched m n
IsPinOutcome service env item_id m (n, ok (rejected reason, task)) = IsUntouched m n × (task ≡ none)
IsPinOutcome service env item_id m (n, ok (accepted, none)) = ⊥
IsPinOutcome service env item_id m (n, ok (accepted, some task)) =
    IsPinnedNow env item_id m n task
    × IsAnswered service env item_id (λ item. is_folder item ≡ true)
    × IsAnswered service env item_id (IsWithin m.max_folder_bytes)

is_within :
    (max_bytes size : ℕ) (item : DriveItem)
    → (ltb 0 max_bytes && ltb max_bytes size) ≡ false
    → item.size ≡ size
    → IsWithin max_bytes item
is_within zero size item small same = inl refl
is_within (suc max_bytes) size item small same = inr (ground (arith, small, same))

module _ (service : Service) (env : OfflineEnv) (item_id : String) where
  abbrev pinned_until : ℕ → PinnedFolder
  pinned_until ttl = record { pinned_at = env.now; expires_at = env.now + ttl }

  -- The date is one that the table holds, or the pin is refused.
  pin_cases :
      (ttl : ℕ) (pins : Pins.PinStore)
      → let j : String × String = (env.drive_id, item_id) in
        let r = Pins.pin env.now env.drive_id item_id ttl pins in
        (r ≡ (pins, err (cache "pin store insert failed")))
        ⊎ (r ≡ (Map.insert j (pinned_until ttl) pins, ok tt))
  unfolding Pins.pin
  pin_cases ttl pins = elim (Bool-cases (leb (env.now + ttl) Pins.last_date)) [
    | inr late ↦ inl (rw (late, Pins.pin) refl)
    | inl fits ↦ inr (rw (fits, Pins.pin) refl)
  ]

  pin_checked-IsPinOutcome :
      (folder_name : String) (item : DriveItem) (m : OfflineManager)
      → IsAnswered service env item_id (λ item. is_folder item ≡ true)
      → IsAnswered service env item_id (IsWithin m.max_folder_bytes)
      → IsPinOutcome service env item_id m (pin_checked service env item_id folder_name item m)
  unfolding pin_checked persist_pinned persist_item is_pinned
  pin_checked-IsPinOutcome folder_name item m folder size =
      let j : String × String = (env.drive_id, item_id) in
      let p = pinned_until m.ttl_secs in
      let P : Pins.PinStore × Result (Unit {0}) → Type 0 = λ r.
        IsPinOutcome service env item_id m
          (persist_pinned service env item_id folder_name item m r) in
      elim (pin_cases m.ttl_secs m.pin_store) [
        | inl e ↦ subst P (sym e) (refl, refl, refl)
        | inr e ↦ subst P (sym e) (
          (
            λ t. ap (Pins.is_live t) (get-insert_self j p m.pin_store),
            λ k ne. get-insert_ne j k ne p m.pin_store,
            refl,
            refl,
          ),
          folder,
          size,
        )
      ]

  pin_sized-IsPinOutcome :
      (one_decimal : ℕ → ℕ → String) (folder_name : String) (item : DriveItem) (m : OfflineManager)
      (r : Result ℕ)
      → IsAnswered service env item_id (λ item. is_folder item ≡ true)
      → ((size : ℕ) → r ≡ ok size → IsAnswered service env item_id (λ item. item.size ≡ size))
      → IsPinOutcome service env item_id m
          (pin_sized service env one_decimal item_id folder_name item (m, r))
  unfolding pin_sized
  pin_sized-IsPinOutcome one_decimal folder_name item m (err e) folder known = (refl, refl, refl)
  pin_sized-IsPinOutcome one_decimal folder_name item m (ok size) folder known =
      let (calls, answer, asked, same) = known size refl in
      if_cases (IsPinOutcome service env item_id m)
        (ltb 0 m.max_folder_bytes && ltb m.max_folder_bytes size) (λ _. ((refl, refl, refl), refl))
        (λ small.
          pin_checked-IsPinOutcome folder_name item m folder
            (calls, answer, asked, is_within m.max_folder_bytes size answer small same))

  -- A question asked before changes nothing of the outcome.
  IsPinOutcome-asked :
      (call : Call) (m : OfflineManager) (x : OfflineManager × Result (PinResult × Option Download))
      → IsPinOutcome service env item_id (add_call call m) x
      → IsPinOutcome service env item_id m x
  unfolding add_call
  IsPinOutcome-asked call m (n, err e) h = h
  IsPinOutcome-asked call m (n, ok (rejected reason, task)) h = h
  IsPinOutcome-asked call m (n, ok (accepted, none)) h = h
  IsPinOutcome-asked call m (n, ok (accepted, some task)) h = h

  refreshed_size-IsAnswered :
      (calls : List Call) (r : Result DriveItem) (size : ℕ)
      → service.server calls (Graph.get_item env.drive_id item_id) ≡ r
      → refreshed_size r ≡ ok size
      → IsAnswered service env item_id (λ item. item.size ≡ size)
  refreshed_size-IsAnswered calls (ok item) size asked e = (calls, item, asked, ground arith)
  refreshed_size-IsAnswered calls (err x) size asked e = ground arith

  pin_found-IsPinOutcome :
      (one_decimal : ℕ → ℕ → String) (folder_name : String) (m : OfflineManager) (calls : List Call)
      (r : Result DriveItem)
      → service.server calls (Graph.get_item env.drive_id item_id) ≡ r
      → IsPinOutcome service env item_id m
          (pin_found service env one_decimal item_id folder_name (m, r))
  unfolding pin_found sized get_item
  pin_found-IsPinOutcome one_decimal folder_name m calls (err e) asked = (refl, refl, refl)
  pin_found-IsPinOutcome one_decimal folder_name m calls (ok item) asked =
      let call = Graph.get_item env.drive_id item_id in
      let answer = service.server m.caches.calls call in
      let outcome = pin_sized-IsPinOutcome one_decimal folder_name item in
      if_cases (IsPinOutcome service env item_id m) (is_folder item)
        (λ folder.
          if_cases
            (λ (q : OfflineManager × Result ℕ).
              IsPinOutcome service env item_id m
                (pin_sized service env one_decimal item_id folder_name item q))
            (item.size == 0)
            (λ _.
              IsPinOutcome-asked call m
                (pin_sized service env one_decimal item_id folder_name item
                  (add_call call m, refreshed_size answer))
                (outcome (add_call call m) (refreshed_size answer) (calls, item, asked, folder)
                  (λ size e. refreshed_size-IsAnswered m.caches.calls answer size refl e)))
            (λ _.
              outcome m (ok item.size) (calls, item, asked, folder)
                (λ size e. (calls, item, asked, ground arith))))
        (λ _. ((refl, refl, refl), refl))

pub pin_folder-IsPinOutcome :
    (service : Service) (env : OfflineEnv) (one_decimal : ℕ → ℕ → String)
    (item_id folder_name : String) (m : OfflineManager)
    → IsPinOutcome service env item_id m (pin_folder service env one_decimal item_id folder_name m)
unfolding pin_folder get_item
pin_folder-IsPinOutcome service env one_decimal item_id folder_name m =
    let call = Graph.get_item env.drive_id item_id in
    IsPinOutcome-asked service env item_id call m
      (pin_found service env one_decimal item_id folder_name
        (add_call call m, service.server m.caches.calls call))
      (pin_found-IsPinOutcome service env item_id one_decimal folder_name (add_call call m)
        m.caches.calls (service.server m.caches.calls call) refl)
