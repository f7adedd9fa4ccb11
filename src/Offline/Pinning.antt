-- ===== src/Offline/Pinning.antt =====
-- crates/carminedesktop-cache/src/offline.rs: `OfflineManager::pin_folder` and `unpin_folder`. How a
-- quotient is printed with one decimal is a parameter.
use carmine_desktop.Common.{
  ℕ, ◌+◌, String, true, ◌&&◌, Option, none, some, if◌then◌else◌, ltb, leb, ◌==◌, nat_eq, string_eq,
}
use carmine_desktop.Graph.{Service}
use carmine_desktop.Item.{DriveItem, is_folder, Result, ok, err}
use carmine_desktop.Names.{◌++◌, decimal, digits_of_i64}
use carmine_desktop.Pins
use carmine_desktop.Pins.{PinStore, PinnedFolder}
use carmine_desktop.Offline.{
  OfflineManager, OfflineEnv, Download, persist_item, get_item, actual_inode,
}

pub data PinResult : Type 0 where
  accepted : PinResult
  rejected : String → PinResult

-- The first inode given to an item that was not seen by a lookup.
abbrev pub first_inode : ℕ
first_inode = 1000000

abbrev pub gb : ℕ
gb = 1073741824

abbrev pub mb : ℕ
mb = 1048576

abbrev pub kb : ℕ
kb = 1024

-- `one_decimal n d` is `format!("{:.1}", n as f64 / d as f64)`.
unfoldable pub format_bytes : (ℕ → ℕ → String) → ℕ → String
format_bytes one_decimal bytes =
    if leb gb bytes
    then one_decimal bytes gb ++ " GB"
    else if leb mb bytes
    then one_decimal bytes mb ++ " MB"
    else if leb kb bytes
    then one_decimal bytes kb ++ " KB"
    else decimal digits_of_i64 bytes ++ " bytes"

abbrev pub refreshed_size : Result DriveItem → Result ℕ
refreshed_size (ok item) = ok item.size
refreshed_size (err e) = err e

module _ (service : Service) (env : OfflineEnv) where
  -- The row is written only where the pin is.
  unfoldable pub persist_pinned :
      String
      → String
      → DriveItem
      → OfflineManager
      → PinStore × Result (Unit {0})
      → OfflineManager × Result (PinResult × Option Download)
  unfolding persist_item actual_inode
  persist_pinned item_id folder_name item m (pins, err e) = (m, err e)
  persist_pinned item_id folder_name item m (pins, ok _) =
      let m' = persist_item env.drive_id first_inode item none (record m { pin_store = pins }) in
      (
        m',
        ok (
          accepted,
          some (record {
            item_id = item_id;
            label = folder_name;
            root_inode = actual_inode item.id first_inode m';
            next_inode = first_inode + 1;
            tells_end = true;
          }),
        ),
      )

  unfoldable pub pin_checked :
      String
      → String
      → DriveItem
      → OfflineManager
      → OfflineManager × Result (PinResult × Option Download)
  unfolding persist_pinned
  pin_checked item_id folder_name item m =
      persist_pinned item_id folder_name item m
        (Pins.pin env.now env.drive_id item_id m.ttl_secs m.pin_store)

  unfoldable pub unpin_folder : String → OfflineManager → OfflineManager
  unpin_folder item_id m = record m { pin_store = Pins.unpin env.drive_id item_id m.pin_store }

  unfoldable pub size_reason : (ℕ → ℕ → String) → String → ℕ → ℕ → String
  unfolding format_bytes
  size_reason one_decimal folder_name actual_size max_bytes =
      "folder '"
      ++ folder_name
      ++ "' ("
      ++ format_bytes one_decimal actual_size
      ++ ") exceeds maximum size limit ("
      ++ format_bytes one_decimal max_bytes
      ++ ")"

  -- The folder's size is known, unless the second question failed.
  unfoldable pub pin_sized :
      (ℕ → ℕ → String)
      → String
      → String
      → DriveItem
      → OfflineManager × Result ℕ
      → OfflineManager × Result (PinResult × Option Download)
  unfolding pin_checked size_reason
  pin_sized one_decimal item_id folder_name item (m, err e) = (m, err e)
  pin_sized one_decimal item_id folder_name item (m, ok actual_size) =
      if ltb 0 m.max_folder_bytes && ltb m.max_folder_bytes actual_size
      then (
        m,
        ok (rejected (size_reason one_decimal folder_name actual_size m.max_folder_bytes), none),
      )
      else pin_checked item_id folder_name item m

  -- A folder without a size is asked for once more.
  unfoldable pub sized : String → DriveItem → OfflineManager → OfflineManager × Result ℕ
  unfolding get_item
  sized item_id item m =
      let (m', answer) = get_item service env item_id m in
      if item.size == 0 then (m', refreshed_size answer) else (m, ok item.size)

  unfoldable pub pin_found :
      (ℕ → ℕ → String)
      → String
      → String
      → OfflineManager × Result DriveItem
      → OfflineManager × Result (PinResult × Option Download)
  unfolding sized pin_sized
  pin_found one_decimal item_id folder_name (m, err e) = (m, err e)
  pin_found one_decimal item_id folder_name (m, ok item) =
      if is_folder item
      then pin_sized one_decimal item_id folder_name item (sized item_id item m)
      else (m, ok (rejected "only folders can be pinned for offline use", none))

  unfoldable pub pin_folder :
      (ℕ → ℕ → String)
      → String
      → String
      → OfflineManager
      → OfflineManager × Result (PinResult × Option Download)
  unfolding get_item pin_found
  pin_folder one_decimal item_id folder_name m =
      pin_found one_decimal item_id folder_name (get_item service env item_id m)
