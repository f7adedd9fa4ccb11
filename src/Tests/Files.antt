-- ===== src/Tests/Files.antt =====
-- The open files at concrete inputs.
use carmine_desktop.Common.{
  ℕ, zero, suc, ◌≡◌, ◌≤◌, refl, true, false, none, some, [], ◌∷◌, arith, if◌then◌else◌, is_none,
  max, length,
}
use carmine_desktop.Files.{
  OpenFile, complete, resize, write_entry, truncate_entry, reserve_entry, flushed_content,
  ensure_complete,
}
use carmine_desktop.Files.Positions.{at, at-nil}
use carmine_desktop.Files.Content.{IsWhole, IsWritten, write_entry-overwrite}
use carmine_desktop.Files.Sizes.{IsSized, truncate_entry-resize, reserve_entry-flushed_content}
use carmine_desktop.Writeback.{Bytes, overwrite}

-- Two bytes of content, and two that a truncation and a reservation left.
abbrev buffer : Bytes
buffer = 1 ∷ 2 ∷ 0 ∷ 0 ∷ []

abbrev truncated : OpenFile
truncated = record {
  ino = 3;
  content = complete buffer;
  dirty = true;
  stale = false;
  logical_size = some 2;
}

abbrev opened : OpenFile
opened = record truncated { logical_size = none; dirty = false }

ready : ensure_complete none truncated ≡ some buffer
unfolding ensure_complete
ready = refl

opened_ready : ensure_complete none opened ≡ some buffer
unfolding ensure_complete
opened_ready = refl

zeros : (i : ℕ) → 2 ≤ i → at i buffer ≡ 0
zeros zero h = absurd (omega (arith, h))
zeros (suc zero) h = absurd (omega (arith, h))
zeros (suc (suc zero)) h = refl
zeros (suc (suc (suc zero))) h = refl
zeros (suc (suc (suc (suc i)))) h = at-nil i

truncated-IsWhole : IsWhole buffer (some 2)
truncated-IsWhole = (omega arith, zeros)

write_entry-overwrite_example :
    IsWritten
      (write_entry none 3 (9 ∷ []) truncated)
      (overwrite 3 (9 ∷ []) (flushed_content buffer (some 2)))
write_entry-overwrite_example =
    write_entry-overwrite none 3 (9 ∷ []) truncated buffer ready truncated-IsWhole

test_overwrite : overwrite 3 (9 ∷ []) (flushed_content buffer (some 2)) ≡ 1 ∷ 2 ∷ 0 ∷ 9 ∷ []
unfolding overwrite flushed_content
test_overwrite = refl

truncate_entry-resize_example :
    IsSized (truncate_entry none 1 truncated) (resize 1 (flushed_content buffer (some 2)))
truncate_entry-resize_example =
    truncate_entry-resize none truncated buffer ready truncated-IsWhole 1

-- A file that was not truncated is flushed with the reserved space.
reserve_entry-flushed_content_example : IsSized (reserve_entry none 6 opened) (
    if is_none opened.logical_size
    then resize (max (length buffer) 6) buffer
    else flushed_content buffer opened.logical_size)
reserve_entry-flushed_content_example =
    reserve_entry-flushed_content none opened buffer opened_ready tt 6
