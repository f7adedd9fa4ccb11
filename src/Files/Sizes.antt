-- ===== src/Files/Sizes.antt =====
-- crates/carminedesktop-vfs/src/core_ops.rs: truncation and reservation of an open file against the
-- content that a flush would upload.
use carmine_desktop.Common.{
  ℕ, ◌≤◌, max, ◌≡◌, refl, sym, ◌∙◌, true, Option, none, some, if◌then◌else◌, ltb, length, take,
  arith, Option-cases, inl, inr, length-take, is_none,
}
use carmine_desktop.Files.{
  complete, OpenFile, resize, ensure_complete, truncate_entry, reserve_entry, flushed_content,
}
use carmine_desktop.Files.Positions.{at, at_ext, at_end, at-take, at-resize, length-resize}
use carmine_desktop.Files.Content.{IsWhole}
use carmine_desktop.Writeback.{Bytes}

-- An entry with the given content to flush.
abbrev pub IsSized : Option OpenFile → Bytes → Type 0
IsSized o expected =
    (out : OpenFile) × ((buf : Bytes) × ((o ≡ some out)
        × ((out.content ≡ complete buf)
            × ((flushed_content buf out.logical_size ≡ expected) × IsWhole buf out.logical_size))))

resize-flushed_content :
    (n : ℕ) (buf : Bytes) (ls : Option ℕ)
    → IsWhole buf ls
    → resize n buf ≡ resize n (flushed_content buf ls)
unfolding flushed_content
resize-flushed_content n buf none w = refl
resize-flushed_content n buf (some ls) w =
    at_ext _ _ (length-resize n buf ∙ sym (length-resize n (take ls buf))) (λ i.
      at-resize i n buf ∙ ground (arith, at-resize i n (take ls buf), at-take i ls buf, w.1 i))

take-resize : (n : ℕ) (buf : Bytes) → take n (resize n buf) ≡ resize n buf
take-resize n buf =
    at_ext _ _ (omega (arith, length-take n (resize n buf), length-resize n buf))
      (λ i. at-take i n (resize n buf) ∙ ground (arith, at-resize i n buf))

abbrev reserved : ℕ → Bytes → Bytes
reserved capacity buf = if ltb (length buf) capacity then resize capacity buf else buf

module _ (capacity : ℕ) (buf : Bytes) where
  length-reserved : length (reserved capacity buf) ≡ max (length buf) capacity
  length-reserved = ground (arith, length-resize capacity buf)

  at-reserved : (i : ℕ) → at i (reserved capacity buf) ≡ at i buf
  at-reserved i = ground (arith, at-resize i capacity buf, at_end i buf)

  reserved-resize : reserved capacity buf ≡ resize (max (length buf) capacity) buf
  reserved-resize =
      at_ext _ _ (length-reserved ∙ sym (length-resize (max (length buf) capacity) buf)) (λ i.
        at-reserved i ∙ ground (arith, at-resize i (max (length buf) capacity) buf, at_end i buf))

  take-reserved : (n : ℕ) → n ≤ length buf → take n (reserved capacity buf) ≡ take n buf
  take-reserved n h =
      at_ext _ _
        (omega
          (arith, h, length-take n (reserved capacity buf), length-take n buf, length-reserved))
        (λ i. at-take i n (reserved capacity buf) ∙ ground (arith, at-take i n buf, at-reserved i))

module _ (awaited : Option Bytes) (f : OpenFile) (buf : Bytes)
    (e : ensure_complete awaited f ≡ some buf) (whole : IsWhole buf f.logical_size) where
  -- After a wait that succeeds, and where the bytes past the logical size are 0, a truncation cuts
  -- what a flush would upload, or fills it up with zeros.
  pub truncate_entry-resize :
      (n : ℕ) → IsSized (truncate_entry awaited n f) (resize n (flushed_content buf f.logical_size))
  unfolding truncate_entry flushed_content
  truncate_entry-resize n =
      rw (e, truncate_entry)
        (
          record f { content = complete (resize n buf); dirty = true; logical_size = some n },
          (
            resize n buf,
            (
              refl,
              (
                refl,
                (
                  take-resize n buf ∙ resize-flushed_content n buf f.logical_size whole,
                  (
                    omega (arith, length-resize n buf),
                    λ i h. at-resize i n buf ∙ ground (arith, h),
                  ),
                ),
              ),
            ),
          ),
        )

  -- After a wait that succeeds, and where the bytes past the logical size are 0, a reservation
  -- changes nothing of what a flush would upload for a file that was truncated while open; for any
  -- other file the reserved space becomes a part of it, as zeros.
  pub reserve_entry-flushed_content :
      (capacity : ℕ)
      → IsSized (reserve_entry awaited capacity f) (
          if is_none f.logical_size
          then resize (max (length buf) capacity) buf
          else flushed_content buf f.logical_size)
  unfolding reserve_entry flushed_content
  reserve_entry-flushed_content capacity = elim (Option-cases f.logical_size) [
    | inl h ↦
        rw (e, h, reserve_entry)
          (
            record f { content = complete (reserved capacity buf); logical_size = none },
            (reserved capacity buf, (refl, (refl, (reserved-resize capacity buf, tt)))),
          )
    | inr (ls, h) ↦
        let w : IsWhole buf (some ls) = rw h at whole in
        rw (e, h, reserve_entry)
          (
            record f { content = complete (reserved capacity buf); logical_size = some ls },
            (
              reserved capacity buf,
              (
                refl,
                (
                  refl,
                  (
                    take-reserved capacity buf ls w.0,
                    (
                      omega (arith, w.0, length-reserved capacity buf),
                      λ i g. at-reserved capacity buf i ∙ w.1 i g,
                    ),
                  ),
                ),
              ),
            ),
          )
  ]
