-- ===== src/Files/Content.antt =====
-- crates/carminedesktop-vfs/src/core_ops.rs: the operations on a handle's buffer against those on a
-- plain file.
use carmine_desktop.Common.{
  ℕ, ◌+◌, ◌≤◌, max, ◌≡◌, refl, ap, sym, ◌∙◌, true, Option, none, some, length, take, length-take,
  arith, Option-cases, inl, inr,
}
use carmine_desktop.Files.{
  complete, OpenFile, ensure_complete, write_buffer, write_entry, flushed_content,
}
use carmine_desktop.Writeback.{Bytes, overwrite}
use carmine_desktop.Files.Positions.{
  at, at_ext, at-take, length-write_buffer, at-write_buffer, length-overwrite, at-overwrite,
}

-- The logical size lies in the buffer, and the bytes past it are 0.
abbrev pub IsWhole : Bytes → Option ℕ → Type 0
IsWhole buf none = Unit {0}
IsWhole buf (some ls) = (ls ≤ length buf) × ((i : ℕ) → ls ≤ i → at i buf ≡ 0)

write_buffer-overwrite :
    (offset : ℕ) (chunk b : Bytes) → write_buffer offset chunk b ≡ overwrite offset chunk b
write_buffer-overwrite offset chunk b =
    at_ext _ _ (length-write_buffer offset chunk b ∙ sym (length-overwrite offset chunk b))
      (λ i. at-write_buffer offset chunk b i ∙ sym (at-overwrite offset chunk b i))

module _ (offset : ℕ) (chunk b : Bytes) (ls : ℕ) (whole : IsWhole b (some ls)) where
  take-write_buffer :
      take (max ls (offset + length chunk)) (write_buffer offset chunk b)
      ≡ overwrite offset chunk (take ls b)
  take-write_buffer =
      at_ext _ _
        (omega (
          arith,
          whole.0,
          length-take (max ls (offset + length chunk)) (write_buffer offset chunk b),
          length-write_buffer offset chunk b,
          length-overwrite offset chunk (take ls b),
          length-take ls b,
        ))
        (λ i.
          at-take i (max ls (offset + length chunk)) (write_buffer offset chunk b)
          ∙ ground (
            arith,
            at-write_buffer offset chunk b i,
            at-overwrite offset chunk (take ls b) i,
            at-take i ls b,
            whole.1 i,
          ))

  IsWhole-write_buffer :
      IsWhole (write_buffer offset chunk b) (some (max ls (offset + length chunk)))
  IsWhole-write_buffer = (
    omega (arith, whole.0, length-write_buffer offset chunk b),
    λ i h. at-write_buffer offset chunk b i ∙ ground (arith, h, whole.1 i),
  )

-- An entry with the given content to flush, whose length is the size reported.
abbrev pub IsWritten : Option (OpenFile × ℕ) → Bytes → Type 0
IsWritten o expected =
    (out : OpenFile × ℕ) × ((buf : Bytes) × ((o ≡ some out)
        × ((out.0.content ≡ complete buf)
            × ((flushed_content buf out.0.logical_size ≡ expected)
                × ((out.1 ≡ length expected) × IsWhole buf out.0.logical_size)))))

-- After a wait that succeeds, and where the bytes past the logical size are 0, a write through a
-- handle is the write on a plain file: what a flush would upload is the chunk laid over what it
-- would have uploaded before, with zeros in a gap; the size reported is its length, and the bytes
-- past the new logical size are 0 again.
pub write_entry-overwrite :
    (awaited : Option Bytes) (offset : ℕ) (chunk : Bytes) (f : OpenFile) (buf : Bytes)
    → ensure_complete awaited f ≡ some buf
    → IsWhole buf f.logical_size
    → IsWritten
        (write_entry awaited offset chunk f)
        (overwrite offset chunk (flushed_content buf f.logical_size))
unfolding write_entry flushed_content
write_entry-overwrite awaited offset chunk f buf e whole =
    let written = write_buffer offset chunk buf in
    elim (Option-cases f.logical_size) [
      | inl h ↦
          rw (e, h, write_entry)
            (
              (record f { content = complete written; dirty = true }, length written),
              (
                written,
                (
                  refl,
                  (
                    refl,
                    (
                      rw h (write_buffer-overwrite offset chunk buf),
                      (ap length (write_buffer-overwrite offset chunk buf), rw h tt),
                    ),
                  ),
                ),
              ),
            )
      | inr (ls, h) ↦
          let w : IsWhole buf (some ls) = rw h at whole in
          let size = max ls (offset + length chunk) in
          let same = take-write_buffer offset chunk buf ls w in
          rw (e, h, write_entry)
            (
              (
                record f { content = complete written; dirty = true; logical_size = some size },
                size,
              ),
              (
                written,
                (
                  refl,
                  (
                    refl,
                    (
                      same,
                      (
                        omega (
                          arith,
                          w.0,
                          length-overwrite offset chunk (take ls buf),
                          length-take ls buf,
                        ),
                        IsWhole-write_buffer offset chunk buf ls w,
                      ),
                    ),
                  ),
                ),
              ),
            )
    ]
