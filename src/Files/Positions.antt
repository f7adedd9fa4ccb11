-- ===== src/Files/Positions.antt =====
-- crates/carminedesktop-vfs/src/core_ops.rs: the bytes of a buffer after its operations, by position.
use carmine_desktop.Common.{
  ℕ, zero, suc, ◌+◌, ◌-◌, ◌≤◌, max, ◌≡◌, refl, ap, sym, ◌∙◌, false, [], ◌∷◌, ◌++◌, if◌then◌else◌,
  ltb, length, take, drop, replicate, length-append, length-take, length-drop, length-replicate,
  arith, Bool-cases, inl, inr,
}
use carmine_desktop.Files.{resize, patch, write_buffer}
use carmine_desktop.Writeback.{Bytes, overwrite}

-- The byte at a position, 0 past the end.
abbrev pub at : ℕ → Bytes → ℕ
at i [] = 0
at zero (x ∷ xs) = x
at (suc i) (x ∷ xs) = at i xs

pub at-nil : (i : ℕ) → at i [] ≡ 0
at-nil zero = refl
at-nil (suc i) = refl

pub at_ext : (a b : Bytes) → length a ≡ length b → ((i : ℕ) → at i a ≡ at i b) → a ≡ b
at_ext [] [] h e = refl
at_ext [] (y ∷ b) h e = absurd (omega (arith, h))
at_ext (x ∷ a) [] h e = absurd (omega (arith, h))
at_ext (x ∷ a) (y ∷ b) h e = cc (e 0, at_ext a b (omega (arith, h)) (λ i. e (suc i)))

pub at_end : (i : ℕ) (b : Bytes) → length b ≤ i → at i b ≡ 0
at_end i [] h = at-nil i
at_end zero (x ∷ b) h = absurd (omega (arith, h))
at_end (suc i) (x ∷ b) h = at_end i b (omega (arith, h))

pub at-take : (i n : ℕ) (b : Bytes) → at i (take n b) ≡ (if ltb i n then at i b else 0)
at-take i zero b = ground (arith, at-nil i)
at-take i (suc n) [] = ground (arith, at-nil i)
at-take zero (suc n) (x ∷ b) = ground arith
at-take (suc i) (suc n) (x ∷ b) = ground (arith, at-take i n b)

pub at-append :
    (i : ℕ) (a b : Bytes)
    → at i (a ++ b) ≡ (if ltb i (length a) then at i a else at (i - length a) b)
at-append i [] b =
    let e : i - 0 ≡ i = omega arith in
    let n : ltb i 0 ≡ false = ground arith in sym (rw (n, e) refl)
at-append zero (x ∷ a) b = ground arith
at-append (suc i) (x ∷ a) b =
    let e : suc i - suc (length a) ≡ i - length a = omega arith in
    let n : ltb (suc i) (suc (length a)) ≡ ltb i (length a) = ground arith in
    at-append i a b ∙ sym (rw (n, e) refl)

pub at-drop : (i n : ℕ) (b : Bytes) → at i (drop n b) ≡ at (n + i) b
at-drop i zero b = ap (λ (k : ℕ). at k b) (omega arith)
at-drop i (suc n) [] = at-nil i ∙ sym (at-nil (suc n + i))
at-drop i (suc n) (x ∷ b) = at-drop i n b ∙ ap (λ (k : ℕ). at k (x ∷ b)) e
  where
    e : suc (n + i) ≡ suc n + i
    e = omega arith

pub at-replicate : (i n : ℕ) → at i (replicate n 0) ≡ 0
at-replicate i zero = at-nil i
at-replicate zero (suc n) = refl
at-replicate (suc i) (suc n) = at-replicate i n

module _ (i n : ℕ) (b : Bytes) where
  pub at-resize : at i (resize n b) ≡ (if ltb i n then at i b else 0)
  unfolding resize
  at-resize =
      at-append i (take n b) (replicate (n - length b) 0)
      ∙ ground (
        arith,
        at-take i n b,
        at-replicate (i - length (take n b)) (n - length b),
        length-take n b,
        at_end i b,
      )

module _ (n : ℕ) (b : Bytes) where
  pub length-resize : length (resize n b) ≡ n
  unfolding resize
  length-resize = omega (
    arith,
    length-append (take n b) (replicate (n - length b) 0),
    length-take n b,
    length-replicate {A = ℕ} (n - length b) 0,
  )

-- A chunk laid over a file at an offset.
abbrev pub laid_over : ℕ → ℕ → Bytes → Bytes → ℕ
laid_over i offset chunk b =
    if ltb i offset
    then at i b
    else if ltb i (offset + length chunk)
    then at (i - offset) chunk
    else at i b

module _ (offset : ℕ) (chunk b : Bytes) where
  pub length-patch : offset + length chunk ≤ length b → length (patch offset chunk b) ≡ length b
  unfolding patch
  length-patch h = omega (
    arith,
    h,
    length-append (take offset b) (chunk ++ drop (offset + length chunk) b),
    length-append chunk (drop (offset + length chunk) b),
    length-take offset b,
    length-drop (offset + length chunk) b,
  )

  pub at-patch :
      (i : ℕ)
      → offset + length chunk ≤ length b
      → at i (patch offset chunk b) ≡ laid_over i offset chunk b
  unfolding patch
  at-patch i h =
      at-append i (take offset b) (chunk ++ drop (offset + length chunk) b)
      ∙ ground (
        arith,
        h,
        at-take i offset b,
        length-take offset b,
        at-append (i - offset) chunk (drop (offset + length chunk) b),
        at-drop (i - offset - length chunk) (offset + length chunk) b,
      )

module _ (offset : ℕ) (chunk b : Bytes) where
  pub length-write_buffer :
      length (write_buffer offset chunk b) ≡ max (length b) (offset + length chunk)
  unfolding write_buffer
  length-write_buffer = elim (Bool-cases (ltb (length b) (offset + length chunk))) [
    | inl short ↦
        rw (short, write_buffer)
          (ground (
            arith,
            short,
            length-resize (offset + length chunk) b,
            length-patch offset chunk (resize (offset + length chunk) b),
          ))
    | inr long ↦ rw (long, write_buffer) (ground (arith, long, length-patch offset chunk b))
  ]

  pub at-write_buffer : (i : ℕ) → at i (write_buffer offset chunk b) ≡ laid_over i offset chunk b
  unfolding write_buffer
  at-write_buffer i = elim (Bool-cases (ltb (length b) (offset + length chunk))) [
    | inl short ↦
        rw (short, write_buffer)
          (at-patch offset chunk (resize (offset + length chunk) b) i
              (omega (arith, length-resize (offset + length chunk) b))
            ∙ ground (arith, short, at-resize i (offset + length chunk) b, at_end i b))
    | inr long ↦ rw (long, write_buffer) (at-patch offset chunk b i (ground (arith, long)))
  ]

  pub length-overwrite : length (overwrite offset chunk b) ≡ max (length b) (offset + length chunk)
  unfolding overwrite
  length-overwrite = omega (
    arith,
    length-append (take offset b)
        (replicate (offset - length b) 0 ++ (chunk ++ drop (offset + length chunk) b)),
    length-append (replicate (offset - length b) 0) (chunk ++ drop (offset + length chunk) b),
    length-append chunk (drop (offset + length chunk) b),
    length-take offset b,
    length-replicate {A = ℕ} (offset - length b) 0,
    length-drop (offset + length chunk) b,
  )

  pub at-overwrite : (i : ℕ) → at i (overwrite offset chunk b) ≡ laid_over i offset chunk b
  unfolding overwrite
  at-overwrite i =
      at-append i (take offset b)
        (replicate (offset - length b) 0 ++ (chunk ++ drop (offset + length chunk) b))
      ∙ ground (
        arith,
        at-take i offset b,
        length-take offset b,
        at_end i b,
        at-append (i - length (take offset b)) (replicate (offset - length b) 0)
            (chunk ++ drop (offset + length chunk) b),
        length-replicate {A = ℕ} (offset - length b) 0,
        at-replicate (i - length (take offset b)) (offset - length b),
        at-append (i - length (take offset b) - (offset - length b)) chunk
            (drop (offset + length chunk) b),
        at-drop (i - length (take offset b) - (offset - length b) - length chunk)
            (offset + length chunk) b,
      )
