-- ===== src/Writeback/Encoding.antt =====
-- crates/carminedesktop-cache/src/writeback.rs: the encoding of item ids as file names.
use Prim.Native.Char.{Char, code}
use text.Mathlib.TextEquality.{Char-path}
use carmine_desktop.Common.{
  String, Bool, false, ◌≡◌, refl, ap, ◌∙◌, sym, arith, Bool-cases, inl, inr, ◌==◌, nat_eq, ◌||◌,
}
use carmine_desktop.Writeback.{sanitize_filename, is_escape, unsanitize_filename}

-- The text holds "%3A" somewhere.
abbrev pub has_escape : String → Bool
has_escape (String.◌∷◌ a (String.◌∷◌ b (String.◌∷◌ c s))) =
    is_escape a b c || has_escape (String.◌∷◌ b (String.◌∷◌ c s))
has_escape s = false

has_escape-tail :
    (a : Char) (s : String) → has_escape (String.◌∷◌ a s) ≡ false → has_escape s ≡ false
has_escape-tail a String.[] h = refl
has_escape-tail a (String.◌∷◌ b String.[]) h = refl
has_escape-tail a (String.◌∷◌ b (String.◌∷◌ c s)) h = ground arith

unsanitize_filename-cons :
    (a b c : Char) (s : String)
    → is_escape a b c ≡ false
    → unsanitize_filename (String.◌∷◌ a (String.◌∷◌ b (String.◌∷◌ c s)))
      ≡ String.◌∷◌ a (unsanitize_filename (String.◌∷◌ b (String.◌∷◌ c s)))
unfolding unsanitize_filename
unsanitize_filename-cons a b c s h = rw (h, unsanitize_filename)

unsanitize_filename-escape :
    (s : String)
    → unsanitize_filename (String.◌∷◌ "%" (String.◌∷◌ "3" (String.◌∷◌ "A" s)))
      ≡ String.◌∷◌ ":" (unsanitize_filename s)
unfolding unsanitize_filename
unsanitize_filename-escape s = refl

-- A character that begins no escape is passed over.
pass :
    (a : Char) (s : String)
    → has_escape (String.◌∷◌ a s) ≡ false
    → unsanitize_filename (String.◌∷◌ a (sanitize_filename s))
      ≡ String.◌∷◌ a (unsanitize_filename (sanitize_filename s))
unfolding sanitize_filename
pass a String.[] h = unfold unsanitize_filename in refl
pass a (String.◌∷◌ b s) h = elim (Bool-cases (code b == b':')) [
  | inl e ↦ rw e (unsanitize_filename-cons a "%" "3" _ (ground arith))
  | inr e ↦ rw e (pass_second a b s h)
]
  where
    pass_second :
        (a b : Char) (s : String)
        → has_escape (String.◌∷◌ a (String.◌∷◌ b s)) ≡ false
        → unsanitize_filename (String.◌∷◌ a (String.◌∷◌ b (sanitize_filename s)))
          ≡ String.◌∷◌ a (unsanitize_filename (String.◌∷◌ b (sanitize_filename s)))
    pass_second a b String.[] h = unfold unsanitize_filename in refl
    pass_second a b (String.◌∷◌ c s) h = elim (Bool-cases (code c == b':')) [
      | inl e ↦ rw e (unsanitize_filename-cons a b "%" _ (ground arith))
      | inr e ↦ rw e (unsanitize_filename-cons a b c _ (ground arith))
    ]

-- An item id with no "%3A" in it comes back from its file name.
pub unsanitize_filename-sanitize_filename :
    (s : String) → has_escape s ≡ false → unsanitize_filename (sanitize_filename s) ≡ s
unfolding sanitize_filename
unsanitize_filename-sanitize_filename String.[] h = unfold unsanitize_filename in refl
unsanitize_filename-sanitize_filename (String.◌∷◌ a s) h =
    let ih = unsanitize_filename-sanitize_filename s (has_escape-tail a s h) in
    elim (Bool-cases (code a == b':')) [
      | inl e ↦ rw e (
          unsanitize_filename-escape (sanitize_filename s)
          ∙ cc (ih, Char-path a ":" ((nat_eq.beq_iff (code a) b':').0 e)))
      | inr e ↦ rw e (pass a s h ∙ ap (String.◌∷◌ a) ih)
    ]

-- So two such ids never share a file.
pub sanitize_filename-injective :
    (s t : String)
    → has_escape s ≡ false
    → has_escape t ≡ false
    → sanitize_filename s ≡ sanitize_filename t
    → s ≡ t
sanitize_filename-injective s t hs ht e =
    sym (unsanitize_filename-sanitize_filename s hs)
    ∙ ap unsanitize_filename e
    ∙ unsanitize_filename-sanitize_filename t ht
