-- ===== src/Names.antt =====
-- crates/carminedesktop-vfs/src/core_ops.rs: file names. Case is that of ASCII, as in the source.
use Prim.Native.Char.{code}
use Prim.Native.String.{◌++◌ as cat, slice}
use text.Mathlib.Text.{starts_with}
use carmine_desktop.Common.{
  ℕ, zero, suc, ◌+◌, ◌/◌, ◌%◌, String, Bool, true, false, ◌&&◌, ◌||◌, Option, none, some, List, [],
  ◌∷◌, map, if◌then◌else◌, ltb, leb, ◌==◌, nat_eq,
}

infixr 65 ◌++◌
abbrev pub ◌++◌ : String → String → String
◌++◌ = cat

-- The code points of a text.
abbrev pub codes : String → List ℕ
codes String.[] = []
codes (String.◌∷◌ c s) = code c ∷ codes s

-- `to_ascii_lowercase`
abbrev pub lower : ℕ → ℕ
lower c = if leb b'A' c && leb c b'Z' then c + 32 else c

abbrev pub to_ascii_lowercase : String → List ℕ
to_ascii_lowercase s = map lower (codes s)

abbrev pub codes_beq : List ℕ → List ℕ → Bool
codes_beq [] [] = true
codes_beq [] (y ∷ ys) = false
codes_beq (x ∷ xs) [] = false
codes_beq (x ∷ xs) (y ∷ ys) = x == y && codes_beq xs ys

abbrev pub ends_with : List ℕ → List ℕ → Bool
ends_with [] suffix = codes_beq [] suffix
ends_with (x ∷ xs) suffix = codes_beq (x ∷ xs) suffix || ends_with xs suffix

unfoldable pub eq_ignore_ascii_case : String → String → Bool
eq_ignore_ascii_case s t = codes_beq (to_ascii_lowercase s) (to_ascii_lowercase t)

unfoldable pub names_match : String → String → Bool
unfolding eq_ignore_ascii_case
names_match stored query = eq_ignore_ascii_case stored query

unfoldable pub is_transient_file : String → Bool
is_transient_file name =
    if starts_with name "~$"
    then true
    else if starts_with name "~" && ends_with (to_ascii_lowercase name) (codes ".tmp")
    then true
    else let lowered = to_ascii_lowercase name in
      codes_beq lowered (codes "thumbs.db")
      || codes_beq lowered (codes "desktop.ini")
      || codes_beq lowered (codes ".ds_store")

-- The decimal digits of a number; an `i64` has 19 at most.
unfoldable pub decimal : ℕ → ℕ → String
decimal zero n = ""
decimal (suc fuel) n =
    let rest = decimal fuel (n / 10) in
    let digit = slice "0123456789" (n % 10) (n % 10 + 1) in
    if ltb n 10 then digit else rest ++ digit

abbrev pub digits_of_i64 : ℕ
digits_of_i64 = 19

-- `rfind('.')` and `split_at`: the part before the last dot, and the part from it on.
unfoldable pub split_last_dot : String → Option (String × String)
split_last_dot String.[] = none
split_last_dot (String.◌∷◌ c s) = elim (split_last_dot s) [
  | some (stem, ext) ↦ some (String.◌∷◌ c stem, ext)
  | none ↦ if code c == b'.' then some ("", String.◌∷◌ c s) else none
]

unfoldable pub conflict_name : String → ℕ → String
unfolding split_last_dot decimal
conflict_name original timestamp = elim (split_last_dot original) [
  | some (stem, ext) ↦ stem ++ ".conflict." ++ decimal digits_of_i64 timestamp ++ ext
  | none ↦ original ++ ".conflict." ++ decimal digits_of_i64 timestamp
]
