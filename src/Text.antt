-- ===== src/Text.antt =====
-- The functions of Rust's standard library on `str` that the program calls, over native texts.
pub mod Decimal
pub mod Split
pub mod Trim
pub mod Case
pub mod Order
pub mod Sort
pub mod Signed
pub mod SortBy
pub mod Prefix
pub mod Map
pub mod Words
use Prim.Native.Char.{Char, code}
use Prim.Native.String.{[], ◌∷◌, char_at, ◌++◌}
use redis_driver_for_per_wor.Prelude.{
  ℕ, ◌-◌, Bool, ◌&&◌, ◌||◌, List, Option, none, some, String, ◌==◌, eqb, leb, if◌then◌else◌,
}

-- `format!`: the parts one after the other.
abbrev pub format : List String → String
format List.[] = []
format (List.◌∷◌ s parts) = s ++ format parts

-- `char::to_ascii_uppercase`
unfoldable pub upper_char : Char → Char
upper_char c =
    if leb b'a' (code c) && leb (code c) b'z'
    then char_at "ABCDEFGHIJKLMNOPQRSTUVWXYZ" (code c - b'a')
    else c

-- `str::to_ascii_uppercase`
unfoldable pub upper : String → String
unfolding upper_char
upper [] = []
upper (c ∷ s) = upper_char c ∷ upper s

-- `str::eq_ignore_ascii_case`: equal after folding the ASCII letters to one case.
unfoldable pub eq_ignore_case : String → String → Bool
unfolding upper
eq_ignore_case s t = upper s == upper t

-- `char::is_whitespace`: the code points of the Unicode property White_Space.
unfoldable pub is_whitespace : Char → Bool
is_whitespace c =
    leb 0x09 (code c) && leb (code c) 0x0d
    || eqb (code c) 0x20
    || eqb (code c) 0x85
    || eqb (code c) 0xa0
    || eqb (code c) 0x1680
    || leb 0x2000 (code c) && leb (code c) 0x200a
    || eqb (code c) 0x2028
    || eqb (code c) 0x2029
    || eqb (code c) 0x202f
    || eqb (code c) 0x205f
    || eqb (code c) 0x3000

trim_start : String → String
unfolding is_whitespace
trim_start [] = []
trim_start (c ∷ s) = if is_whitespace c then trim_start s else c ∷ s

-- One character in front of a text whose trailing whitespace is gone.
abbrev trim_end_cons : Char → String → String
trim_end_cons c [] = if is_whitespace c then [] else c ∷ []
trim_end_cons c (d ∷ s) = c ∷ d ∷ s

trim_end : String → String
unfolding is_whitespace
trim_end [] = []
trim_end (c ∷ s) = trim_end_cons c (trim_end s)

-- `str::trim`
unfoldable pub trim : String → String
unfolding trim_start trim_end
trim s = trim_end (trim_start s)

-- `str::strip_prefix`
unfoldable pub strip_prefix : String → String → Option String
strip_prefix s [] = some s
strip_prefix [] (p ∷ prefix) = none
strip_prefix (c ∷ s) (p ∷ prefix) = if eqb (code c) (code p) then strip_prefix s prefix else none

abbrev cons_some : Char → Option String → Option String
cons_some c none = none
cons_some c (some s) = some (c ∷ s)

-- `str::strip_suffix` at one character.
unfoldable pub strip_suffix : ℕ → String → Option String
strip_suffix e [] = none
strip_suffix e (c ∷ []) = if eqb (code c) e then some [] else none
strip_suffix e (c ∷ d ∷ s) = cons_some c (strip_suffix e (d ∷ s))
