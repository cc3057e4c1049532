-- ===== src/Text/Util.antt =====
-- `strlcpy`, `trim_whitespace` and `find_basename` of util.c. A string is its bytes before the NUL.
pub mod Trim
pub mod Basename
use ftp_server.Prelude.{
  ℕ, ◌-◌, Bool, true, false, [], ◌∷◌, reverse, Option, none, some, ltb, ◌==◌, if◌then◌else◌, length,
  take, Bytes,
}
use ftp_server.Text.Ctype.{is_blank, is_space}

-- `strlcpy( dst, src, size )`: the string left in `dst`, and the length of `src`. An empty `src` is
-- not copied: `dst` keeps what it held.
unfoldable pub strlcpy : Bytes → Bytes → ℕ → Bytes × ℕ
strlcpy dst [] size = (dst, 0)
strlcpy dst (c ∷ s) size =
    let len = length (c ∷ s) in
    let tlen = if ltb (size - 1) len then size - 1 else len in (take tlen (c ∷ s), len)

-- while( isblank( *line ) ) line++;
unfoldable pub skip_blanks : Bytes → Bytes
unfolding is_blank
skip_blanks [] = []
skip_blanks (c ∷ s) = if is_blank c then skip_blanks s else c ∷ s

-- while( isspace( *end ) ) end--, on the bytes up to `end`, last first; `none` where the pointer
-- leaves the string at its front.
unfoldable pub back_over_spaces : Bytes → Option Bytes
unfolding is_space
back_over_spaces [] = none
back_over_spaces (c ∷ s) = if is_space c then back_over_spaces s else some (c ∷ s)

abbrev pub map_reverse : Option Bytes → Option Bytes
map_reverse none = none
map_reverse (some s) = some (reverse s)

-- The trimmed string; `none` where the loop reads in front of the string.
unfoldable pub trim_whitespace : Bytes → Option Bytes
unfolding skip_blanks back_over_spaces
trim_whitespace line = elim (skip_blanks line) [
  | [] ↦ some []
  | c ∷ s ↦ map_reverse (back_over_spaces (reverse (c ∷ s)))
]

-- `trim_whitespace` of a text inside the command line. There the loop stops at the NUL or the text in
-- front of it at the latest, and then cuts nothing of the text itself.
unfoldable pub trim_in_line : Bytes → Bytes
unfolding trim_whitespace
trim_in_line line = elim (trim_whitespace line) [ some t ↦ t | none ↦ skip_blanks line ]

-- strrchr( path, '/' ), as the text behind it.
unfoldable pub after_last_sep : Bytes → Option Bytes
after_last_sep [] = none
after_last_sep (c ∷ s) = elim (after_last_sep s) [
  | some t ↦ some t
  | none ↦ if c == b'/' then some s else none
]

unfoldable pub find_basename : Bytes → Bytes
unfolding after_last_sep
find_basename path = elim (after_last_sep path) [ some t ↦ t | none ↦ path ]
