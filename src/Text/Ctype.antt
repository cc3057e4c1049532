-- ===== src/Text/Ctype.antt =====
-- What the sources use of ctype.h and strings.h, in the C locale, over bytes.
use Prim.Native.Char.{code}
use Prim.Native.String.{String}
use ftp_server.Prelude.{
  ℕ, ◌+◌, ◌-◌, Bool, ◌&&◌, ◌||◌, [], ◌∷◌, ltb, leb, ◌==◌, if◌then◌else◌, Bytes,
}

-- The bytes of a literal, which is ASCII throughout the sources.
abbrev pub codes : String → Bytes
codes String.[] = []
codes (String.◌∷◌ c s) = code c ∷ codes s

unfoldable pub is_blank : ℕ → Bool
is_blank c = c == 32 || c == 9

-- Space, \t, \n, \v, \f and \r.
unfoldable pub is_space : ℕ → Bool
is_space c = c == 32 || leb 9 c && leb c 13

unfoldable pub is_digit : ℕ → Bool
is_digit c = leb b'0' c && leb c b'9'

unfoldable pub to_lower : ℕ → ℕ
to_lower c = if leb b'A' c && leb c b'Z' then c + 32 else c

unfoldable pub to_upper : ℕ → ℕ
to_upper c = if leb b'a' c && leb c b'z' then c - 32 else c

pub data Order : Type 0 where
  less same greater : Order

-- strcasecmp, by the sign of its result.
unfoldable pub strcasecmp : Bytes → Bytes → Order
strcasecmp [] [] = same
strcasecmp [] (b ∷ t) = less
strcasecmp (a ∷ s) [] = greater
strcasecmp (a ∷ s) (b ∷ t) =
    if ltb (to_lower a) (to_lower b)
    then less
    else if ltb (to_lower b) (to_lower a)
    then greater
    else strcasecmp s t
