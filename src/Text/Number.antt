-- ===== src/Text/Number.antt =====
-- The numbers of the protocol: what the sources use of printf's %d and %llu and of strtoll.
pub mod RoundTrip
use ftp_server.Prelude.{
  ℤ, pos, negsuc, ℕ, zero, suc, ◌+◌, ◌-◌, ◌*◌, ◌/◌, ◌%◌, ◌^◌, Bool, true, false, [], ◌∷◌, ◌++◌, ltb,
  ◌==◌, if◌then◌else◌, length, Bytes,
}
use ftp_server.Text.Ctype.{is_space, is_digit}

-- The digits of a number; a number below 10 ^ fuel has no more than `fuel` of them.
unfoldable pub digits : ℕ → ℕ → Bytes
digits zero n = []
digits (suc f) n =
    let rest = digits f (n / 10) in (if ltb n 10 then [] else rest) ++ (b'0' + n % 10) ∷ []

-- %llu: a 64-bit number has at most 20 digits.
unfoldable pub decimal : ℕ → Bytes
unfolding digits
decimal n = digits 20 n

abbrev zeros : ℕ → Bytes → Bytes
zeros zero s = s
zeros (suc n) s = b'0' ∷ zeros n s

-- %0wd, of a number that is not negative.
unfoldable pub padded : ℕ → ℕ → Bytes
unfolding decimal
padded w n = zeros (w - length (decimal n)) (decimal n)

-- %d and %0wd
unfoldable pub decimal_int : ℤ → Bytes
unfolding decimal
decimal_int (pos n) = decimal n
decimal_int (negsuc n) = b'-' ∷ decimal (suc n)

unfoldable pub padded_int : ℕ → ℤ → Bytes
unfolding padded
padded_int w (pos n) = padded w n
padded_int w (negsuc n) = b'-' ∷ padded (w - 1) (suc n)

pub record Parsed : Type 0 where
  pub negative : Bool
  pub magnitude : ℕ
  pub overflowed : Bool

abbrev pub llong_max : ℕ
llong_max = 2 ^ 63 - 1

unfoldable pub skip_spaces : Bytes → Bytes
unfolding is_space
skip_spaces [] = []
skip_spaces (c ∷ s) = if is_space c then skip_spaces s else c ∷ s

unfoldable pub read_digits : ℕ → Bytes → ℕ
unfolding is_digit
read_digits n [] = n
read_digits n (c ∷ s) =
    let rest = read_digits (n * 10 + (c - b'0')) s in if is_digit c then rest else n

-- Out of range the result is the nearest number, and errno becomes ERANGE.
unfoldable pub saturate : Bool → ℕ → Parsed
saturate negative n =
    let limit = if negative then llong_max + 1 else llong_max in
    if ltb limit n
    then record { negative = negative; magnitude = limit; overflowed = true }
    else record { negative = negative; magnitude = n; overflowed = false }

unfoldable pub read_sign : Bytes → Parsed
unfolding read_digits saturate
read_sign [] = saturate false 0
read_sign (c ∷ s) =
    if c == b'-'
    then saturate true (read_digits 0 s)
    else if c == b'+'
    then saturate false (read_digits 0 s)
    else saturate false (read_digits 0 (c ∷ s))

-- strtoll( s, NULL, 10 )
unfoldable pub strtoll : Bytes → Parsed
unfolding skip_spaces read_sign
strtoll s = read_sign (skip_spaces s)
