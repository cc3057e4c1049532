-- ===== src/Prelude/Integers.antt =====
-- Integers over the native numbers, under the library's names.
use mathlib.Core.Path.{◌≡◌, ap}
use native.Mathlib.Omega.{arith}
use Prim.Native.Nat.{◌%◌, ◌<◌, ℕ, zero, suc, ◌+◌, ◌-◌, ◌*◌, ◌/◌, compare, Ordering}

-- A number, or one below -n.
pub data ℤ : Type 0 where
  pos negsuc : ℕ → ℤ

-- a - (b + 1)
abbrev less : ℕ → ℕ → ℤ
less a b = elim (compare b a) [ Ordering.lt ↦ pos (a - suc b) | _ ↦ negsuc (b - a) ]

-- -n
abbrev pub neg : ℕ → ℤ
neg zero = pos 0
neg (suc n) = negsuc n

infixl 40 ◌+ℤ◌
abbrev pub ◌+ℤ◌ : ℤ → ℤ → ℤ
pos a +ℤ pos b = pos (a + b)
pos a +ℤ negsuc b = less a b
negsuc a +ℤ pos b = less b a
negsuc a +ℤ negsuc b = negsuc (suc (a + b))

infixl 40 ◌-ℤ◌
abbrev pub ◌-ℤ◌ : ℤ → ℤ → ℤ
a -ℤ pos b = a +ℤ neg b
a -ℤ negsuc b = a +ℤ pos (suc b)

-- Times and divided by a number, towards 0.
infixl 50 ◌*ℤ◌ ◌/ℤ◌
abbrev pub ◌*ℤ◌ : ℤ → ℕ → ℤ
pos a *ℤ n = pos (a * n)
negsuc a *ℤ n = neg (suc a * n)

abbrev pub ◌/ℤ◌ : ℤ → ℕ → ℤ
pos a /ℤ n = pos (a / n)
negsuc a /ℤ n = neg (suc a / n)

-- The remainder, with the sign of the number divided.
infixl 50 ◌%ℤ◌
abbrev pub ◌%ℤ◌ : ℤ → ℕ → ℤ
pos a %ℤ n = pos (a % n)
negsuc a %ℤ n = neg (suc a % n)

-- What an int of 32 bits keeps of a number, or of one below -n, by the bits that are left.
int_bits : ℕ → ℤ
int_bits n = elim (compare n 2147483648) [ Ordering.lt ↦ pos n | _ ↦ negsuc (4294967295 - n) ]

negated : ℤ → ℤ
negated (pos n) = negsuc n
negated (negsuc n) = pos n

-- ( int ) of a long
unfoldable pub to_int : ℤ → ℤ
unfolding int_bits negated
to_int (pos n) = int_bits (n % 4294967296)
to_int (negsuc n) = negated (int_bits (n % 4294967296))

int_bits_small : (n m : ℕ) → m ≡ n → n < 2147483648 → int_bits m ≡ pos n
int_bits_small n m e h = unfold int_bits in ground (arith, e, h)

pub to_int_small : (n : ℕ) → n < 2147483648 → to_int (pos n) ≡ pos n
unfolding to_int
to_int_small n h = int_bits_small n (n % 4294967296) (omega (arith, h)) h

pub to_int_negative : (n : ℕ) → n < 2147483648 → to_int (negsuc n) ≡ negsuc n
unfolding to_int negated
to_int_negative n h = ap negated (int_bits_small n (n % 4294967296) (omega (arith, h)) h)
