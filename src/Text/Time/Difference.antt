-- ===== src/Text/Time/Difference.antt =====
-- `msecdiff` of util.c.
use ftp_server.Prelude.{
  to_int, to_int_small, to_int_negative, ℕ, zero, suc, ◌+◌, ◌*◌, ◌/◌, ◌<◌, ◌≡◌, arith, ℤ, pos,
  negsuc, neg, ◌+ℤ◌, ◌-ℤ◌, ◌*ℤ◌, ◌/ℤ◌,
}
use ftp_server.Machine.Types.{TimeVal}

-- In milliseconds, each part rounded towards 0: a long, of which the result keeps an int.
unfoldable pub msecdiff : TimeVal → TimeVal → ℤ
msecdiff t1 t2 =
    to_int ((pos t1.tv_sec -ℤ pos t2.tv_sec) *ℤ 1000 +ℤ (pos t1.tv_usec -ℤ pos t2.tv_usec) /ℤ 1000)

abbrev pub micros : TimeVal → ℕ
micros t = t.tv_sec * 1000000 + t.tv_usec

abbrev pub Near : ℕ → ℕ → ℤ → Type 0
Near a b (pos n) = (n * 1000 + b < a + 1000) × (a < n * 1000 + b + 1000)
Near a b (negsuc n) = (suc n * 1000 + a < b + 1000) × (b < suc n * 1000 + a + 1000)

-- An integer that is the difference of two numbers.
abbrev IsDiff : ℕ → ℕ → ℤ → Type 0
IsDiff a b (pos n) = n + b ≡ a
IsDiff a b (negsuc n) = suc n + a ≡ b

less-IsDiff : (a b : ℕ) → IsDiff a (suc b) (pos a +ℤ negsuc b)
less-IsDiff a b = ground arith

sub-IsDiff : (a b : ℕ) → IsDiff a b (pos a -ℤ pos b)
sub-IsDiff a zero = omega arith
sub-IsDiff a (suc b) = less-IsDiff a b

neg-IsDiff : (n : ℕ) → IsDiff 0 n (neg n)
neg-IsDiff zero = omega arith
neg-IsDiff (suc n) = omega arith

neg_as : (a b n : ℕ) → n + a ≡ b → IsDiff a b (neg n)
neg_as a b zero e = omega (arith, e)
neg_as a b (suc n) e = e

mul-IsDiff : (a b : ℕ) (z : ℤ) → IsDiff a b z → IsDiff (a * 1000) (b * 1000) (z *ℤ 1000)
mul-IsDiff a b (pos n) h = omega (arith, h)
mul-IsDiff a b (negsuc n) h = neg_as _ _ _ (omega (arith, h))

shift : (a b a' b' : ℕ) (z : ℤ) → IsDiff a b z → a + b' ≡ a' + b → IsDiff a' b' z
shift a b a' b' (pos n) h e = omega (arith, h, e)
shift a b a' b' (negsuc n) h e = omega (arith, h, e)

add-IsDiff : (a b c d : ℕ) (x y : ℤ) → IsDiff a b x → IsDiff c d y → IsDiff (a + c) (b + d) (x +ℤ y)
add-IsDiff a b c d (pos m) (pos n) h k = omega (arith, h, k)
add-IsDiff a b c d (pos m) (negsuc n) h k =
    shift m (suc n) _ _ _ (less-IsDiff m n) (omega (arith, h, k))
add-IsDiff a b c d (negsuc m) (pos n) h k =
    shift n (suc m) _ _ _ (less-IsDiff n m) (omega (arith, h, k))
add-IsDiff a b c d (negsuc m) (negsuc n) h k = omega (arith, h, k)

-- A quotient, as a difference that is near when it is multiplied again.
record Rounds (a b : ℕ) (q : ℤ) : Type 0 where
  up : ℕ
  down : ℕ
  diff : IsDiff up down q
  above : up * 1000 + b < down * 1000 + a + 1000
  below : down * 1000 + a < up * 1000 + b + 1000

div-Rounds : (a b : ℕ) (z : ℤ) → IsDiff a b z → Rounds a b (z /ℤ 1000)
div-Rounds a b (pos n) h = record {
  up = n / 1000;
  down = 0;
  diff = omega arith;
  above = omega (arith, h);
  below = omega (arith, h);
}
div-Rounds a b (negsuc n) h = record {
  up = 0;
  down = suc n / 1000;
  diff = neg-IsDiff (suc n / 1000);
  above = omega (arith, h);
  below = omega (arith, h);
}

near :
    (s1 s2 u1 u2 : ℕ) (z q : ℤ) (r : Rounds u1 u2 q)
    → IsDiff (s1 * 1000 + r.up) (s2 * 1000 + r.down) z
    → Near (s1 * 1000000 + u1) (s2 * 1000000 + u2) z
near s1 s2 u1 u2 (pos n) q r h =
    (omega (arith, h, r.above, r.below), omega (arith, h, r.above, r.below))
near s1 s2 u1 u2 (negsuc n) q r h =
    (omega (arith, h, r.above, r.below), omega (arith, h, r.above, r.below))

Near-to_int :
    (a b : ℕ) (z : ℤ)
    → a < b + 2147483000000
    → b < a + 2147483000000
    → Near a b z
    → Near a b (to_int z)
Near-to_int a b (pos n) h k near = rw (to_int_small n (omega (arith, h, k, near.0, near.1))) near
Near-to_int a b (negsuc n) h k near =
    rw (to_int_negative n (omega (arith, h, k, near.0, near.1))) near

-- Of two times that are less than 2147483 seconds apart, as the int can hold, the result of `msecdiff`
-- is less than a millisecond from their difference, whichever comes first.
pub msecdiff-Near :
    (t1 t2 : TimeVal)
    → micros t1 < micros t2 + 2147483000000
    → micros t2 < micros t1 + 2147483000000
    → Near (micros t1) (micros t2) (msecdiff t1 t2)
unfolding msecdiff
msecdiff-Near t1 t2 h k =
    let r = div-Rounds t1.tv_usec t2.tv_usec _ (sub-IsDiff t1.tv_usec t2.tv_usec) in
    Near-to_int (micros t1) (micros t2) _ h k (
      near t1.tv_sec t2.tv_sec t1.tv_usec t2.tv_usec _ _ r (
        add-IsDiff (t1.tv_sec * 1000) (t2.tv_sec * 1000) r.up r.down _ _
          (mul-IsDiff t1.tv_sec t2.tv_sec _ (sub-IsDiff t1.tv_sec t2.tv_sec)) r.diff))
