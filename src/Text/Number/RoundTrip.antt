-- ===== src/Text/Number/RoundTrip.antt =====
-- A number that is printed is read back.
use ftp_server.Prelude.{
  ℕ, zero, suc, ◌+◌, ◌-◌, ◌*◌, ◌/◌, ◌%◌, ◌<◌, ◌≤◌, ◌≡◌, refl, ap, ◌∙◌, Bool, true, false, [], ◌∷◌,
  ◌++◌, All, All-append, ltb, ltb→lt, ◌==◌, if◌then◌else◌, arith, Bytes,
}
use ftp_server.Text.Ctype.{is_space, is_digit}
use ftp_server.Text.Number.{
  digits, decimal, llong_max, skip_spaces, read_digits, saturate, read_sign, strtoll,
}

abbrev pub Digits : Bytes → Type 0
Digits = All (λ c. is_digit c ≡ true)

digit_char : (n : ℕ) → is_digit (48 + n % 10) ≡ true
unfolding is_digit
digit_char n = ground arith

digits-Digits : (f n : ℕ) → Digits (digits f n)
unfolding digits
digits-Digits zero n = tt
digits-Digits (suc f) n =
    All-append (λ c. is_digit c ≡ true) _ _
      (few (ltb n 10) (digits f (n / 10)) (digits-Digits f (n / 10))) (digit_char n, tt)
  where
    few : (b : Bool) (s : Bytes) → Digits s → Digits (if b then [] else s)
    few true s d = tt
    few false s d = d

pub decimal-Digits : (n : ℕ) → Digits (decimal n)
unfolding decimal
decimal-Digits n = digits-Digits 20 n

read_digits-append :
    (m : ℕ) (xs ys : Bytes)
    → Digits xs
    → read_digits m (xs ++ ys) ≡ read_digits (read_digits m xs) ys
unfolding read_digits
read_digits-append m [] ys d = refl
read_digits-append m (x ∷ xs) ys d = rw (d.0) (read_digits-append (m * 10 + (x - 48)) xs ys d.1)

abbrev power : ℕ → ℕ
power zero = 1
power (suc f) = 10 * power f

last_digit : (m n : ℕ) → read_digits m ((48 + n % 10) ∷ []) ≡ m * 10 + n % 10
unfolding read_digits
last_digit m n = rw (digit_char n) (omega arith)

few-Digits : (b : Bool) (f n : ℕ) → Digits (if b then [] else digits f n)
few-Digits true f n = tt
few-Digits false f n = digits-Digits f n

by_front :
    (b : Bool) (n : ℕ) (rest : Bytes)
    → ltb n 10 ≡ b
    → read_digits 0 rest ≡ n / 10
    → read_digits 0 (if b then [] else rest) * 10 + n % 10 ≡ n
by_front true n rest e h =
    let none : read_digits 0 [] ≡ 0 = unfold read_digits in refl in
    let lt = ltb→lt n 10 e in omega (arith, none, lt)
by_front false n rest e h = omega (arith, h)

read_digits-digits : (f n : ℕ) → n < power f → read_digits 0 (digits f n) ≡ n
unfolding digits
read_digits-digits zero n h = unfold read_digits in omega (arith, h)
read_digits-digits (suc f) n h =
    let front = if ltb n 10 then [] else digits f (n / 10) in
    read_digits-append 0 front ((48 + n % 10) ∷ []) (few-Digits (ltb n 10) f (n / 10))
    ∙ last_digit (read_digits 0 front) n
    ∙ by_front (ltb n 10) n (digits f (n / 10)) refl
        (read_digits-digits f (n / 10) (omega (arith, h)))

pub digit_no_space : (c : ℕ) → is_digit c ≡ true → is_space c ≡ false
unfolding is_digit is_space
digit_no_space c h = ground arith

digit_no_minus : (c : ℕ) → is_digit c ≡ true → (c == 45) ≡ false
unfolding is_digit
digit_no_minus c h = ground arith

digit_no_plus : (c : ℕ) → is_digit c ≡ true → (c == 43) ≡ false
unfolding is_digit
digit_no_plus c h = ground arith

strtoll-Digits : (s : Bytes) → Digits s → strtoll s ≡ saturate false (read_digits 0 s)
unfolding strtoll skip_spaces read_sign
strtoll-Digits [] d = unfold read_digits in refl
strtoll-Digits (c ∷ s) d = rw (digit_no_space c d.0, digit_no_minus c d.0, digit_no_plus c d.0)

in_range : (n : ℕ) → n ≤ llong_max → ltb llong_max n ≡ false
in_range n h = ground arith

kept :
    (n : ℕ)
    → n ≤ llong_max
    → saturate false n ≡ record { negative = false; magnitude = n; overflowed = false }
unfolding saturate
kept n h = rw (in_range n h)

-- A printed number of a long long is read as that number.
pub strtoll-decimal :
    (n : ℕ)
    → n ≤ llong_max
    → strtoll (decimal n) ≡ record { negative = false; magnitude = n; overflowed = false }
unfolding decimal saturate
strtoll-decimal n h =
    let value : read_digits 0 (digits 20 n) ≡ n = read_digits-digits 20 n (omega (arith, h)) in
    strtoll-Digits (digits 20 n) (digits-Digits 20 n) ∙ ap (saturate false) value ∙ kept n h
