-- ===== src/Text/Util/Trim.antt =====
-- util.c: what `strlcpy` and `trim_whitespace` leave of a string.
pub mod Returns
use mathlib.Core.List.{reverse-append, reverse-reverse}
use ftp_server.Prelude.{
  Option-cases, All-reverse, ℕ, zero, suc, ◌+◌, ◌-◌, ◌<◌, ◌≤◌, ◌≡◌, refl, sym, ap, ◌∙◌, inl, inr,
  Bool, true, false, List, [], ◌∷◌, ◌++◌, reverse, Option, none, some, ltb, leb, if◌then◌else◌,
  arith, Bool-cases, ltb→lt, ltb→le, lt→ltb, length, take, drop, take-append-drop, length-take-le,
  length-take, length-reverse, Bytes, All,
}
use ftp_server.Text.Ctype.{is_blank, is_space}
use ftp_server.Text.Util.{strlcpy, skip_blanks, back_over_spaces, map_reverse, trim_whitespace}

-- What `strlcpy` leaves is as much of the source as the buffer holds beside a NUL, and the returned
-- length tells whether that is all of it.
pub record IsCopy (src : Bytes) (size : ℕ) (r : Bytes × ℕ) : Type 0 where
  pub len : r.1 ≡ length src
  pub fits : length r.0 < size
  pub front : (rest : Bytes) × (r.0 ++ rest ≡ src)
  pub whole : r.1 < size → r.0 ≡ src
  pub full : size ≤ r.1 → length r.0 + 1 ≡ size

take_all : (n : ℕ) (s : Bytes) → length s ≤ n → take n s ≡ s
take_all zero [] h = refl
take_all zero (c ∷ s) h = elim h [ ]
take_all (suc n) [] h = refl
take_all (suc n) (c ∷ s) h = ap (λ t. c ∷ t) (take_all n s (omega (arith, h)))

copied :
    (b : Bool) (src : Bytes) (size : ℕ)
    → ltb (size - 1) (length src) ≡ b
    → 1 ≤ size
    → IsCopy src size (take (if b then size - 1 else length src) src, length src)
copied true src size e h =
    let lt = ltb→lt (size - 1) (length src) e in
    record {
      len = refl;
      fits = omega (arith, length-take-le (size - 1) src, h);
      front = (drop (size - 1) src, take-append-drop (size - 1) src);
      whole = λ k. absurd (omega (arith, k, lt));
      full = λ k. omega (arith, length-take (size - 1) src (omega (arith, lt)), h);
    }
copied false src size e h =
    let le = ltb→le (size - 1) (length src) e in
    record {
      len = refl;
      fits = omega (arith, length-take-le (length src) src, le, h);
      front = (drop (length src) src, take-append-drop (length src) src);
      whole = λ k. take_all (length src) src (omega arith);
      full = λ k. absurd (omega (arith, k, le, h));
    }

-- A string that is not empty is copied as far as the buffer holds it beside a NUL, and the length that
-- is returned is the source's: below the size of the buffer all of it has
-- been copied, and otherwise the copy and its NUL fill the buffer.
pub strlcpy-IsCopy :
    (dst : Bytes) (c : ℕ) (s : Bytes) (size : ℕ)
    → 1 ≤ size
    → IsCopy (c ∷ s) size (strlcpy dst (c ∷ s) size)
unfolding strlcpy
strlcpy-IsCopy dst c s size h = copied (ltb (size - 1) (length (c ∷ s))) (c ∷ s) size refl h

head_same : (a b : ℕ) (s t : Bytes) → a ∷ s ≡ b ∷ t → a ≡ b
head_same a b s t e = cc

-- What is cut off in front.
record IsSkipped (line r : Bytes) : Type 0 where
  front : Bytes
  split : line ≡ front ++ r
  blanks : All (λ c. is_blank c ≡ true) front
  starts : (c : ℕ) (rest : Bytes) → r ≡ c ∷ rest → is_blank c ≡ false

skipped :
    (b : Bool) (c : ℕ) (s r : Bytes)
    → is_blank c ≡ b
    → IsSkipped s r
    → IsSkipped (c ∷ s) (if b then r else c ∷ s)
skipped true c s r e k = record {
  front = c ∷ k.front;
  split = ap (λ t. c ∷ t) k.split;
  blanks = (e, k.blanks);
  starts = k.starts;
}
skipped false c s r e k = record {
  front = [];
  split = refl;
  blanks = tt;
  starts = λ d rest q. ap is_blank (head_same d c rest s (sym q)) ∙ e;
}

skip_blanks-IsSkipped : (line : Bytes) → IsSkipped line (skip_blanks line)
unfolding skip_blanks
skip_blanks-IsSkipped [] = record { front = []; split = refl; blanks = tt; starts = λ c rest q. cc }
skip_blanks-IsSkipped (c ∷ s) =
    skipped (is_blank c) c s (skip_blanks s) refl (skip_blanks-IsSkipped s)

-- What is cut off behind, from the last byte on.
record IsBacked (s r : Bytes) : Type 0 where
  back : Bytes
  split : s ≡ back ++ r
  spaces : All (λ c. is_space c ≡ true) back
  last : (c : ℕ) (rest : Bytes) → r ≡ c ∷ rest → is_space c ≡ false

backed :
    (b : Bool) (c : ℕ) (s r : Bytes) (o : Option Bytes)
    → is_space c ≡ b
    → ((r : Bytes) → o ≡ some r → IsBacked s r)
    → (if b then o else some (c ∷ s)) ≡ some r
    → IsBacked (c ∷ s) r
backed true c s r o e k q =
    let rec = k r q in
    record {
      back = c ∷ rec.back;
      split = ap (λ t. c ∷ t) rec.split;
      spaces = (e, rec.spaces);
      last = rec.last;
    }
backed false c s r o e k q =
    let same : c ∷ s ≡ r = cc in
    record {
      back = [];
      split = same;
      spaces = tt;
      last = λ d rest p. ap is_space (head_same d c rest s (sym p ∙ sym same)) ∙ e;
    }

back_over_spaces-IsBacked : (s r : Bytes) → back_over_spaces s ≡ some r → IsBacked s r
unfolding back_over_spaces
back_over_spaces-IsBacked [] r q = cc
back_over_spaces-IsBacked (c ∷ s) r q =
    backed (is_space c) c s r (back_over_spaces s) refl (back_over_spaces-IsBacked s) q

not_cons : (c : ℕ) (s : Bytes) → [] ≡ c ∷ s → ⊥
not_cons c s e = cc

not_some : (t : Bytes) → none ≡ some t → ⊥
not_some t e = cc

some_same : (s t : Bytes) → some s ≡ some t → s ≡ t
some_same s t e = cc

-- `t` is the line without its blanks in front and its white space behind.
pub record IsTrimmed (line t : Bytes) : Type 0 where
  pub front : Bytes
  pub back : Bytes
  pub split : line ≡ front ++ (t ++ back)
  pub blanks : All (λ c. is_blank c ≡ true) front
  pub spaces : All (λ c. is_space c ≡ true) back
  pub starts : (c : ℕ) (rest : Bytes) → t ≡ c ∷ rest → is_blank c ≡ false
  pub ends : (c : ℕ) (rest : Bytes) → reverse t ≡ c ∷ rest → is_space c ≡ false

reversed : (body r back : Bytes) → reverse body ≡ back ++ r → body ≡ reverse r ++ reverse back
reversed body r back e = sym (reverse-reverse body) ∙ ap reverse e ∙ reverse-append back r

IsTrimmed-body :
    (line body r : Bytes)
    → IsSkipped line body
    → IsBacked (reverse body) r
    → IsTrimmed line (reverse r)
IsTrimmed-body line body r k b =
    let whole = reversed body r b.back b.split in
    record {
      front = k.front;
      back = reverse b.back;
      split = k.split ∙ ap (λ t. k.front ++ t) whole;
      blanks = k.blanks;
      spaces = All-reverse (λ c. is_space c ≡ true) b.back b.spaces;
      starts =
          λ c rest e. k.starts c (rest ++ reverse b.back) (whole ∙ ap (λ t. t ++ reverse b.back) e);
      ends = λ c rest e. b.last c rest (sym (reverse-reverse r) ∙ e);
    }

trimmed :
    (line body t : Bytes)
    → IsSkipped line body
    → elim body [ [] ↦ some [] | c ∷ s ↦ map_reverse (back_over_spaces (reverse (c ∷ s))) ] ≡ some t
    → IsTrimmed line t
trimmed line [] t k e =
    let empty : [] ≡ t = cc in
    record {
      front = k.front;
      back = [];
      split = rw (sym empty) k.split;
      blanks = k.blanks;
      spaces = tt;
      starts = λ c rest q. cc;
      ends = λ c rest q. absurd (not_cons c rest (ap reverse empty ∙ q));
    }
trimmed line (c ∷ s) t k e = elim (Option-cases (back_over_spaces (reverse (c ∷ s)))) [
  | inl n ↦ absurd (not_some t (sym (ap map_reverse n) ∙ e))
  | inr (r, f) ↦
      let same : reverse r ≡ t = some_same (reverse r) t (sym (ap map_reverse f) ∙ e) in
      rw (sym same) (IsTrimmed-body line (c ∷ s) r k (back_over_spaces-IsBacked _ r f))
]

-- Where `trim_whitespace` stays within the line, what it leaves is the line without blanks in front and
-- white space behind, and has no more of either to cut.
pub trim_whitespace-IsTrimmed : (line t : Bytes) → trim_whitespace line ≡ some t → IsTrimmed line t
unfolding trim_whitespace
trim_whitespace-IsTrimmed line t e =
    trimmed line (skip_blanks line) t (skip_blanks-IsSkipped line) e
