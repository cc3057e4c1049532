-- ===== src/Text/Util/Trim/Returns.antt =====
-- util.c, `trim_whitespace`: a line with something to leave does not lead it out of the line.
use mathlib.Core.List.{reverse-append, reverse-cons}
use ftp_server.Prelude.{
  ℕ, ◌≡◌, refl, ap, ◌∙◌, Bool, true, false, [], ◌∷◌, ◌++◌, reverse, append_assoc, Option, some,
  if◌then◌else◌, arith, Bytes,
}
use ftp_server.Text.Ctype.{is_blank, is_space}
use ftp_server.Text.Util.{skip_blanks, back_over_spaces, map_reverse, trim_whitespace}

blank_space : (c : ℕ) → is_space c ≡ false → is_blank c ≡ false
unfolding is_blank is_space
blank_space c h = ground arith

turned :
    (c : ℕ) (front back : Bytes)
    → reverse (front ++ (c ∷ back)) ≡ reverse back ++ (c ∷ reverse front)
turned c front back =
    reverse-append front (c ∷ back)
    ∙ ap (λ t. t ++ reverse front) (reverse-cons c back)
    ∙ append_assoc (reverse back) (c ∷ []) (reverse front)

module _ (c : ℕ) (e : is_space c ≡ false) where
  kept_if :
      (b : Bool) (d : ℕ) (front back r : Bytes)
      → (kept : Bytes) × (r ≡ kept ++ (c ∷ back))
      → (kept : Bytes) × ((if b then r else d ∷ (front ++ (c ∷ back))) ≡ kept ++ (c ∷ back))
  kept_if true d front back r k = k
  kept_if false d front back r k = (d ∷ front, refl)

  kept :
      (front back : Bytes)
      → (kept : Bytes) × (skip_blanks (front ++ (c ∷ back)) ≡ kept ++ (c ∷ back))
  unfolding skip_blanks
  kept [] back = ([], rw (blank_space c e))
  kept (d ∷ front) back = kept_if (is_blank d) d front back _ (kept front back)

  found_if :
      (b : Bool) (s : Bytes) (o : Option Bytes)
      → (r : Bytes) × (o ≡ some r)
      → (r : Bytes) × ((if b then o else some s) ≡ some r)
  found_if true s o k = k
  found_if false s o k = (s, refl)

  found : (front back : Bytes) → (r : Bytes) × (back_over_spaces (front ++ (c ∷ back)) ≡ some r)
  unfolding back_over_spaces
  found [] back = (c ∷ back, rw (e))
  found (d ∷ front) back = found_if (is_space d) _ _ (found front back)

  found_back :
      (front back : Bytes)
      → (r : Bytes) × (back_over_spaces (reverse (front ++ (c ∷ back))) ≡ some r)
  found_back front back =
      let k = found (reverse back) (reverse front) in
      (k.0, ap back_over_spaces (turned c front back) ∙ k.1)

  returned :
      (body front back : Bytes)
      → body ≡ front ++ (c ∷ back)
      → (t : Bytes) × (elim body [
        | [] ↦ some []
        | d ∷ s ↦ map_reverse (back_over_spaces (reverse (d ∷ s)))
      ]
          ≡ some t)
  returned [] front back q = ([], refl)
  returned (d ∷ s) front back q =
      let k = found_back front back in
      (reverse k.0, ap map_reverse (ap (λ t. back_over_spaces (reverse t)) q ∙ k.1))

-- `trim_whitespace` of a line that has a character other than white space returns: it does not read in
-- front of the line.
pub trim_whitespace_returns :
    (front : Bytes) (c : ℕ) (back : Bytes)
    → is_space c ≡ false
    → (t : Bytes) × (trim_whitespace (front ++ (c ∷ back)) ≡ some t)
unfolding trim_whitespace
trim_whitespace_returns front c back e = let k = kept c e front back in returned c e _ k.0 back k.1
