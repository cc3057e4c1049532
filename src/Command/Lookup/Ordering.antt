-- ===== src/Command/Lookup/Ordering.antt =====
-- strcasecmp orders the names.
use ftp_server.Prelude.{[], ◌∷◌, ◌≡◌, refl, ◌⊎◌, inl, inr, arith, Bytes}
use ftp_server.Text.Ctype.{Order, less, same, greater, strcasecmp}

abbrev pub flip : Order → Order
flip less = greater
flip same = same
flip greater = less

pub strcasecmp-flip : (a b : Bytes) → strcasecmp b a ≡ flip (strcasecmp a b)
unfolding strcasecmp
strcasecmp-flip [] [] = refl
strcasecmp-flip [] (y ∷ b) = refl
strcasecmp-flip (x ∷ a) [] = refl
strcasecmp-flip (x ∷ a) (y ∷ b) = ground (arith, strcasecmp-flip a b)

pub strcasecmp_trans :
    (a b c : Bytes) → strcasecmp a b ≡ less → strcasecmp b c ≡ less → strcasecmp a c ≡ less
unfolding strcasecmp
strcasecmp_trans [] [] c h k = k
strcasecmp_trans [] (y ∷ b) [] h k = ground arith
strcasecmp_trans [] (y ∷ b) (z ∷ c) h k = refl
strcasecmp_trans (x ∷ a) [] c h k = ground arith
strcasecmp_trans (x ∷ a) (y ∷ b) [] h k = ground arith
strcasecmp_trans (x ∷ a) (y ∷ b) (z ∷ c) h k = ground (arith, strcasecmp_trans a b c)

pub strcasecmp_same : (a b c : Bytes) → strcasecmp a b ≡ same → strcasecmp a c ≡ strcasecmp b c
unfolding strcasecmp
strcasecmp_same [] [] c h = refl
strcasecmp_same [] (y ∷ b) c h = ground arith
strcasecmp_same (x ∷ a) [] c h = ground arith
strcasecmp_same (x ∷ a) (y ∷ b) [] h = refl
strcasecmp_same (x ∷ a) (y ∷ b) (z ∷ c) h = ground (arith, strcasecmp_same a b c)

pub Order-cases : (o : Order) → (o ≡ less) ⊎ (o ≡ same) ⊎ (o ≡ greater)
Order-cases less = inl refl
Order-cases same = inr (inl refl)
Order-cases greater = inr (inr refl)
