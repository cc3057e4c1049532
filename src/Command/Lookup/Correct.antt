-- ===== src/Command/Lookup/Correct.antt =====
-- The binary search of the sorted pool finds what a linear search of the table finds.
use ftp_server.Prelude.{
  ℕ, zero, suc, ◌/◌, ◌<◌, ◌≡◌, refl, ap, sym, ◌∙◌, ◌≢◌, inl, inr, List, [], ◌∷◌, ◌++◌, Option, none,
  some, arith, take, drop, length, length-take-le, length-drop, take-append-drop, Bytes, All,
  All-front, All-back,
}
use ftp_server.Text.Ctype.{less, same, strcasecmp}
use ftp_server.Command.Lookup.{insert, qsort, probe, bsearch}
use ftp_server.Command.Lookup.Ordering.{
  Order-cases, strcasecmp-flip, strcasecmp_trans, strcasecmp_same,
}

module _ {E : Type 0} (name : E → Bytes) where
  -- The first entry of that name, in either case.
  unfoldable pub find : Bytes → List E → Option E
  find key [] = none
  find key (x ∷ xs) = elim (strcasecmp key (name x)) [ same ↦ some x | _ ↦ find key xs ]

  -- `x` comes before all of `xs`.
  abbrev pub Below : E → List E → Type 0
  Below x = All (λ y. strcasecmp (name x) (name y) ≡ less)

  abbrev pub IsSorted : List E → Type 0
  IsSorted [] = Unit
  IsSorted (x ∷ xs) = Below x xs × IsSorted xs

  abbrev pub Differs : E → List E → Type 0
  Differs x = All (λ y. strcasecmp (name x) (name y) ≢ same)

  -- No two names are the same but for case.
  abbrev pub AllDiffer : List E → Type 0
  AllDiffer [] = Unit
  AllDiffer (x ∷ xs) = Differs x xs × AllDiffer xs

  Below-trans :
      (e x : E) (xs : List E) → strcasecmp (name e) (name x) ≡ less → Below x xs → Below e xs
  Below-trans e x [] h b = tt
  Below-trans e x (y ∷ ys) h b =
      (strcasecmp_trans (name e) (name x) (name y) h b.0, Below-trans e x ys h b.1)

  Below-insert :
      (x e : E) (xs : List E)
      → strcasecmp (name x) (name e) ≡ less
      → Below x xs
      → Below x (insert name e xs)
  unfolding insert
  Below-insert x e [] h b = (h, tt)
  Below-insert x e (y ∷ ys) h b = ground (arith, Below-insert x e ys h b.1)

  insert-IsSorted : (e : E) (xs : List E) → Differs e xs → IsSorted xs → IsSorted (insert name e xs)
  unfolding insert
  insert-IsSorted e [] d s = (tt, tt)
  insert-IsSorted e (x ∷ xs) d s = ground (
    arith,
    insert-IsSorted e xs d.1 s.1,
    Below-trans e x xs,
    Below-insert x e xs,
    strcasecmp-flip (name e) (name x),
  )

  Differs-insert :
      (x e : E) (xs : List E)
      → strcasecmp (name x) (name e) ≢ same
      → Differs x xs
      → Differs x (insert name e xs)
  unfolding insert
  Differs-insert x e [] h d = (h, tt)
  Differs-insert x e (y ∷ ys) h d = ground (arith, Differs-insert x e ys h d.1)

  Differs-qsort : (x : E) (xs : List E) → Differs x xs → Differs x (qsort name xs)
  unfolding qsort
  Differs-qsort x [] d = tt
  Differs-qsort x (y ∷ ys) d = Differs-insert x y (qsort name ys) d.0 (Differs-qsort x ys d.1)

  pub qsort-IsSorted : (xs : List E) → AllDiffer xs → IsSorted (qsort name xs)
  unfolding qsort
  qsort-IsSorted [] d = tt
  qsort-IsSorted (x ∷ xs) d =
      insert-IsSorted x (qsort name xs) (Differs-qsort x xs d.0) (qsort-IsSorted xs d.1)

  length-insert : (e : E) (xs : List E) → length (insert name e xs) ≡ suc (length xs)
  unfolding insert
  length-insert e [] = refl
  length-insert e (x ∷ xs) = ground (arith, length-insert e xs)

  pub length-qsort : (xs : List E) → length (qsort name xs) ≡ length xs
  unfolding qsort
  length-qsort [] = refl
  length-qsort (x ∷ xs) = length-insert x (qsort name xs) ∙ ap suc (length-qsort xs)

  -- Two entries of one name as the key would have one name.
  find-insert :
      (key : Bytes) (e : E) (xs : List E)
      → Differs e xs
      → find key (insert name e xs) ≡ find key (e ∷ xs)
  unfolding insert find
  find-insert key e [] d = refl
  find-insert key e (x ∷ xs) d =
      ground (arith, find-insert key e xs d.1, strcasecmp_same key (name e) (name x), d.0)

  find-cons :
      (key : Bytes) (x : E) (xs ys : List E)
      → find key xs ≡ find key ys
      → find key (x ∷ xs) ≡ find key (x ∷ ys)
  unfolding find
  find-cons key x xs ys h = ground arith

  pub find-qsort :
      (key : Bytes) (xs : List E) → AllDiffer xs → find key (qsort name xs) ≡ find key xs
  unfolding qsort
  find-qsort key [] d = refl
  find-qsort key (x ∷ xs) d =
      find-insert key x (qsort name xs) (Differs-qsort x xs d.0)
      ∙ find-cons key x (qsort name xs) xs (find-qsort key xs d.1)

module _ {E : Type 0} (name : E → Bytes) (key : Bytes) where
  abbrev Misses : List E → Type 0
  Misses = All (λ y. strcasecmp key (name y) ≢ same)

  find-Misses : (xs : List E) → Misses xs → find name key xs ≡ none
  unfolding find
  find-Misses [] m = refl
  find-Misses (x ∷ xs) m = ground (arith, find-Misses xs m.1)

  find-skip : (xs ys : List E) → Misses xs → find name key (xs ++ ys) ≡ find name key ys
  unfolding find
  find-skip [] ys m = refl
  find-skip (x ∷ xs) ys m = ground (arith, find-skip xs ys m.1)

  find-front : (xs ys : List E) → Misses ys → find name key (xs ++ ys) ≡ find name key xs
  unfolding find
  find-front [] ys m = find-Misses ys m
  find-front (x ∷ xs) ys m = ground (arith, find-front xs ys m)

  -- In `xs ++ x ∷ ys`, what stands in front of `x`.
  abbrev Above : E → List E → Type 0
  Above x = All (λ y. strcasecmp (name y) (name x) ≡ less)

  Above-of : (x : E) (xs ys : List E) → IsSorted name (xs ++ x ∷ ys) → Above x xs
  Above-of x [] ys s = tt
  Above-of x (z ∷ xs) ys s = ((All-back _ xs (x ∷ ys) s.0).0, Above-of x xs ys s.1)

  IsSorted-front : (xs ys : List E) → IsSorted name (xs ++ ys) → IsSorted name xs
  IsSorted-front [] ys s = tt
  IsSorted-front (x ∷ xs) ys s = (All-front _ xs ys s.0, IsSorted-front xs ys s.1)

  IsSorted-back : (xs ys : List E) → IsSorted name (xs ++ ys) → IsSorted name ys
  IsSorted-back [] ys s = s
  IsSorted-back (x ∷ xs) ys s = IsSorted-back xs ys s.1

  Above-Misses : (x : E) (xs : List E) → Above x xs → strcasecmp key (name x) ≢ less → Misses xs
  Above-Misses x [] a n = tt
  Above-Misses x (y ∷ ys) a n =
      (λ e. n (strcasecmp_same key (name y) (name x) e ∙ a.0), Above-Misses x ys a.1 n)

  Below-Misses :
      (x : E) (ys : List E) → Below name x ys → strcasecmp key (name x) ≡ less → Misses ys
  Below-Misses x [] b h = tt
  Below-Misses x (y ∷ ys) b h =
      (λ e. ground (arith, strcasecmp_trans key (name x) (name y) h b.0), Below-Misses x ys b.1 h)

  -- The probe agrees with the linear search where the halves do.
  probe-find :
      (search_in : List E → Option E) (below rest : List E)
      → IsSorted name (below ++ rest)
      → search_in below ≡ find name key below
      → ((x : E) (above : List E) → rest ≡ x ∷ above → search_in above ≡ find name key above)
      → (rest ≡ [] → below ≡ [])
      → probe name key search_in below rest ≡ find name key (below ++ rest)
  unfolding probe
  probe-find f below [] s e k n = rw (n refl) (unfold find in refl)
  probe-find f below (x ∷ above) s e k n =
      let before = Above-Misses x below (Above-of x below above s) in
      let after = Below-Misses x above (IsSorted-back below (x ∷ above) s).0 in
      elim (Order-cases (strcasecmp key (name x))) [
        | inl o ↦ rw (o, probe, find-front below (x ∷ above) (λ q. ground arith, after o)) e
        | inr (inl o) ↦
            rw (o, probe, find-skip below (x ∷ above) (before (λ q. ground arith)))
              (unfold find in rw (o, find))
        | inr (inr o) ↦
            rw (o, probe, find-skip below (x ∷ above) (before (λ q. ground arith)))
              (k x above refl ∙ sym (unfold find in rw (o, find)))
      ]

  IsSorted-split :
      (n : ℕ) (pool : List E) → IsSorted name pool → IsSorted name (take n pool ++ drop n pool)
  IsSorted-split n pool s = rw (take-append-drop n pool) s

  tail-IsSorted :
      {xs : List E} {x : E} {ys : List E} → xs ≡ x ∷ ys → IsSorted name xs → IsSorted name ys
  tail-IsSorted e s = (rw e at s).1

  bsearch-find :
      (f : ℕ) (pool : List E)
      → length pool < f
      → IsSorted name pool
      → bsearch name f key pool ≡ find name key pool
  unfolding bsearch
  bsearch-find zero pool h s = elim h [ ]
  bsearch-find (suc f) [] h s = unfold probe find in refl
  bsearch-find (suc f) (p ∷ ps) h s =
      let pool = p ∷ ps in
      let mid = length pool / 2 in
      let split = take-append-drop mid pool in
      let sorted = IsSorted-split mid pool s in
      probe-find (bsearch name f key) (take mid pool) (drop mid pool) sorted
        (bsearch-find f (take mid pool) (omega (arith, length-take-le mid pool))
          (IsSorted-front (take mid pool) (drop mid pool) sorted))
        (λ x above e.
          bsearch-find f above (omega (arith, length-drop mid pool, ap length e))
            (tail-IsSorted e (IsSorted-back (take mid pool) (drop mid pool) sorted)))
        (λ e. absurd (omega (arith, length-drop mid pool, ap length e)))
      ∙ ap (find name key) split

-- The sorted pool answers as the table does: the first entry whose name is the key but for case, and
-- none if there is no such entry.
pub bsearch-qsort :
    {E : Type 0} (name : E → Bytes) (key : Bytes) (table : List E)
    → AllDiffer name table
    → bsearch name (suc (length table)) key (qsort name table) ≡ find name key table
bsearch-qsort name key table d =
    bsearch-find name key (suc (length table)) (qsort name table)
      (omega (arith, length-qsort name table)) (qsort-IsSorted name table d)
    ∙ find-qsort name key table d
