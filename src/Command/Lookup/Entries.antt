-- ===== src/Command/Lookup/Entries.antt =====
-- What is true of all commands is true of the one that is found.
use ftp_server.Prelude.{
  ℕ, zero, suc, ◌/◌, List, [], ◌∷◌, Option, none, some, take, drop, length, All, Bytes,
}
use ftp_server.Text.Ctype.{less, same, greater, strcasecmp}
use ftp_server.Command.Lookup.{insert, qsort, probe, bsearch}

abbrev pub IfFound : {E : Type 0} → (E → Type 0) → Option E → Type 0
IfFound P none = Unit
IfFound P (some e) = P e

module _ {E : Type 0} (name : E → Bytes) (P : E → Type 0) where
  All-take : (n : ℕ) (xs : List E) → All P xs → All P (take n xs)
  All-take zero xs a = tt
  All-take (suc n) [] a = tt
  All-take (suc n) (x ∷ xs) a = (a.0, All-take n xs a.1)

  All-drop : (n : ℕ) (xs : List E) → All P xs → All P (drop n xs)
  All-drop zero xs a = a
  All-drop (suc n) [] a = tt
  All-drop (suc n) (x ∷ xs) a = All-drop n xs a.1

  All-insert : (e : E) (xs : List E) → P e → All P xs → All P (insert name e xs)
  unfolding insert
  All-insert e [] p a = (p, tt)
  All-insert e (x ∷ xs) p a =
      elim (strcasecmp (name e) (name x))
        as (λ o. All P (elim o [ greater ↦ x ∷ insert name e xs | _ ↦ e ∷ x ∷ xs ])) [
          | greater ↦ (a.0, All-insert e xs p a.1)
          | _ ↦ (p, a)
        ]

  pub All-qsort : (xs : List E) → All P xs → All P (qsort name xs)
  unfolding qsort
  All-qsort [] a = tt
  All-qsort (x ∷ xs) a = All-insert x (qsort name xs) a.0 (All-qsort xs a.1)

  probe-IfFound :
      (key : Bytes) (search_in : List E → Option E) (below rest : List E)
      → ((xs : List E) → All P xs → IfFound P (search_in xs))
      → All P below
      → All P rest
      → IfFound P (probe name key search_in below rest)
  unfolding probe
  probe-IfFound key f below [] k a b = tt
  probe-IfFound key f below (x ∷ above) k a b =
      elim (strcasecmp key (name x))
        as (λ o. IfFound P (elim o [ same ↦ some x | less ↦ f below | greater ↦ f above ])) [
          | same ↦ b.0
          | less ↦ k below a
          | greater ↦ k above b.1
        ]

  pub bsearch-IfFound :
      (f : ℕ) (key : Bytes) (xs : List E) → All P xs → IfFound P (bsearch name f key xs)
  unfolding bsearch
  bsearch-IfFound zero key xs a = tt
  bsearch-IfFound (suc f) key xs a =
      probe-IfFound key (bsearch name f key) _ _ (bsearch-IfFound f key)
        (All-take (length xs / 2) xs a) (All-drop (length xs / 2) xs a)
