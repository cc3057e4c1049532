-- ===== src/Text/Util/Basename.antt =====
-- util.c: what `find_basename` gives of a path.
use ftp_server.Prelude.{
  ℕ, ◌≡◌, ◌≢◌, refl, ap, ◌⊎◌, inl, inr, Bool, true, false, [], ◌∷◌, ◌++◌, Option, none, some, ◌==◌,
  if◌then◌else◌, arith, All, Bytes,
}
use ftp_server.Text.Util.{after_last_sep, find_basename}

abbrev pub NoSep : Bytes → Type 0
NoSep = All (λ c. c ≢ 47)

-- What is known of the search for the last separator.
abbrev Found : Bytes → Option Bytes → Type 0
Found path none = NoSep path
Found path (some t) = (front : Bytes) × ((path ≡ front ++ (47 ∷ t)) × NoSep t)

at_sep :
    (b : Bool) (c : ℕ) (s : Bytes)
    → (c == 47) ≡ b
    → NoSep s
    → Found (c ∷ s) (if b then some s else none)
at_sep true c s e h = ([], (ap (λ d. d ∷ s) (ground arith), h))
at_sep false c s e h = (λ q. ground arith, h)

Found-last :
    (c : ℕ) (s : Bytes) (o : Option Bytes)
    → Found s o
    → Found (c ∷ s) (elim o [ some t ↦ some t | none ↦ if c == 47 then some s else none ])
Found-last c s none h = at_sep (c == 47) c s refl h
Found-last c s (some t) h = (c ∷ h.0, (ap (λ r. c ∷ r) h.1.0, h.1.1))

after_last_sep-Found : (path : Bytes) → Found path (after_last_sep path)
unfolding after_last_sep
after_last_sep-Found [] = tt
after_last_sep-Found (c ∷ s) = Found-last c s (after_last_sep s) (after_last_sep-Found s)

-- The last component of a path, which is all of it, or stands behind a separator.
pub record IsBasename (path name : Bytes) : Type 0 where
  pub no_sep : NoSep name
  pub whole : (name ≡ path) ⊎ ((front : Bytes) × (path ≡ front ++ (47 ∷ name)))

named :
    (path : Bytes) (o : Option Bytes)
    → Found path o
    → IsBasename path (elim o [ some t ↦ t | none ↦ path ])
named path none h = record { no_sep = h; whole = inl refl }
named path (some t) h = record { no_sep = h.1.1; whole = inr (h.0, h.1.0) }

-- The name that is taken from a path holds no separator, and is the whole path or what follows a
-- separator in it.
pub find_basename-IsBasename : (path : Bytes) → IsBasename path (find_basename path)
unfolding find_basename
find_basename-IsBasename path = named path (after_last_sep path) (after_last_sep-Found path)
