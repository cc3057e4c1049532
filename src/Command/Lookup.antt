-- ===== src/Command/Lookup.antt =====
-- The command pool: `add_command_list` sorts it by name, and `bsearch` finds a name in it.
pub mod Ordering
pub mod Correct
pub mod Entries
use ftp_server.Prelude.{
  ℕ, zero, suc, ◌/◌, List, [], ◌∷◌, Option, none, some, take, drop, length, Bytes,
}
use ftp_server.Text.Ctype.{less, same, greater, strcasecmp}

-- What the search reads of an entry is its name.
module _ {E : Type 0} (name : E → Bytes) where
  unfoldable pub insert : E → List E → List E
  insert e [] = e ∷ []
  insert e (x ∷ xs) =
      let rest = insert e xs in
      elim (strcasecmp (name e) (name x)) [ greater ↦ x ∷ rest | _ ↦ e ∷ x ∷ xs ]

  -- qsort( pool, …, compare_commands )
  unfoldable pub qsort : List E → List E
  unfolding insert
  qsort [] = []
  qsort (x ∷ xs) = insert x (qsort xs)

  -- The entry in the middle decides, by `compare_key_to_cmd`.
  unfoldable pub probe : Bytes → (List E → Option E) → List E → List E → Option E
  probe key search_in below [] = none
  probe key search_in below (x ∷ above) = elim (strcasecmp key (name x)) [
    | same ↦ some x
    | less ↦ search_in below
    | greater ↦ search_in above
  ]

  -- bsearch( key, pool, … ), with a round of fuel for each halving
  unfoldable pub bsearch : ℕ → Bytes → List E → Option E
  unfolding probe
  bsearch zero key pool = none
  bsearch (suc f) key pool =
      probe key (bsearch f key) (take (length pool / 2) pool) (drop (length pool / 2) pool)
