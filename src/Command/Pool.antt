-- ===== src/Command/Pool.antt =====
-- The growth of the command pool: `init_command_pool`, `destroy_command_pool`, `add_command` and
-- `add_command_list` of command.c. A call of malloc or realloc finds memory or not.
use ftp_server.Prelude.{
  ℕ, ◌*◌, ◌≤◌, ◌<◌, ◌≡◌, refl, sym, ap, ◌∙◌, Bool, true, false, List, [], ◌∷◌, ◌++◌, append-nil,
  append_assoc, Option, none, some, leb, ltb, lt→ltb, Bool-cases, inl, inr, if◌then◌else◌, arith,
  length, length-append, Bytes,
}
use ftp_server.Machine.Types.{Ret, ftp_error, ftp_success}
use ftp_server.Command.Lookup.{qsort}

-- The entries that are used, and `command_pool_size`.
pub record Pool (E : Type 0) : Type 0 where
  pub commands : List E
  pub size : ℕ

module _ {E : Type 0} where
  unfoldable pub init_command_pool : Bool → Pool E → Ret × Pool E
  init_command_pool memory pool =
      if memory
      then (ftp_success, record pool { size = 16 })
      else (ftp_error, record pool { size = 0 })

  unfoldable pub destroy_command_pool : Pool E → Pool E
  destroy_command_pool pool = record { commands = []; size = 0 }

  -- The copy into the entry behind the last one: `none` is a write behind the end of the pool.
  unfoldable pub put : E → Pool E → Option (Ret × Pool E)
  put cmd pool =
      if ltb (length pool.commands) pool.size
      then some (ftp_success, record pool { commands = pool.commands ++ (cmd ∷ []) })
      else none

  unfoldable pub add_command : (ℕ → Bool) → E → Pool E → Option (Ret × Pool E)
  unfolding put
  add_command realloc cmd pool =
      if leb pool.size (length pool.commands)
      then (if realloc (pool.size * 2)
          then put cmd (record pool { size = pool.size * 2 })
          else some (ftp_error, record pool { size = pool.size * 2 }))
      else put cmd pool

  -- while( command_list->name != NULL ); `rest` is the next round.
  unfoldable pub added :
      (Pool E → Option (Ret × Pool E)) → Option (Ret × Pool E) → Option (Ret × Pool E)
  added rest none = none
  added rest (some (ftp_success, pool)) = rest pool
  added rest (some (_, pool)) = some (ftp_error, pool)

  unfoldable pub add_commands : (ℕ → Bool) → List E → Pool E → Option (Ret × Pool E)
  unfolding add_command added
  add_commands realloc [] pool = some (ftp_success, pool)
  add_commands realloc (cmd ∷ cmds) pool =
      added (add_commands realloc cmds) (add_command realloc cmd pool)

  unfoldable pub sorted : (E → Bytes) → Option (Ret × Pool E) → Option (Ret × Pool E)
  unfolding qsort
  sorted name none = none
  sorted name (some (ftp_success, pool)) =
      some (ftp_success, record pool { commands = qsort name pool.commands })
  sorted name (some (r, pool)) = some (ftp_error, pool)

  unfoldable pub add_command_list :
      (E → Bytes) → (ℕ → Bool) → List E → Pool E → Option (Ret × Pool E)
  unfolding add_commands sorted
  add_command_list name realloc cmds pool = sorted name (add_commands realloc cmds pool)

  -- A pool that `init_command_pool` has made, or that has grown from one.
  pub record IsSound (pool : Pool E) : Type 0 where
    pub has_room : 0 < pool.size
    pub fits : length pool.commands ≤ pool.size

  -- No write is out of bounds. Success is a pool of these entries, any other result is an error.
  abbrev pub Grows : List E → Option (Ret × Pool E) → Type 0
  Grows all none = ⊥
  Grows all (some (ftp_success, pool)) = (pool.commands ≡ all) × IsSound pool
  Grows all (some (r, pool)) = r ≡ ftp_error

  put-Grows :
      (cmd : E) (pool : Pool E)
      → length pool.commands < pool.size
      → Grows (pool.commands ++ (cmd ∷ [])) (put cmd pool)
  unfolding put
  put-Grows cmd pool lt = rw (lt→ltb (length pool.commands) pool.size lt) (
    refl,
    record {
      has_room = omega (arith, lt);
      fits = omega (arith, lt, length-append pool.commands (cmd ∷ []));
    },
  )

  -- Room is made where there is none.
  grown-Grows :
      (b : Bool) (cmd : E) (pool : Pool E)
      → length pool.commands < pool.size * 2
      → Grows (pool.commands ++ (cmd ∷ [])) (
          if b
          then put cmd (record pool { size = pool.size * 2 })
          else some (ftp_error, record pool { size = pool.size * 2 }))
  grown-Grows true cmd pool lt = put-Grows cmd (record pool { size = pool.size * 2 }) lt
  grown-Grows false cmd pool lt = refl

  add_command-Grows :
      (realloc : ℕ → Bool) (cmd : E) (pool : Pool E)
      → IsSound pool
      → Grows (pool.commands ++ (cmd ∷ [])) (add_command realloc cmd pool)
  unfolding add_command
  add_command-Grows realloc cmd pool ok = elim (Bool-cases (leb pool.size (length pool.commands))) [
    | inl full ↦
        rw (full)
          (grown-Grows (realloc (pool.size * 2)) cmd pool (omega (arith, ok.has_room, ok.fits)))
    | inr room ↦ rw (room) (put-Grows cmd pool (ground (arith, room)))
  ]

  added-Grows :
      (all front : List E) (rest : Pool E → Option (Ret × Pool E)) (o : Option (Ret × Pool E))
      → Grows front o
      → ((pool : Pool E) → pool.commands ≡ front → IsSound pool → Grows all (rest pool))
      → Grows all (added rest o)
  unfolding added
  added-Grows all front rest none h k = h
  added-Grows all front rest (some (ftp_success, pool)) h k = k pool h.0 h.1
  added-Grows all front rest (some (_, pool)) h k = refl

  add_commands-Grows :
      (realloc : ℕ → Bool) (cmds : List E) (pool : Pool E)
      → IsSound pool
      → Grows (pool.commands ++ cmds) (add_commands realloc cmds pool)
  unfolding add_commands
  add_commands-Grows realloc [] pool ok = (sym (append-nil pool.commands), ok)
  add_commands-Grows realloc (cmd ∷ cmds) pool ok =
      added-Grows (pool.commands ++ (cmd ∷ cmds)) (pool.commands ++ (cmd ∷ [])) _ _
        (add_command-Grows realloc cmd pool ok)
        (λ p e sound.
          rw (sym (ap (λ l. l ++ cmds) e ∙ append_assoc pool.commands (cmd ∷ []) cmds))
            (add_commands-Grows realloc cmds p sound))

  -- The entries, sorted.
  abbrev pub Sorts : (E → Bytes) → List E → Option (Ret × Pool E) → Type 0
  Sorts name all none = ⊥
  Sorts name all (some (ftp_success, pool)) =
      (pool.commands ≡ qsort name all) × (length all ≤ pool.size)
  Sorts name all (some (r, pool)) = r ≡ ftp_error

  sorted-Sorts :
      (name : E → Bytes) (all : List E) (o : Option (Ret × Pool E))
      → Grows all o
      → Sorts name all (sorted name o)
  unfolding sorted
  sorted-Sorts name all none h = h
  sorted-Sorts name all (some (ftp_success, pool)) h =
      (ap (qsort name) h.0, omega (arith, ap length h.0, h.1.fits))
  sorted-Sorts name all (some (_, pool)) h = refl

  -- Onto a pool with room for its entries, `add_command_list` writes behind no end of the pool,
  -- whatever list it is given, as the pool is grown in front of a write. If it succeeds, the pool holds
  -- its old entries and those of the list, sorted by their names, and has room for all; otherwise it
  -- returns FTP_ERROR.
  pub add_command_list-Sorts :
      (name : E → Bytes) (realloc : ℕ → Bool) (cmds : List E) (pool : Pool E)
      → IsSound pool
      → Sorts name (pool.commands ++ cmds) (add_command_list name realloc cmds pool)
  unfolding add_command_list
  add_command_list-Sorts name realloc cmds pool ok =
      sorted-Sorts name _ _ (add_commands-Grows realloc cmds pool ok)
