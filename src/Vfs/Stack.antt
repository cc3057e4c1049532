-- ===== src/Vfs/Stack.antt =====
-- What `vfs_realpath` promises, with no buffer: a directory is a stack of names, deepest first.

use ftp_server.Prelude.{
  ℕ, ◌<◌, ◌≡◌, ◌≢◌, false, List, [], ◌∷◌, ◌++◌, reverse, Option, none, some, ltb, ◌==◌,
  if◌then◌else◌, length, Bytes, All,
}
use ftp_server.Vfs.Realpath.{ftp_max_path, head_is_sep, is_dot, is_dot_dot, bind}

-- The text between separators; empty pieces stand where two separators meet.
abbrev pub cons_head : ℕ → List Bytes → List Bytes
cons_head c [] = (c ∷ []) ∷ []
cons_head c (p ∷ ps) = (c ∷ p) ∷ ps

unfoldable pub pieces : Bytes → List Bytes
pieces [] = [] ∷ []
pieces (c ∷ s) = if c == b'/' then [] ∷ pieces s else cons_head c (pieces s)

unfoldable pub non_empty : List Bytes → List Bytes
non_empty [] = []
non_empty ([] ∷ ps) = non_empty ps
non_empty ((c ∷ p) ∷ ps) = (c ∷ p) ∷ non_empty ps

-- The names of a path, in order.
unfoldable pub components : Bytes → List Bytes
unfolding pieces non_empty
components path = non_empty (pieces path)

-- The path of a stack, last byte first, with no root separator for the empty stack.
unfoldable pub spine : List Bytes → Bytes
spine [] = []
spine (d ∷ ds) = reverse d ++ b'/' ∷ spine ds

-- The canonical path of a directory.
unfoldable pub path_of : List Bytes → Bytes
unfolding spine
path_of [] = b'/' ∷ []
path_of (d ∷ ds) = reverse (spine (d ∷ ds))

unfoldable pub parent : List Bytes → List Bytes
parent [] = []
parent (d ∷ ds) = ds

-- A new name must leave the whole path below FTP_MAX_PATH.
unfoldable pub push_within : List Bytes → Bytes → Option (List Bytes)
unfolding spine
push_within ds d = if ltb (length (spine (d ∷ ds))) ftp_max_path then some (d ∷ ds) else none

unfoldable pub step : List Bytes → Bytes → Option (List Bytes)
unfolding parent push_within
step ds d =
    if is_dot d then some ds else if is_dot_dot d then some (parent ds) else push_within ds d

unfoldable pub resolve : List Bytes → List Bytes → Option (List Bytes)
resolve ds [] = some ds
resolve ds (c ∷ cs) = bind (step ds c) (λ ds'. resolve ds' cs)

-- A name that can stand in a canonical path.
pub record IsName (d : Bytes) : Type 0 where
  pub not_empty : d ≢ []
  pub no_sep : All (λ c. c ≢ b'/') d
  pub not_dot : is_dot d ≡ false
  pub not_dot_dot : is_dot_dot d ≡ false

-- The base of a path: the root if it is absolute.
abbrev pub base_of : List Bytes → Bytes → List Bytes
base_of ds path = if head_is_sep path then [] else ds

-- `s` is the canonical path of `ds`, and fits in the buffer.
pub record IsCanonical (s : Bytes) (ds : List Bytes) : Type 0 where
  pub path : s ≡ path_of ds
  pub names : All IsName ds
  pub fits : length s < ftp_max_path
