-- ===== src/Vfs/Refine/Reading.antt =====
-- The pointer walk over the path reads off its components.
use ftp_server.Prelude.{
  ℕ, ◌+◌, ◌≤◌, ◌≡◌, refl, ap, ◌≢◌, List, [], ◌∷◌, ◌==◌, if◌then◌else◌, arith, length, Bytes, All,
}
use ftp_server.Vfs.Realpath.{skip_seps, dir_block, after_block}
use ftp_server.Vfs.Stack.{pieces, non_empty, components}

-- The pieces behind the first one.
pub rest_pieces : Bytes → List Bytes
rest_pieces [] = []
rest_pieces (c ∷ s) = if c == b'/' then pieces s else rest_pieces s

pub pieces_split : (s : Bytes) → pieces s ≡ dir_block s ∷ rest_pieces s
unfolding pieces dir_block rest_pieces
pieces_split [] = refl
pieces_split (c ∷ s) = ground (arith, pieces_split s)

non_empty-rest_pieces : (s : Bytes) → non_empty (rest_pieces s) ≡ components (after_block s)
unfolding components rest_pieces after_block
non_empty-rest_pieces [] = refl
non_empty-rest_pieces (c ∷ s) = ground (arith, non_empty-rest_pieces s)

pub components-skip_seps : (s : Bytes) → components (skip_seps s) ≡ components s
unfolding components skip_seps
components-skip_seps [] = refl
components-skip_seps (c ∷ s) = ground (arith, components-skip_seps s)

-- A first block is the first component, and the rest follow it.
pub components_block :
    (s : Bytes) {b : ℕ} {bs : Bytes}
    → dir_block s ≡ b ∷ bs
    → components s ≡ (b ∷ bs) ∷ components (after_block s)
components_block s e = rw (← non_empty-rest_pieces s) (unfold components in rw (pieces_split s, e))

-- No block behind the separators: the path has ended.
pub components_end : (s : Bytes) → dir_block (skip_seps s) ≡ [] → components s ≡ []
unfolding components dir_block skip_seps
components_end [] e = refl
components_end (c ∷ s) e = ground (arith, components_end s)

pub dir_block-no_sep : (s : Bytes) → All (λ c. c ≢ b'/') (dir_block s)
unfolding dir_block
dir_block-no_sep [] = tt
dir_block-no_sep (c ∷ s) = ground (arith, dir_block-no_sep s)

length-skip_seps : (s : Bytes) → length (skip_seps s) ≤ length s
unfolding skip_seps
length-skip_seps [] = omega arith
length-skip_seps (c ∷ s) = ground (arith, length-skip_seps s)

length-after_block : (s : Bytes) → length (dir_block s) + length (after_block s) ≡ length s
unfolding dir_block after_block
length-after_block [] = omega arith
length-after_block (c ∷ s) = ground (arith, length-after_block s)

-- A round that finds a block leaves less of the path.
pub after_block_shorter :
    (s : Bytes) {b : ℕ} {bs : Bytes}
    → dir_block (skip_seps s) ≡ b ∷ bs
    → length (after_block (skip_seps s)) + 1 ≤ length s
after_block_shorter s e =
    omega (arith, ap length e, length-skip_seps s, length-after_block (skip_seps s))
