-- ===== src/Vfs/Refine/Theorems.antt =====
-- What `vfs_realpath` computes, for every working directory and every path a client may send.
use mathlib.Core.List.{reverse-reverse}
use ftp_server.Prelude.{
  ℕ, zero, suc, ◌≤◌, ◌<◌, ◌≡◌, refl, ap, ◌⊎◌, inl, inr, false, List, [], ◌∷◌, reverse, Option, none,
  some, arith, length, length-reverse, Bytes, Bool-cases, leb,
}
use ftp_server.Vfs.Realpath.{
  ftp_max_path, head_is_sep, skip_seps, dir_block, after_block, take_dir, bind, walk, start_at,
  drop_last_sep, vfs_realpath,
}
use ftp_server.Vfs.Stack.{spine, path_of, components, step, resolve, base_of, IsCanonical}
use ftp_server.Vfs.Refine.Reading.{
  components-skip_seps, components_block, components_end, dir_block-no_sep, after_block_shorter,
}
use ftp_server.Vfs.Refine.Buffer.{
  At, at_sep, at_name, Agrees, take_dir-Agrees, drop_last_sep-path_of, NoSep,
}

-- The block that a round takes, with the equation.
List-cases : (s : Bytes) → (s ≡ []) ⊎ ((b : ℕ) × (bs : Bytes) × (s ≡ b ∷ bs))
List-cases [] = inl refl
List-cases (b ∷ bs) = inr (b, bs, refl)

block-NoSep : (s : Bytes) {b : ℕ} {bs : Bytes} → dir_block s ≡ b ∷ bs → NoSep (b ∷ bs)
block-NoSep s e = rw e at (dir_block-no_sep s)

-- One round and the rest: what `take_dir` and the stack do is what the walk goes on with.
bind-Agrees :
    (o : Option (List Bytes)) (r : Option Bytes) (f : List Bytes → Option (List Bytes))
    (g : Bytes → Option Bytes)
    → Agrees o r
    → ((ds : List Bytes) (dst : Bytes) → Agrees (some ds) (some dst) → Agrees (f ds) (g dst))
    → Agrees (bind o f) (bind r g)
bind-Agrees none none f g h k = tt
bind-Agrees (some ds) (some dst) f g h k = k ds dst h
bind-Agrees none (some dst) f g h k = absurd h
bind-Agrees (some ds) none f g h k = absurd h

walk-Agrees :
    (f : ℕ) (path : Bytes) (ds : List Bytes) (dst : Bytes)
    → length path < f
    → Agrees (some ds) (some dst)
    → Agrees (resolve ds (components path)) (walk f path dst)
unfolding walk resolve
walk-Agrees zero path ds dst h a = elim h [ ]
walk-Agrees (suc f) [] ds dst h a = unfold components in a
walk-Agrees (suc f) (c ∷ s) ds dst h a = elim (List-cases (dir_block (skip_seps (c ∷ s)))) [
  | inl e ↦ rw (e, walk, components_end (c ∷ s) e) a
  | inr (b, bs, e) ↦
      rw (e, walk, ← components-skip_seps (c ∷ s), components_block (skip_seps (c ∷ s)) e)
        (bind-Agrees (step ds (b ∷ bs)) (take_dir dst (b ∷ bs))
          (λ ds'. resolve ds' (components (after_block (skip_seps (c ∷ s)))))
          (λ dst'. walk f (after_block (skip_seps (c ∷ s))) dst')
          (take_dir-Agrees ds dst (b ∷ bs) (cc) (block-NoSep (skip_seps (c ∷ s)) e) a.0 a.1 a.2)
          (λ ds' dst'.
            walk-Agrees f (after_block (skip_seps (c ∷ s))) ds' dst'
              (omega (arith, after_block_shorter (c ∷ s) e))))
]

-- The outcome of the whole: an error on both sides, or the canonical path of the stack.
abbrev pub Refines : Option (List Bytes) → Option Bytes → Type 0
Refines none none = Unit
Refines (some ds) (some s) = IsCanonical s ds
Refines _ _ = ⊥

pub spine-le-path_of : (ds : List Bytes) → length (spine ds) ≤ length (path_of ds)
unfolding path_of
spine-le-path_of [] = unfold spine in omega arith
spine-le-path_of (d ∷ ds) = omega (arith, length-reverse (spine (d ∷ ds)))

path_of_fits :
    (ds : List Bytes) → length (spine ds) < ftp_max_path → length (path_of ds) < ftp_max_path
unfolding path_of
path_of_fits [] h = omega arith
path_of_fits (d ∷ ds) h = omega (arith, length-reverse (spine (d ∷ ds)))

At-path_of : (ds : List Bytes) → At ds (reverse (path_of ds))
unfolding path_of
At-path_of [] = at_sep (unfold spine in refl)
At-path_of (d ∷ ds) = at_name (cc) (reverse-reverse (spine (d ∷ ds)))

start_at-Agrees :
    (ds : List Bytes) (cwd path : Bytes)
    → IsCanonical cwd ds
    → Agrees (some (base_of ds path)) (start_at cwd path)
unfolding start_at
start_at-Agrees ds cwd path c = elim (Bool-cases (head_is_sep path)) [
  | inl absolute ↦ rw absolute (at_sep (unfold spine in refl), tt, unfold spine in omega arith)
  | inr relative ↦
      rw (relative, room)
        (rw c.path (At-path_of ds), c.names, omega (arith, spine-le-path_of ds, ap length c.path))
]
  where
    room : leb ftp_max_path (length cwd) ≡ false
    room = ground arith

finish-Refines :
    (o : Option (List Bytes)) (r : Option Bytes)
    → Agrees o r
    → Refines o (bind r (λ dst. some (reverse (drop_last_sep dst))))
finish-Refines none none h = tt
finish-Refines (some ds) (some dst) h = record {
  path = drop_last_sep-path_of ds h.0 h.1;
  names = h.1;
  fits = rw (drop_last_sep-path_of ds h.0 h.1) (path_of_fits ds h.2);
}
finish-Refines none (some dst) h = absurd h
finish-Refines (some ds) none h = absurd h

whole-Refines :
    (r : Option Bytes) (base : List Bytes) (path : Bytes)
    → Agrees (some base) r
    → Refines (resolve base (components path)) (
        bind r λ dst.
          bind (walk (suc (length path)) path dst) λ dst'. some (reverse (drop_last_sep dst')))
whole-Refines none base path h = absurd h
whole-Refines (some dst) base path h =
    finish-Refines (resolve base (components path)) (walk (suc (length path)) path dst)
      (walk-Agrees (suc (length path)) path base dst (omega arith) h)

-- From a canonical working directory the resolved path is the canonical path of the stack that the
-- components of the request lead to, and fails with ENAMETOOLONG exactly where the stack does.
pub vfs_realpath-resolve :
    (ds : List Bytes) (cwd path : Bytes)
    → IsCanonical cwd ds
    → Refines (resolve (base_of ds path) (components path)) (vfs_realpath cwd path)
unfolding vfs_realpath
vfs_realpath-resolve ds cwd path c =
    whole-Refines (start_at cwd path) (base_of ds path) path (start_at-Agrees ds cwd path c)
