-- ===== src/Vfs/Refine/RoundTrip.antt =====
-- A path that the server has printed, given back to it.
use ftp_server.Prelude.{
  ℕ, ◌<◌, ◌≡◌, refl, ap, sym, ◌∙◌, true, List, [], ◌∷◌, ◌++◌, reverse, append_assoc, Option, none,
  some, arith, lt→ltb, length, Bytes, All,
}
use mathlib.Core.List.{reverse-append, reverse-reverse, reverse-cons}
use ftp_server.Vfs.Realpath.{ftp_max_path, head_is_sep, bind, vfs_realpath}
use ftp_server.Vfs.Stack.{
  cons_head, pieces, non_empty, components, spine, path_of, parent, push_within, step, resolve,
  IsName, base_of, IsCanonical,
}
use ftp_server.Vfs.Refine.Reading.{pieces_split}
use ftp_server.Vfs.Refine.Buffer.{NoSep, length-spine}
use ftp_server.Vfs.Refine.Theorems.{Refines, vfs_realpath-resolve, spine-le-path_of}

cons_head-append :
    (c : ℕ) (s : Bytes) (qs : List Bytes)
    → cons_head c (pieces s ++ qs) ≡ cons_head c (pieces s) ++ qs
cons_head-append c s qs = rw (pieces_split s)

pieces-append : (p s : Bytes) → pieces (p ++ b'/' ∷ s) ≡ pieces p ++ pieces s
unfolding pieces
pieces-append [] s = refl
pieces-append (c ∷ p) s = ground (arith, pieces-append p s, cons_head-append c p (pieces s))

non_empty-append : (ps qs : List Bytes) → non_empty (ps ++ qs) ≡ non_empty ps ++ non_empty qs
unfolding non_empty
non_empty-append [] qs = refl
non_empty-append ([] ∷ ps) qs = non_empty-append ps qs
non_empty-append ((c ∷ p) ∷ ps) qs = ap (◌∷◌ (c ∷ p)) (non_empty-append ps qs)

pieces_name : (d : Bytes) → NoSep d → pieces d ≡ d ∷ []
unfolding pieces
pieces_name [] h = refl
pieces_name (c ∷ d) h = ground (arith, pieces_name d h.1)

components_name : (d : Bytes) → IsName d → components d ≡ d ∷ []
unfolding components
components_name [] h = absurd (h.not_empty refl)
components_name (c ∷ d) h = rw (pieces_name (c ∷ d) h.no_sep)

components-snoc : (p d : Bytes) → IsName d → components (p ++ b'/' ∷ d) ≡ components p ++ d ∷ []
components-snoc p d h =
    unfold components in
    ap non_empty (pieces-append p d)
    ∙ non_empty-append (pieces p) (pieces d)
    ∙ ap (◌++◌ (components p)) (components_name d h)

reversed_spine :
    (d : Bytes) (ds : List Bytes) → reverse (spine (d ∷ ds)) ≡ reverse (spine ds) ++ b'/' ∷ d
unfolding spine
reversed_spine d ds = simp (reverse-append, reverse-reverse, reverse-cons, append_assoc)

components-spine : (ds : List Bytes) → All IsName ds → components (reverse (spine ds)) ≡ reverse ds
components-spine [] h = unfold spine components in refl
components-spine (d ∷ ds) h =
    rw (reversed_spine d ds, reverse-cons d ds)
      (components-snoc (reverse (spine ds)) d h.0
        ∙ ap (λ cs. cs ++ d ∷ []) (components-spine ds h.1))

components-path_of : (ds : List Bytes) → All IsName ds → components (path_of ds) ≡ reverse ds
components-path_of [] h = unfold path_of components in refl
components-path_of (d ∷ ds) h = unfold path_of in components-spine (d ∷ ds) h

bind-resolve :
    (o : Option (List Bytes)) (cs es : List Bytes)
    → ((ds : List Bytes) → resolve ds (cs ++ es) ≡ bind (resolve ds cs) (λ ds'. resolve ds' es))
    → bind o (λ ds. resolve ds (cs ++ es))
      ≡ bind (bind o (λ ds. resolve ds cs)) (λ ds. resolve ds es)
bind-resolve none cs es h = refl
bind-resolve (some ds) cs es h = h ds

resolve-append :
    (cs es : List Bytes) (ds : List Bytes)
    → resolve ds (cs ++ es) ≡ bind (resolve ds cs) (λ ds'. resolve ds' es)
unfolding resolve
resolve-append [] es ds = refl
resolve-append (c ∷ cs) es ds = bind-resolve (step ds c) cs es (resolve-append cs es)

step_name :
    (d : Bytes) (ds : List Bytes)
    → IsName d
    → length (spine (d ∷ ds)) < ftp_max_path
    → step ds d ≡ some (d ∷ ds)
unfolding step push_within
step_name d ds h fits = rw (h.not_dot, h.not_dot_dot, lt→ltb _ _ fits)

resolve-reverse :
    (ds : List Bytes)
    → All IsName ds
    → length (spine ds) < ftp_max_path
    → resolve [] (reverse ds) ≡ some ds
resolve-reverse [] h fits = unfold resolve in refl
resolve-reverse (d ∷ ds) h fits =
    let shorter = resolve-reverse ds h.1 (omega (arith, length-spine d ds)) in
    rw (reverse-cons d ds, resolve-append (reverse ds) (d ∷ []) [], shorter)
      (unfold resolve in rw (step_name d ds h.0 fits))

-- What `vfs_realpath` refines, where the resolution of the names is known.
Refines-some :
    (o : Option (List Bytes)) (r : Option Bytes) (ds : List Bytes)
    → o ≡ some ds
    → Refines o r
    → r ≡ some (path_of ds)
Refines-some (some es) (some s) ds e h =
    let same : es ≡ ds = cc in ap some (h.path ∙ ap path_of same)
Refines-some none r ds e h = cc
Refines-some (some es) none ds e h = absurd h

head_rooted : (t : Bytes) (ds : List Bytes) → head_is_sep (reverse (spine ds) ++ b'/' ∷ t) ≡ true
head_rooted t [] = unfold spine in refl
head_rooted t (d ∷ ds) =
    rw (reversed_spine d ds, append_assoc (reverse (spine ds)) (b'/' ∷ d) (b'/' ∷ t))
      (head_rooted (d ++ b'/' ∷ t) ds)

head-path_of : (ds : List Bytes) → head_is_sep (path_of ds) ≡ true
head-path_of [] = unfold path_of in refl
head-path_of (d ∷ ds) = unfold path_of in rw (reversed_spine d ds) (head_rooted d ds)

resolve_canonical :
    (ds es : List Bytes) (path : Bytes)
    → IsCanonical path ds
    → resolve (base_of es path) (components path) ≡ some ds
resolve_canonical ds es path p =
    rw (p.path, head-path_of ds, components-path_of ds p.names)
      (resolve-reverse ds p.names (omega (arith, spine-le-path_of ds, ap length p.path)))

-- A canonical path, as PWD prints it, leads back to its directory from any working directory.
pub vfs_realpath-path_of :
    (ds es : List Bytes) (cwd path : Bytes)
    → IsCanonical cwd es
    → IsCanonical path ds
    → vfs_realpath cwd path ≡ some path
vfs_realpath-path_of ds es cwd path c p =
    Refines-some _ _ ds (resolve_canonical ds es path p) (vfs_realpath-resolve es cwd path c)
    ∙ ap some (sym p.path)

-- ".." leads to the parent, and stays in the root.
pub vfs_realpath-parent :
    (ds : List Bytes) (cwd : Bytes)
    → IsCanonical cwd ds
    → vfs_realpath cwd (b'.' ∷ b'.' ∷ []) ≡ some (path_of (parent ds))
vfs_realpath-parent ds cwd c =
    Refines-some (resolve ds (components (b'.' ∷ b'.' ∷ []))) _ (parent ds)
      (unfold resolve components step in refl) (vfs_realpath-resolve ds cwd (b'.' ∷ b'.' ∷ []) c)
