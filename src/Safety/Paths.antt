-- ===== src/Safety/Paths.antt =====
-- The calls of vfs.c, once the session is logged in: each is on a path below the root.
use ftp_server.Prelude.{
  ℕ, suc, ◌≤◌, ◌≡◌, refl, sym, ap, ◌≢◌, zero, ◌⊎◌, inl, inr, true, List, [], ◌∷◌, ◌++◌, Option,
  none, some, Bytes, length, take, ltb, ◌-◌, arith, if◌then◌else◌,
}
use native.Mathlib.Nat.{le_refl}
use ftp_server.Text.Util.{strlcpy}
use ftp_server.Machine.Types.{
  Answer, good, bad, Env, Machine, Outcome, done, crash, looping, Stat, FsOp, fs, History,
}
use ftp_server.Machine.Monad.{M, ◌>>=◌, call}
use ftp_server.Machine.Keeps.{
  Keeps, Ends, keeps_rules, Keeps-bind, Keeps-pure, Keeps-call, Keeps-modify, Keeps-set_errno,
}
use ftp_server.Vfs.Realpath.{ftp_max_path, vfs_realpath}
use ftp_server.Vfs.Stack.{path_of, IsCanonical}
use ftp_server.Vfs.Refine.Buffer.{length-spine}
use ftp_server.Vfs.Refine.Theorems.{spine-le-path_of, Refines, vfs_realpath-resolve}
use ftp_server.Vfs.Ops.{
  resolved, resolve_path, or_errno, on_real, on_path, stat_target, vfs_stat, vfs_creat, vfs_open,
  vfs_mkdir, vfs_rmdir, vfs_unlink, vfs_opendir, enter_dir, vfs_chdir,
}
use ftp_server.Safety.Invariant.{Below, below, Inside, Inside-quiet, IsQuiet}

-- The result of `resolve_path`, below the root.
abbrev Fits : Bytes → Option (Bytes × Bytes) → Type 0
Fits root none = Unit {0}
Fits root (some (real, virt)) = Below root real × ((ds : List Bytes) × IsCanonical virt ds)

-- Inside, with a resolved path at hand.
record Holding (env : Env) (r : Option (Bytes × Bytes)) (s : Machine) : Type 0 where
  inside : (Inside env) s
  fits : Fits inside.root r

Holding-quiet : {env : Env} (r : Option (Bytes × Bytes)) → IsQuiet (Holding env r)
unfolding Inside-quiet
Holding-quiet r = record {
  stable = record {
    errno = λ s e h. record { inside = Inside-quiet.stable.errno s e h.inside; fits = h.fits };
  };
  event = λ s e n h. record { inside = Inside-quiet.event s e n h.inside; fits = h.fits };
  update = λ s f l h. record { inside = Inside-quiet.update s f l h.inside; fits = h.fits };
}

-- A canonical path leads to canonical paths only.
realpath-IsCanonical :
    (cwd path : Bytes) {ds : List Bytes}
    → IsCanonical cwd ds
    → (vfs_realpath cwd path ≡ none)
      ⊎ ((virt : Bytes) × (es : List Bytes) × (vfs_realpath cwd path ≡ some virt)
          × IsCanonical virt es)
realpath-IsCanonical cwd path {ds} c = go _ _ (vfs_realpath-resolve ds cwd path c)
  where
    go :
        (o : Option (List Bytes)) (r : Option Bytes)
        → Refines o r
        → (r ≡ none) ⊎ ((virt : Bytes) × (es : List Bytes) × (r ≡ some virt) × IsCanonical virt es)
    go none none h = inl refl
    go (some es) (some s) h = inr (s, es, refl, h)
    go none (some s) h = absurd h
    go (some es) none h = absurd h

Ends-map :
    {A : Type 0} {P Q : Machine → Type 0} (o : Outcome A)
    → ((s : Machine) → P s → Q s)
    → Ends P o
    → Ends Q o
Ends-map (done a s) f h = f s h
Ends-map (crash s) f h = h
Ends-map (looping s) f h = f s h

module _ {env : Env} where
  resolve_path-bind :
      {A : Type 0} (path : Bytes) (f : Option (Bytes × Bytes) → M A)
      → ((r : Option (Bytes × Bytes)) → Keeps env (Holding env r) (f r))
      → Keeps env (Inside env) (resolve_path path >>= f)
  unfolding resolve_path ◌>>=◌
  resolve_path-bind path f k = record {
    at = λ s h. elim (realpath-IsCanonical s.virt_path path h.cwd) [
      | inl e ↦
          rw (h.has_root, resolve_path, e, resolved)
            (Ends-map (f none env _) (λ t g. g.inside)
              ((k none).at _ (record { inside = Inside-quiet.stable.errno s _ h; fits = tt })))
      | inr (virt, es, e, c) ↦
          rw (h.has_root, resolve_path, e, resolved)
            (Ends-map (f (some (h.root ++ virt, virt)) env s) (λ t g. g.inside)
              ((k (some (h.root ++ virt, virt))).at s
                (record { inside = h; fits = (below virt es c refl, (es, c)) })))
    ];
  }

  Holding-fs :
      {A : Type 0} (real virt : Bytes) (op : FsOp) (f : Env → History → A)
      → Keeps env (Holding env (some (real, virt))) (call (fs op real) f)
  Holding-fs real virt op f = Keeps-call (fs op real) f λ s h.
      let i = h.inside in
      record {
        inside = record {
          logged_in = i.logged_in;
          root = i.root;
          has_root = i.has_root;
          home = i.home;
          pool = i.pool;
          has_pool = i.has_pool;
          dirs = i.dirs;
          cwd = i.cwd;
          confined = (h.fits.0, i.confined);
          user_set = i.user_set;
        };
        fits = h.fits;
      }

module _ {env : Env} (r : Option (Bytes × Bytes)) where
  or_errno-Holding : {A : Type 0} (a : Answer A) → Keeps env (Holding env r) (or_errno a)
  unfolding or_errno
  or_errno-Holding (good a) = search keeps_rules
  or_errno-Holding (bad e) = search (keeps_rules, Keeps-set_errno (Holding-quiet r).stable)

module _ {env : Env} where
  on_real-Holding :
      {A : Type 0} (op : FsOp) (q : Env → History → Answer A) (r : Option (Bytes × Bytes))
      → Keeps env (Holding env r) (on_real op q r)
  unfolding on_real
  on_real-Holding op q none = Keeps-pure _
  on_real-Holding op q (some (real, virt)) =
      Keeps-bind _ _ (Holding-fs real virt op q) (or_errno-Holding (some (real, virt)))

  stat_target-Holding :
      (r : Option (Bytes × Bytes)) (tmp : Option Stat)
      → Keeps env (Holding env r) (stat_target r tmp)
  unfolding stat_target
  stat_target-Holding r none = Keeps-pure _
  stat_target-Holding r (some tmp) =
      search (keeps_rules, Keeps-set_errno (Holding-quiet r).stable, on_real-Holding)

  on_path-Inside :
      {A : Type 0} (op : FsOp) (q : Env → History → Answer A) (path : Bytes)
      → Keeps env (Inside env) (on_path op q path)
  unfolding on_path
  on_path-Inside op q path = resolve_path-bind path _ (on_real-Holding op q)

  pub vfs_stat-Inside : (path : Bytes) → Keeps env (Inside env) (vfs_stat path)
  unfolding vfs_stat
  vfs_stat-Inside path =
      resolve_path-bind path _ λ r. search (keeps_rules, on_real-Holding, stat_target-Holding)

  pub vfs_creat-Inside : (path : Bytes) → Keeps env (Inside env) (vfs_creat path)
  unfolding vfs_creat
  vfs_creat-Inside path = on_path-Inside _ _ path

  pub vfs_open-Inside : (path : Bytes) → Keeps env (Inside env) (vfs_open path)
  unfolding vfs_open
  vfs_open-Inside path = on_path-Inside _ _ path

  pub vfs_mkdir-Inside : (path : Bytes) → Keeps env (Inside env) (vfs_mkdir path)
  unfolding vfs_mkdir
  vfs_mkdir-Inside path = on_path-Inside _ _ path

  pub vfs_rmdir-Inside : (path : Bytes) → Keeps env (Inside env) (vfs_rmdir path)
  unfolding vfs_rmdir
  vfs_rmdir-Inside path = on_path-Inside _ _ path

  pub vfs_unlink-Inside : (path : Bytes) → Keeps env (Inside env) (vfs_unlink path)
  unfolding vfs_unlink
  vfs_unlink-Inside path = on_path-Inside _ _ path

  pub vfs_opendir-Inside : (path : Bytes) → Keeps env (Inside env) (vfs_opendir path)
  unfolding vfs_opendir
  vfs_opendir-Inside path = on_path-Inside _ _ path

-- A canonical path is copied whole.
take_all : (n : ℕ) (s : Bytes) → length s ≤ n → take n s ≡ s
take_all zero [] h = refl
take_all zero (c ∷ s) h = elim h [ ]
take_all (suc n) [] h = refl
take_all (suc n) (c ∷ s) h = ap (◌∷◌ c) (take_all n s (omega arith))

path_of-ne-nil : (ds : List Bytes) → path_of ds ≢ []
path_of-ne-nil [] e = unfold path_of in cc
path_of-ne-nil (d ∷ ds) e =
    absurd (omega (arith, ap length e, spine-le-path_of (d ∷ ds), length-spine d ds))

pub strlcpy_canonical :
    (old virt : Bytes) {ds : List Bytes}
    → IsCanonical virt ds
    → (strlcpy old virt ftp_max_path).0 ≡ virt
unfolding strlcpy
strlcpy_canonical old [] {ds} c = absurd (path_of-ne-nil ds (sym c.path))
strlcpy_canonical old (v ∷ vs) c = rw fits_whole (take_all (length (v ∷ vs)) (v ∷ vs) (le_refl _))
  where
    fits_whole :
        (if ltb (ftp_max_path - 1) (length (v ∷ vs)) then ftp_max_path - 1 else length (v ∷ vs))
        ≡ length (v ∷ vs)
    fits_whole = ground arith

module _ {env : Env} where
  enter_dir-Holding : (r : Option (Bytes × Bytes)) → Keeps env (Holding env r) (enter_dir r)
  unfolding enter_dir
  enter_dir-Holding none = Keeps-pure _
  enter_dir-Holding (some (real, virt)) =
      Keeps-bind _ _
        (Keeps-modify _ λ s h.
          let i = h.inside in
          record {
            inside = record {
              logged_in = i.logged_in;
              root = i.root;
              has_root = i.has_root;
              home = i.home;
              pool = i.pool;
              has_pool = i.has_pool;
              dirs = h.fits.1.0;
              cwd = rw (strlcpy_canonical s.virt_path virt h.fits.1.1) h.fits.1.1;
              confined = i.confined;
              user_set = i.user_set;
            };
            fits = h.fits;
          })
        (λ _. Keeps-pure true)

  pub vfs_chdir-Inside : (path : Bytes) → Keeps env (Inside env) (vfs_chdir path)
  unfolding vfs_chdir
  vfs_chdir-Inside path = resolve_path-bind path _ enter_dir-Holding
