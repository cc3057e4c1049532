-- ===== src/Safety/Account.antt =====
-- auth.c, `login_user`: the account is looked up and the two pools are opened.
use mathlib.Core.Path.{subst}
use ftp_server.Prelude.{
  sym, ℕ, ◌≡◌, refl, true, false, Bool, not, Option, none, some, Bytes, [], if◌then◌else◌,
}
use ftp_server.Machine.Types.{asks_user, points_to, Env, Event, History, Machine, Passwd}
use ftp_server.Machine.Monad.{M, pure, ◌>>=◌, call, set_root, set_state_pool}
use ftp_server.Machine.Leads.{
  Leads-deref_known, Leads-by, Leads-from, Leads, Leads-bind, Leads-if, Leads-pure,
}
use ftp_server.Vfs.Ops.{init_vfs_pool}
use ftp_server.State.{init_state_pool}
use ftp_server.Auth.{
  open_pools, check_encrypted, check_shadow, check_user, login_user, same_text, is_success,
}
use ftp_server.Safety.Invariant.{IsHome, own_home, IsHome-kept, NoFs}
use ftp_server.Safety.Naming.{call-Leads}
use ftp_server.Safety.Login.{Entering, IsPoolless}

abbrev vfs_of : Passwd → M (Option ℕ)
vfs_of pwd = do
  vfs ← init_vfs_pool (some pwd.pw_dir)
  pure (if is_success vfs then some pwd.pw_uid else none)

-- Which outcome the pools have, with what stands then.
abbrev Pooled : (Machine → Type 0) → Bool → Machine → Type 0
Pooled P false = P
Pooled P true = λ s. P s × ((p : Bytes) × (s.state_pool ≡ some p))

abbrev Opened : Env → (Machine → Type 0) → Bool → Machine → Type 0
Opened env P false = P
Opened env P true = Entering env P

abbrev pub Found : Env → (Machine → Type 0) → Option ℕ → Machine → Type 0
Found env P none = P
Found env P (some uid) = Entering env P

opened :
    {env : Env} {P : Machine → Type 0}
    → IsPoolless P
    → (u : Bytes) → ((s : Machine) → P s → s.login.user ≡ points_to u)
    → (dir : Bytes) → IsHome env (points_to u) dir
    → (s : Machine) → Pooled P true s
    → Entering env P (record s { root = some dir })
opened p u named dir home s h = record {
  who = p.root s (some dir) h.0;
  root = dir;
  has_root = refl;
  home = IsHome-kept (sym (named s h.0)) home;
  pool = h.1.0;
  has_pool = h.1.1;
}

module _ {env : Env} {P : Machine → Type 0} (p : IsPoolless P) (u : Bytes)
    (named : (s : Machine) → P s → s.login.user ≡ points_to u) where
  set_state_pool-Pooled : Leads env P (λ a. Pooled P true) (set_state_pool (some []))
  unfolding set_state_pool
  set_state_pool-Pooled = record { at = λ s h. (p.pool s (some []) h, ([], refl)) }

  set_root-Entering :
      (dir : Bytes)
      → IsHome env (points_to u) dir
      → Leads env (Pooled P true) (λ a. Entering env P) (set_root (some dir))
  unfolding set_root
  set_root-Entering dir home = record { at = λ s h. opened p u named dir home s h }

  call-Pooled :
      {A : Type 0} (e : Event) (f : Env → History → A)
      → NoFs e
      → Leads env (Pooled P true) (λ a. Pooled P true) (call e f)
  unfolding call
  call-Pooled e f n = record { at = λ s h. (p.quiet.event s e n h.0, h.1) }

  init_state_pool-Pooled : Leads env P (λ r. Pooled P (is_success r)) init_state_pool
  unfolding init_state_pool is_success
  init_state_pool-Pooled =
      Leads-bind (λ a. P) _ _ (call-Leads p.quiet _ _ tt)
        λ ok.
          Leads-if ok _ _
            (λ _.
              Leads-bind (λ a. Pooled P true) _ _ set_state_pool-Pooled
                (λ _. Leads-pure _ (λ s h. h)))
            (λ _. Leads-pure _ (λ s h. h))

  -- Given a directory, there is a root unless memory ran out.
  init_vfs_pool-Opened :
      (o : Option Bytes)
      → (dir : Bytes) × (o ≡ some dir)
      → ((dir : Bytes) → o ≡ some dir → IsHome env (points_to u) dir)
      → Leads env (Pooled P true) (λ r. Opened env P (is_success r)) (init_vfs_pool o)
  unfolding init_vfs_pool is_success
  init_vfs_pool-Opened o some_dir home =
      Leads-bind _ _ _ (Leads-deref_known o (λ s h. some_dir)) λ dir.
        Leads-by _ (λ s h. h.1)
          λ e.
            Leads-from _ (λ s h. h.0)
              (Leads-bind (λ a. Pooled P true) _ _ (call-Pooled _ _ tt)
                λ ok.
                  Leads-if ok _ _
                    (λ _.
                      Leads-bind (λ a. Entering env P) _ _ (set_root-Entering dir (home dir e))
                        (λ _. Leads-pure _ (λ s h. h)))
                    (λ _. Leads-pure _ (λ s h. h.0)))

  after_vfs :
      (uid : ℕ) (b : Bool)
      → Leads env (Opened env P b) (Found env P) (pure (if b then some uid else none))
  after_vfs uid true = Leads-pure _ (λ s h. h)
  after_vfs uid false = Leads-pure _ (λ s h. h)

  after_state :
      (pwd : Passwd) (b : Bool)
      → IsHome env (points_to u) pwd.pw_dir
      → Leads env (Pooled P b) (Found env P) (if not b then pure none else vfs_of pwd)
  after_state pwd true home =
      Leads-bind _ _ _
        (init_vfs_pool-Opened (some pwd.pw_dir) (pwd.pw_dir, refl)
          (λ d e. let same : pwd.pw_dir ≡ d = cc in subst (IsHome env (points_to u)) same home))
        (λ vfs. after_vfs pwd.pw_uid (is_success vfs))
  after_state pwd false home = Leads-pure _ (λ s h. h)

  open_pools-Found :
      (pwd : Passwd)
      → IsHome env (points_to u) pwd.pw_dir
      → Leads env P (Found env P) (open_pools pwd)
  unfolding open_pools
  open_pools-Found pwd home =
      Leads-bind _ _ _ init_state_pool-Pooled (λ state. after_state pwd (is_success state) home)

  check_encrypted-Found :
      (pwd : Passwd) (shadow : Bytes) (o : Option Bytes)
      → IsHome env (points_to u) pwd.pw_dir
      → Leads env P (Found env P) (check_encrypted pwd shadow o)
  unfolding check_encrypted
  check_encrypted-Found pwd shadow none home = Leads-pure _ (λ s h. h)
  check_encrypted-Found pwd shadow (some e) home =
      Leads-if (same_text e shadow) _ _ (λ _. open_pools-Found pwd home)
        (λ _. Leads-pure _ (λ s h. h))

  check_shadow-Found :
      (pwd : Passwd) (password : Bytes) (o : Option Bytes)
      → IsHome env (points_to u) pwd.pw_dir
      → Leads env P (Found env P) (check_shadow pwd password o)
  unfolding check_shadow
  check_shadow-Found pwd password none home = Leads-pure _ (λ s h. h)
  check_shadow-Found pwd password (some shadow) home =
      Leads-bind (λ a. P) _ _ (call-Leads p.quiet _ _ tt)
        (λ e. check_encrypted-Found pwd shadow e home)

  check_user-Found :
      (user password : Bytes) (o : Option Passwd)
      → ((pwd : Passwd) → o ≡ some pwd → IsHome env (points_to u) pwd.pw_dir)
      → Leads env P (Found env P) (check_user user password o)
  unfolding check_user
  check_user-Found user password none home = Leads-pure _ (λ s h. h)
  check_user-Found user password (some pwd) home =
      Leads-bind (λ a. P) _ _ (call-Leads p.quiet _ _ tt)
        (λ o. check_shadow-Found pwd password o (home pwd refl))

  -- The home of the account that is found.
  lookup :
      Leads env P
        (λ o s. P s × ((pwd : Passwd) → o ≡ some pwd → IsHome env (points_to u) pwd.pw_dir))
        (call (asks_user u) (λ env. env.getpwnam))
  unfolding call
  lookup = record {
    at = λ s h. (p.quiet.event s (asks_user u) tt h, λ pwd e. own_home u s.trace pwd refl e refl);
  }

  pub login_user-Found : (password : Bytes) → Leads env P (Found env P) (login_user u password)
  unfolding login_user
  login_user-Found password = Leads-bind _ _ _ lookup λ o.
      Leads-by _ (λ s h. h.1) λ home. Leads-from _ (λ s h. h.0) (check_user-Found u password o home)
