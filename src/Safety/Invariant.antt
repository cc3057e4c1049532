-- ===== src/Safety/Invariant.antt =====
-- The state of a session before and after its login.
use mathlib.Core.Path.{subst}
use ftp_server.Prelude.{
  ◌≡◌, ◌≢◌, ◌∙◌, sym, ap, ◌⊎◌, true, false, List, [], ◌∷◌, ◌++◌, some, Bytes, All,
}
use ftp_server.Text.Ctype.{codes}
use ftp_server.Machine.Types.{
  asks_user, Passwd, CharPtr, undefined, points_to, Event, fs, History, Config, Env, Machine,
  Session,
}
use ftp_server.Machine.Monad.{call, modify}
use ftp_server.Machine.Keeps.{Keeps, Keeps-call, Keeps-modify, IsStable}
use ftp_server.Vfs.Stack.{IsCanonical}

-- A call on a path is on a canonical path below the root.
pub data Below (root path : Bytes) : Type 0 where
  below :
      (virt : Bytes) (ds : List Bytes) → IsCanonical virt ds → path ≡ root ++ virt → Below root path

abbrev pub Confined : Bytes → Event → Type 0
Confined root (fs op path) = Below root path
Confined root _ = Unit {0}

-- No call on a path.
abbrev pub NoFs : Event → Type 0
NoFs (fs op path) = ⊥
NoFs _ = Unit {0}

-- The root for anonymous users, or the home of the account of the user of the session, as it was found.
pub data IsHome (env : Env) (login_user : CharPtr) (root : Bytes) : Type 0 where
  anonymous_home : env.config.anon_root_dir ≡ some root → IsHome env login_user root
  own_home :
      (user : Bytes) (h : History) (pwd : Passwd)
      → login_user ≡ points_to user
      → env.getpwnam (asks_user user ∷ h) ≡ some pwd
      → pwd.pw_dir ≡ root
      → IsHome env login_user root

pub record Inside (env : Env) (s : Machine) : Type 0 where
  pub logged_in : s.login.logged_in ≡ true
  pub root : Bytes
  pub has_root : s.root ≡ some root
  pub home : IsHome env s.login.user root
  pub pool : Bytes
  pub has_pool : s.state_pool ≡ some pool
  pub dirs : List Bytes
  pub cwd : IsCanonical s.virt_path dirs
  pub confined : All (Confined root) s.trace
  pub user_set : s.login.user ≢ undefined

-- A client may only have named itself anonymous where the configuration has it.
pub record Outside (c : Config) (s : Machine) : Type 0 where
  pub logged_out : s.login.logged_in ≡ false
  pub anonymous : s.login.anonymous ≡ true → c.allow_anon ≡ true
  pub at_root : s.virt_path ≡ codes "/"
  pub no_fs : All NoFs s.trace
  pub user_set : s.login.user ≢ undefined

abbrev pub IsSafe : Env → Machine → Type 0
IsSafe env s = Outside env.config s ⊎ Inside env s

-- An update of the session that changes neither the login nor the working directory.
abbrev pub Leaves : (Session → Session) → Type 0
Leaves f = (s : Session) → ((f s).login ≡ s.login) × ((f s).virt_path ≡ s.virt_path)

-- What is kept by errno, by calls that name no path, and by such updates.
pub record IsQuiet (P : Machine → Type 0) : Type 0 where
  pub stable : IsStable P
  pub event : (s : Machine) (e : Event) → NoFs e → P s → P (record s { trace = e ∷ s.trace })
  pub update :
      (s : Machine) (f : Session → Session)
      → Leaves f
      → P s
      → P (record s { session = f s.session })

pub NoFs-Confined : (e : Event) (root : Bytes) → NoFs e → Confined root e
NoFs-Confined (fs op p) root h = absurd h
NoFs-Confined _ root h = h

pub All-Confined : (root : Bytes) (h : History) → All NoFs h → All (Confined root) h
All-Confined root [] a = tt
All-Confined root (e ∷ h) a = (NoFs-Confined e root a.0, All-Confined root h a.1)

pub IsHome-kept :
    {env : Env} {u v : CharPtr} {root : Bytes} → u ≡ v → IsHome env u root → IsHome env v root
IsHome-kept {env} {root = root} e h = subst (λ u. IsHome env u root) e h

unfoldable pub Inside-quiet : {env : Env} → IsQuiet (Inside env)
Inside-quiet = record {
  stable = record {
    errno = λ s e h. record {
      logged_in = h.logged_in;
      root = h.root;
      has_root = h.has_root;
      home = h.home;
      pool = h.pool;
      has_pool = h.has_pool;
      dirs = h.dirs;
      cwd = h.cwd;
      confined = h.confined;
      user_set = h.user_set;
    };
  };
  event = λ s e n h. record {
    logged_in = h.logged_in;
    root = h.root;
    has_root = h.has_root;
    home = h.home;
    pool = h.pool;
    has_pool = h.has_pool;
    dirs = h.dirs;
    cwd = h.cwd;
    confined = (NoFs-Confined e h.root n, h.confined);
    user_set = h.user_set;
  };
  update = λ s f l h. record {
    logged_in = ap (λ g. g.logged_in) (l s.session).0 ∙ h.logged_in;
    root = h.root;
    has_root = h.has_root;
    home = IsHome-kept (sym (ap (λ g. g.user) (l s.session).0)) h.home;
    pool = h.pool;
    has_pool = h.has_pool;
    dirs = h.dirs;
    cwd = rw ((l s.session).1) h.cwd;
    confined = h.confined;
    user_set = λ e. h.user_set (sym (ap (λ g. g.user) (l s.session).0) ∙ e);
  };
}

pub Outside-quiet : (c : Config) → IsQuiet (Outside c)
Outside-quiet c = record {
  stable = record {
    errno = λ s e h. record {
      logged_out = h.logged_out;
      anonymous = h.anonymous;
      at_root = h.at_root;
      no_fs = h.no_fs;
      user_set = h.user_set;
    };
  };
  event = λ s e n h. record {
    logged_out = h.logged_out;
    anonymous = h.anonymous;
    at_root = h.at_root;
    no_fs = (n, h.no_fs);
    user_set = h.user_set;
  };
  update = λ s f l h. record {
    logged_out = ap (λ g. g.logged_in) (l s.session).0 ∙ h.logged_out;
    anonymous = λ e. h.anonymous (sym (ap (λ g. g.anonymous) (l s.session).0) ∙ e);
    at_root = (l s.session).1 ∙ h.at_root;
    no_fs = h.no_fs;
    user_set = λ e. h.user_set (sym (ap (λ g. g.user) (l s.session).0) ∙ e);
  };
}

module _ {env : Env} {P : Machine → Type 0} (q : IsQuiet P) where
  pub Quiet-call :
      {A : Type 0} (e : Event) (f : Env → History → A) → NoFs e → Keeps env P (call e f)
  Quiet-call e f n = Keeps-call e f (λ s h. q.event s e n h)

  pub Quiet-modify : (f : Session → Session) → Leaves f → Keeps env P (modify f)
  Quiet-modify f l = Keeps-modify f (λ s h. q.update s f l h)
