-- ===== src/Safety/Login.antt =====
-- USER and PASS: a session that is not logged in stays so, or enters its root.
use ftp_server.Prelude.{
  ℕ, ◌≡◌, refl, ap, sym, ◌∙◌, inl, inr, true, [], Option, none, some, Bytes, length, ◌<◌, arith,
}
use ftp_server.Text.Ctype.{codes}
use ftp_server.Machine.Types.{points_to, Config, Env, Machine, Session, t_login}
use ftp_server.Machine.Monad.{modify, set_state_pool}
use ftp_server.Machine.Leads.{
  Leads-read_ptr, Leads, Leads-bind, Leads-if, Leads-pure, Leads-gets, Leads-peek, Leads-deref,
  Leads-from,
}
use ftp_server.Vfs.Stack.{path_of}
use ftp_server.Vfs.Realpath.{ftp_max_path}
use ftp_server.State.{send_login, send_fun, write_state, send_state}
use ftp_server.Auth.{log_in, become}
use ftp_server.Safety.Invariant.{
  IsHome, IsHome-kept, Inside, Inside-quiet, Outside, Outside-quiet, IsSafe, IsQuiet, All-Confined,
}
use ftp_server.Safety.Naming.{answer-Leads, call-Leads, keep_errno-Leads}

-- The session of a user whose password is checked, whose two pools are then opened.
pub record Named (c : Config) (u : Bytes) (s : Machine) : Type 0 where
  pub outside : Outside c s
  pub named : s.login.user ≡ points_to u

pub record Entering (env : Env) (P : Machine → Type 0) (s : Machine) : Type 0 where
  pub who : P s
  pub root : Bytes
  pub has_root : s.root ≡ some root
  pub home : IsHome env s.login.user root
  pub pool : Bytes
  pub has_pool : s.state_pool ≡ some pool

pub Named-quiet : (c : Config) (u : Bytes) → IsQuiet (Named c u)
Named-quiet c u =
    let q = Outside-quiet c in
    record {
      stable = record {
        errno = λ s e h. record { outside = q.stable.errno s e h.outside; named = h.named };
      };
      event = λ s e n h. record { outside = q.event s e n h.outside; named = h.named };
      update = λ s f l h. record {
        outside = q.update s f l h.outside;
        named = ap (λ g. g.user) (l s.session).0 ∙ h.named;
      };
    }

pub Entering-quiet : {env : Env} {P : Machine → Type 0} → IsQuiet P → IsQuiet (Entering env P)
Entering-quiet q = record {
  stable = record {
    errno = λ s e h. record {
      who = q.stable.errno s e h.who;
      root = h.root;
      has_root = h.has_root;
      home = h.home;
      pool = h.pool;
      has_pool = h.has_pool;
    };
  };
  event = λ s e n h. record {
    who = q.event s e n h.who;
    root = h.root;
    has_root = h.has_root;
    home = h.home;
    pool = h.pool;
    has_pool = h.has_pool;
  };
  update = λ s f l h. record {
    who = q.update s f l h.who;
    root = h.root;
    has_root = h.has_root;
    home = IsHome-kept (sym (ap (λ g. g.user) (l s.session).0)) h.home;
    pool = h.pool;
    has_pool = h.has_pool;
  };
}

one_fits : (v : Bytes) → v ≡ codes "/" → length v < ftp_max_path
one_fits v e = rw (e) (omega arith)

logged : Session → Session
logged s = record s { login = record s.login { logged_in = true } }

-- Logged in at the root.
enters :
    {env : Env} {c : Config} (s : Machine)
    → Entering env (Outside c) s
    → (Inside env) (record s { session = logged s.session })
unfolding path_of logged
enters s h = record {
  logged_in = refl;
  root = h.root;
  has_root = h.has_root;
  home = h.home;
  pool = h.pool;
  has_pool = h.has_pool;
  dirs = [];
  cwd = record { path = h.who.at_root; names = tt; fits = one_fits s.virt_path h.who.at_root };
  confined = All-Confined h.root s.trace h.who.no_fs;
  user_set = h.who.user_set;
}

-- What the pools do not matter to.
pub record IsPoolless (P : Machine → Type 0) : Type 0 where
  pub quiet : IsQuiet P
  pub root : (s : Machine) (r : Option Bytes) → P s → P (record s { root = r })
  pub pool : (s : Machine) (p : Option Bytes) → P s → P (record s { state_pool = p })

pub Outside-poolless : (c : Config) → IsPoolless (Outside c)
Outside-poolless c = record {
  quiet = Outside-quiet c;
  root = λ s r h. record {
    logged_out = h.logged_out;
    anonymous = h.anonymous;
    at_root = h.at_root;
    no_fs = h.no_fs;
    user_set = h.user_set;
  };
  pool = λ s p h. record {
    logged_out = h.logged_out;
    anonymous = h.anonymous;
    at_root = h.at_root;
    no_fs = h.no_fs;
    user_set = h.user_set;
  };
}

pub Named-poolless : (c : Config) (u : Bytes) → IsPoolless (Named c u)
Named-poolless c u =
    let o = Outside-poolless c in
    record {
      quiet = Named-quiet c u;
      root = λ s r h. record { outside = o.root s r h.outside; named = h.named };
      pool = λ s p h. record { outside = o.pool s p h.outside; named = h.named };
    }

unnamed :
    {env : Env} {c : Config} {u : Bytes} (s : Machine)
    → Entering env (Named c u) s
    → Entering env (Outside c) s
unnamed s h = record {
  who = h.who.outside;
  root = h.root;
  has_root = h.has_root;
  home = h.home;
  pool = h.pool;
  has_pool = h.has_pool;
}

pub log_in-Entering :
    {c : Config} (env : Env) → Leads env (Entering env (Outside c)) (λ a. (Inside env)) log_in
unfolding log_in modify logged
log_in-Entering env = record { at = λ s h. enters s h }

-- The message of the login, the last step before the flag is set.
module _ (env : Env) (u : Bytes) where
  abbrev E : Machine → Type 0
  E = Entering env (Named env.config u)

  abbrev e_q : IsQuiet E
  e_q = Entering-quiet (Named-quiet env.config u)

  fill_login :
      (buf : Bytes) → Leads env E (λ o s. E s × ((p : Bytes) × (o ≡ some p))) (send_login buf)
  unfolding send_login
  fill_login buf =
      Leads-bind (λ a. E) _ _ (Leads-peek _)
        λ anonymous.
          Leads-bind (λ a s. E s × (s.login.user ≡ a)) _ _ (Leads-gets _)
            λ user.
              Leads-if anonymous _ _ (λ _. Leads-pure _ (λ s h. (h.0, (_, refl))))
                (λ _.
                  Leads-bind (λ a s. E s × (s.login.user ≡ user)) _ _
                    (Leads-read_ptr user (λ s h. (u, sym h.1 ∙ h.0.who.named)))
                    (λ name. Leads-pure _ (λ s h. (h.0, (_, refl)))))

  set_state_pool-Entering : (p : Bytes) → Leads env E (λ a. E) (set_state_pool (some p))
  unfolding set_state_pool
  set_state_pool-Entering p = record {
    at = λ s h. record {
      who = (Named-poolless env.config u).pool s (some p) h.who;
      root = h.root;
      has_root = h.has_root;
      home = h.home;
      pool = p;
      has_pool = refl;
    };
  }

  write_login :
      (o : Option Bytes)
      → Leads env (λ s. E s × ((p : Bytes) × (o ≡ some p))) (λ r. E) (write_state t_login o)
  unfolding write_state
  write_login none = Leads-pure _ (λ s h. h.0)
  write_login (some p) =
      Leads-from _ (λ s h. h.0)
        (Leads-bind (λ a. E) _ _ (set_state_pool-Entering p)
          λ _.
            Leads-bind (λ a. E) _ _ (call-Leads e_q _ _ tt)
              λ failed.
                Leads-bind (λ a. E) _ _ (keep_errno-Leads e_q failed) λ _. Leads-pure _ (λ s h. h))

  send_login-Entering : Leads env E (λ r. E) (send_state t_login)
  unfolding send_state send_fun
  send_login-Entering =
      Leads-bind (λ o s. E s × (s.state_pool ≡ o)) _ _ (Leads-gets _)
        λ o.
          Leads-bind (λ buf s. E s × (s.state_pool ≡ o)) _ _
            (Leads-deref o (λ s h. (h.0.pool, sym h.1 ∙ h.0.has_pool)))
            (λ buf. Leads-from _ (λ s h. h.0) (Leads-bind _ _ _ (fill_login buf) write_login))

  pub become-Entering : (o : Option ℕ) → Leads env E (λ r. IsSafe env) (become o)
  unfolding become
  become-Entering (some e) =
      Leads-bind (λ a. E) _ _ (keep_errno-Leads e_q (some e))
        λ _. Leads-pure _ (λ s h. inl h.who.outside)
  become-Entering none =
      Leads-bind (λ a. E) _ _ send_login-Entering
        λ _.
          Leads-bind (λ a. (Inside env)) _ _ (Leads-from _ unnamed (log_in-Entering env))
            λ _. answer-Leads Inside-quiet _ (λ s h. inr h)
