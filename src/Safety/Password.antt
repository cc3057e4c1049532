-- ===== src/Safety/Password.antt =====
-- PASS: the session is logged in or ended.
use ftp_server.Prelude.{
  ℕ, ◌≡◌, refl, sym, ap, ◌∙◌, inl, inr, true, false, Option, none, some, Bytes, [], ◌∷◌,
}
use ftp_server.Machine.Types.{
  CharPtr, undefined, null, points_to, Env, Event, History, Machine, Outcome, done, crash, looping,
}
use ftp_server.Machine.Monad.{fault, M, call, set_root, set_state_pool}
use ftp_server.Machine.Leads.{
  Leads-deref_known, Leads-by, Leads, EndsIn, Leads-bind, Leads-if, Leads-pure, Leads-gets,
  Leads-peek, Leads-from, Leads-from_env,
}
use ftp_server.Vfs.Ops.{init_vfs_pool}
use ftp_server.State.{init_state_pool}
use ftp_server.Auth.{admit, admit_anonymous, take_password, dopass}
use ftp_server.Safety.Invariant.{
  anonymous_home, Inside, Outside, Outside-quiet, IsSafe, IsQuiet, NoFs,
}
use ftp_server.Safety.Naming.{call-Leads, reply-Leads, answer-Leads}
use ftp_server.Safety.Login.{
  Named, Entering, Entering-quiet, Outside-poolless, Named-poolless, Named-quiet, log_in-Entering,
  become-Entering,
}
use ftp_server.Safety.Account.{Found, login_user-Found}

true_not_false : true ≡ false → ⊥
true_not_false e = cc

-- What the configuration and the memory must give an anonymous session.
pub record HasAnonRoot (env : Env) : Type 0 where
  pub memory : (h : History) → env.malloc h ≡ true
  pub directory : (dir : Bytes) × (env.config.anon_root_dir ≡ some dir)

module _ (env : Env) where
  abbrev O : Machine → Type 0
  O = Outside env.config

  admit-Named :
      (u : Bytes) (o : Option ℕ)
      → Leads env (Found env (Named env.config u) o) (λ r. IsSafe env) (admit o)
  unfolding admit
  admit-Named u none =
      Leads-bind (λ a. Named env.config u) _ _ (reply-Leads (Named-quiet env.config u) _)
        (λ _. Leads-pure _ (λ s h. inl h.outside))
  admit-Named u (some uid) =
      Leads-bind _ _ _ (call-Leads (Entering-quiet (Named-quiet env.config u)) _ _ tt)
        (become-Entering env u)

  take_password-Safe :
      (o : CharPtr) → Leads env (λ s. O s × (s.login.user ≡ o)) (λ r. IsSafe env) (take_password o)
  unfolding take_password fault
  take_password-Safe undefined = record { at = λ s h. absurd (h.0.user_set h.1) }
  take_password-Safe null =
      Leads-from _ (λ s h. h.0) (answer-Leads (Outside-quiet env.config) _ (λ s h. inl h))
  take_password-Safe (points_to u) =
      Leads-from _ (λ s h. record { outside = h.0; named = h.1 })
        (Leads-bind (λ a. Named env.config u) _ _ (Leads-peek _)
          λ password.
            Leads-bind _ _ _
              (login_user-Found (Named-poolless env.config u) u (λ s h. h.named) password)
              (admit-Named u))

-- An anonymous session, whose pools cannot fail.
module _ (env : Env) (a : HasAnonRoot env) where
  malloc-Leads :
      {P : Machine → Type 0}
      → IsQuiet P
      → (e : Event) → NoFs e
      → Leads env P (λ b s. P s × (b ≡ true)) (call e (λ env. env.malloc))
  unfolding call
  malloc-Leads q e n = record { at = λ s h. (q.event s e n h, a.memory (e ∷ s.trace)) }

  abbrev Rooted : Machine → Type 0
  Rooted s =
      Outside env.config s
      × ((r : Bytes) × ((s.root ≡ some r) × (env.config.anon_root_dir ≡ some r)))

  set_root-Rooted :
      (dir : Bytes)
      → env.config.anon_root_dir ≡ some dir
      → Leads env (Outside env.config) (λ a. Rooted) (set_root (some dir))
  unfolding set_root
  set_root-Rooted dir home = record {
    at = λ s h. ((Outside-poolless env.config).root s (some dir) h, (dir, (refl, home)));
  }

  init_vfs_pool-Rooted :
      Leads env (Outside env.config) (λ r. Rooted) (init_vfs_pool env.config.anon_root_dir)
  unfolding init_vfs_pool
  init_vfs_pool-Rooted = Leads-bind _ _ _ (Leads-deref_known _ (λ s h. a.directory)) λ dir.
      Leads-by _ (λ s h. h.1)
        λ e.
          Leads-from _ (λ s h. h.0)
            (Leads-bind _ _ _ (malloc-Leads (Outside-quiet env.config) _ tt) λ ok.
              Leads-if ok _ _
                (λ _.
                  Leads-from _ (λ s h. h.0)
                    (Leads-bind (λ u. Rooted) _ _ (set_root-Rooted dir e)
                      (λ _. Leads-pure _ (λ s h. h))))
                (λ e. Leads-pure _ (λ s h. absurd (true_not_false (sym h.1 ∙ e)))))

  Rooted-quiet : IsQuiet Rooted
  Rooted-quiet =
      let q = Outside-quiet env.config in
      record {
        stable = record { errno = λ s e h. (q.stable.errno s e h.0, h.1) };
        event = λ s e n h. (q.event s e n h.0, h.1);
        update = λ s f l h. (q.update s f l h.0, h.1);
      }

  set_state_pool-Entering :
      Leads env Rooted (λ u. Entering env (Outside env.config)) (set_state_pool (some []))
  unfolding set_state_pool
  set_state_pool-Entering = record {
    at = λ s h. record {
      who = (Outside-poolless env.config).pool s (some []) h.0;
      root = h.1.0;
      has_root = h.1.1.0;
      home = anonymous_home h.1.1.1;
      pool = [];
      has_pool = refl;
    };
  }

  init_state_pool-Entering :
      Leads env Rooted (λ r. Entering env (Outside env.config)) init_state_pool
  unfolding init_state_pool
  init_state_pool-Entering = Leads-bind _ _ _ (malloc-Leads Rooted-quiet _ tt) λ ok.
      Leads-if ok _ _
        (λ e.
          Leads-from _ (λ s h. h.0)
            (Leads-bind (λ u. Entering env (Outside env.config)) _ _ set_state_pool-Entering
              (λ _. Leads-pure _ (λ s h. h))))
        (λ e. Leads-pure _ (λ s h. absurd (true_not_false (sym h.1 ∙ e))))

  admit_anonymous-Inside : Leads env (Outside env.config) (λ r. (Inside env)) admit_anonymous
  unfolding admit_anonymous
  admit_anonymous-Inside =
      Leads-bind (λ u. Outside env.config) _ _ (reply-Leads (Outside-quiet env.config) _)
        λ _. Leads-from_env _ _ (
          Leads-bind _ _ _ init_vfs_pool-Rooted λ r.
            Leads-bind _ _ _ init_state_pool-Entering
              λ r. Leads-bind _ _ _ (log_in-Entering env) λ _. Leads-pure _ (λ s h. h))

EndsIn-after :
    {A : Type 0} {Q R : Machine → Type 0} (o : Outcome A)
    → EndsIn (λ a. Q) o
    → ((s : Machine) → Q s → R s)
    → EndsIn (λ a. R) o
EndsIn-after (done a s) h k = k s h
EndsIn-after (crash s) h k = h
EndsIn-after (looping s) h k = h

Leads-after :
    {A : Type 0} {env : Env} {P Q R : Machine → Type 0} {m : M A}
    → Leads env P (λ a. Q) m
    → ((s : Machine) → Q s → R s)
    → Leads env P (λ a. R) m
Leads-after {env = env} {m = m} l k = record { at = λ s h. EndsIn-after (m env s) (l.at s h) k }

-- PASS in a session that is not logged in always returns, and leaves it either not logged in, with no
-- path named, or logged in with both pools,
-- its root being the one for anonymous users or the home of the account of its user, and its
-- working directory canonical. `login.user`, which `new_session` does not set, must have a value. Where the configuration allows anonymous users
-- it must have a root directory for them, and memory.
pub dopass-Outside :
    (env : Env)
    → (env.config.allow_anon ≡ true → HasAnonRoot env)
    → Leads env (Outside env.config) (λ r. IsSafe env) dopass
unfolding dopass
dopass-Outside env a =
    Leads-bind (λ l s. Outside env.config s × (s.login ≡ l)) _ _ (Leads-gets _)
      λ login.
        Leads-if login.logged_in _ _
          (λ e.
            Leads-from _ (λ s h. h.0) (answer-Leads (Outside-quiet env.config) _ (λ s h. inl h)))
          (λ e.
            Leads-if login.anonymous _ _
              (λ f.
                Leads-by _ (λ s h. a (h.0.anonymous (ap (λ l. l.anonymous) h.1 ∙ f)))
                  (λ r.
                    Leads-from _ (λ s h. h.0)
                      (Leads-after (admit_anonymous-Inside env r) (λ s h. inr h))))
              (λ f.
                Leads-from _ (λ s h. (h.0, ap (λ l. l.user) h.1))
                  (take_password-Safe env login.user)))
