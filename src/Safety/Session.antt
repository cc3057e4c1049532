-- ===== src/Safety/Session.antt =====
-- The whole session: whatever the client sends and the system answers, no check fails, and no file
-- is named outside the root.
use mathlib.Core.Path.{subst}
use ftp_server.Prelude.{
  ◌≢◌, ◌∷◌, sym, ap, ◌∙◌, ℕ, ◌≡◌, refl, ◌⊎◌, inl, inr, Bool, true, false, if◌then◌else◌, Bytes,
  List, All,
}
use ftp_server.Machine.Types.{
  CharPtr, undefined, null, points_to, Event, History, Ret, Config, Env, Machine, Answer, good, bad,
  SockAddr,
}
use ftp_server.Machine.Monad.{gets, free_ptr, M, pure, ◌>>=◌, set_root, set_state_pool}
use ftp_server.Machine.Keeps.{
  Ends, Keeps, keeps_rules, Keeps-bind, Keeps-gets, Keeps-if, Keeps-pure, Keeps-modify,
  Keeps-set_errno,
}
use ftp_server.Reply.{reply, init_reply_pool, destroy_reply_pool}
use ftp_server.Command.Run.Serve.{
  new_process, serve, leave, ftp_main, allocated, with_buffers, at_address, named, new_session,
  destroy_session, run_session,
}
use ftp_server.Auth.{is_success}
use ftp_server.State.{destroy_state_pool}
use ftp_server.Vfs.Ops.{destroy_vfs_pool}
use ftp_server.Safety.Invariant.{
  IsHome, Outside, Outside-quiet, Quiet-call, IsSafe, IsQuiet, Confined, NoFs, NoFs-Confined,
}
use ftp_server.Safety.Replies.{reply-Quiet}
use ftp_server.Safety.FileHandlers.{close_pasv-Quiet}
use ftp_server.Safety.Password.{HasAnonRoot}
use ftp_server.Safety.Commands.{Ends-then, IsSafe-quiet, serve-Safe}

-- What the calls of a session have been, whether or not it is over.
abbrev NamesBelow : Env → CharPtr → History → Type 0
NamesBelow env u h = All NoFs h ⊎ ((root : Bytes) × (IsHome env u root × All (Confined root) h))

abbrev pub Tidy : Env → Machine → Type 0
Tidy env s = (s.login.user ≢ undefined) × NamesBelow env s.login.user s.trace

NamesBelow-next :
    {env : Env} {u : CharPtr} (e : Event) (h : History)
    → NoFs e
    → NamesBelow env u h
    → NamesBelow env u (e ∷ h)
NamesBelow-next e h n (inl a) = inl (n, a)
NamesBelow-next e h n (inr r) = inr (r.0, (r.1.0, (NoFs-Confined e r.0 n, r.1.1)))

Tidy-quiet : {env : Env} → IsQuiet (Tidy env)
Tidy-quiet {env} = record {
  stable = record { errno = λ s e h. h };
  event = λ s e n h. (h.0, NamesBelow-next e _ n h.1);
  update = λ s f l h.
      let same = ap (λ g. g.user) (l s.session).0 in
      (λ e. h.0 (sym same ∙ e), subst (λ u. NamesBelow env u s.trace) (sym same) h.1);
}

Safe-Tidy : {env : Env} (s : Machine) → IsSafe env s → Tidy env s
Safe-Tidy s (inl o) = (o.user_set, inl o.no_fs)
Safe-Tidy s (inr i) = (i.user_set, inr (i.root, (i.home, i.confined)))

module _ {env : Env} where
  destroy_state_pool-Tidy : Keeps env (Tidy env) destroy_state_pool
  unfolding destroy_state_pool set_state_pool ◌>>=◌ pure
  destroy_state_pool-Tidy = record { at = λ s h. h }

  destroy_vfs_pool-Tidy : Keeps env (Tidy env) destroy_vfs_pool
  unfolding destroy_vfs_pool set_root ◌>>=◌ pure
  destroy_vfs_pool-Tidy = record { at = λ s h. h }

  destroy_reply_pool-Tidy : Keeps env (Tidy env) destroy_reply_pool
  unfolding destroy_reply_pool
  destroy_reply_pool-Tidy = Keeps-pure _

  free_known :
      (p : CharPtr) (s : Machine) → p ≢ undefined → Tidy env s → Ends (Tidy env) (free_ptr p env s)
  unfolding free_ptr pure
  free_known undefined s n h = absurd (n refl)
  free_known null s n h = h
  free_known (points_to u) s n h = h

  free_user-Tidy : Keeps env (Tidy env) (gets (λ s. s.login.user) >>= free_ptr)
  unfolding gets ◌>>=◌
  free_user-Tidy = record { at = λ s h. free_known s.login.user s h.0 h }

  destroy_session-Tidy : Keeps env (Tidy env) destroy_session
  unfolding destroy_session
  destroy_session-Tidy =
      Keeps-bind _ _ (Keeps-gets _)
        λ pasv_sock. Keeps-bind _ _ (close_pasv-Quiet Tidy-quiet pasv_sock) λ _. free_user-Tidy

  leave-Tidy : Keeps env (Tidy env) leave
  unfolding leave
  leave-Tidy = Keeps-bind _ _ (reply-Quiet Tidy-quiet _) λ _.
      Keeps-bind _ _ destroy_state_pool-Tidy λ _.
        Keeps-bind _ _ destroy_vfs_pool-Tidy
          λ _. Keeps-bind _ _ destroy_reply_pool-Tidy λ _. destroy_session-Tidy

-- The start of a session, which nobody is logged in to.
module _ {env : Env} {c : Config} where
  allocated-Outside : (m : M Ret) → Keeps env (Outside c) m → Keeps env (Outside c) (allocated m)
  unfolding allocated
  allocated-Outside m k =
      Keeps-bind _ _ (Quiet-call (Outside-quiet c) _ _ tt) λ b. Keeps-if _ _ _ k (Keeps-pure _)

  with_buffers-Outside : Keeps env (Outside c) with_buffers
  unfolding with_buffers
  with_buffers-Outside =
      allocated-Outside _ (allocated-Outside _ (allocated-Outside _ (Keeps-pure _)))

  at_address-Outside : (a : Answer SockAddr) → Keeps env (Outside c) (at_address a)
  unfolding at_address
  at_address-Outside (bad e) = search (keeps_rules, Keeps-set_errno (Outside-quiet c).stable)
  at_address-Outside (good sa) =
      Keeps-bind _ _
        (Keeps-modify _ (λ s h. record {
          logged_out = refl;
          anonymous = λ e. cc;
          at_root = refl;
          no_fs = h.no_fs;
          user_set = h.user_set;
        }))
        λ _. with_buffers-Outside

  named-Outside :
      (m : M Ret) (a : Answer SockAddr)
      → Keeps env (Outside c) m
      → Keeps env (Outside c) (named m a)
  unfolding named
  named-Outside m (bad e) k = search (keeps_rules, Keeps-set_errno (Outside-quiet c).stable)
  named-Outside m (good sa) k = k

  new_session-Outside : (sock : ℕ) → Keeps env (Outside c) (new_session sock)
  unfolding new_session
  new_session-Outside sock = allocated-Outside _ (
      Keeps-bind _ _ (Quiet-call (Outside-quiet c) _ _ tt) λ client.
        named-Outside _ client
          (Keeps-bind _ _ (Quiet-call (Outside-quiet c) _ _ tt) at_address-Outside))

  init_reply_pool-Outside : Keeps env (Outside c) init_reply_pool
  unfolding init_reply_pool
  init_reply_pool-Outside = search (keeps_rules, Quiet-call (Outside-quiet c), tt)

-- Once it is made, a session runs to its end.
module _ (env : Env) (a : env.config.allow_anon ≡ true → HasAnonRoot env) where
  run_session-Ends :
      (commands : List (Bytes × Bytes)) (s : Machine)
      → IsSafe env s
      → Ends (Tidy env) (run_session commands env s)
  unfolding run_session ◌>>=◌
  run_session-Ends commands s h =
      Ends-then env (reply _ env _) _ ((reply-Quiet (IsSafe-quiet env) _).at _ h) Safe-Tidy
        (λ u s h.
          Ends-then env (serve commands env s) _ ((serve-Safe env a commands).at s h) Safe-Tidy
            (λ r t k. leave-Tidy.at t (Safe-Tidy t k)))

  made_or_not :
      (b : Bool) (m n : M (Unit {0})) (s : Machine)
      → Ends (Tidy env) (m env s)
      → Ends (Tidy env) (n env s)
      → Ends (Tidy env) ((if b then m else n) env s)
  made_or_not true m n s p q = p
  made_or_not false m n s p q = q

  tidy : (s : Machine) → Outside env.config s → Tidy env s
  tidy s h = (h.user_set, inl h.no_fs)

  ftp_main-Ends :
      (sock : ℕ) (commands : List (Bytes × Bytes)) (s : Machine)
      → Outside env.config s
      → Ends (Tidy env) (ftp_main sock commands env s)
  unfolding ftp_main destroy_reply_pool pure ◌>>=◌
  ftp_main-Ends sock commands s h =
      Ends-then env (init_reply_pool env s) _ (init_reply_pool-Outside.at s h) tidy (λ r t k.
        made_or_not (is_success r) _ _ t
          (Ends-then env (new_session sock env t) _ ((new_session-Outside sock).at t k) tidy
            (λ r u l.
              made_or_not (is_success r) _ _ u (run_session-Ends commands u (inl l)) (tidy u l)))
          (tidy t k))

new_process-Outside :
    (c : Config) (host_addr : Bytes) (user : CharPtr) (errno : ℕ)
    → user ≢ undefined
    → Outside c (new_process host_addr user errno)
new_process-Outside c host_addr user errno u = record {
  logged_out = refl;
  anonymous = λ e. cc;
  at_root = refl;
  no_fs = tt;
  user_set = u;
}

-- A session process that has just been forked, whatever its client sends and its system answers, does
-- not crash, and each path that it names, if it names any, is one root followed by a canonical path;
-- that root is the one for anonymous users, or the home directory of the account of its user.
-- Where the configuration allows anonymous users it must have a root directory for them, and memory.
-- The pointer `login.user`, which `new_session` does not set, must not be undefined.
pub ftp_main-Tidy :
    (env : Env)
    → (env.config.allow_anon ≡ true → HasAnonRoot env)
    → (host_addr : Bytes) (user : CharPtr) (errno sock : ℕ) (commands : List (Bytes × Bytes))
    → user ≢ undefined
    → Ends (Tidy env) (ftp_main sock commands env (new_process host_addr user errno))
ftp_main-Tidy env a host_addr user errno sock commands u =
    ftp_main-Ends env a sock commands _ (new_process-Outside env.config host_addr user errno u)
