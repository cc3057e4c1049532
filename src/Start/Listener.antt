-- ===== src/Start/Listener.antt =====
-- daemon.c: `init_masterserver`, which opens the socket and the pipe of the master process.
use ftp_server.Prelude.{ℕ, ◌≡◌, refl, ap, List, ◌∷◌, Option, none, some}
use ftp_server.Machine.Types.{
  Answer, good, bad, closed, sockets, pipes, sets_option, binds, listens, Env, Machine, Outcome,
  done, crash, looping,
}
use ftp_server.Machine.Descriptors.{with_fd, with_pipe, open_fds, without-first}
use ftp_server.Machine.Monad.{M, pure, ◌>>=◌, ◌>>◌, call, set_errno, keep_errno, from_env}

-- The server socket, and the two ends of the pipe.
pub record Listener : Type 0 where
  pub server_socket : ℕ
  pub pipefds : ℕ × ℕ

-- The call failed: the socket is closed, and the error returned.
unfoldable pub give_up : ℕ → ℕ → M (Option Listener)
give_up sock e = do set_errno e; call (closed sock) (λ env h. tt); pure none

unfoldable pub got_pipe : ℕ → Answer (ℕ × ℕ) → M (Option Listener)
unfolding give_up
got_pipe sock (bad e) = give_up sock e
got_pipe sock (good fds) = pure (some (record { server_socket = sock; pipefds = fds }))

unfoldable pub listened : ℕ → Option ℕ → M (Option Listener)
unfolding give_up got_pipe
listened sock (some e) = give_up sock e
listened sock none = do fds ← call pipes (λ env. env.pipe); got_pipe sock fds

unfoldable pub bound : ℕ → Option ℕ → M (Option Listener)
unfolding give_up listened
bound sock (some e) = give_up sock e
bound sock none = do failed ← call (listens sock) (λ env. env.listen); listened sock failed

unfoldable pub opened : Answer ℕ → M (Option Listener)
unfolding bound
opened (bad e) = do set_errno e; pure none
opened (good sock) = do
  no_option ← call (sets_option sock) (λ env. env.setsockopt)
  keep_errno no_option
  port ← from_env (λ env. env.config.port)
  failed ← call (binds sock port) (λ env. env.bind)
  bound sock failed

unfoldable pub init_masterserver : M (Option Listener)
unfolding opened
init_masterserver = do a ← call sockets (λ env. env.socket); opened a

abbrev pub Opens : Env → List ℕ → Outcome (Option Listener) → Type 0
Opens env fds (done none t) = open_fds env t.trace ≡ fds
Opens env fds (done (some l) t) =
    open_fds env t.trace ≡ l.pipefds.1 ∷ l.pipefds.0 ∷ l.server_socket ∷ fds
Opens env fds (crash t) = ⊥
Opens env fds (looping t) = ⊥

module _ (env : Env) (fds : List ℕ) where
  -- The socket is open, and nothing else is new.
  abbrev Has : ℕ → Machine → Type 0
  Has sock s = open_fds env s.trace ≡ sock ∷ fds

  give_up-Opens : (sock e : ℕ) (s : Machine) → Has sock s → Opens env fds (give_up sock e env s)
  unfolding give_up set_errno call pure ◌>>=◌
  give_up-Opens sock e s h = without-first fds sock (open_fds env s.trace) h

  got_pipe-Opens :
      (sock : ℕ) (s : Machine) (a : Answer (ℕ × ℕ))
      → open_fds env s.trace ≡ with_pipe a (sock ∷ fds)
      → Opens env fds (got_pipe sock a env s)
  unfolding got_pipe pure
  got_pipe-Opens sock s (bad e) h = give_up-Opens sock e s h
  got_pipe-Opens sock s (good p) h = h

  listened-Opens :
      (sock : ℕ) (s : Machine) (o : Option ℕ) → Has sock s → Opens env fds (listened sock o env s)
  unfolding listened call ◌>>=◌
  listened-Opens sock s (some e) h = give_up-Opens sock e s h
  listened-Opens sock s none h =
      got_pipe-Opens sock _ _ (ap (with_pipe (env.pipe (pipes ∷ s.trace))) h)

  bound-Opens :
      (sock : ℕ) (s : Machine) (o : Option ℕ) → Has sock s → Opens env fds (bound sock o env s)
  unfolding bound call ◌>>=◌
  bound-Opens sock s (some e) h = give_up-Opens sock e s h
  bound-Opens sock s none h = listened-Opens sock _ _ h

  -- An option that cannot be set is no error.
  with_option :
      (sock : ℕ) (o : Option ℕ) (m : M (Option Listener)) (s : Machine)
      → Has sock s
      → ((t : Machine) → Has sock t → Opens env fds (m env t))
      → Opens env fds ((keep_errno o >> m) env s)
  unfolding keep_errno set_errno pure ◌>>=◌
  with_option sock none m s h k = k s h
  with_option sock (some e) m s h k = k (record s { errno = e }) h

  opened-Opens :
      (s : Machine) (a : Answer ℕ)
      → open_fds env s.trace ≡ with_fd a fds
      → Opens env fds (opened a env s)
  unfolding opened set_errno call from_env pure ◌>>=◌
  opened-Opens s (bad e) h = h
  opened-Opens s (good sock) h =
      with_option sock (env.setsockopt (sets_option sock ∷ s.trace)) _ _ h
        (λ t k. bound-Opens sock _ _ k)

-- `init_masterserver` always returns. Where it succeeds, the server socket and the two ends of the pipe
-- are what it has opened; where any of its calls fails, it leaves no descriptor open that was not.
pub init_masterserver-Opens :
    (env : Env) (s : Machine) → Opens env (open_fds env s.trace) (init_masterserver env s)
unfolding init_masterserver call ◌>>=◌
init_masterserver-Opens env s = opened-Opens env (open_fds env s.trace) _ _ refl
