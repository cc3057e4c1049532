-- ===== src/Core/Descriptors/Opened.antt =====
-- The calls that open and close descriptors, and what follows a transfer.
use ftp_server.Prelude.{
  ℕ, ◌≡◌, refl, ap, ◌∙◌, ◌⊎◌, Bool, true, false, List, ◌∷◌, Option, none, some, if◌then◌else◌,
  Bytes,
}
use ftp_server.Machine.Types.{
  Ret, Answer, good, bad, History, Env, Session, Accepted, got_conn, no_conn, quit_conn, accepted,
  FsOp, op_open, op_creat, op_opendir, fs, t_xfer_stop, Outcome, done, crash, looping,
}
use ftp_server.Machine.Monad.{M, ◌>>=◌}
use ftp_server.Machine.Stays.{
  Reaches, Moves, Stays, Moves-bind, Moves-pure, Moves-call, Stays-pure, Stays-if, Stays-gets,
  Stays-modify, Stays-set_errno,
}
use ftp_server.Machine.Descriptors.{
  with_fd, without, open_fds, Has, Has-IsPlain, without-first, without-both,
}
use ftp_server.Vfs.Ops.{
  or_errno, on_real, on_path, vfs_open, vfs_creat, vfs_opendir, vfs_closedir, vfs_close,
}
use ftp_server.Transfer.{accept_failed, accepted_conn, accept_data_conn}
use ftp_server.Core.Data.{close_fd, end_transfer, set_data_sock}
use ftp_server.Core.Descriptors.Plain.{
  reply-Stays, resolve_path-Stays, server_handle_signal-Stays, send_state-Stays,
  transfer_reply-Stays,
}

-- The history in which a descriptor, if there is one, has been opened.
abbrev pub Plus : Env → List ℕ → Option ℕ → History → Type 0
Plus env fds none = Has env fds
Plus env fds (some fd) = Has env (fd ∷ fds)

abbrev pub PlusConn : Env → List ℕ → Accepted → History → Type 0
PlusConn env fds (got_conn fd) = Has env (fd ∷ fds)
PlusConn env fds _ = Has env fds

-- Only the data connection is still to be closed.
abbrev pub FileClosed : Env → List ℕ → ℕ → History → Type 0
FileClosed env fds conn h = without conn (open_fds env h) ≡ fds

pub weaken :
    {A : Type 0} {U V : History → Type 0} (o : Outcome A)
    → ((h : History) → U h → V h)
    → Reaches (λ a. U) o
    → Reaches (λ a. V) o
weaken (done a s) w h = w s.trace h
weaken (crash s) w h = tt
weaken (looping s) w h = tt

-- At most one descriptor more.
abbrev pub OneMore : Env → List ℕ → History → Type 0
OneMore env fds h = Has env fds h ⊎ ((fd : ℕ) × Has env (fd ∷ fds) h)

module _ {env : Env} where
  pub set_data_sock-Any : {T : History → Type 0} (c : Accepted) → Stays env T (set_data_sock c)
  unfolding set_data_sock
  set_data_sock-Any c = Stays-modify _

  -- Code that stays, in front of code that moves.
  pub Stays-then :
      {A B : Type 0} {T : History → Type 0} {U : B → History → Type 0} (m : M A) (f : A → M B)
      → Stays env T m
      → ((a : A) → Moves env T U (f a))
      → Moves env T U (m >>= f)
  Stays-then {T = T} m f km kf = Moves-bind (λ a. T) m f km kf

  pub Moves-if :
      {A : Type 0} {T : History → Type 0} {U : A → History → Type 0} (b : Bool) (m n : M A)
      → Moves env T U m
      → Moves env T U n
      → Moves env T U (if b then m else n)
  Moves-if true m n km kn = km
  Moves-if false m n km kn = kn

  module _ {fds : List ℕ} where
    opened-Moves : (a : Answer ℕ) → Moves env (Has env (with_fd a fds)) (Plus env fds) (or_errno a)
    unfolding or_errno
    opened-Moves (good fd) = Moves-pure (some fd) (λ h t. t)
    opened-Moves (bad e) = Stays-then _ _ (Stays-set_errno e) (λ u. Moves-pure none (λ h t. t))

    accept_failed-Moves :
        (e : ℕ) (r : Ret) → Moves env (Has env fds) (PlusConn env fds) (accept_failed e r)
    unfolding accept_failed
    accept_failed-Moves e r = Moves-if _ _ _ (Moves-pure quit_conn (λ h t. t)) (
        Moves-if _ _ _ (Moves-pure quit_conn (λ h t. t)) (
          Stays-then _ _ (reply-Stays (Has-IsPlain env fds) _)
            (λ u. Moves-pure no_conn (λ h t. t))))

    accepted-Moves :
        (a : Answer ℕ) → Moves env (Has env (with_fd a fds)) (PlusConn env fds) (accepted_conn a)
    unfolding accepted_conn
    accepted-Moves (good fd) = Moves-pure (got_conn fd) (λ h t. t)
    accepted-Moves (bad e) = Stays-then _ _ (Stays-set_errno e) λ u.
        Stays-then _ _
          (Stays-if _ _ _ (server_handle_signal-Stays (Has-IsPlain env fds)) (Stays-pure _))
          (accept_failed-Moves e)

    pub accept_data_conn-Moves : Moves env (Has env fds) (PlusConn env fds) accept_data_conn
    unfolding accept_data_conn
    accept_data_conn-Moves = Stays-then _ _ (Stays-gets _) λ sock.
        Moves-bind (λ a. Has env (with_fd a fds)) _ _
          (Moves-call _ _ (λ h t. ap (with_fd (env.accept (accepted sock ∷ h))) t)) accepted-Moves

    on_real-Moves :
        (op : FsOp) (o : Option (Bytes × Bytes))
        → ((real : Bytes) (h : History)
            → open_fds env (fs op real ∷ h)
              ≡ with_fd (env.open_fd (fs op real ∷ h)) (open_fds env h))
        → Moves env (Has env fds) (Plus env fds) (on_real op (λ env. env.open_fd) o)
    unfolding on_real
    on_real-Moves op none k = Moves-pure none (λ h t. t)
    on_real-Moves op (some (real, virt)) k =
        Moves-bind (λ a. Has env (with_fd a fds)) _ _
          (Moves-call _ _ (λ h t. k real h ∙ ap (with_fd (env.open_fd (fs op real ∷ h))) t))
          opened-Moves

    pub vfs_open-Moves : (path : Bytes) → Moves env (Has env fds) (Plus env fds) (vfs_open path)
    unfolding vfs_open on_path
    vfs_open-Moves path =
        Stays-then _ _ (resolve_path-Stays (Has-IsPlain env fds) path)
          (λ r. on_real-Moves op_open r (λ real h. refl))

    pub vfs_creat-Moves : (path : Bytes) → Moves env (Has env fds) (Plus env fds) (vfs_creat path)
    unfolding vfs_creat on_path
    vfs_creat-Moves path =
        Stays-then _ _ (resolve_path-Stays (Has-IsPlain env fds) path)
          (λ r. on_real-Moves op_creat r (λ real h. refl))

    pub vfs_opendir-Moves :
        (path : Bytes) → Moves env (Has env fds) (Plus env fds) (vfs_opendir path)
    unfolding vfs_opendir on_path
    vfs_opendir-Moves path =
        Stays-then _ _ (resolve_path-Stays (Has-IsPlain env fds) path)
          (λ r. on_real-Moves op_opendir r (λ real h. refl))

    pub vfs_closedir-Moves :
        (fd : ℕ) → Moves env (Has env (fd ∷ fds)) (λ u. Has env fds) (vfs_closedir fd)
    unfolding vfs_closedir
    vfs_closedir-Moves fd = Moves-call _ _ (λ h t. without-first fds fd (open_fds env h) t)

    -- Closing the one descriptor, or both, the file's first.
    pub vfs_close-Moves :
        (fd : ℕ) → Moves env (Has env (fd ∷ fds)) (λ u. Has env fds) (vfs_close fd)
    unfolding vfs_close
    vfs_close-Moves fd = Moves-call _ _ (λ h t. without-first fds fd (open_fds env h) t)

    pub FileClosed-Moves :
        (fd conn : ℕ)
        → Moves env (Has env (conn ∷ fd ∷ fds)) (λ u. FileClosed env fds conn) (vfs_close fd)
    unfolding vfs_close
    FileClosed-Moves fd conn = Moves-call _ _ (λ h t. without-both fds fd conn (open_fds env h) t)

    pub close_fd-Moves :
        (fd conn : ℕ) → Moves env (FileClosed env fds conn) (λ u. Has env fds) (close_fd conn)
    unfolding close_fd
    close_fd-Moves fd conn = Moves-call _ _ (λ h t. t)

    pub end_transfer-Moves :
        (ret : Ret) (count : Session → Session) (fd conn : ℕ)
        → Moves env (Has env (conn ∷ fd ∷ fds)) (λ r. Has env fds) (end_transfer ret count fd conn)
    unfolding end_transfer
    end_transfer-Moves ret count fd conn =
        let two = Has-IsPlain env (conn ∷ fd ∷ fds) in
        Stays-then _ _ (transfer_reply-Stays two ret) λ _. Stays-then _ _ (Stays-modify _) λ _.
          Stays-then _ _ (Stays-modify _) λ _.
            Stays-then _ _ (send_state-Stays two t_xfer_stop) λ _.
              Moves-bind (λ u. FileClosed env fds conn) _ _ (FileClosed-Moves fd conn)
                λ _. Moves-bind (λ u. Has env fds) _ _ (close_fd-Moves fd conn) λ _. Stays-pure _

  pub Moves-weaken :
      {A : Type 0} {T : History → Type 0} {U V : History → Type 0} (m : M A)
      → Moves env T (λ a. U) m
      → ((h : History) → U h → V h)
      → Moves env T (λ a. V) m
  Moves-weaken m k w = record { at = λ s h. weaken (m env s) w (k.at s h) }
