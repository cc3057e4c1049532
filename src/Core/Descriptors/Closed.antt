-- ===== src/Core/Descriptors/Closed.antt =====
-- core.c, `doretr` and `dostor`: what they open, they close.
use ftp_server.Prelude.{ℕ, inl, inr, List, ◌∷◌, Option, none, some, Bytes}
use ftp_server.Text.Util.{find_basename}
use ftp_server.Machine.Types.{Env, Stat, Accepted, got_conn, no_conn, quit_conn}
use ftp_server.Machine.Keeps.{Keeps}
use ftp_server.Safety.Invariant.{Inside}
use ftp_server.Safety.Handlers.{doretr-Inside, dostor-Inside}
use ftp_server.Machine.Stays.{
  Moves, Stays, Moves-bind, Moves-pure, Stays-bind, Stays-pure, Stays-if, Stays-gets,
  Stays-set_errno,
}
use ftp_server.Machine.Descriptors.{Has, Has-IsPlain}
use ftp_server.Core.Data.{
  retrieve_range, retrieve_over, retrieve_open, retrieve_found, doretr, store_over, store_open,
  dostor,
}
use ftp_server.Core.Descriptors.Transfers.{transfer_file-Stays, store_file-Stays}
use ftp_server.Core.Descriptors.Plain.{
  reply_format-Stays, answer-Stays, failed_vfs_reply-Stays, vfs_stat-Stays, set_filename-Stays,
  begin_transfer-Stays,
}
use ftp_server.Core.Descriptors.Opened.{
  Plus, PlusConn, FileClosed, OneMore, set_data_sock-Any, Stays-then, Moves-if,
  accept_data_conn-Moves, vfs_open-Moves, vfs_creat-Moves, vfs_close-Moves, FileClosed-Moves,
  close_fd-Moves, end_transfer-Moves, Moves-weaken,
}

module _ {env : Env} where
  module _ {fds : List ℕ} where
    retrieve_range-Moves :
        (fd conn : ℕ) (basename : Bytes) (offset filesize : ℕ)
        → Moves env
            (Has env (conn ∷ fd ∷ fds))
            (λ r. Has env fds)
            (retrieve_range fd conn basename offset filesize)
    unfolding retrieve_range
    retrieve_range-Moves fd conn basename offset filesize =
        let two = Has-IsPlain env (conn ∷ fd ∷ fds) in
        Moves-if _ _ _
          (Moves-bind (λ u. FileClosed env fds conn) _ _ (FileClosed-Moves fd conn)
            λ _.
              Moves-bind (λ u. Has env fds) _ _ (close_fd-Moves fd conn)
                λ _. Stays-bind _ _ (reply_format-Stays (Has-IsPlain env fds) _) λ _. Stays-pure _)
          (Stays-then _ _ (begin_transfer-Stays two) λ _.
            Stays-then _ _ (transfer_file-Stays two _ _ _ _)
              (λ ret. end_transfer-Moves ret _ fd conn))

    retrieve_over-Moves :
        (fd : ℕ) (basename : Bytes) (filesize : ℕ) (c : Accepted)
        → Moves env
            (PlusConn env (fd ∷ fds) c)
            (λ r. Has env fds)
            (retrieve_over fd basename filesize c)
    unfolding retrieve_over
    retrieve_over-Moves fd basename filesize no_conn =
        Moves-bind (λ u. Has env fds) _ _ (vfs_close-Moves fd) λ _. Stays-pure _
    retrieve_over-Moves fd basename filesize quit_conn =
        Moves-bind (λ u. Has env fds) _ _ (vfs_close-Moves fd) λ _. Stays-pure _
    retrieve_over-Moves fd basename filesize (got_conn conn) =
        Stays-then _ _ (Stays-gets _)
          (λ offset. retrieve_range-Moves fd conn basename offset filesize)

  module _ {fds : List ℕ} where
    retrieve_open-Moves :
        (basename : Bytes) (filesize : ℕ) (o : Option ℕ)
        → Moves env (Plus env fds o) (λ r. Has env fds) (retrieve_open basename filesize o)
    unfolding retrieve_open
    retrieve_open-Moves basename filesize none = failed_vfs_reply-Stays (Has-IsPlain env fds)
    retrieve_open-Moves basename filesize (some fd) =
        Moves-bind (PlusConn env (fd ∷ fds)) _ _ accept_data_conn-Moves λ conn.
          Stays-then {T = PlusConn env (fd ∷ fds) conn} _ _ (set_data_sock-Any conn)
            λ _. retrieve_over-Moves {fds = fds} fd basename filesize conn

    retrieve_found-Stays :
        (argument basename : Bytes) (o : Option Stat)
        → Stays env (Has env fds) (retrieve_found argument basename o)
    unfolding retrieve_found
    retrieve_found-Stays argument basename none = failed_vfs_reply-Stays (Has-IsPlain env fds)
    retrieve_found-Stays argument basename (some st) =
        Stays-if _ _ _
          (Moves-bind (Plus env fds) _ _ (vfs_open-Moves argument)
            (retrieve_open-Moves basename st.size))
          (answer-Stays (Has-IsPlain env fds) _)

  module _ {fds : List ℕ} where
    store_over-Moves :
        (fd : ℕ) (c : Accepted)
        → Moves env (PlusConn env (fd ∷ fds) c) (λ r. OneMore env fds) (store_over fd c)
    unfolding store_over
    store_over-Moves fd no_conn =
        Stays-then _ _ (Stays-set_errno _) (λ u. Moves-pure _ (λ h t. inr (fd, t)))
    store_over-Moves fd quit_conn =
        Stays-then _ _ (Stays-set_errno _) (λ u. Moves-pure _ (λ h t. inr (fd, t)))
    store_over-Moves fd (got_conn conn) =
        let two = Has-IsPlain env (conn ∷ fd ∷ fds) in
        Stays-then _ _ (begin_transfer-Stays two) λ _.
          Stays-then _ _ (store_file-Stays two _ _)
            (λ ret. Moves-weaken _ (end_transfer-Moves {fds = fds} ret _ fd conn) (λ h t. inl t))

    store_open-Moves :
        (o : Option ℕ) → Moves env (Plus env fds o) (λ r. OneMore env fds) (store_open o)
    unfolding store_open
    store_open-Moves none =
        Moves-weaken _ (failed_vfs_reply-Stays (Has-IsPlain env fds)) (λ h t. inl t)
    store_open-Moves (some fd) =
        Moves-bind (PlusConn env (fd ∷ fds)) _ _ accept_data_conn-Moves (store_over-Moves fd)

-- RETR of a session that is logged in does not crash, and leaves open what was open before it and
-- nothing else, on each of its ways to an end: the file and the data connection are closed where the
-- transfer succeeds, stops or is never begun.
pub doretr-Stays :
    (env : Env) (fds : List ℕ) → Keeps env (Inside env) doretr × Stays env (Has env fds) doretr
unfolding doretr
doretr-Stays env fds =
    let p = Has-IsPlain env fds in
    (
      doretr-Inside,
      Stays-bind _ _ (Stays-gets _) λ argument. Stays-bind _ _ (set_filename-Stays p _) λ too_long.
          Stays-if _ _ _ (answer-Stays p _) (
            Stays-bind _ _ (vfs_stat-Stays p argument)
              (retrieve_found-Stays argument (find_basename argument))),
    )

-- STOR of a session that is logged in does not crash, and leaves open what was open before it and at
-- most one descriptor more, that of its file.
pub dostor-OneMore :
    (env : Env) (fds : List ℕ)
    → Keeps env (Inside env) dostor × Moves env (Has env fds) (λ r. OneMore env fds) dostor
unfolding dostor
dostor-OneMore env fds =
    let p = Has-IsPlain env fds in
    (
      dostor-Inside,
      Stays-then _ _ (Stays-gets _) λ pathname. Stays-then _ _ (set_filename-Stays p _) λ too_long.
          Moves-if _ _ _ (Moves-weaken _ (answer-Stays p _) (λ h t. inl t))
            (Moves-bind (Plus env fds) _ _ (vfs_creat-Moves pathname) store_open-Moves),
    )
