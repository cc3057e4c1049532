-- ===== src/Core/Descriptors/Listing.antt =====
-- ls.c: LIST closes the data connection.
use ftp_server.Prelude.{ℕ, zero, suc, ◌+◌, Bool, List, ◌∷◌, Option, none, some, Bytes}
use ftp_server.Machine.Types.{
  Ret, ftp_success, Answer, good, bad, History, Env, Stat, Accepted, got_conn, no_conn, quit_conn,
}
use ftp_server.Machine.Monad.{M}
use ftp_server.Machine.Stays.{
  Stays-modify, Moves, Stays, stays_rules, Moves-bind, Moves-call, Stays-bind, Stays-pure, Stays-if,
  Stays-gets, Stays-from_env, Stays-set_errno,
}
use ftp_server.Machine.Descriptors.{IsPlain, Has, Has-IsPlain, open_fds, without-first}
use ftp_server.Stream.{after_send, send_loop, sendall}
use ftp_server.Core.Data.{close_fd}
use ftp_server.Ls.{
  data_sent, send_found, send_filestat, list_entry, list_entries, list_opened, list_directory,
  list_reply, list_over, list_file, list_found, dolist,
}
use ftp_server.Core.Descriptors.Plain.{
  Plain-call, reply-Stays, failed_vfs_reply-Stays, vfs_stat-Stays,
}
use ftp_server.Core.Descriptors.Neutral.{vfs_chdir-Stays}
use ftp_server.Core.Descriptors.Opened.{
  Plus, vfs_opendir-Moves, vfs_closedir-Moves, PlusConn, set_data_sock-Any, Stays-then,
  accept_data_conn-Moves,
}

module _ {env : Env} {T : History → Type 0} (p : IsPlain T) where
  after_send-Stays :
      (again : ℕ → M (Option ℕ)) (total : ℕ) (a : Answer ℕ)
      → ((n : ℕ) → Stays env T (again n))
      → Stays env T (after_send again total a)
  unfolding after_send
  after_send-Stays again total (good n) k = k (total + n)
  after_send-Stays again total (bad e) k =
      Stays-bind _ _ (Stays-set_errno e) (λ _. Stays-if _ _ _ (k total) (Stays-pure _))

  send_loop-Stays : (f : ℕ) (buf : Bytes) (total : ℕ) → Stays env T (send_loop f buf total)
  unfolding send_loop
  send_loop-Stays zero buf total = search stays_rules
  send_loop-Stays (suc f) buf total =
      Stays-if _ _ _
        (Stays-bind _ _ (Plain-call p _ _ tt)
          (λ a. after_send-Stays _ total a (send_loop-Stays f buf)))
        (Stays-pure _)

  sendall-Stays : (buf : Bytes) → Stays env T (sendall buf)
  unfolding sendall
  sendall-Stays buf = Stays-bind _ _ (Stays-from_env _) (λ f. send_loop-Stays f buf 0)

  data_sent-Stays : (o : Option ℕ) → Stays env T (data_sent o)
  unfolding data_sent
  data_sent-Stays (some n) = Stays-pure _
  data_sent-Stays none = search stays_rules

  send_found-Stays : (vpath : Bytes) (o : Option Stat) → Stays env T (send_found vpath o)
  unfolding send_found
  send_found-Stays vpath none = Stays-pure _
  send_found-Stays vpath (some st) = search (stays_rules, sendall-Stays, data_sent-Stays) depth 9

  send_filestat-Stays : (vpath : Bytes) → Stays env T (send_filestat vpath)
  unfolding send_filestat
  send_filestat-Stays vpath = search (stays_rules, vfs_stat-Stays p, send_found-Stays)

  list_entry-Stays :
      (opt_a : Bool) (rest : M Ret) (o : Option Bytes)
      → Stays env T rest
      → Stays env T (list_entry opt_a rest o)
  unfolding list_entry
  list_entry-Stays opt_a rest none k = Stays-pure _
  list_entry-Stays opt_a rest (some name) k =
      Stays-if _ _ _ k
        (Stays-bind _ _ (send_filestat-Stays name) (λ ret. Stays-if _ _ _ k (Stays-pure _)))

  list_entries-Stays : (f : ℕ) (opt_a : Bool) → Stays env T (list_entries f opt_a)
  unfolding list_entries
  list_entries-Stays zero opt_a = search stays_rules
  list_entries-Stays (suc f) opt_a =
      Stays-bind _ _ (Plain-call p _ _ tt)
        (λ next. list_entry-Stays opt_a _ next (list_entries-Stays f opt_a))

  list_reply-Stays : (r : Ret) → Stays env T (list_reply r)
  unfolding list_reply
  list_reply-Stays ftp_success = reply-Stays p _
  list_reply-Stays _ = reply-Stays p _

module _ {env : Env} {fds : List ℕ} where
  conn_closed-Moves :
      (conn : ℕ) → Moves env (Has env (conn ∷ fds)) (λ u. Has env fds) (close_fd conn)
  unfolding close_fd
  conn_closed-Moves conn = Moves-call _ _ (λ h t. without-first fds conn (open_fds env h) t)

  list_opened-Moves :
      (opt_a : Bool) (saved : Bytes) (o : Option ℕ)
      → Moves env (Plus env fds o) (λ r. Has env fds) (list_opened opt_a saved o)
  unfolding list_opened
  list_opened-Moves opt_a saved none =
      Stays-bind _ _ (failed_vfs_reply-Stays (Has-IsPlain env fds)) (λ _. Stays-pure _)
  list_opened-Moves opt_a saved (some drv) =
      let one = Has-IsPlain env (drv ∷ fds) in
      Stays-then _ _ (Stays-from_env _) λ patience.
        Stays-then _ _ (list_entries-Stays one patience opt_a) λ _.
          Moves-bind (λ u. Has env fds) _ _ (vfs_closedir-Moves drv)
            λ _. Stays-bind _ _ (Stays-modify _) λ _. Stays-pure _

  list_directory-Stays :
      (dirname : Bytes) (opt_a : Bool) → Stays env (Has env fds) (list_directory dirname opt_a)
  unfolding list_directory
  list_directory-Stays dirname opt_a = Stays-bind _ _ (Stays-gets _) λ saved.
      Stays-bind _ _ (vfs_chdir-Stays (Has-IsPlain env fds) dirname)
        λ _. Moves-bind (Plus env fds) _ _ (vfs_opendir-Moves _) (list_opened-Moves opt_a saved)

module _ {env : Env} {fds : List ℕ} where
  list_over-Moves :
      (argument : Bytes) (opt_a : Bool) (st : Stat) (c : Accepted)
      → Moves env (PlusConn env fds c) (λ r. Has env fds) (list_over argument opt_a st c)
  unfolding list_over list_file
  list_over-Moves argument opt_a st no_conn = Stays-pure _
  list_over-Moves argument opt_a st quit_conn = Stays-pure _
  list_over-Moves argument opt_a st (got_conn conn) =
      let one = Has-IsPlain env (conn ∷ fds) in
      Stays-then _ _ (reply-Stays one _) λ _.
        Stays-then _ _
          (Stays-if _ _ _ (list_directory-Stays argument opt_a) (send_filestat-Stays one argument))
          λ ret.
            Stays-then _ _ (list_reply-Stays one ret)
              λ _. Moves-bind (λ u. Has env fds) _ _ (conn_closed-Moves conn) λ _. Stays-pure _

  list_found-Stays :
      (argument : Bytes) (opt_a : Bool) (o : Option Stat)
      → Stays env (Has env fds) (list_found argument opt_a o)
  unfolding list_found
  list_found-Stays argument opt_a none = failed_vfs_reply-Stays (Has-IsPlain env fds)
  list_found-Stays argument opt_a (some st) =
      Moves-bind (PlusConn env fds) _ _ accept_data_conn-Moves λ conn.
        Stays-then {T = PlusConn env fds conn} _ _ (set_data_sock-Any conn)
          λ _. list_over-Moves argument opt_a st conn

  pub dolist-Stays : Stays env (Has env fds) dolist
  unfolding dolist
  dolist-Stays =
      Stays-bind _ _ (Stays-gets _)
        λ arg. Stays-bind _ _ (vfs_stat-Stays (Has-IsPlain env fds) _) (list_found-Stays _ _)
