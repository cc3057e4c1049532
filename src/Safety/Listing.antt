-- ===== src/Safety/Listing.antt =====
-- LIST keeps the session inside its root. A directory that cannot be opened leaves the session in it.
use ftp_server.Prelude.{ℕ, zero, suc, Bool, List, Option, none, some, Bytes}
use ftp_server.Machine.Types.{
  Ret, ftp_error, ftp_success, Env, Stat, Accepted, got_conn, no_conn, quit_conn,
}
use ftp_server.Machine.Monad.{M, modify, gets, ◌>>=◌}
use ftp_server.Machine.Keeps.{
  Keeps, keeps_rules, Keeps-bind, Keeps-pure, Keeps-if, Keeps-modify, Keeps-from_env,
}
use ftp_server.Vfs.Ops.{vfs_closedir}
use ftp_server.Vfs.Stack.{IsCanonical}
use ftp_server.Ls.{
  data_sent, send_found, send_filestat, list_entry, list_entries, restore_path, list_opened,
  list_directory, list_reply, list_over, list_file, list_found, dolist,
}
use ftp_server.Safety.Invariant.{Inside, Inside-quiet, IsQuiet, Quiet-call}
use ftp_server.Safety.Replies.{reply-Quiet, failed_vfs_reply-Quiet}
use ftp_server.Safety.Paths.{
  vfs_stat-Inside, vfs_chdir-Inside, vfs_opendir-Inside, strlcpy_canonical,
}
use ftp_server.Safety.Streams.{sendall-Quiet}
use ftp_server.Safety.Sends.{accept_data_conn-Inside}
use ftp_server.Safety.FileHandlers.{close_fd-Quiet}
use ftp_server.Safety.Handlers.{set_data_sock-Inside}

abbrev q : {env : Env} → IsQuiet (Inside env)
q = Inside-quiet

module _ {env : Env} where
  data_sent-Inside : (o : Option ℕ) → Keeps env (Inside env) (data_sent o)
  unfolding data_sent
  data_sent-Inside (some n) = Keeps-pure _
  data_sent-Inside none = search keeps_rules

  send_found-Inside :
      (vpath : Bytes) (o : Option Stat) → Keeps env (Inside env) (send_found vpath o)
  unfolding send_found
  send_found-Inside vpath none = Keeps-pure _
  send_found-Inside vpath (some st) =
      search (keeps_rules, sendall-Quiet q, data_sent-Inside) depth 9

  send_filestat-Inside : (vpath : Bytes) → Keeps env (Inside env) (send_filestat vpath)
  unfolding send_filestat
  send_filestat-Inside vpath = search (keeps_rules, vfs_stat-Inside, send_found-Inside)

  list_entry-Inside :
      (opt_a : Bool) (rest : M Ret) (o : Option Bytes)
      → Keeps env (Inside env) rest
      → Keeps env (Inside env) (list_entry opt_a rest o)
  unfolding list_entry
  list_entry-Inside opt_a rest none k = Keeps-pure _
  list_entry-Inside opt_a rest (some name) k =
      Keeps-if _ _ _ k
        (Keeps-bind _ _ (send_filestat-Inside name) (λ ret. Keeps-if _ _ _ k (Keeps-pure _)))

  list_entries-Inside : (f : ℕ) (opt_a : Bool) → Keeps env (Inside env) (list_entries f opt_a)
  unfolding list_entries
  list_entries-Inside zero opt_a = search keeps_rules
  list_entries-Inside (suc f) opt_a =
      Keeps-bind _ _ (Quiet-call q _ _ tt)
        (λ next. list_entry-Inside opt_a _ next (list_entries-Inside f opt_a))

  -- The saved path is canonical, so the session returns to it.
  restore_path-Inside :
      (saved : Bytes) {ds : List Bytes}
      → IsCanonical saved ds
      → Keeps env (Inside env) (modify (restore_path saved))
  unfolding restore_path
  restore_path-Inside saved {ds} c = Keeps-modify _ λ s h. record {
    logged_in = h.logged_in;
    root = h.root;
    home = h.home;
    has_root = h.has_root;
    pool = h.pool;
    has_pool = h.has_pool;
    dirs = ds;
    cwd = rw (strlcpy_canonical s.virt_path saved c) c;
    confined = h.confined;
    user_set = h.user_set;
  }

  vfs_closedir-Inside : (drv : ℕ) → Keeps env (Inside env) (vfs_closedir drv)
  unfolding vfs_closedir
  vfs_closedir-Inside drv = Quiet-call q _ _ tt

  list_opened-Inside :
      (opt_a : Bool) (saved : Bytes) {ds : List Bytes} (o : Option ℕ)
      → IsCanonical saved ds
      → Keeps env (Inside env) (list_opened opt_a saved o)
  unfolding list_opened
  list_opened-Inside opt_a saved none c =
      Keeps-bind _ _ (failed_vfs_reply-Quiet q) (λ _. Keeps-pure ftp_error)
  list_opened-Inside opt_a saved (some drv) c = Keeps-bind _ _ (Keeps-from_env _) λ f.
      Keeps-bind _ _ (list_entries-Inside f opt_a) λ _.
        Keeps-bind _ _ (vfs_closedir-Inside drv)
          λ _. Keeps-bind _ _ (restore_path-Inside saved c) λ _. Keeps-pure ftp_success

  virt_path-bind :
      {A : Type 0} (f : Bytes → M A)
      → ((saved : Bytes) (ds : List Bytes)
          → IsCanonical saved ds
          → Keeps env (Inside env) (f saved))
      → Keeps env (Inside env) (gets (λ s. s.virt_path) >>= f)
  unfolding gets ◌>>=◌
  virt_path-bind f k = record { at = λ s h. (k s.virt_path h.dirs h.cwd).at s h }

  list_directory-Inside :
      (dirname : Bytes) (opt_a : Bool) → Keeps env (Inside env) (list_directory dirname opt_a)
  unfolding list_directory
  list_directory-Inside dirname opt_a = virt_path-bind _ λ saved ds c.
      Keeps-bind _ _ (vfs_chdir-Inside dirname)
        λ _. Keeps-bind _ _ (vfs_opendir-Inside _) λ drv. list_opened-Inside opt_a saved drv c

  list_reply-Inside : (r : Ret) → Keeps env (Inside env) (list_reply r)
  unfolding list_reply
  list_reply-Inside ftp_success = reply-Quiet q _
  list_reply-Inside _ = reply-Quiet q _

  list_over-Inside :
      (argument : Bytes) (opt_a : Bool) (st : Stat) (c : Accepted)
      → Keeps env (Inside env) (list_over argument opt_a st c)
  unfolding list_over list_file
  list_over-Inside argument opt_a st no_conn = Keeps-pure _
  list_over-Inside argument opt_a st quit_conn = Keeps-pure _
  list_over-Inside argument opt_a st (got_conn conn) =
      search
        (
          keeps_rules,
          reply-Quiet q,
          list_directory-Inside,
          send_filestat-Inside,
          list_reply-Inside,
          close_fd-Quiet q,
        )
        depth 9

  list_found-Inside :
      (argument : Bytes) (opt_a : Bool) (o : Option Stat)
      → Keeps env (Inside env) (list_found argument opt_a o)
  unfolding list_found
  list_found-Inside argument opt_a none = failed_vfs_reply-Quiet q
  list_found-Inside argument opt_a (some st) =
      search (keeps_rules, accept_data_conn-Inside, set_data_sock-Inside, list_over-Inside) depth 9

  pub dolist-Inside : Keeps env (Inside env) dolist
  unfolding dolist
  dolist-Inside = search (keeps_rules, vfs_stat-Inside, list_found-Inside)
