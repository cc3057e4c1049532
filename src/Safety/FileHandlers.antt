-- ===== src/Safety/FileHandlers.antt =====
-- core.c: the handlers that need no data connection, and what those that need one share.
use ftp_server.Prelude.{ℕ, refl, Option, none, some, Bytes}
use ftp_server.Machine.Types.{Ret, ftp_success, Answer, good, bad, Env, Machine, Stat, t_chdir}
use ftp_server.Machine.Monad.{M, modify}
use ftp_server.Machine.Keeps.{
  Keeps, keeps_rules, Keeps-bind, Keeps-pure, Keeps-set_errno, Keeps-gets,
}
use ftp_server.Vfs.Ops.{vfs_close}
use ftp_server.Core.Files.{
  enter_found, docwd, docdup, size_found, dosize, time_found, domdtm, done_or_failed, domkd, dormd,
  dodele,
}
use ftp_server.Core.Data.{
  close_fd, set_pasv, close_pasv, listening, got_socket, dopasv, set_filename, transfer_reply,
  set_status,
}
use ftp_server.State.{send_state}
use ftp_server.Safety.Invariant.{Inside, Inside-quiet, IsQuiet, Quiet-call, Quiet-modify}
use ftp_server.Safety.Replies.{
  reply-Quiet, reply_format-Quiet, answer-Quiet, failed_vfs_reply-Quiet,
}
use ftp_server.Safety.Paths.{
  vfs_stat-Inside, vfs_mkdir-Inside, vfs_rmdir-Inside, vfs_unlink-Inside, vfs_chdir-Inside,
}
use ftp_server.Safety.Streams.{pasv_listen-Quiet}
use ftp_server.Safety.Sends.{send_state-Inside}

abbrev pub q : {env : Env} → IsQuiet (Inside env)
q = Inside-quiet

module _ {env : Env} where
  t_chdir-Inside : Keeps env (Inside env) (send_state t_chdir)
  t_chdir-Inside = send_state-Inside t_chdir (λ e. cc)

  enter_found-Inside : (arg : Bytes) (o : Option Stat) → Keeps env (Inside env) (enter_found arg o)
  unfolding enter_found
  enter_found-Inside arg none = failed_vfs_reply-Quiet q
  enter_found-Inside arg (some st) =
      search (keeps_rules, vfs_chdir-Inside, t_chdir-Inside, answer-Quiet q) depth 9

  pub docwd-Inside : Keeps env (Inside env) docwd
  unfolding docwd
  docwd-Inside = search (keeps_rules, vfs_stat-Inside, enter_found-Inside)

  pub docdup-Inside : Keeps env (Inside env) docdup
  unfolding docdup
  docdup-Inside = Keeps-bind _ _ (Quiet-modify q _ (λ s. (refl, refl))) (λ _. docwd-Inside)

  size_found-Inside : (o : Option Stat) → Keeps env (Inside env) (size_found o)
  unfolding size_found
  size_found-Inside none = failed_vfs_reply-Quiet q
  size_found-Inside (some st) = search (keeps_rules, reply_format-Quiet q, answer-Quiet q)

  pub dosize-Inside : Keeps env (Inside env) dosize
  unfolding dosize
  dosize-Inside = search (keeps_rules, vfs_stat-Inside, size_found-Inside)

  time_found-Inside : (o : Option Stat) → Keeps env (Inside env) (time_found o)
  unfolding time_found
  time_found-Inside none = failed_vfs_reply-Quiet q
  time_found-Inside (some st) = search (keeps_rules, reply_format-Quiet q, answer-Quiet q) depth 9

  pub domdtm-Inside : Keeps env (Inside env) domdtm
  unfolding domdtm
  domdtm-Inside = search (keeps_rules, vfs_stat-Inside, time_found-Inside)

  done_or_failed-Inside :
      (m : M (Unit {0})) (o : Option (Unit {0}))
      → Keeps env (Inside env) m
      → Keeps env (Inside env) (done_or_failed m o)
  unfolding done_or_failed
  done_or_failed-Inside m none k = failed_vfs_reply-Quiet q
  done_or_failed-Inside m (some u) k = Keeps-bind _ _ k (λ _. Keeps-pure ftp_success)

  pub domkd-Inside : Keeps env (Inside env) domkd
  unfolding domkd
  domkd-Inside = search (keeps_rules, vfs_mkdir-Inside, done_or_failed-Inside, reply_format-Quiet q)

  pub dormd-Inside : Keeps env (Inside env) dormd
  unfolding dormd
  dormd-Inside = search (keeps_rules, vfs_rmdir-Inside, done_or_failed-Inside, reply-Quiet q)

  pub dodele-Inside : Keeps env (Inside env) dodele
  unfolding dodele
  dodele-Inside = search (keeps_rules, vfs_unlink-Inside, done_or_failed-Inside, reply-Quiet q)

-- What follows holds for any quiet invariant.
module _ {env : Env} {P : Machine → Type 0} (p : IsQuiet P) where
  pub close_fd-Quiet : (fd : ℕ) → Keeps env P (close_fd fd)
  unfolding close_fd
  close_fd-Quiet fd = Quiet-call p _ _ tt

  set_pasv-Quiet : (fd : Option ℕ) → Keeps env P (set_pasv fd)
  unfolding set_pasv
  set_pasv-Quiet fd = Quiet-modify p _ (λ s. (refl, refl))

  pub close_pasv-Quiet : (fd : Option ℕ) → Keeps env P (close_pasv fd)
  unfolding close_pasv
  close_pasv-Quiet none = Keeps-pure tt
  close_pasv-Quiet (some fd) = search (keeps_rules, close_fd-Quiet, set_pasv-Quiet)

  listening-Quiet : (fd : ℕ) (o : Option Bytes) → Keeps env P (listening fd o)
  unfolding listening
  listening-Quiet fd none =
      search (keeps_rules, close_fd-Quiet, set_pasv-Quiet, answer-Quiet p) depth 9
  listening-Quiet fd (some port) = search (keeps_rules, reply_format-Quiet p)

  got_socket-Quiet : (a : Answer ℕ) → Keeps env P (got_socket a)
  unfolding got_socket
  got_socket-Quiet (bad e) = search (keeps_rules, Keeps-set_errno p.stable, reply-Quiet p)
  got_socket-Quiet (good fd) =
      Keeps-bind _ _ (set_pasv-Quiet (some fd))
        λ _. Keeps-bind _ _ (pasv_listen-Quiet p fd) (listening-Quiet fd)

  pub dopasv-Quiet : Keeps env P dopasv
  unfolding dopasv
  dopasv-Quiet = Keeps-bind _ _ (Keeps-gets _) λ old.
      Keeps-bind _ _ (close_pasv-Quiet old)
        λ _. Keeps-bind _ _ (Quiet-call p _ _ tt) got_socket-Quiet

  pub vfs_close-Quiet : (fd : ℕ) → Keeps env P (vfs_close fd)
  unfolding vfs_close
  vfs_close-Quiet fd = Quiet-call p _ _ tt

  pub set_filename-Quiet : (name : Bytes) → Keeps env P (set_filename name)
  unfolding set_filename
  set_filename-Quiet name =
      Keeps-bind _ _ (Keeps-gets _)
        λ old. Keeps-bind _ _ (Quiet-modify p _ (λ s. (refl, refl))) λ _. Keeps-pure _

  pub transfer_reply-Quiet : (r : Ret) → Keeps env P (transfer_reply r)
  unfolding transfer_reply
  transfer_reply-Quiet ftp_success = reply-Quiet p _
  transfer_reply-Quiet _ = reply-Quiet p _

  pub set_status-Quiet : (r : Ret) → Keeps env P (modify (set_status r))
  set_status-Quiet r = Quiet-modify p _ (λ s. unfold set_status in (refl, refl))
