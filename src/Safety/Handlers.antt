-- ===== src/Safety/Handlers.antt =====
-- The handlers that need a login keep the session inside its root.
use ftp_server.Prelude.{ℕ, refl, Option, none, some, Bytes}
use ftp_server.Machine.Types.{
  Ret, Env, Session, Stat, t_xfer_start, t_xfer_stop, Accepted, got_conn, no_conn, quit_conn,
}
use ftp_server.Machine.Monad.{modify}
use ftp_server.Machine.Keeps.{Keeps, keeps_rules, Keeps-bind, Keeps-set_errno}
use ftp_server.Core.Data.{
  end_transfer, set_data_sock, begin_transfer, count_down, count_up, retrieve_range, retrieve_over,
  retrieve_open, retrieve_found, doretr, store_over, store_open, dostor,
}
use ftp_server.Safety.Invariant.{Inside, Quiet-modify}
use ftp_server.Safety.Replies.{
  reply-Quiet, reply_format-Quiet, answer-Quiet, failed_vfs_reply-Quiet,
}
use ftp_server.Safety.Paths.{vfs_stat-Inside, vfs_creat-Inside, vfs_open-Inside}
use ftp_server.Safety.Sends.{
  send_state-Inside, accept_data_conn-Inside, transfer_file-Inside, store_file-Inside,
}
use ftp_server.Safety.FileHandlers.{
  close_fd-Quiet, q, set_filename-Quiet, set_status-Quiet, transfer_reply-Quiet, vfs_close-Quiet,
}

module _ {env : Env} where
  begin_transfer-Inside : Keeps env (Inside env) begin_transfer
  unfolding begin_transfer
  begin_transfer-Inside =
      search
        (keeps_rules, reply-Quiet q, set_status-Quiet q, send_state-Inside t_xfer_start (λ e. cc))
        depth 9

  -- The end of a transfer: the reply, the counts, the message and the two descriptors.
  end_transfer-Inside :
      (ret : Ret) (count : Session → Session) (fd conn : ℕ)
      → Keeps env (Inside env) (modify count)
      → Keeps env (Inside env) (end_transfer ret count fd conn)
  unfolding end_transfer
  end_transfer-Inside ret count fd conn k = Keeps-bind _ _ (transfer_reply-Quiet q ret) λ _.
      Keeps-bind _ _ k λ _. Keeps-bind _ _ (set_status-Quiet q ret) λ _.
        Keeps-bind _ _ (send_state-Inside t_xfer_stop (λ e. cc))
          λ _. search (keeps_rules, vfs_close-Quiet q, close_fd-Quiet q)

  count_down-Inside : Keeps env (Inside env) (modify count_down)
  count_down-Inside = Quiet-modify q _ (λ s. unfold count_down in (refl, refl))

  count_up-Inside : Keeps env (Inside env) (modify count_up)
  count_up-Inside = Quiet-modify q _ (λ s. unfold count_up in (refl, refl))

  retrieve_range-Inside :
      (fd conn : ℕ) (basename : Bytes) (offset filesize : ℕ)
      → Keeps env (Inside env) (retrieve_range fd conn basename offset filesize)
  unfolding retrieve_range
  retrieve_range-Inside fd conn basename offset filesize =
      search
        (
          keeps_rules,
          vfs_close-Quiet q,
          close_fd-Quiet q,
          reply_format-Quiet q,
          begin_transfer-Inside,
          transfer_file-Inside,
          end_transfer-Inside,
          count_down-Inside,
        )
        depth 9

  retrieve_over-Inside :
      (fd : ℕ) (basename : Bytes) (filesize : ℕ) (c : Accepted)
      → Keeps env (Inside env) (retrieve_over fd basename filesize c)
  unfolding retrieve_over
  retrieve_over-Inside fd basename filesize no_conn = search (keeps_rules, vfs_close-Quiet q)
  retrieve_over-Inside fd basename filesize quit_conn = search (keeps_rules, vfs_close-Quiet q)
  retrieve_over-Inside fd basename filesize (got_conn conn) =
      search (keeps_rules, retrieve_range-Inside)

  pub set_data_sock-Inside : (c : Accepted) → Keeps env (Inside env) (set_data_sock c)
  unfolding set_data_sock
  set_data_sock-Inside c = Quiet-modify q _ (λ s. (refl, refl))

  retrieve_open-Inside :
      (basename : Bytes) (filesize : ℕ) (o : Option ℕ)
      → Keeps env (Inside env) (retrieve_open basename filesize o)
  unfolding retrieve_open
  retrieve_open-Inside basename filesize none = failed_vfs_reply-Quiet q
  retrieve_open-Inside basename filesize (some fd) =
      search (keeps_rules, accept_data_conn-Inside, set_data_sock-Inside, retrieve_over-Inside)
        depth 9

  retrieve_found-Inside :
      (argument basename : Bytes) (o : Option Stat)
      → Keeps env (Inside env) (retrieve_found argument basename o)
  unfolding retrieve_found
  retrieve_found-Inside argument basename none = failed_vfs_reply-Quiet q
  retrieve_found-Inside argument basename (some st) =
      search (keeps_rules, vfs_open-Inside, retrieve_open-Inside, answer-Quiet q) depth 9

  pub doretr-Inside : Keeps env (Inside env) doretr
  unfolding doretr
  doretr-Inside =
      search
        (keeps_rules, set_filename-Quiet q, answer-Quiet q, vfs_stat-Inside, retrieve_found-Inside)
        depth 9

  store_over-Inside : (fd : ℕ) (c : Accepted) → Keeps env (Inside env) (store_over fd c)
  unfolding store_over
  store_over-Inside fd no_conn = search (keeps_rules, Keeps-set_errno q.stable)
  store_over-Inside fd quit_conn = search (keeps_rules, Keeps-set_errno q.stable)
  store_over-Inside fd (got_conn conn) =
      search
        (
          keeps_rules, begin_transfer-Inside, store_file-Inside, end_transfer-Inside,
          count_up-Inside,
        )
        depth 9

  store_open-Inside : (o : Option ℕ) → Keeps env (Inside env) (store_open o)
  unfolding store_open
  store_open-Inside none = failed_vfs_reply-Quiet q
  store_open-Inside (some fd) = search (keeps_rules, accept_data_conn-Inside, store_over-Inside)

  pub dostor-Inside : Keeps env (Inside env) dostor
  unfolding dostor
  dostor-Inside =
      search
        (keeps_rules, set_filename-Quiet q, answer-Quiet q, vfs_creat-Inside, store_open-Inside)
        depth 9
