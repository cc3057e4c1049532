-- ===== src/Core/Descriptors/Plain.antt =====
-- Code that opens and closes no descriptor leaves the history as it was, as far as `T` looks at it.
use ftp_server.Prelude.{ℕ, Option, none, some, Bytes}
use ftp_server.Machine.Types.{
  Ret, Answer, good, bad, Event, History, Env, Machine, Stat, Accepted, StateChange, t_login,
  t_chdir, t_xfer_start, t_xfer, t_xfer_stop, FsOp, op_lstat, op_stat, fs, ftp_success, done, crash,
}
use ftp_server.Machine.Errno.{eacces}
use ftp_server.Machine.Monad.{call}
use ftp_server.Machine.Stays.{
  Reaches, Stays, stays_rules, Moves-call, Stays-bind, Stays-pure, Stays-if, Stays-from_env,
  Stays-modify, Stays-set_errno,
}
use ftp_server.Machine.Descriptors.{NoFd, IsPlain}
use ftp_server.Signals.{server_handle_signal}
use ftp_server.Reply.{reply, reply_format, answer, failed_vfs_reply}
use ftp_server.State.{
  send_login, send_chdir, send_xfer, send_xfer_start, send_fun, write_state, send_state,
}
use ftp_server.Vfs.Ops.{resolved, resolve_path, or_errno, on_real, stat_target, vfs_stat}
use ftp_server.Vfs.Realpath.{vfs_realpath}
use ftp_server.Transfer.{accept_failed}
use ftp_server.Core.Data.{set_filename, transfer_reply, begin_transfer, set_data_sock}

resolved-Reaches :
    (T : History → Type 0) (root : Bytes) (o : Option Bytes) (s : Machine)
    → T s.trace
    → Reaches {A = Option (Bytes × Bytes)} (λ a. T) (let (r, s') = resolved root o s in done r s')
resolved-Reaches T root none s h = h
resolved-Reaches T root (some virt) s h = h

root-Reaches :
    (T : History → Type 0) (o : Option Bytes) (path : Bytes) (s : Machine)
    → T s.trace
    → Reaches {A = Option (Bytes × Bytes)}
        (λ a. T)
        (elim o [
          | none ↦ crash s
          | some root ↦ let (r, s') = resolved root (vfs_realpath s.virt_path path) s in done r s'
        ])
root-Reaches T none path s h = tt
root-Reaches T (some root) path s h = resolved-Reaches T root (vfs_realpath s.virt_path path) s h

module _ {env : Env} {T : History → Type 0} (p : IsPlain T) where
  pub Plain-call :
      {A : Type 0} (e : Event) (f : Env → History → A) → NoFd e → Stays env T (call e f)
  Plain-call e f n = Moves-call e f (λ h t. p e h n t)

module _ {env : Env} {T : History → Type 0} (p : IsPlain T) where
  pub reply-Stays : (msg : Bytes) → Stays env T (reply msg)
  unfolding reply
  reply-Stays msg = search (stays_rules, Plain-call p, tt)

  pub reply_format-Stays : (msg : Bytes) → Stays env T (reply_format msg)
  unfolding reply_format
  reply_format-Stays msg = reply-Stays _

  pub answer-Stays : (msg : Bytes) → Stays env T (answer msg)
  unfolding answer
  answer-Stays msg = search (stays_rules, reply-Stays)

  pub failed_vfs_reply-Stays : Stays env T failed_vfs_reply
  unfolding failed_vfs_reply
  failed_vfs_reply-Stays = search (stays_rules, reply-Stays, reply_format-Stays) depth 9

  pub resolve_path-Stays : (path : Bytes) → Stays env T (resolve_path path)
  unfolding resolve_path
  resolve_path-Stays path = record { at = λ s h. root-Reaches T s.root path s h }

  pub or_errno-Stays : {A : Type 0} (a : Answer A) → Stays env T (or_errno a)
  unfolding or_errno
  or_errno-Stays (good a) = Stays-pure _
  or_errno-Stays (bad e) = search stays_rules

  pub on_real-Stays :
      {A : Type 0} (op : FsOp) (q : Env → History → Answer A) (o : Option (Bytes × Bytes))
      → ((real : Bytes) → NoFd (fs op real))
      → Stays env T (on_real op q o)
  unfolding on_real
  on_real-Stays op q none n = Stays-pure _
  on_real-Stays op q (some (real, virt)) n =
      Stays-bind _ _ (Plain-call p (fs op real) q (n real)) (λ a. or_errno-Stays a)

  stat_target-Stays : (r : Option (Bytes × Bytes)) (o : Option Stat) → Stays env T (stat_target r o)
  unfolding stat_target
  stat_target-Stays r none = Stays-pure _
  stat_target-Stays r (some st) = Stays-bind _ _ (Stays-from_env _) λ b.
      Stays-if _ _ _ (Stays-bind _ _ (Stays-set_errno eacces) (λ u. Stays-pure _))
        (on_real-Stays op_stat _ r (λ real. tt))

  pub vfs_stat-Stays : (path : Bytes) → Stays env T (vfs_stat path)
  unfolding vfs_stat
  vfs_stat-Stays path =
      Stays-bind _ _ (resolve_path-Stays path)
        λ r. Stays-bind _ _ (on_real-Stays op_lstat _ r (λ real. tt)) (stat_target-Stays r)

  pub server_handle_signal-Stays : Stays env T server_handle_signal
  unfolding server_handle_signal
  server_handle_signal-Stays = search (stays_rules, Plain-call p, tt)

  pub accept_failed-Stays : (e : ℕ) (r : Ret) → Stays env T (accept_failed e r)
  unfolding accept_failed
  accept_failed-Stays e r = search (stays_rules, reply-Stays) depth 9

  pub set_filename-Stays : (name : Bytes) → Stays env T (set_filename name)
  unfolding set_filename
  set_filename-Stays name = search stays_rules

  pub set_data_sock-Stays : (a : Accepted) → Stays env T (set_data_sock a)
  unfolding set_data_sock
  set_data_sock-Stays a = Stays-modify _

  send_fun-Stays : (type : StateChange) (buf : Bytes) → Stays env T (send_fun type buf)
  unfolding send_fun send_login send_chdir send_xfer send_xfer_start
  send_fun-Stays t_login buf = search stays_rules depth 9
  send_fun-Stays t_chdir buf = search stays_rules
  send_fun-Stays t_xfer_start buf = search stays_rules
  send_fun-Stays t_xfer buf = search stays_rules
  send_fun-Stays t_xfer_stop buf = search stays_rules

  write_state-Stays : (type : StateChange) (o : Option Bytes) → Stays env T (write_state type o)
  unfolding write_state
  write_state-Stays type none = Stays-pure _
  write_state-Stays type (some payload) = search (stays_rules, Plain-call p) depth 9

  pub send_state-Stays : (type : StateChange) → Stays env T (send_state type)
  unfolding send_state
  send_state-Stays type = search (stays_rules, send_fun-Stays, write_state-Stays) depth 9

  pub transfer_reply-Stays : (r : Ret) → Stays env T (transfer_reply r)
  unfolding transfer_reply
  transfer_reply-Stays ftp_success = reply-Stays _
  transfer_reply-Stays _ = reply-Stays _

  pub begin_transfer-Stays : Stays env T begin_transfer
  unfolding begin_transfer
  begin_transfer-Stays = search (stays_rules, reply-Stays, send_state-Stays) depth 9
