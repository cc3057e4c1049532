-- ===== src/Core/Descriptors/Neutral.antt =====
-- The handlers of core.c that open and close no descriptor.
use ftp_server.Prelude.{[], ◌∷◌, Option, none, some, Bytes}
use ftp_server.Machine.Types.{Answer, History, Env, Stat, FsOp, op_mkdir, op_rmdir, op_unlink, fs}
use ftp_server.Machine.Monad.{M}
use ftp_server.Machine.Stays.{Stays, stays_rules, Stays-bind, Stays-pure, Stays-gets}
use ftp_server.Machine.Descriptors.{NoFd, IsPlain}
use ftp_server.Text.Number.{Parsed}
use ftp_server.Vfs.Ops.{on_path, vfs_mkdir, vfs_rmdir, vfs_unlink, enter_dir, vfs_chdir}
use ftp_server.Core.Info.{
  type_l, type_of, dotype, dopwd, doquit, dofeat, set_restart, restart_at, dorest,
}
use ftp_server.Core.Files.{
  enter_found, docwd, docdup, size_found, dosize, time_found, domdtm, done_or_failed, domkd, dormd,
  dodele,
}
use ftp_server.Core.Descriptors.Plain.{
  reply-Stays, reply_format-Stays, answer-Stays, failed_vfs_reply-Stays, resolve_path-Stays,
  on_real-Stays, vfs_stat-Stays, send_state-Stays,
}

module _ {env : Env} {T : History → Type 0} (p : IsPlain T) where
  type_l-Stays : (rest : Bytes) → Stays env T (type_l rest)
  unfolding type_l
  type_l-Stays [] = search (stays_rules, reply-Stays p)
  type_l-Stays (c ∷ rest) = answer-Stays p _

  type_of-Stays : (arg : Bytes) → Stays env T (type_of arg)
  unfolding type_of
  type_of-Stays [] = answer-Stays p _
  type_of-Stays (c ∷ rest) = search (stays_rules, answer-Stays p, type_l-Stays)

  pub dotype-Stays : Stays env T dotype
  unfolding dotype
  dotype-Stays = search (stays_rules, type_of-Stays)

  pub dopwd-Stays : Stays env T dopwd
  unfolding dopwd
  dopwd-Stays = search (stays_rules, reply_format-Stays p)

  pub doquit-Stays : Stays env T doquit
  unfolding doquit
  doquit-Stays = search (stays_rules, reply-Stays p)

  pub dofeat-Stays : Stays env T dofeat
  unfolding dofeat
  dofeat-Stays = search (stays_rules, reply-Stays p) depth 11

  restart_at-Stays : (n : Parsed) → Stays env T (restart_at n)
  unfolding restart_at set_restart
  restart_at-Stays n = search (stays_rules, reply-Stays p, reply_format-Stays p) depth 11

  pub dorest-Stays : Stays env T dorest
  unfolding dorest
  dorest-Stays = search (stays_rules, restart_at-Stays)

  on_path-Stays :
      {A : Type 0} (op : FsOp) (q : Env → History → Answer A) (path : Bytes)
      → ((real : Bytes) → NoFd (fs op real))
      → Stays env T (on_path op q path)
  unfolding on_path
  on_path-Stays op q path n =
      Stays-bind _ _ (resolve_path-Stays p path) (λ r. on_real-Stays p op q r n)

  enter_dir-Stays : (o : Option (Bytes × Bytes)) → Stays env T (enter_dir o)
  unfolding enter_dir
  enter_dir-Stays none = Stays-pure _
  enter_dir-Stays (some (real, virt)) = search stays_rules

  pub vfs_chdir-Stays : (path : Bytes) → Stays env T (vfs_chdir path)
  unfolding vfs_chdir
  vfs_chdir-Stays path = search (stays_rules, resolve_path-Stays p, enter_dir-Stays)

  enter_found-Stays : (arg : Bytes) (o : Option Stat) → Stays env T (enter_found arg o)
  unfolding enter_found
  enter_found-Stays arg none = failed_vfs_reply-Stays p
  enter_found-Stays arg (some st) =
      search (stays_rules, vfs_chdir-Stays, send_state-Stays p, answer-Stays p) depth 9

  pub docwd-Stays : Stays env T docwd
  unfolding docwd
  docwd-Stays = search (stays_rules, vfs_stat-Stays p, enter_found-Stays)

  pub docdup-Stays : Stays env T docdup
  unfolding docdup
  docdup-Stays = search (stays_rules, docwd-Stays)

  size_found-Stays : (o : Option Stat) → Stays env T (size_found o)
  unfolding size_found
  size_found-Stays none = failed_vfs_reply-Stays p
  size_found-Stays (some st) = search (stays_rules, reply_format-Stays p, answer-Stays p)

  pub dosize-Stays : Stays env T dosize
  unfolding dosize
  dosize-Stays = search (stays_rules, vfs_stat-Stays p, size_found-Stays)

  time_found-Stays : (o : Option Stat) → Stays env T (time_found o)
  unfolding time_found
  time_found-Stays none = failed_vfs_reply-Stays p
  time_found-Stays (some st) = search (stays_rules, reply_format-Stays p, answer-Stays p) depth 9

  pub domdtm-Stays : Stays env T domdtm
  unfolding domdtm
  domdtm-Stays = search (stays_rules, vfs_stat-Stays p, time_found-Stays)

  done_or_failed-Stays :
      (m : M (Unit {0})) (o : Option (Unit {0})) → Stays env T m → Stays env T (done_or_failed m o)
  unfolding done_or_failed
  done_or_failed-Stays m none k = failed_vfs_reply-Stays p
  done_or_failed-Stays m (some u) k = Stays-bind _ _ k (λ _. Stays-pure _)

  pub domkd-Stays : Stays env T domkd
  unfolding domkd vfs_mkdir
  domkd-Stays = Stays-bind _ _ (Stays-gets _) λ arg.
      Stays-bind _ _ (on_path-Stays op_mkdir _ arg (λ real. tt))
        λ o. done_or_failed-Stays _ o (reply_format-Stays p _)

  pub dormd-Stays : Stays env T dormd
  unfolding dormd vfs_rmdir
  dormd-Stays = Stays-bind _ _ (Stays-gets _) λ arg.
      Stays-bind _ _ (on_path-Stays op_rmdir _ arg (λ real. tt))
        λ o. done_or_failed-Stays _ o (reply-Stays p _)

  pub dodele-Stays : Stays env T dodele
  unfolding dodele vfs_unlink
  dodele-Stays = Stays-bind _ _ (Stays-gets _) λ arg.
      Stays-bind _ _ (on_path-Stays op_unlink _ arg (λ real. tt))
        λ o. done_or_failed-Stays _ o (reply-Stays p _)
