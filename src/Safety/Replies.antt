-- ===== src/Safety/Replies.antt =====
-- Code that replies and keeps to the session.
use ftp_server.Prelude.{ℕ, refl, [], ◌∷◌, Bytes}
use ftp_server.Text.Number.{Parsed}
use ftp_server.Machine.Types.{ftp_success, Env, Machine}
use ftp_server.Machine.Keeps.{Keeps, keeps_rules, Keeps-bind, Keeps-pure, Keeps-keep_errno}
use ftp_server.Reply.{reply, reply_format, answer, failed_vfs_reply}
use ftp_server.Safety.Invariant.{IsQuiet, Quiet-call, Quiet-modify}
use ftp_server.Core.Info.{
  dosyst, donoop, type_l, type_of, dotype, dopwd, doquit, dofeat, doopts, doabor, doclnt, doallo,
  set_restart, restart_at, dorest,
}
use ftp_server.Auth.{doacct}

module _ {env : Env} {P : Machine → Type 0} (q : IsQuiet P) where
  pub reply-Quiet : (msg : Bytes) → Keeps env P (reply msg)
  unfolding reply
  reply-Quiet msg = search (keeps_rules, Quiet-call q, Keeps-keep_errno, q.stable, tt)

  pub reply_format-Quiet : (msg : Bytes) → Keeps env P (reply_format msg)
  unfolding reply_format
  reply_format-Quiet msg = reply-Quiet _

  pub answer-Quiet : (msg : Bytes) → Keeps env P (answer msg)
  unfolding answer
  answer-Quiet msg = search (keeps_rules, reply-Quiet)

  pub failed_vfs_reply-Quiet : Keeps env P failed_vfs_reply
  unfolding failed_vfs_reply
  failed_vfs_reply-Quiet = search (keeps_rules, reply-Quiet, reply_format-Quiet) depth 9

  pub doacct-Quiet : Keeps env P doacct
  unfolding doacct
  doacct-Quiet = answer-Quiet _

  pub dosyst-Quiet : Keeps env P dosyst
  unfolding dosyst
  dosyst-Quiet = answer-Quiet _

  pub donoop-Quiet : Keeps env P donoop
  unfolding donoop
  donoop-Quiet = answer-Quiet _

  pub doopts-Quiet : Keeps env P doopts
  unfolding doopts
  doopts-Quiet = answer-Quiet _

  pub doabor-Quiet : Keeps env P doabor
  unfolding doabor
  doabor-Quiet = answer-Quiet _

  pub doclnt-Quiet : Keeps env P doclnt
  unfolding doclnt
  doclnt-Quiet = answer-Quiet _

  pub doallo-Quiet : Keeps env P doallo
  unfolding doallo
  doallo-Quiet = answer-Quiet _

  type_l-Quiet : (rest : Bytes) → Keeps env P (type_l rest)
  unfolding type_l
  type_l-Quiet [] = search (keeps_rules, reply-Quiet)
  type_l-Quiet (c ∷ rest) = answer-Quiet _

  type_of-Quiet : (arg : Bytes) → Keeps env P (type_of arg)
  unfolding type_of
  type_of-Quiet [] = answer-Quiet _
  type_of-Quiet (c ∷ rest) = search (keeps_rules, answer-Quiet, type_l-Quiet)

  pub dotype-Quiet : Keeps env P dotype
  unfolding dotype
  dotype-Quiet = search (keeps_rules, type_of-Quiet)

  pub dopwd-Quiet : Keeps env P dopwd
  unfolding dopwd
  dopwd-Quiet = search (keeps_rules, reply_format-Quiet)

  pub doquit-Quiet : Keeps env P doquit
  unfolding doquit
  doquit-Quiet = search (keeps_rules, reply-Quiet)

  pub dofeat-Quiet : Keeps env P dofeat
  unfolding dofeat
  dofeat-Quiet = search (keeps_rules, reply-Quiet) depth 9

  set_restart-Quiet : (offset : ℕ) → Keeps env P (set_restart offset)
  unfolding set_restart
  set_restart-Quiet offset =
      Keeps-bind _ _ (Quiet-modify q _ (λ s. (refl, refl))) (λ _. Keeps-pure ftp_success)

  restart_at-Quiet : (p : Parsed) → Keeps env P (restart_at p)
  unfolding restart_at
  restart_at-Quiet p =
      search
        (
          keeps_rules, reply-Quiet, reply_format-Quiet, set_restart-Quiet, Keeps-keep_errno,
          q.stable,
        )
        depth 9

  pub dorest-Quiet : Keeps env P dorest
  unfolding dorest
  dorest-Quiet = search (keeps_rules, restart_at-Quiet)
