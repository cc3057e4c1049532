-- ===== src/Core/Files.antt =====
-- The handlers of core.c that work on a path: CWD, CDUP, SIZE, MDTM, MKD, RMD, DELE.
use ftp_server.Prelude.{
  take, ◌+◌, Bool, true, false, ◌++◌, Option, none, some, if◌then◌else◌, Bytes,
}
use ftp_server.Text.Ctype.{codes}
use ftp_server.Text.Number.{decimal, padded, padded_int}
use ftp_server.Text.Time.{Tm, is_leap, convert_time}
use ftp_server.Machine.Types.{Ret, ftp_success, FileKind, directory, regular, Stat, t_chdir}
use ftp_server.Machine.Monad.{M, pure, ◌>>=◌, ◌>>◌, gets, modify, from_env}
use ftp_server.Reply.{reply, reply_format, answer, failed_vfs_reply}
use ftp_server.State.{send_state}
use ftp_server.Vfs.Ops.{vfs_stat, vfs_chdir, vfs_mkdir, vfs_rmdir, vfs_unlink}

unfoldable pub is_dir : FileKind → Bool
is_dir directory = true
is_dir _ = false

unfoldable pub is_reg : FileKind → Bool
is_reg regular = true
is_reg _ = false

unfoldable pub enter_found : Bytes → Option Stat → M Ret
unfolding is_dir
enter_found arg none = failed_vfs_reply
enter_found arg (some st) =
    if is_dir st.kind
    then (do vfs_chdir arg; send_state t_chdir; answer (codes "250 OK\r\n"))
    else answer (codes "550 Not a directory\r\n")

unfoldable pub docwd : M Ret
unfolding enter_found
docwd = do arg ← gets (λ s. s.arg); found ← vfs_stat arg; enter_found arg found

unfoldable pub docdup : M Ret
unfolding docwd
docdup = do modify (λ s. record s { arg = codes ".." }); docwd

unfoldable pub size_found : Option Stat → M Ret
unfolding is_reg
size_found none = failed_vfs_reply
size_found (some st) =
    if is_reg st.kind
    then (do reply_format (codes "213 " ++ (decimal st.size ++ codes "\r\n")); pure ftp_success)
    else answer (codes "550 Can only size regular files\r\n")

unfoldable pub dosize : M Ret
unfolding size_found
dosize = do arg ← gets (λ s. s.arg); found ← vfs_stat arg; size_found found

-- %04d%02d%02d%02d%02d%02d, from the fields as they are: `tm_mon` counts from 0. snprintf cuts the text
-- to 14 bytes.
unfoldable pub date_text : Tm → Bytes
date_text tm = take 14 (
    padded 4 (tm.tm_year + 1900)
    ++ (padded 2 tm.tm_mon
        ++ (padded_int 2 tm.tm_mday
            ++ (padded_int 2 tm.tm_hour ++ (padded_int 2 tm.tm_min ++ padded_int 2 tm.tm_sec)))))

unfoldable pub time_found : Option Stat → M Ret
unfolding is_reg
time_found none = failed_vfs_reply
time_found (some st) =
    if is_reg st.kind
    then (do
      tm ← from_env (λ env. convert_time (is_leap env.fallen_off) st.mtime)
      reply_format (codes "213 " ++ (date_text tm ++ codes "\r\n"))
      pure ftp_success)
    else answer (codes "550 Can only time regular files\r\n")

unfoldable pub domdtm : M Ret
unfolding time_found
domdtm = do arg ← gets (λ s. s.arg); found ← vfs_stat arg; time_found found

-- The reply behind a call that returns 0 or -1.
unfoldable pub done_or_failed : M (Unit {0}) → Option (Unit {0}) → M Ret
done_or_failed success none = failed_vfs_reply
done_or_failed success (some u) = do success; pure ftp_success

unfoldable pub domkd : M Ret
unfolding done_or_failed
domkd = do
  arg ← gets (λ s. s.arg)
  made ← vfs_mkdir arg
  done_or_failed (reply_format (codes "257 \"" ++ (arg ++ codes "\" created\r\n"))) made

unfoldable pub dormd : M Ret
unfolding done_or_failed
dormd = do
  arg ← gets (λ s. s.arg)
  removed ← vfs_rmdir arg
  done_or_failed (reply (codes "250 Directory removed\r\n")) removed

unfoldable pub dodele : M Ret
unfolding done_or_failed
dodele = do
  arg ← gets (λ s. s.arg)
  removed ← vfs_unlink arg
  done_or_failed (reply (codes "250 File deleted\r\n")) removed
