-- ===== src/Reply.antt =====
-- reply.c, and the error reply of vfs.c. The events of the trace are whole replies: what `sendall`
-- does with a message is one answer of the environment. `ftp_main` makes no reply where
-- `init_reply_pool` fails, so the assertion on `reply_pool` is left out.
use ftp_server.Prelude.{ℕ, Bool, ◌||◌, ◌-◌, ◌++◌, ◌==◌, if◌then◌else◌, take, Bytes}
use ftp_server.Text.Ctype.{codes}
use ftp_server.Machine.Types.{Ret, ftp_success, ftp_error, replied, allocates}
use ftp_server.Machine.Errno.{
  eperm, enoent, eacces, enotdir, enametoolong, enotempty, eloop, eusers, edquot,
}
use ftp_server.Machine.Monad.{M, pure, ◌>>=◌, ◌>>◌, gets, call, keep_errno, from_env}

unfoldable pub init_reply_pool : M Ret
init_reply_pool = do
  memory ← call allocates (λ env. env.malloc)
  pure (if memory then ftp_success else ftp_error)

unfoldable pub destroy_reply_pool : M Ret
destroy_reply_pool = pure ftp_success

unfoldable pub reply : Bytes → M (Unit {0})
reply msg = do failed ← call (replied msg) (λ env. env.send); keep_errno failed

-- RESPONSE_BUFFER_SIZE
abbrev pub response_buffer_size : ℕ
response_buffer_size = 1024

-- vsnprintf cuts the text to the buffer, with room for a NUL.
unfoldable pub reply_format : Bytes → M (Unit {0})
reply_format msg = reply (take (response_buffer_size - 1) msg)

-- A handler's `reply( … ); return FTP_SUCCESS;`
unfoldable pub answer : Bytes → M Ret
answer msg = do reply msg; pure ftp_success

-- The error numbers that a client is told.
unfoldable pub is_usual : ℕ → Bool
is_usual e =
    e == eperm
    || (e == enoent
        || (e == eacces
            || (e == enotdir
                || (e == enametoolong
                    || (e == enotempty || (e == eloop || (e == eusers || e == edquot)))))))

unfoldable pub failed_vfs_reply : M Ret
unfolding is_usual
failed_vfs_reply = do
  e ← gets (λ s. s.errno)
  text ← from_env (λ env. env.strerror e)
  if is_usual e
      then reply_format (codes "550 " ++ (text ++ codes "\r\n"))
      else reply (codes "550 Server error\r\n")
  pure ftp_success
