-- ===== src/Core/Info.antt =====
-- The handlers of core.c that touch neither files nor the data connection, and REST.
use ftp_server.Prelude.{
  ℕ, Bool, ◌||◌, ◌&&◌, [], ◌∷◌, ◌++◌, none, some, ltb, ◌==◌, if◌then◌else◌, Bytes,
}
use ftp_server.Text.Ctype.{codes, to_upper}
use ftp_server.Text.Util.{trim_in_line}
use ftp_server.Text.Number.{Parsed, llong_max, strtoll, decimal}
use ftp_server.Machine.Types.{Ret, ftp_success, ftp_quit}
use ftp_server.Machine.Errno.{erange}
use ftp_server.Machine.Monad.{M, pure, ◌>>=◌, ◌>>◌, gets, modify, keep_errno}
use ftp_server.Reply.{reply, reply_format, answer}

unfoldable pub dosyst : M Ret
dosyst = answer (codes "200 UNIX Type L8\r\n")

unfoldable pub donoop : M Ret
donoop = answer (codes "200 Zzz\r\n")

unfoldable pub type_l : Bytes → M Ret
type_l [] = do
  reply (codes "504-Only 8-bit bytes allowed\r\n")
  reply (codes "504 TYPE is now Binary\r\n")
  pure ftp_success
type_l (c ∷ rest) = answer (codes "501 Missing argument\r\n")

-- switch( toupper( arg[ 0 ] ) ); the empty string has the NUL there.
unfoldable pub type_of : Bytes → M Ret
unfolding type_l to_upper
type_of [] = answer (codes "504 Bad parameter\r\n")
type_of (c ∷ rest) =
    if to_upper c == b'A'
    then answer (codes "200 TYPE is now ASCII\r\n")
    else if to_upper c == b'I'
    then answer (codes "200 TYPE is now BINARY\r\n")
    else if to_upper c == b'L'
    then type_l rest
    else answer (codes "504 Bad parameter\r\n")

unfoldable pub dotype : M Ret
unfolding type_of
dotype = do arg ← gets (λ s. s.arg); type_of arg

unfoldable pub dopwd : M Ret
dopwd = do
  path ← gets (λ s. s.virt_path)
  reply_format (codes "257 \"" ++ (path ++ codes "\" is your current location\r\n"))
  pure ftp_success

unfoldable pub doquit : M Ret
doquit = do reply (codes "221 Goodbye!\r\n"); pure ftp_quit

unfoldable pub dofeat : M Ret
dofeat = do
  reply (codes "211-Extensions supported:\r\n")
  reply (codes " SIZE\r\n")
  reply (codes " MDTM\r\n")
  reply (codes "211 End.\r\n")
  pure ftp_success

unfoldable pub doopts : M Ret
doopts = answer (codes "501 No such command\r\n")

unfoldable pub doabor : M Ret
doabor = answer (codes "226 Abort successful\r\n")

unfoldable pub doclnt : M Ret
doclnt = answer (codes "220 Whatever\r\n")

unfoldable pub doallo : M Ret
doallo = answer (codes "202 ALLO is obsolete\r\n")

-- `offset < 0 || offset == LLONG_MAX`
unfoldable pub is_bad_offset : Parsed → Bool
is_bad_offset p = (p.negative && ltb 0 p.magnitude) || p.magnitude == llong_max

unfoldable pub set_restart : ℕ → M Ret
set_restart offset = do modify (λ s. record s { restart_pos = offset }); pure ftp_success

-- errno is not cleared before the conversion, so its old value is tested.
unfoldable pub restart_at : Parsed → M Ret
unfolding is_bad_offset set_restart
restart_at p = do
  keep_errno (if p.overflowed then some erange else none)
  errno ← gets (λ s. s.errno)
  if is_bad_offset p || errno == erange
      then (do
        reply (codes "501-Invalid seek argument\r\n")
        reply (codes "501 Seek reset to 0\r\n")
        set_restart 0)
      else (do
        reply_format (codes "350 Restarting transfer at " ++ (decimal p.magnitude ++ codes "\r\n"))
        set_restart p.magnitude)

-- The cut that `trim_whitespace` makes in the command line is not read again.
unfoldable pub dorest : M Ret
unfolding restart_at
dorest = do arg ← gets (λ s. s.arg); restart_at (strtoll (trim_in_line arg))
