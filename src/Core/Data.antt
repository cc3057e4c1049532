-- ===== src/Core/Data.antt =====
-- The handlers of core.c that open the data connection: PASV, RETR and STOR.
use ftp_server.Prelude.{
  ℕ, ◌+◌, ◌-◌, Bool, [], ◌∷◌, ◌++◌, Option, none, some, ltb, leb, if◌then◌else◌, Bytes,
}
use ftp_server.Text.Ctype.{codes}
use ftp_server.Text.Number.{decimal}
use ftp_server.Text.Util.{strlcpy, find_basename}
use ftp_server.Machine.Types.{
  Ret, ftp_error, ftp_success, ftp_quit, ftp_abor, Stat, Answer, good, bad, Accepted, got_conn,
  no_conn, quit_conn, t_xfer_start, t_xfer_stop, closed, sockets, Session,
}
use ftp_server.Machine.Errno.{ebadf}
use ftp_server.Machine.Monad.{M, pure, ◌>>=◌, ◌>>◌, gets, modify, call, set_errno}
use ftp_server.Reply.{reply, reply_format, answer, failed_vfs_reply}
use ftp_server.State.{ftp_max_name, send_state}
use ftp_server.Vfs.Ops.{vfs_stat, vfs_open, vfs_creat, vfs_close}
use ftp_server.Transfer.{accept_data_conn, transfer_file, store_file}
use ftp_server.Core.Files.{is_reg}
use ftp_server.Server.Listen.{pasv_listen}
use ftp_server.Stream.{Stream, s_file, s_socket}

unfoldable pub close_fd : ℕ → M (Unit {0})
close_fd fd = call (closed fd) (λ env h. tt)

unfoldable pub set_pasv : Option ℕ → M (Unit {0})
set_pasv fd = modify (λ s. record s { conn = record s.conn { pasv_sock = fd } })

unfoldable pub close_pasv : Option ℕ → M (Unit {0})
unfolding close_fd set_pasv
close_pasv none = pure tt
close_pasv (some fd) = do close_fd fd; set_pasv none

-- "(%hhu,%hhu,…)"
unfoldable pub comma_list : Bytes → Bytes
comma_list [] = []
comma_list (b ∷ []) = decimal b
comma_list (b ∷ c ∷ s) = decimal b ++ b',' ∷ comma_list (c ∷ s)

unfoldable pub listening : ℕ → Option Bytes → M Ret
unfolding close_fd set_pasv comma_list
listening fd none = do
  close_fd fd
  set_pasv none
  answer (codes "425 Can't open data connection\r\n")
listening fd (some port) = do
  ip ← gets (λ s. s.conn.host_addr)
  reply_format
      (codes "227 Entering env Passive Mode (" ++ (comma_list (ip ++ port) ++ codes ")\r\n"))
  pure ftp_success

unfoldable pub got_socket : Answer ℕ → M Ret
unfolding listening
got_socket (bad e) = do
  set_errno e
  reply (codes "425 Can't open data connection\r\n")
  pure ftp_error
got_socket (good fd) = do set_pasv (some fd); port ← pasv_listen fd; listening fd port

unfoldable pub dopasv : M Ret
unfolding close_pasv got_socket
dopasv = do
  old ← gets (λ s. s.conn.pasv_sock)
  close_pasv old
  a ← call sockets (λ env. env.socket)
  got_socket a

-- `strlcpy( session->filename, basename, FTP_MAX_NAME - 1 )`; whether the name is refused.
unfoldable pub set_filename : Bytes → M Bool
set_filename basename = do
  old ← gets (λ s. s.filename)
  modify (λ s. record s { filename = (strlcpy old basename (ftp_max_name - 1)).0 })
  pure (leb ftp_max_name (strlcpy old basename (ftp_max_name - 1)).1)

unfoldable pub transfer_reply : Ret → M (Unit {0})
transfer_reply ftp_success = reply (codes "226 File transfer successful\r\n")
transfer_reply ftp_abor = reply (codes "426 File transfer aborted\r\n")
transfer_reply _ = reply (codes "450 Error during write to data connection\r\n")

unfoldable pub set_status : Ret → Session → Session
set_status r s = record s { info = record s.info { xfer_status = r } }

unfoldable pub begin_transfer : M Ret
unfolding set_status
begin_transfer = do
  reply (codes "125 Data connection OK, transfer starting\r\n")
  modify (set_status ftp_success)
  send_state t_xfer_start

unfoldable pub count_down : Session → Session
count_down s = record s {
  info = record s.info { total_down = s.info.total_down + s.info.xfer_len };
  restart_pos = 0;
}

unfoldable pub count_up : Session → Session
count_up s = record s { info = record s.info { total_up = s.info.total_up + s.info.xfer_len } }

-- The last part of both handlers, which differ in what they count.
unfoldable pub end_transfer : Ret → (Session → Session) → ℕ → ℕ → M Ret
unfolding transfer_reply set_status close_fd
end_transfer ret count fd conn = do
  transfer_reply ret
  modify count
  modify (set_status ret)
  send_state t_xfer_stop
  vfs_close fd
  close_fd conn
  pure ftp_success

-- The two streams of a transfer.
abbrev pub file : ℕ → Stream
file fd = record { fd = fd; type = s_file }

abbrev pub connection : ℕ → Stream
connection fd = record { fd = fd; type = s_socket }

unfoldable pub retrieve_range : ℕ → ℕ → Bytes → ℕ → ℕ → M Ret
unfolding close_fd begin_transfer end_transfer count_down
retrieve_range fd conn basename offset filesize =
    if ltb filesize offset
    then (do
      vfs_close fd
      close_fd conn
      reply_format (
          codes "451 Restarting position "
          ++ (decimal offset
              ++ (codes " too large for file "
                  ++ (basename ++ (codes " of size " ++ (decimal filesize ++ codes "\r\n"))))))
      pure ftp_success)
    else (do
      begin_transfer
      ret ← transfer_file (connection conn) (file fd) offset (filesize - offset)
      end_transfer ret count_down fd conn)

unfoldable pub retrieve_over : ℕ → Bytes → ℕ → Accepted → M Ret
unfolding retrieve_range
retrieve_over fd basename filesize no_conn = do vfs_close fd; pure ftp_success
retrieve_over fd basename filesize quit_conn = do vfs_close fd; pure ftp_quit
retrieve_over fd basename filesize (got_conn conn) = do
  offset ← gets (λ s. s.restart_pos)
  retrieve_range fd conn basename offset filesize

unfoldable pub set_data_sock : Accepted → M (Unit {0})
set_data_sock c = modify (λ s. record s { conn = record s.conn { data_sock = c } })

unfoldable pub retrieve_open : Bytes → ℕ → Option ℕ → M Ret
unfolding retrieve_over set_data_sock
retrieve_open basename filesize none = failed_vfs_reply
retrieve_open basename filesize (some fd) = do
  conn ← accept_data_conn
  set_data_sock conn
  retrieve_over fd basename filesize conn

unfoldable pub retrieve_found : Bytes → Bytes → Option Stat → M Ret
unfolding is_reg retrieve_open
retrieve_found argument basename none = failed_vfs_reply
retrieve_found argument basename (some st) =
    if is_reg st.kind
    then (do opened ← vfs_open argument; retrieve_open basename st.size opened)
    else answer (codes "550 Can only retrieve regular files\r\n")

unfoldable pub doretr : M Ret
unfolding retrieve_found set_filename
doretr = do
  argument ← gets (λ s. s.arg)
  too_long ← set_filename (find_basename argument)
  if too_long
      then answer (codes "550 Filename too long\r\n")
      else (do found ← vfs_stat argument; retrieve_found argument (find_basename argument) found)

-- The results -1 and -2 of the accept have overwritten the file's descriptor, so the
-- `vfs_close` there closes no file and fails with EBADF.
unfoldable pub store_over : ℕ → Accepted → M Ret
unfolding begin_transfer end_transfer count_up
store_over fd no_conn = do set_errno ebadf; pure ftp_success
store_over fd quit_conn = do set_errno ebadf; pure ftp_quit
store_over fd (got_conn conn) = do
  begin_transfer
  ret ← store_file (file fd) (connection conn)
  end_transfer ret count_up fd conn

unfoldable pub store_open : Option ℕ → M Ret
unfolding store_over
store_open none = failed_vfs_reply
store_open (some fd) = do conn ← accept_data_conn; store_over fd conn

unfoldable pub dostor : M Ret
unfolding store_open set_filename
dostor = do
  pathname ← gets (λ s. s.arg)
  too_long ← set_filename (find_basename pathname)
  if too_long
      then answer (codes "550 Filename too long\r\n")
      else (do opened ← vfs_creat pathname; store_open opened)
