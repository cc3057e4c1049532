-- ===== src/Command/Run/Serve.antt =====
-- `new_session`, the main loop of `ftp_main` and its end, over the commands that `read_cmd` and
-- `parse_cmd` find in the connection; after the last one the connection is closed.
use ftp_server.Prelude.{ℕ, false, List, [], ◌∷◌, none, if◌then◌else◌, Bytes}
use ftp_server.Text.Ctype.{codes}
use ftp_server.Machine.Types.{
  CharPtr, no_time, Ret, ftp_success, ftp_error, ftp_quit, Answer, good, bad, SockAddr, allocates,
  asks_peer, asks_name, Session, no_conn, Machine,
}
use ftp_server.Machine.Monad.{free_ptr, M, pure, ◌>>=◌, ◌>>◌, gets, modify, call, set_errno}
use ftp_server.Reply.{reply, init_reply_pool, destroy_reply_pool}
use ftp_server.Auth.{is_success}
use ftp_server.State.{destroy_state_pool}
use ftp_server.Vfs.Ops.{destroy_vfs_pool}
use ftp_server.Core.Data.{close_pasv}
use ftp_server.Command.Run.Table.{do_cmd}

-- What `new_session` fills in. `login.user` is not set: it is whatever stood there.
abbrev pub blank_session : Bytes → CharPtr → Session
blank_session host_addr user = record {
  conn = record { pasv_sock = none; data_sock = no_conn; host_addr = host_addr };
  name = [];
  arg = [];
  login = record { logged_in = false; anonymous = false; user = user };
  info = record {
    total_down = 0;
    total_up = 0;
    xfer_len = 0;
    probe_len = 0;
    xfer_start = no_time;
    xfer_probe = no_time;
    xfer_status = ftp_success;
  };
  virt_path = codes "/";
  filename = [];
  restart_pos = 0;
}

-- A process that has just been forked: no pools, no calls.
abbrev pub new_process : Bytes → CharPtr → ℕ → Machine
new_process host_addr user errno = record {
  session = blank_session host_addr user;
  errno = errno;
  root = none;
  state_pool = none;
  trace = [];
}

-- malloc( … ); `rest` is what follows where there is memory.
unfoldable pub allocated : M Ret → M Ret
allocated rest = do
  memory ← call allocates (λ env. env.malloc)
  if memory then rest else pure ftp_error

unfoldable pub named : M Ret → Answer SockAddr → M Ret
named rest (bad e) = do set_errno e; pure ftp_error
named rest (good sa) = rest

-- The buffers of the command line, the path and the name of the file.
unfoldable pub with_buffers : M Ret
unfolding allocated
with_buffers = allocated (allocated (allocated (pure ftp_success)))

unfoldable pub at_address : Answer SockAddr → M Ret
unfolding with_buffers
at_address (bad e) = do set_errno e; pure ftp_error
at_address (good sa) = do modify (λ s. blank_session sa.sin_addr s.login.user); with_buffers

-- FTP_ERROR is NULL; what was allocated is then freed.
unfoldable pub new_session : ℕ → M Ret
unfolding allocated named at_address
new_session sock = allocated (do
  client ← call (asks_peer sock) (λ env. env.getpeername)
  named (do host ← call (asks_name sock) (λ env. env.getsockname); at_address host) client)

unfoldable pub set_command : Bytes × Bytes → Session → Session
set_command (name, arg) s = record s { name = name; arg = arg }

unfoldable pub serve : List (Bytes × Bytes) → M Ret
serve [] = pure ftp_quit
serve (c ∷ cs) = do
  modify (set_command c)
  ret ← do_cmd
  if is_success ret then serve cs else pure ret

-- The listening socket is closed, and the rest is memory; the user is freed as it stands there.
unfoldable pub destroy_session : M (Unit {0})
unfolding free_ptr
destroy_session = do
  pasv_sock ← gets (λ s. s.conn.pasv_sock)
  close_pasv pasv_sock
  user ← gets (λ s. s.login.user)
  free_ptr user

unfoldable pub leave : M (Unit {0})
unfolding destroy_session
leave = do
  reply (codes "421 Goodbye!\r\n")
  destroy_state_pool
  destroy_vfs_pool
  destroy_reply_pool
  destroy_session

unfoldable pub run_session : List (Bytes × Bytes) → M (Unit {0})
unfolding serve leave
run_session commands = do reply (codes "220 Welcome\r\n"); serve commands; leave

unfoldable pub ftp_main : ℕ → List (Bytes × Bytes) → M (Unit {0})
unfolding new_session run_session
ftp_main sock commands = do
  pool ← init_reply_pool
  if is_success pool
      then (do
        made ← new_session sock
        if is_success made then run_session commands else (do destroy_reply_pool; pure tt))
      else pure tt
