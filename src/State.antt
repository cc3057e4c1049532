-- ===== src/State.antt =====
-- The sending half of state.c: a session tells the master process what it does.
use ftp_server.Prelude.{ℕ, leb, ltb, [], Option, none, some, if◌then◌else◌, Bytes}
use ftp_server.Text.Ctype.{codes}
use ftp_server.Text.Util.{strlcpy}
use ftp_server.Machine.Types.{
  Ret, ftp_success, ftp_error, StateChange, t_login, t_chdir, t_xfer_start, t_xfer, t_xfer_stop,
  allocates, sends_state,
}
use ftp_server.Machine.Monad.{
  read_ptr, M, pure, ◌>>=◌, ◌>>◌, gets, call, keep_errno, from_env, set_state_pool, deref,
}
use ftp_server.Vfs.Realpath.{ftp_max_path}

abbrev pub max_login_name : ℕ
max_login_name = 64

abbrev pub ftp_max_name : ℕ
ftp_max_name = 256

-- The pool is zeroed, so it holds the empty string.
unfoldable pub init_state_pool : M Ret
init_state_pool = do
  ok ← call allocates (λ env. env.malloc)
  if ok then (do set_state_pool (some []); pure ftp_success) else pure ftp_error

unfoldable pub destroy_state_pool : M Ret
destroy_state_pool = do set_state_pool none; pure ftp_success

-- The string at the start of the buffer once it is filled, from what it held, or `none` for FTP_ERROR.
unfoldable pub send_login : Bytes → M (Option Bytes)
send_login buf = do
  anonymous ← gets (λ s. s.login.anonymous)
  user ← gets (λ s. s.login.user)
  if anonymous
      then pure (some (strlcpy [] (codes "anonymous") max_login_name).0)
      else do name ← read_ptr user; pure (some (strlcpy [] name max_login_name).0)

unfoldable pub send_chdir : Bytes → M (Option Bytes)
send_chdir buf = do
  path ← gets (λ s. s.virt_path)
  let (buf', len) = strlcpy buf path ftp_max_path
  pure (if leb ftp_max_path len then none else some buf')

unfoldable pub send_xfer : Bytes → M (Option Bytes)
send_xfer buf = do
  info ← gets (λ s. s.info)
  image ← from_env (λ env. env.xfer_image info)
  pure (some image)

unfoldable pub send_xfer_start : Bytes → M (Option Bytes)
send_xfer_start buf = do
  filename ← gets (λ s. s.filename)
  let (buf', len) = strlcpy buf filename ftp_max_name
  pure (if ltb ftp_max_name len then none else some buf')

-- `state_ops[ i ].send_fun`
unfoldable pub send_fun : StateChange → Bytes → M (Option Bytes)
unfolding send_login send_chdir send_xfer send_xfer_start
send_fun t_login = send_login
send_fun t_chdir = send_chdir
send_fun t_xfer_start = send_xfer_start
send_fun t_xfer = send_xfer
send_fun t_xfer_stop = send_xfer

-- The event stands for the `writev` that was not interrupted.
unfoldable pub write_state : StateChange → Option Bytes → M Ret
write_state type none = pure ftp_error
write_state type (some payload) = do
  set_state_pool (some payload)
  failed ← call (sends_state type payload) (λ env. env.writev)
  keep_errno failed
  pure (elim failed [ none ↦ ftp_success | some e ↦ ftp_error ])

unfoldable pub send_state : StateChange → M Ret
send_state type = do
  pool ← gets (λ s. s.state_pool)
  buf ← deref pool
  filled ← send_fun type buf
  write_state type filled
