-- ===== src/Auth.antt =====
-- auth.c: USER, PASS and ACCT.
pub mod Match
use ftp_server.Prelude.{
  ℕ, Bool, true, false, not, ◌++◌, Option, none, some, if◌then◌else◌, Bytes, [], ◌∷◌, ◌==◌, ◌&&◌,
}
use ftp_server.Text.Ctype.{codes, strcasecmp, Order, less, same, greater}
use ftp_server.Machine.Types.{
  CharPtr, undefined, null, points_to, Ret, ftp_success, ftp_error, ftp_quit, Passwd, t_login,
  asks_user, asks_shadow, encrypts, sets_uid, allocates,
}
use ftp_server.Machine.Monad.{fault, M, pure, ◌>>=◌, ◌>>◌, gets, modify, call, keep_errno, from_env}
use ftp_server.Reply.{reply, reply_format, answer}
use ftp_server.Vfs.Ops.{init_vfs_pool}
use ftp_server.State.{init_state_pool, send_state}

unfoldable pub doacct : M Ret
doacct = answer (codes "202 ACCT is obsolete\r\n")

unfoldable pub is_same : Order → Bool
is_same same = true
is_same _ = false

unfoldable pub is_success : Ret → Bool
is_success ftp_success = true
is_success _ = false

-- `login->user = strdup( username )`
unfoldable pub name_user : Bytes → Bool → M Ret
name_user username false = pure ftp_error
name_user username true = do
  modify (λ s. record s { login = record s.login { user = points_to username } })
  reply_format (codes "331 Pass required for user " ++ (username ++ codes "\r\n"))
  pure ftp_success

unfoldable pub take_anonymous : Bool → M Ret
take_anonymous false = answer (codes "550 No anonymous connections allowed\r\n")
take_anonymous true = do
  reply (codes "331 Any pass will do\r\n")
  modify (λ s. record s { login = record s.login { anonymous = true } })
  pure ftp_success

unfoldable pub take_user : Bytes → M Ret
unfolding is_same
take_user username = do
  modify (λ s. record s { login = record s.login { user = null } })
  allow_anon ← from_env (λ env. env.config.allow_anon)
  if is_same (strcasecmp username (codes "anonymous"))
      then take_anonymous allow_anon
      else do ok ← call allocates (λ env. env.malloc); name_user username ok

unfoldable pub douser : M Ret
unfolding name_user take_anonymous take_user
douser = do
  logged_in ← gets (λ s. s.login.logged_in)
  username ← gets (λ s. s.arg)
  if logged_in then answer (codes "503 Already logged in\r\n") else take_user username

-- strcmp( a, b ) == 0
unfoldable pub same_text : Bytes → Bytes → Bool
same_text [] [] = true
same_text (a ∷ s) (b ∷ t) = a == b && same_text s t
same_text _ _ = false

-- Behind a matching password: both pools, then the user id; `none` is -1.
unfoldable pub open_pools : Passwd → M (Option ℕ)
unfolding is_success
open_pools pwd = do
  state ← init_state_pool
  if not (is_success state) then pure none else do
    vfs ← init_vfs_pool (some pwd.pw_dir)
    pure (if is_success vfs then some pwd.pw_uid else none)

unfoldable pub check_encrypted : Passwd → Bytes → Option Bytes → M (Option ℕ)
check_encrypted pwd shadow none = pure none
check_encrypted pwd shadow (some encrypted) =
    if same_text encrypted shadow then open_pools pwd else pure none

unfoldable pub check_shadow : Passwd → Bytes → Option Bytes → M (Option ℕ)
unfolding check_encrypted
check_shadow pwd password none = pure none
check_shadow pwd password (some shadow) = do
  encrypted ← call (encrypts password shadow) (λ env. env.crypt)
  check_encrypted pwd shadow encrypted

unfoldable pub check_user : Bytes → Bytes → Option Passwd → M (Option ℕ)
unfolding check_shadow
check_user user password none = pure none
check_user user password (some pwd) = do
  shadow ← call (asks_shadow user) (λ env. env.getspnam)
  check_shadow pwd password shadow

unfoldable pub login_user : Bytes → Bytes → M (Option ℕ)
unfolding check_user same_text
login_user user password = do
  pwd ← call (asks_user user) (λ env. env.getpwnam)
  check_user user password pwd

unfoldable pub log_in : M (Unit {0})
log_in = modify (λ s. record s { login = record s.login { logged_in = true } })

unfoldable pub become : Option ℕ → M Ret
become (some e) = do keep_errno (some e); pure ftp_error
become none = do send_state t_login; log_in; answer (codes "230 Login successful, have fun\r\n")

unfoldable pub admit : Option ℕ → M Ret
unfolding become
admit none = do reply (codes "530 Login failed\r\n"); pure ftp_quit
admit (some uid) = do failed ← call (sets_uid uid) (λ env. env.setuid); become failed

-- The results of both pools are ignored here.
unfoldable pub admit_anonymous : M Ret
admit_anonymous = do
  reply (codes "230 Hello!\r\n")
  root_dir ← from_env (λ env. env.config.anon_root_dir)
  init_vfs_pool root_dir
  init_state_pool
  log_in
  pure ftp_success

unfoldable pub take_password : CharPtr → M Ret
unfolding admit fault
take_password undefined = fault
take_password null = answer (codes "503 Login with USER first\r\n")
take_password (points_to user) = do
  password ← gets (λ s. s.arg)
  uid ← login_user user password
  admit uid

unfoldable pub dopass : M Ret
unfolding log_in admit_anonymous take_password
dopass = do
  login ← gets (λ s. s.login)
  if login.logged_in
      then answer (codes "503 Already logged in\r\n")
      else if login.anonymous
      then admit_anonymous
      else take_password login.user
