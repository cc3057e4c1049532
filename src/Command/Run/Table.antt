-- ===== src/Command/Run/Table.antt =====
-- The table of core.c, and `pre_command` and `do_cmd` of command.c.
use ftp_server.Prelude.{
  suc, Bool, true, false, not, ◌&&◌, List, [], ◌∷◌, Option, none, some, length, if◌then◌else◌,
  Bytes,
}
use ftp_server.Text.Ctype.{codes}
use ftp_server.Machine.Types.{Ret, ftp_success, ftp_error}
use ftp_server.Machine.Monad.{M, pure, ◌>>=◌, ◌>>◌, gets}
use ftp_server.Reply.{reply, answer}
use ftp_server.Auth.{is_success, doacct, douser, dopass}
use ftp_server.Core.Info.{
  dosyst, donoop, dotype, dopwd, doquit, dofeat, doopts, doabor, doclnt, doallo, dorest,
}
use ftp_server.Core.Files.{docwd, docdup, dosize, domdtm, domkd, dormd, dodele}
use ftp_server.Core.Data.{dopasv, doretr, dostor}
use ftp_server.Ls.{dolist}
use ftp_server.Command.Lookup.{qsort, bsearch}

-- cmd_handler_t
pub record CmdHandler : Type 0 where
  pub name : Bytes
  pub handler : M Ret
  pub needs_login : Bool
  pub needs_data : Bool
  pub needs_arg : Bool

abbrev pub entry : Bytes → M Ret → Bool → Bool → Bool → CmdHandler
entry name handler login data_conn arg = record {
  name = name;
  handler = handler;
  needs_login = login;
  needs_data = data_conn;
  needs_arg = arg;
}

abbrev pub core_command_list : List CmdHandler
core_command_list =
    entry (codes "ABOR") doabor true false false
    ∷ entry (codes "ACCT") doacct true false false
    ∷ entry (codes "ALLO") doallo true false false
    ∷ entry (codes "CDUP") docdup true false false
    ∷ entry (codes "CLNT") doclnt true false false
    ∷ entry (codes "CWD") docwd true false true
    ∷ entry (codes "FEAT") dofeat false false false
    ∷ entry (codes "LIST") dolist true true false
    ∷ entry (codes "MDTM") domdtm true false true
    ∷ entry (codes "MKD") domkd true false true
    ∷ entry (codes "NOOP") donoop false false false
    ∷ entry (codes "OPTS") doopts false false false
    ∷ entry (codes "PASS") dopass false false false
    ∷ entry (codes "PASV") dopasv true false false
    ∷ entry (codes "PWD") dopwd true false false
    ∷ entry (codes "QUIT") doquit false false false
    ∷ entry (codes "REST") dorest true false true
    ∷ entry (codes "DELE") dodele true false true
    ∷ entry (codes "RETR") doretr true true true
    ∷ entry (codes "RMD") dormd true false true
    ∷ entry (codes "SIZE") dosize true false true
    ∷ entry (codes "SYST") dosyst false false false
    ∷ entry (codes "TYPE") dotype true false true
    ∷ entry (codes "USER") douser false false false
    ∷ entry (codes "STOR") dostor true true true
    ∷ []

-- What `init_core_commands` leaves in the pool.
unfoldable pub command_pool : List CmdHandler
unfolding qsort
command_pool = qsort (λ c. c.name) core_command_list

unfoldable pub search_command : Bytes → Option CmdHandler
unfolding command_pool bsearch
search_command key = bsearch (λ c. c.name) (suc (length core_command_list)) key command_pool

unfoldable pub is_missing : {A : Type 0} → Option A → Bool
is_missing none = true
is_missing (some a) = false

unfoldable pub is_empty : Bytes → Bool
is_empty [] = true
is_empty (c ∷ s) = false

unfoldable pub refuse : Bytes → M Ret
refuse msg = do reply msg; pure ftp_error

unfoldable pub pre_command : CmdHandler → M Ret
unfolding is_missing is_empty refuse
pre_command cmd_def = do
  logged_in ← gets (λ s. s.login.logged_in)
  pasv_sock ← gets (λ s. s.conn.pasv_sock)
  arg ← gets (λ s. s.arg)
  if cmd_def.needs_login && not logged_in
      then refuse (codes "530 You're not logged in\r\n")
      else if cmd_def.needs_data && is_missing pasv_sock
      then refuse (codes "425 Cannot open data connection\r\n")
      else if cmd_def.needs_arg && is_empty arg
      then refuse (codes "501 Missing argument\r\n")
      else pure ftp_success

unfoldable pub run_found : Option CmdHandler → M Ret
run_found none = answer (codes "500 ?\r\n")
run_found (some cmd_def) = do
  passed ← pre_command cmd_def
  if is_success passed then cmd_def.handler else pure ftp_success

unfoldable pub do_cmd : M Ret
do_cmd = do name ← gets (λ s. s.name); run_found (search_command name)
