-- ===== src/Safety/Descriptors.antt =====
-- `do_cmd` of command.c: which descriptors a command leaves open.
use ftp_server.Prelude.{ℕ, ◌≡◌, ◌≢◌, refl, Bytes, true, List, Option, none, some, All, suc, length}
use ftp_server.Text.Ctype.{codes}
use ftp_server.Machine.Types.{Env, Machine}
use ftp_server.Machine.Monad.{◌>>=◌, gets}
use ftp_server.Machine.Keeps.{Ends}
use ftp_server.Machine.Stays.{Reaches, Stays, stays_rules, Stays-bind, Stays-pure, Stays-if}
use ftp_server.Machine.Descriptors.{open_fds, IsPlain, Has, Has-IsPlain}
use ftp_server.Auth.{doacct}
use ftp_server.Core.Info.{dosyst, donoop, doopts, doabor, doclnt, doallo}
use ftp_server.Core.Descriptors.Plain.{reply-Stays, answer-Stays}
use ftp_server.Core.Descriptors.Neutral.{
  dotype-Stays, dopwd-Stays, doquit-Stays, dofeat-Stays, dorest-Stays, docwd-Stays, docdup-Stays,
  dosize-Stays, domdtm-Stays, domkd-Stays, dormd-Stays, dodele-Stays,
}
use ftp_server.Core.Descriptors.Account.{douser-Stays, dopass-Stays}
use ftp_server.Core.Descriptors.Listing.{dolist-Stays}
use ftp_server.Core.Descriptors.Closed.{doretr-Stays}
use ftp_server.Command.Lookup.Entries.{IfFound, All-qsort, bsearch-IfFound}
use ftp_server.Command.Run.Table.{
  CmdHandler, core_command_list, command_pool, search_command, refuse, pre_command, run_found,
  do_cmd,
}
use ftp_server.Safety.Invariant.{IsSafe}
use ftp_server.Safety.Password.{HasAnonRoot}
use ftp_server.Safety.Main.{◌also◌}
use ftp_server.Safety.Commands.{do_cmd-Safe}

-- The commands that are meant to leave a descriptor behind or, as the code stands, may do so.
pub record IsOther (c : CmdHandler) : Type 0 where
  pub not_pasv : c.name ≢ codes "PASV"
  pub not_stor : c.name ≢ codes "STOR"

module _ (env : Env) (fds : List ℕ) where
  Neutral : CmdHandler → Type 0
  Neutral c = IsOther c → Stays env (Has env fds) c.handler

  p : IsPlain (Has env fds)
  p = Has-IsPlain env fds

  core_command_list-Neutral : All Neutral core_command_list
  unfolding Neutral doacct dosyst donoop doopts doabor doclnt doallo
  core_command_list-Neutral =
      (λ o. answer-Stays p _)
      also (λ o. answer-Stays p _)
      also (λ o. answer-Stays p _)
      also (λ o. docdup-Stays p)
      also (λ o. answer-Stays p _)
      also (λ o. docwd-Stays p)
      also (λ o. dofeat-Stays p)
      also (λ o. dolist-Stays)
      also (λ o. domdtm-Stays p)
      also (λ o. domkd-Stays p)
      also (λ o. answer-Stays p _)
      also (λ o. answer-Stays p _)
      also (λ o. dopass-Stays p)
      also (λ o. absurd (o.not_pasv refl))
      also (λ o. dopwd-Stays p)
      also (λ o. doquit-Stays p)
      also (λ o. dorest-Stays p)
      also (λ o. dodele-Stays p)
      also (λ o. (doretr-Stays env fds).1)
      also (λ o. dormd-Stays p)
      also (λ o. dosize-Stays p)
      also (λ o. answer-Stays p _)
      also (λ o. dotype-Stays p)
      also (λ o. douser-Stays p)
      also (λ o. absurd (o.not_stor refl))
      also tt

  search_command-Neutral : (key : Bytes) → IfFound Neutral (search_command key)
  unfolding search_command command_pool
  search_command-Neutral key =
      bsearch-IfFound (λ c. c.name) Neutral (suc (length core_command_list)) key _
        (All-qsort (λ c. c.name) Neutral core_command_list core_command_list-Neutral)

  refuse-Stays : (msg : Bytes) → Stays env (Has env fds) (refuse msg)
  unfolding refuse
  refuse-Stays msg = search (stays_rules, reply-Stays p)

  pre_command-Stays : (c : CmdHandler) → Stays env (Has env fds) (pre_command c)
  unfolding pre_command
  pre_command-Stays c = search (stays_rules, refuse-Stays) depth 9

  run_found-Stays :
      (o : Option CmdHandler)
      → IfFound Neutral o
      → IfFound IsOther o
      → Stays env (Has env fds) (run_found o)
  unfolding run_found Neutral
  run_found-Stays none n i = answer-Stays p _
  run_found-Stays (some c) n i =
      Stays-bind _ _ (pre_command-Stays c) λ passed. Stays-if _ _ _ (n i) (Stays-pure _)

-- A command other than PASV and STOR leaves open the descriptors that were open before it, those and
-- in their order, those of directories included, whether it is known or not, refused, or ends with an
-- error, and it does not crash: the session is safe again. The session must be safe before it, and so
-- its `login.user` must have a value; and where the configuration allows anonymous users, it must have
-- a root directory for them, and memory.
pub do_cmd-Stays :
    (env : Env) (s : Machine)
    → (env.config.allow_anon ≡ true → HasAnonRoot env)
    → IsSafe env s
    → IfFound IsOther (search_command s.name)
    → Ends (IsSafe env) (do_cmd env s)
      × Reaches (λ r h. open_fds env h ≡ open_fds env s.trace) (do_cmd env s)
unfolding do_cmd gets ◌>>=◌
do_cmd-Stays env s a safe other =
    let fds = open_fds env s.trace in
    (
      (do_cmd-Safe env a).at s safe,
      (run_found-Stays env fds (search_command s.name) (search_command-Neutral env fds s.name)
            other).at
          s refl,
    )
