-- ===== src/Tests/Examples.antt =====
-- The theorems at concrete inputs.
use ftp_server.Prelude.{pos, ◌≡◌, refl, true, false, List, [], ◌∷◌, ◌++◌, some, Bytes, arith}
use ftp_server.Text.Ctype.{codes, is_space, is_blank}
use ftp_server.Machine.Types.{null, points_to, Machine}
use ftp_server.Machine.Keeps.{Ends, Keeps}
use ftp_server.Machine.Leads.{Leads}
use ftp_server.Vfs.Realpath.{vfs_realpath}
use ftp_server.Vfs.Stack.{IsName, IsCanonical, path_of, spine, parent, components, resolve, base_of}
use ftp_server.Vfs.Refine.Theorems.{Refines, vfs_realpath-resolve}
use ftp_server.Vfs.Refine.RoundTrip.{vfs_realpath-path_of, vfs_realpath-parent}
use ftp_server.Machine.Monad.{call, pure, ◌>>=◌, deref, set_root, set_state_pool}
use ftp_server.State.{init_state_pool}
use ftp_server.Vfs.Ops.{init_vfs_pool}
use ftp_server.Reply.{answer}
use ftp_server.Auth.{
  dopass, login_user, check_user, check_shadow, check_encrypted, open_pools, same_text, is_success,
}
use ftp_server.Auth.Match.{Gives, IsMatch, login_user-IsMatch}
use ftp_server.Command.Run.Table.{
  CmdHandler, entry, core_command_list, run_found, do_cmd, search_command,
}
use ftp_server.Command.Lookup.Correct.{find}
use ftp_server.Core.Files.{domkd}
use ftp_server.Command.Run.Serve.{new_process, ftp_main}
use ftp_server.Command.Run.Checks.{Meets, run_found-refuses, search_command-find}
use ftp_server.Safety.Invariant.{Outside, IsSafe}
use ftp_server.Safety.Password.{dopass-Outside}
use ftp_server.Safety.Commands.{do_cmd-Safe}
use ftp_server.Safety.Session.{Tidy, ftp_main-Tidy}
use ftp_server.Server.Buffer.{received, interrupted, commands_of}
use ftp_server.Server.Framing.Whole.{IsFraming, commands_of-stream}
use ftp_server.Text.Util.{strlcpy, trim_whitespace, skip_blanks, back_over_spaces}
use ftp_server.Text.Util.Trim.{IsTrimmed, trim_whitespace-IsTrimmed, IsCopy, strlcpy-IsCopy}
use ftp_server.Text.Util.Trim.Returns.{trim_whitespace_returns}
use ftp_server.Prelude.{pos, ◌==◌, if◌then◌else◌}
use ftp_server.Text.Number.{decimal}
use ftp_server.Machine.Errno.{erange}
use ftp_server.Core.Info.{dorest}
use ftp_server.Core.Restart.{Restarts, dorest-decimal}
use ftp_server.Text.Util.{find_basename}
use ftp_server.Text.Util.Basename.{IsBasename, find_basename-IsBasename}
use ftp_server.Tests.Sample.{sample_env, sample_anon}

abbrev a_session : List (Bytes × Bytes)
a_session =
    (codes "MKD", codes "new")
    ∷ (codes "USER", codes "bob")
    ∷ (codes "PASS", codes "secret")
    ∷ (codes "CWD", codes "../../etc")
    ∷ (codes "PASV", [])
    ∷ (codes "RETR", codes "passwd")
    ∷ []

ftp_main-Tidy_example :
    Ends
      (Tidy sample_env)
      (ftp_main 3 a_session sample_env (new_process (codes "127,0,0,1") null 0))
ftp_main-Tidy_example =
    ftp_main-Tidy sample_env sample_anon (codes "127,0,0,1") null 0 3 a_session (λ e. cc)

do_cmd-Safe_example : Keeps sample_env (IsSafe sample_env) do_cmd
do_cmd-Safe_example = do_cmd-Safe sample_env sample_anon

dopass-Outside_example :
    Leads sample_env (Outside sample_env.config) (λ r. IsSafe sample_env) dopass
dopass-Outside_example = dopass-Outside sample_env sample_anon

abbrev start : Machine
start = new_process (codes "127,0,0,1") (points_to (codes "bob")) 0

lets_in : Gives (some 1000) (login_user (codes "bob") (codes "secret") sample_env start)
unfolding login_user check_user check_shadow check_encrypted open_pools init_state_pool
    init_vfs_pool call pure ◌>>=◌ deref set_root set_state_pool same_text is_success
lets_in = refl

login_user-IsMatch_example : IsMatch sample_env start (codes "bob") (codes "secret") 1000
login_user-IsMatch_example =
    login_user-IsMatch sample_env start (codes "bob") (codes "secret") 1000 lets_in

pub-IsName : IsName (codes "pub")
pub-IsName = record {
  not_empty = λ e. cc;
  no_sep = (λ e. omega (arith, e), (λ e. omega (arith, e), (λ e. omega (arith, e), tt)));
  not_dot = refl;
  not_dot_dot = refl;
}

pub_dir : IsCanonical (codes "/pub") (codes "pub" ∷ [])
unfolding path_of spine
pub_dir = record { path = refl; names = (pub-IsName, tt); fits = omega arith }

root_dir : IsCanonical (codes "/") []
unfolding path_of
root_dir = record { path = refl; names = tt; fits = omega arith }

vfs_realpath-resolve_example :
    Refines
      (resolve (base_of (codes "pub" ∷ []) (codes "../a//./b")) (components (codes "../a//./b")))
      (vfs_realpath (codes "/pub") (codes "../a//./b"))
vfs_realpath-resolve_example =
    vfs_realpath-resolve (codes "pub" ∷ []) (codes "/pub") (codes "../a//./b") pub_dir

vfs_realpath-path_of_example : vfs_realpath (codes "/") (codes "/pub") ≡ some (codes "/pub")
vfs_realpath-path_of_example =
    vfs_realpath-path_of (codes "pub" ∷ []) [] (codes "/") (codes "/pub") root_dir pub_dir

vfs_realpath-parent_example :
    vfs_realpath (codes "/pub") (codes "..") ≡ some (path_of (parent (codes "pub" ∷ [])))
vfs_realpath-parent_example = vfs_realpath-parent (codes "pub" ∷ []) (codes "/pub") pub_dir

commands_of-stream_example : IsFraming (codes "USER bob\r\nPASS x\r\nNO") (
    commands_of 21
      (received (codes "USER b")
        ∷ interrupted false
        ∷ received (codes "ob\r\nPASS x\r")
        ∷ received (codes "\nNO")
        ∷ [])
      (record { line = []; line_len = 512 }))
commands_of-stream_example = commands_of-stream 512 (
    received (codes "USER b")
    ∷ interrupted false
    ∷ received (codes "ob\r\nPASS x\r")
    ∷ received (codes "\nNO")
    ∷ [])

search_command-find_example :
    search_command (codes "retr") ≡ find (λ c. c.name) (codes "retr") core_command_list
search_command-find_example = search_command-find (codes "retr")

abbrev make_dir : CmdHandler
make_dir = entry (codes "MKD") domkd true false true

false-true : false ≡ true → ⊥
false-true e = cc

make_dir_lacks : ¬ Meets make_dir start
make_dir_lacks m = false-true (m.login refl)

run_found-refuses_example :
    (msg : Bytes) × (run_found (some make_dir) sample_env start ≡ answer msg sample_env start)
run_found-refuses_example = run_found-refuses sample_env make_dir start make_dir_lacks

trims : trim_whitespace (codes "  a b \r") ≡ some (codes "a b")
unfolding trim_whitespace skip_blanks back_over_spaces is_blank is_space
trims = refl

not_space : is_space b'a' ≡ false
unfolding is_space
not_space = refl

trim_whitespace-IsTrimmed_example : IsTrimmed (codes "  a b \r") (codes "a b")
trim_whitespace-IsTrimmed_example = trim_whitespace-IsTrimmed (codes "  a b \r") (codes "a b") trims

trim_whitespace_returns_example :
    (t : Bytes) × (trim_whitespace (codes " " ++ (b'a' ∷ codes " \r")) ≡ some t)
trim_whitespace_returns_example = trim_whitespace_returns (codes " ") b'a' (codes " \r") not_space

strlcpy-IsCopy_example : IsCopy (codes "name") 3 (strlcpy (codes "old") (codes "name") 3)
strlcpy-IsCopy_example = strlcpy-IsCopy (codes "old") b'n' (codes "ame") 3 (omega arith)

-- errno is ERANGE here.
abbrev late : Machine
late = record start { session = record start.session { arg = decimal 4000 }; errno = 34 }

dorest-decimal_example : Restarts (if 34 == erange then 0 else 4000) (dorest sample_env late)
dorest-decimal_example = dorest-decimal sample_env late 4000 (omega arith) refl

find_basename-IsBasename_example :
    IsBasename (codes "/pub/a.txt") (find_basename (codes "/pub/a.txt"))
find_basename-IsBasename_example = find_basename-IsBasename (codes "/pub/a.txt")
