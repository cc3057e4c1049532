-- ===== src/Start/Main.antt =====
-- main.c: `parse_args`, and `main` up to the loop of the master process and behind it.
pub mod Ready
use ftp_server.Prelude.{
  ℕ, zero, suc, Bool, true, false, List, [], ◌∷◌, ◌++◌, Option, none, some, if◌then◌else◌, Bytes, ℤ,
  pos, negsuc,
}
use ftp_server.Text.Ctype.{codes}
use ftp_server.Machine.Types.{
  Ret, ftp_success, ftp_error, Config, Env, Machine, Outcome, done, crash, looping,
}
use ftp_server.Machine.Monad.{M, pure, ◌>>=◌, ◌>>◌}
use ftp_server.Core.Data.{close_fd}
use ftp_server.Config.Settings.{Settings, default_settings, core_config_table, unload_config}
use ftp_server.Auth.{is_success}
use ftp_server.Config.Check.{ConfigFile, Loaded, load_config}
use ftp_server.Command.Pool.{Pool, init_command_pool, destroy_command_pool, add_command_list}
use ftp_server.Command.Run.Table.{CmdHandler, core_command_list}
use ftp_server.Start.Log.{Log, log_dbg, start_log}
use ftp_server.Start.Listener.{Listener, init_masterserver}

-- What getopt makes of the arguments, for ":c:dn": an option, with its operand or without the one it
-- needs, or a character that is none.
pub data Opt : Type 0 where
  opt_c : Bytes → Opt
  opt_d opt_n : Opt
  opt_missing opt_unknown : ℕ → Opt

-- The globals that `main` and what it calls first write, the texts printed, and the descriptors that
-- were opened before the listening socket and not closed, beside the one to syslog.
pub record Program : Type 0 where
  pub config : Settings
  pub config_path : Bytes
  pub log : Log
  pub printed : List Bytes
  pub left_open : List ℕ

unfoldable pub print : Bytes → Program → Program
print text p = record p { printed = p.printed ++ (text ∷ []) }

unfoldable pub usage : Program → Program
unfolding print
usage p = print (codes "   -n\t\tDon't become a daemon\n") (
    print (codes "   -c CONFIG\tUse the configuration file CONFIG\n") (
      print (codes "   -d\t\tShow debug info\n") (print (codes "Usage: ftpd [-dn] [-c path]\n") p)))

-- The exit status, and the globals.
unfoldable pub parse_args : ℕ → List Opt → Program → ℕ × Program
unfolding print usage log_dbg
parse_args pid [] p = (0, p)
parse_args pid (opt_c optarg ∷ opts) p = parse_args pid opts (record p { config_path = optarg })
parse_args pid (opt_d ∷ opts) p =
    let config = record p.config { debug = true } in
    parse_args pid opts (record p {
      config = config;
      log = log_dbg config pid (codes "Logging debug information\n") p.log;
    })
parse_args pid (opt_n ∷ opts) p = parse_args pid opts p
parse_args pid (opt_missing c ∷ opts) p =
    (1, usage (print (codes "Option -" ++ (c ∷ codes " requires an operand\n")) p))
parse_args pid (opt_unknown c ∷ opts) p =
    (1, usage (print (codes "Unknown operand: -" ++ (c ∷ codes "\n")) p))

-- `load_defaults`, from the globals as they are at the start.
abbrev pub new_program : Program
new_program = record {
  config = default_settings;
  config_path = codes "ftp.conf";
  log = record { syslog_enabled = false; connected = false; stderr = []; syslog = [] };
  printed = [];
  left_open = [];
}

-- What the processes read of the settings.
abbrev pub number : ℤ → ℕ
number (pos n) = n
number (negsuc n) = 0

abbrev pub config_of : Settings → Config
config_of s = record {
  allow_anon = s.allow_anon;
  allow_links = s.allow_links;
  anon_root_dir = s.anon_root_dir;
  throttle_rate = number s.throttle_rate;
  port = number s.port;
  pasv_port_start = number s.pasv_port_start;
  pasv_port_end = number s.pasv_port_end;
}

-- What the start meets: the arguments, the files, memory, and the system.
pub record World : Type 0 where
  pub pid : ℕ
  pub opts : List Opt
  pub config_file : Bytes → ConfigFile
  pub line_buffer : Bool
  pub line_memory : ℕ → Bool × Bool
  pub pool_memory : Bool
  pub realloc : ℕ → Bool
  pub system : Env
  pub machine : Machine

-- The server is about to enter `daemon_main`, or `main` has returned 1.
pub data Started : Type 0 where
  ready : Program → Pool CmdHandler → Listener → Machine → Started
  exits : Program → Started

unfoldable pub environment : World → Settings → Env
environment w s = record w.system { config = config_of s }

-- init_masterserver
unfoldable pub listening_on : Program → Pool CmdHandler → Outcome (Option Listener) → Option Started
listening_on p pool (done (some l) s) = some (ready p pool l s)
listening_on p pool (done none s) = some (exits p)
listening_on p pool (crash s) = none
listening_on p pool (looping s) = none

unfoldable pub with_commands : World → Program → Option (Ret × Pool CmdHandler) → Option Started
unfolding listening_on environment init_masterserver
with_commands w p none = none
with_commands w p (some (ftp_success, pool)) =
    listening_on p pool (init_masterserver (environment w p.config) w.machine)
with_commands w p (some (_, pool)) = some (exits p)

-- init_core_commands
unfoldable pub with_pool : World → Program → Ret × Pool CmdHandler → Option Started
unfolding with_commands add_command_list
with_pool w p (ftp_success, pool) =
    with_commands w p (add_command_list (λ c. c.name) w.realloc core_command_list pool)
with_pool w p (_, pool) = some (exits p)

-- `init_signals` and `start_log` never fail.
unfoldable pub with_config : World → Program → Option Loaded → Option Started
unfolding with_pool init_command_pool start_log is_success
with_config w p none = none
with_config w p (some l) =
    let p' = record p { config = l.settings; left_open = p.left_open ++ l.left_open } in
    if is_success l.ret
    then with_pool w (record p' { log = start_log l.settings w.pid p.log })
        (init_command_pool w.pool_memory (record { commands = []; size = 0 }))
    else some (exits p')

unfoldable pub with_args : World → ℕ × Program → Option Started
unfolding with_config load_config
with_args w (zero, p) =
    with_config w p (load_config w.line_buffer w.line_memory (w.config_file p.config_path) p.config)
with_args w (suc n, p) = some (exits p)

-- The steps of `main`, each made only if those before it have succeeded; `none` is a crash.
unfoldable pub start_server : World → Option Started
unfolding with_args parse_args
start_server w = with_args w (parse_args w.pid w.opts new_program)

-- Behind `daemon_main`. The two ends of the pipe are left to the end of the process.
unfoldable pub stop_server : Listener → Program → Pool CmdHandler → M (Program × Pool CmdHandler)
unfolding close_fd destroy_command_pool unload_config
stop_server l p pool = do
  close_fd l.server_socket
  pure (record p { config = unload_config core_config_table p.config }, destroy_command_pool pool)
