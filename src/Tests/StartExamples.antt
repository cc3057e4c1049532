-- ===== src/Tests/StartExamples.antt =====
-- The theorems on the start and the end of the master process at concrete inputs.
use ftp_server.Prelude.{◌≡◌, refl, true, List, [], ◌∷◌, ◌++◌, none, some, arith}
use ftp_server.Text.Ctype.{codes}
use ftp_server.Text.Time.Difference.{Near, micros, msecdiff, msecdiff-Near}
use ftp_server.Machine.Types.{null, Machine, TimeVal, Env, bad}
use ftp_server.Signals.{no_flags, is_set}
use ftp_server.Config.Settings.{default_settings}
use ftp_server.Config.Check.{file}
use ftp_server.Command.Pool.{Pool, Sorts, add_command_list, add_command_list-Sorts}
use ftp_server.Command.Run.Serve.{new_process}
use ftp_server.Command.Run.Table.{CmdHandler, core_command_list}
use ftp_server.Master.Daemon.{Round, interrupted, daemon_main}
use ftp_server.Master.Quit.{Stops, Quits, daemon_main-Quits}
use ftp_server.Start.Log.{Message, log_err, log_info, log_messages}
use ftp_server.Start.Log.Kept.{all_logged, entries_of, starting, start_log-Gives}
use ftp_server.Machine.Descriptors.{open_fds}
use ftp_server.Start.Listener.{Opens, init_masterserver, init_masterserver-Opens}
use ftp_server.Start.Main.{World, opt_c, opt_d, new_program, start_server}
use ftp_server.Start.Main.Ready.{Starts, start_server-Starts}
use ftp_server.Tests.Sample.{sample_env}
use ftp_server.Tests.MasterExamples.{two, third_comes, first_dies}

abbrev start : Machine
start = new_process (codes "127,0,0,1") null 0

abbrev terminated : Round
terminated = record {
  signal_flag = record no_flags { sigterm = true };
  waited = none;
  polled = interrupted;
}

terminated-Stops : Stops terminated
unfolding is_set
terminated-Stops = record { no_child = refl; caught = refl }

daemon_main-Quits_example :
    Quits
      (some 2)
      two
      (third_comes ∷ first_dies ∷ terminated ∷ third_comes ∷ [])
      (daemon_main (some 2) (third_comes ∷ first_dies ∷ terminated ∷ third_comes ∷ []) two)
daemon_main-Quits_example =
    daemon_main-Quits (some 2) (third_comes ∷ first_dies ∷ []) (third_comes ∷ []) terminated two
      (tt, (tt, tt)) terminated-Stops

abbrev world : World
world = record {
  pid = 77;
  opts = opt_d ∷ opt_c (codes "/etc/ftp.conf") ∷ [];
  config_file = λ path. file 3 (codes "AnonRootDir = /srv\n");
  line_buffer = true;
  line_memory = λ n. (true, true);
  pool_memory = true;
  realloc = λ n. true;
  system = sample_env;
  machine = start;
}

start_server-Starts_example : Starts world (start_server world)
start_server-Starts_example = start_server-Starts world

-- The pipe cannot be made.
abbrev no_pipe : Env
no_pipe = record sample_env { pipe = λ h. bad 24 }

init_masterserver-Opens_example :
    Opens no_pipe (open_fds no_pipe start.trace) (init_masterserver no_pipe start)
init_masterserver-Opens_example = init_masterserver-Opens no_pipe start

abbrev empty_pool : Pool CmdHandler
empty_pool = record { commands = []; size = 16 }

add_command_list-Sorts_example :
    Sorts
      (λ c. c.name)
      core_command_list
      (add_command_list (λ c. c.name) (λ n. true) core_command_list empty_pool)
add_command_list-Sorts_example =
    add_command_list-Sorts (λ c. c.name) (λ n. true) core_command_list empty_pool
      (record { has_room = omega arith; fits = omega arith })

abbrev early : List Message
early = record { urgency = log_err; text = codes "no file\n" } ∷ []

abbrev late : List Message
late = record { urgency = log_info; text = codes "client\n" } ∷ []

start_log-Gives_example :
    (all_logged
      (record default_settings { syslog = true })
      77
      late
      (log_messages (record default_settings { syslog = true }) 77 early new_program.log)).syslog
    ≡ new_program.log.syslog
      ++ entries_of (record default_settings { syslog = true }) (starting ∷ late)
start_log-Gives_example =
    start_log-Gives (record default_settings { syslog = true }) 77 early late new_program.log refl

abbrev noon : TimeVal
noon = record { tv_sec = 100; tv_usec = 900000 }

abbrev later : TimeVal
later = record { tv_sec = 102; tv_usec = 100500 }

msecdiff-Near_example : Near (micros later) (micros noon) (msecdiff later noon)
msecdiff-Near_example = msecdiff-Near later noon (omega arith) (omega arith)
