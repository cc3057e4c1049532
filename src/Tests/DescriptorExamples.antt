-- ===== src/Tests/DescriptorExamples.antt =====
-- The theorems on the descriptors of a session at concrete inputs.
use ftp_server.Prelude.{ℕ, ap, Bytes, ◌≡◌, refl, [], ◌∷◌, some, true, false, arith, inr}
use ftp_server.Text.Ctype.{codes, strcasecmp, to_lower}
use ftp_server.Machine.Types.{points_to, Machine, sockets}
use ftp_server.Machine.Keeps.{Ends}
use ftp_server.Machine.Stays.{Reaches}
use ftp_server.Machine.Descriptors.{open_fds}
use ftp_server.Vfs.Stack.{path_of}
use ftp_server.Command.Lookup.{bsearch, probe, qsort, insert}
use ftp_server.Command.Lookup.Entries.{IfFound}
use ftp_server.Command.Run.Table.{search_command, command_pool, do_cmd}
use ftp_server.Command.Run.Serve.{new_process}
use ftp_server.Safety.Invariant.{own_home, Inside, IsSafe}
use ftp_server.Safety.Descriptors.{IsOther, do_cmd-Stays}
use ftp_server.Tests.Sample.{bob, sample_env, sample_anon}

abbrev fresh : Machine
fresh = new_process (codes "127,0,0,1") (points_to (codes "bob")) 0

-- A client that has logged in, has said PASV and now asks for a file.
abbrev asking : Machine
asking = record fresh {
  session = record fresh.session {
    name = codes "RETR";
    arg = codes "file";
    login = record { logged_in = true; anonymous = false; user = points_to (codes "bob") };
    conn = record fresh.session.conn { pasv_sock = some 8 };
  };
  root = some (codes "/home/bob");
  state_pool = some [];
  trace = sockets ∷ [];
}

asking-Inside : Inside sample_env asking
asking-Inside = record {
  logged_in = refl;
  root = codes "/home/bob";
  has_root = refl;
  home = own_home (codes "bob") [] bob refl refl refl;
  pool = [];
  has_pool = refl;
  dirs = [];
  cwd = record { path = unfold path_of in refl; names = tt; fits = omega arith };
  confined = (tt, tt);
  user_set = λ e. cc;
}

abbrev first : Bytes → ℕ
first [] = 0
first (c ∷ s) = c

asking-IsOther : IfFound IsOther (search_command asking.name)
unfolding search_command command_pool bsearch probe qsort insert strcasecmp to_lower
asking-IsOther = record {
  not_pasv = λ e. omega (arith, ap first e);
  not_stor = λ e. omega (arith, ap first e);
}

do_cmd-Stays_example :
    Ends (IsSafe sample_env) (do_cmd sample_env asking)
    × Reaches
        (λ r h. open_fds sample_env h ≡ open_fds sample_env asking.trace)
        (do_cmd sample_env asking)
do_cmd-Stays_example = do_cmd-Stays sample_env asking sample_anon (inr asking-Inside) asking-IsOther
