-- ===== src/Tests/MasterExamples.antt =====
-- The theorems on the master process, and those on signals, at concrete inputs.
use ftp_server.Prelude.{
  ℕ, ◌≡◌, refl, true, false, not, List, [], ◌∷◌, Option, none, some, Bytes, arith,
}
use ftp_server.Text.Ctype.{codes}
use ftp_server.Machine.Types.{null, Ret, ftp_success, Machine, done, t_chdir, XferInfo, no_time}
use ftp_server.Signals.{sig_term, sig_pipe, sig_chld, take_signals, no_flags}
use ftp_server.Signals.Caught.{caught, any_ends, take_signals-caught}
use ftp_server.Auth.{is_success}
use ftp_server.State.{send_fun}
use ftp_server.Vfs.Stack.{IsCanonical, path_of}
use ftp_server.Command.Run.Serve.{new_process}
use ftp_server.Master.Children.{Child, find_client, count_clients}
use ftp_server.Master.Daemon.{
  Round, found, client_at, in_parent, header, body, recv_state, round, daemon_main,
}
use ftp_server.Master.Limit.{AtMost, daemon_main-AtMost}
use ftp_server.Master.Table.{IsOwn, IsTold, recv_state-IsOwn, round_returns}
use ftp_server.Master.Follows.{chdir_round_trip}
use ftp_server.Prelude.{All, ◌≢◌}
use ftp_server.Master.Children.{remove_client, add_client}
use ftp_server.Master.Entries.{
  Distinct, IsWith, IsWithout, remove_client-IsWithout, add_client-IsWith,
}
use ftp_server.Tests.Sample.{sample_env}

abbrev no_info : XferInfo
no_info = record {
  total_down = 0;
  total_up = 0;
  xfer_len = 0;
  probe_len = 0;
  xfer_start = no_time;
  xfer_probe = no_time;
  xfer_status = ftp_success;
}

abbrev child_of : ℕ → Child
child_of pid = record {
  pid = pid;
  client_addr = 7;
  login_name = codes "bob";
  path = [];
  filename = [];
  xfer_info = no_info;
  xfer_in_progress = false;
}

abbrev pub two : List Child
two = child_of 100 ∷ child_of 101 ∷ []

-- A third client, who is refused, and the death of the first.
abbrev pub third_comes : Round
third_comes = record {
  signal_flag = no_flags;
  waited = none;
  polled = found (some (client_at 9, (in_parent 102, true))) none;
}

abbrev pub first_dies : Round
first_dies = record {
  signal_flag = record no_flags { sigchld = true };
  waited = some 100;
  polled =
      found (some (client_at 9, (in_parent 102, true)))
        (some (header 101 t_chdir, body (codes "/pub") no_info));
}

daemon_main-AtMost_example : AtMost 2 (daemon_main (some 2) (third_comes ∷ first_dies ∷ []) two)
daemon_main-AtMost_example =
    daemon_main-AtMost 2 (third_comes ∷ first_dies ∷ []) two (unfold count_clients in omega arith)

found_first : find_client two 100 ≡ some (child_of 100)
unfolding find_client
found_first = refl

found_second : find_client two 101 ≡ some (child_of 101)
unfolding find_client
found_second = refl

round_returns_example :
    (result : Option Ret × List Child) × (round (some 2) two first_dies ≡ some result)
round_returns_example =
    round_returns (some 2) two first_dies (λ e. (100, (child_of 100, (refl, found_first))))

recv_state-IsOwn_example :
    ((recv_state two (header 101 t_chdir) (body (codes "/pub") no_info)).0 ≡ ftp_success)
    × ((told : Child) × (IsTold t_chdir (codes "/pub") no_info (child_of 101) told
          × IsOwn two
              (recv_state two (header 101 t_chdir) (body (codes "/pub") no_info)).1
              101
              told))
recv_state-IsOwn_example =
    recv_state-IsOwn two 101 t_chdir (codes "/pub") no_info (child_of 101) found_second

abbrev at_root : Machine
at_root = new_process (codes "127,0,0,1") null 0

root_dir : IsCanonical at_root.virt_path []
unfolding path_of
root_dir = record { path = refl; names = tt; fits = omega arith }

chdir_round_trip_example :
    (text : Bytes) × ((send_fun t_chdir (codes "/old") sample_env at_root
        ≡ done (some text) at_root)
      × IsOwn two
          (recv_state two (header 101 t_chdir) (body text no_info)).1
          101
          (record (child_of 101) { path = at_root.virt_path }))
chdir_round_trip_example =
    chdir_round_trip sample_env at_root [] (codes "/old") two 101 (child_of 101) no_info root_dir
      found_second

take_signals-caught_example :
    is_success (take_signals (caught (sig_pipe ∷ sig_term ∷ sig_chld ∷ []))).0
    ≡ not (any_ends (sig_pipe ∷ sig_term ∷ sig_chld ∷ []))
take_signals-caught_example = take_signals-caught (sig_pipe ∷ sig_term ∷ sig_chld ∷ [])

two-Distinct : Distinct two
two-Distinct = ((λ e. omega (arith, e), tt), (tt, tt))

first_removed : remove_client two 100 ≡ some (child_of 101 ∷ [])
unfolding remove_client
first_removed = refl

remove_client-IsWithout_example : IsWithout two (child_of 101 ∷ []) 100
remove_client-IsWithout_example =
    remove_client-IsWithout two (child_of 101 ∷ []) 100 two-Distinct first_removed

new_pid : All (λ d. d.pid ≢ 102) two
new_pid = (λ e. omega (arith, e), (λ e. omega (arith, e), tt))

add_client-IsWith_example : IsWith two (add_client two (child_of 102)) (child_of 102)
add_client-IsWith_example = add_client-IsWith two (child_of 102) two-Distinct new_pid
