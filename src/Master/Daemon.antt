-- ===== src/Master/Daemon.antt =====
-- daemon.c: `daemon_handle_signal`, `handle_client`, `pre_server` and `daemon_main`, and `recv_state` of
-- state.c. What the calls of a round answer is given with the round.
use ftp_server.Prelude.{
  ℕ, Bool, true, false, List, [], ◌∷◌, Option, none, some, leb, if◌then◌else◌, Bytes, take,
}
use ftp_server.Machine.Types.{
  Ret, ftp_success, ftp_error, ftp_quit, Flags, StateChange, t_login, t_chdir, t_xfer_start, t_xfer,
  t_xfer_stop, XferInfo,
}
use ftp_server.Signals.{is_set}
use ftp_server.Auth.{is_success}
use ftp_server.Master.Children.{
  Child, new_client, add_client, remove_client, count_clients, remove_all_clients, find_client,
  at_client,
}

-- `signal_flag &= !RECV_SIGCHLD` leaves no flag. `waited` is the answer of waitpid, `none` for 0 or -1,
-- pids that no child has. The result is `none` where `remove_client` reads through NULL.
unfoldable pub reap : List Child → Option ℕ → Option (List Child)
reap list none = none
reap list (some deadchild) = remove_client list deadchild

unfoldable pub daemon_handle_signal : List Child → Flags → Option ℕ → Option (Ret × List Child)
unfolding reap
daemon_handle_signal list signal_flag waited =
    if signal_flag.sigchld
    then elim (reap list waited) [ none ↦ none | some left ↦ some (ftp_success, left) ]
    else some (if is_set signal_flag then ftp_quit else ftp_success, list)

-- `max_clients` is `none` for -1.
unfoldable pub pre_server : Option ℕ → List Child → Ret
pre_server none head = ftp_success
pre_server (some max_clients) head =
    if leb max_clients (count_clients head) then ftp_error else ftp_success

-- The answer of fork: -1, 0 in the child, or the pid of the child.
pub data Forked : Type 0 where
  not_forked in_child : Forked
  in_parent : ℕ → Forked

-- The answer of accept: an error, with whether it is EINTR, or a client at an address.
pub data Incoming : Type 0 where
  accept_error : Bool → Incoming
  client_at : ℕ → Incoming

unfoldable pub add_new : List Child → Option Child → Ret × List Child
add_new head none = (ftp_error, head)
add_new head (some client) = (ftp_success, add_client head client)

-- In the child, the session runs before FTP_QUIT is returned.
unfoldable pub after_fork : List Child → Bool → ℕ → Forked → Ret × List Child
unfolding add_new
after_fork head memory addr not_forked = (ftp_success, head)
after_fork head memory addr in_child = (ftp_quit, head)
after_fork head memory addr (in_parent client_pid) =
    add_new head (new_client memory client_pid addr)

unfoldable pub handle_client : Option ℕ → List Child → Incoming → Forked → Bool → Ret × List Child
unfolding after_fork
handle_client max head (accept_error eintr) forked memory =
    (if eintr then ftp_success else ftp_error, head)
handle_client max head (client_at addr) forked memory =
    if is_success (pre_server max head)
    then after_fork head memory addr forked
    else (ftp_success, head)

-- The answer of the first read: an error, another magic or a type that there is not, or the header; and
-- what the second read finds: an error, or the text, or the transfer.
pub data Header : Type 0 where
  unreadable : Header
  header : ℕ → StateChange → Header

pub data Body : Type 0 where
  no_body : Body
  body : Bytes → XferInfo → Body

-- `state_ops[ i ].recv_fun`
unfoldable pub recv_fun : StateChange → Bytes → XferInfo → Child → Child
recv_fun t_login text info child = record child { login_name = text }
recv_fun t_chdir text info child = record child { path = text }
recv_fun t_xfer_start text info child = record child {
  filename = take 255 text;
  xfer_in_progress = true;
}
recv_fun t_xfer text info child = record child { xfer_info = info }
recv_fun t_xfer_stop text info child = record child { xfer_info = info; xfer_in_progress = false }

-- seek_pipe reads the body of an unknown client away.
unfoldable pub recv_known : List Child → ℕ → StateChange → Body → Option Child → Ret × List Child
unfolding recv_fun
recv_known head pid type no_body client = (ftp_error, head)
recv_known head pid type (body text info) none = (ftp_success, head)
recv_known head pid type (body text info) (some child) =
    (ftp_success, at_client head pid (recv_fun type text info))

unfoldable pub recv_state : List Child → Header → Body → Ret × List Child
unfolding recv_known
recv_state head unreadable b = (ftp_error, head)
recv_state head (header pid type) b = recv_known head pid type b (find_client head pid)

-- A round of the loop: the flags and the answer of waitpid, and what poll finds: nothing, an error, or
-- a client, a message or both.
pub data Polled : Type 0 where
  interrupted poll_error : Polled
  found : Option (Incoming × (Forked × Bool)) → Option (Header × Body) → Polled

pub record Round : Type 0 where
  pub signal_flag : Flags
  pub waited : Option ℕ
  pub polled : Polled

unfoldable pub take_client :
    Option ℕ → List Child → Option (Incoming × (Forked × Bool)) → Ret × List Child
take_client max head none = (ftp_success, head)
take_client max head (some (incoming, (forked, memory))) =
    handle_client max head incoming forked memory

unfoldable pub take_message : Ret × List Child → Option (Header × Body) → Ret × List Child
take_message (ret, head) none = (ret, head)
take_message (ret, head) (some (h, b)) = if is_success ret then recv_state head h b else (ret, head)

-- The result, `none` while the loop goes on, and the list.
unfoldable pub goes : Ret × List Child → Option Ret × List Child
goes (ftp_success, head) = (none, head)
goes (ret, head) = (some ret, head)

unfoldable pub take_poll : Option ℕ → List Child → Polled → Option Ret × List Child
unfolding take_client take_message goes
take_poll max head interrupted = (none, head)
take_poll max head poll_error = (some ftp_success, head)
take_poll max head (found client message) =
    goes (take_message (take_client max head client) message)

unfoldable pub after_signal :
    Option ℕ → Polled → Option (Ret × List Child) → Option (Option Ret × List Child)
unfolding take_poll
after_signal max polled none = none
after_signal max polled (some (ret, head)) =
    some (if is_success ret then take_poll max head polled else (some ftp_success, head))

-- One round of `daemon_main`: `none` is the read through NULL.
unfoldable pub round : Option ℕ → List Child → Round → Option (Option Ret × List Child)
unfolding after_signal daemon_handle_signal
round max head r = after_signal max r.polled (daemon_handle_signal head r.signal_flag r.waited)

-- The end of `daemon_main`: the pids that are killed.
unfoldable pub shut_down : Ret → List Child → List ℕ
shut_down ftp_quit head = remove_all_clients head false
shut_down ret head = remove_all_clients head true

unfoldable pub next_round :
    (List Child → Option (List Child × List ℕ))
    → Option (Option Ret × List Child)
    → Option (List Child × List ℕ)
unfolding shut_down
next_round rest none = none
next_round rest (some (none, head)) = rest head
next_round rest (some (some ret, head)) = some (head, shut_down ret head)

-- The list at the end of the rounds, and who is killed if the loop ended in them.
unfoldable pub daemon_main : Option ℕ → List Round → List Child → Option (List Child × List ℕ)
unfolding next_round
daemon_main max [] head = some (head, [])
daemon_main max (r ∷ rounds) head = next_round (daemon_main max rounds) (round max head r)
