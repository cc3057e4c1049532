-- ===== src/Master/Children.antt =====
-- child.c: the list of clients. The list is what stands behind its head.
use ftp_server.Prelude.{
  ℕ, suc, Bool, true, false, List, [], ◌∷◌, Option, none, some, ◌==◌, if◌then◌else◌, Bytes,
}
use ftp_server.Machine.Types.{ftp_success, XferInfo, no_time}

-- ftp_child_t
pub record Child : Type 0 where
  pub pid : ℕ
  pub client_addr : ℕ
  pub login_name : Bytes
  pub path : Bytes
  pub filename : Bytes
  pub xfer_info : XferInfo
  pub xfer_in_progress : Bool

-- A child whose memory is zeroed; `none` where there is no memory.
unfoldable pub new_client : Bool → ℕ → ℕ → Option Child
new_client false pid addr = none
new_client true pid addr = some (record {
  pid = pid;
  client_addr = addr;
  login_name = [];
  path = [];
  filename = [];
  xfer_info = record {
    total_down = 0;
    total_up = 0;
    xfer_len = 0;
    probe_len = 0;
    xfer_start = no_time;
    xfer_probe = no_time;
    xfer_status = ftp_success;
  };
  xfer_in_progress = false;
})

unfoldable pub add_client : List Child → Child → List Child
add_client [] new = new ∷ []
add_client (c ∷ cs) new = c ∷ add_client cs new

abbrev pub keep_first : Child → Option (List Child) → Option (List Child)
keep_first c none = none
keep_first c (some cs) = some (c ∷ cs)

-- The loop reads `list->pid` behind the last child as well: `none` is that read through NULL.
unfoldable pub remove_client : List Child → ℕ → Option (List Child)
remove_client [] client_pid = none
remove_client (c ∷ cs) client_pid =
    let rest = remove_client cs client_pid in
    if c.pid == client_pid then some cs else keep_first c rest

unfoldable pub count_clients : List Child → ℕ
count_clients [] = 0
count_clients (c ∷ cs) = suc (count_clients cs)

unfoldable pub count_clients_addr : List Child → ℕ → ℕ
count_clients_addr [] addr = 0
count_clients_addr (c ∷ cs) addr =
    let rest = count_clients_addr cs addr in if c.client_addr == addr then suc rest else rest

-- The pids that get a SIGTERM; all children are freed.
unfoldable pub remove_all_clients : List Child → Bool → List ℕ
remove_all_clients [] kill_clients = []
remove_all_clients (c ∷ cs) kill_clients =
    let rest = remove_all_clients cs kill_clients in if kill_clients then c.pid ∷ rest else rest

unfoldable pub find_client : List Child → ℕ → Option Child
find_client [] pid = none
find_client (c ∷ cs) pid = let rest = find_client cs pid in if c.pid == pid then some c else rest

-- What is changed through the pointer that `find_client` returns.
unfoldable pub at_client : List Child → ℕ → (Child → Child) → List Child
at_client [] pid f = []
at_client (c ∷ cs) pid f =
    let rest = at_client cs pid f in if c.pid == pid then f c ∷ cs else c ∷ rest
