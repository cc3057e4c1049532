-- ===== src/Machine/Types.antt =====
-- server.h and config.h: the data of a session, and what the process asks of the system.
use ftp_server.Prelude.{ℕ, Bool, List, Option, Bytes, ℤ}

-- The enum of server.h.
pub data Ret : Type 0 where
  ftp_error ftp_success ftp_quit ftp_fail ftp_abor : Ret

-- The message types of state.h.
pub data StateChange : Type 0 where
  t_login t_chdir t_xfer_start t_xfer t_xfer_stop : StateChange

-- The type bits of st_mode.
pub data FileKind : Type 0 where
  directory regular char_device block_device fifo symlink socket other_kind : FileKind

pub record Stat : Type 0 where
  pub kind : FileKind
  pub size : ℕ
  pub mtime : ℤ

-- A descriptor of -1 is `none`. What `accept_data_conn` returns: a descriptor, -1 or -2.
pub data Accepted : Type 0 where
  got_conn : ℕ → Accepted
  no_conn quit_conn : Accepted

pub record Conn : Type 0 where
  pub pasv_sock : Option ℕ
  pub data_sock : Accepted
  pub host_addr : Bytes

-- A char pointer that the source may read before it is set.
pub data CharPtr : Type 0 where
  undefined null : CharPtr
  points_to : Bytes → CharPtr

pub record Login : Type 0 where
  pub logged_in : Bool
  pub anonymous : Bool
  pub user : CharPtr

-- struct sockaddr_in, with the bytes of both parts in the order of the network.
pub record SockAddr : Type 0 where
  pub sin_addr : Bytes
  pub sin_port : Bytes

-- struct timeval
pub record TimeVal : Type 0 where
  pub tv_sec : ℕ
  pub tv_usec : ℕ

abbrev pub no_time : TimeVal
no_time = record { tv_sec = 0; tv_usec = 0 }

pub record XferInfo : Type 0 where
  pub total_down : ℕ
  pub total_up : ℕ
  pub xfer_len : ℕ
  pub probe_len : ℕ
  pub xfer_start : TimeVal
  pub xfer_probe : TimeVal
  pub xfer_status : Ret

-- The command is held as two strings, the name at `command.line` and `command.arg`.
pub record Session : Type 0 where
  pub conn : Conn
  pub name : Bytes
  pub arg : Bytes
  pub login : Login
  pub info : XferInfo
  pub virt_path : Bytes
  pub filename : Bytes
  pub restart_pos : ℕ

-- Calls on a path.
pub data FsOp : Type 0 where
  op_lstat op_stat op_open op_creat op_mkdir op_rmdir op_unlink op_opendir : FsOp

-- What the process does to the outside, newest first in a history.
pub data Event : Type 0 where
  replied : Bytes → Event
  fs : FsOp → Bytes → Event
  closed : ℕ → Event
  accepted : Option ℕ → Event
  sockets : Event
  pipes : Event
  sets_option : ℕ → Event
  binds : ℕ → ℕ → Event
  listens : ℕ → Event
  asks_name asks_peer : ℕ → Event
  allocates : Event
  signals_read : Event
  asks_user : Bytes → Event
  asks_shadow : Bytes → Event
  encrypts : Bytes → Bytes → Event
  sets_uid : ℕ → Event
  sends_state : StateChange → Bytes → Event
  reads_dir : Event
  closes_dir : ℕ → Event
  sends_data : Bytes → Event
  seeks : ℕ → ℤ → Event
  sends_file : ℕ → ℕ → Option ℤ → ℕ → Event
  reads_data : ℕ → ℕ → Event
  writes_data : ℕ → ℕ → Event
  reads_clock : Event
  sleeps : ℕ → Event

abbrev pub History : Type 0
History = List Event

-- A result, or -1 with errno.
pub data Answer (A : Type 0) : Type 0 where
  good : A → Answer A
  bad : ℕ → Answer A

-- `signal_flag`, a bit for each of signals.h.
pub record Flags : Type 0 where
  pub sigint : Bool
  pub sigterm : Bool
  pub sighup : Bool
  pub sigpipe : Bool
  pub sigchld : Bool
  pub sigother : Bool

-- The part of the configuration that the processes read. A rate below 1, which is no limit, is 0.
pub record Config : Type 0 where
  pub allow_anon : Bool
  pub allow_links : Bool
  pub anon_root_dir : Option Bytes
  pub throttle_rate : ℕ
  pub port : ℕ
  pub pasv_port_start : ℕ
  pub pasv_port_end : ℕ

pub record Passwd : Type 0 where
  pub pw_uid : ℕ
  pub pw_dir : Bytes

-- The system's answers, each a function of the calls made up to and including the one that is
-- answered: any behaviour of the kernel, the client and the libraries is such an environment.
-- `fallen_off` is what a caller reads where `is_leap` returns nothing; a loop that waits for the outside is followed for
-- `patience` rounds.
pub record Env : Type 0 where
  pub config : Config
  pub send : History → Option ℕ
  pub malloc : History → Bool
  pub stat : History → Answer Stat
  pub open_fd : History → Answer ℕ
  pub modify_fs : History → Answer (Unit {0})
  pub xfer_image : XferInfo → Bytes
  pub accept : History → Answer ℕ
  pub socket : History → Answer ℕ
  pub pipe : History → Answer (ℕ × ℕ)
  pub setsockopt : History → Option ℕ
  pub bind : History → Option ℕ
  pub listen : History → Option ℕ
  pub getsockname : History → Answer SockAddr
  pub getpeername : History → Answer SockAddr
  pub signal_flag : History → Flags
  pub strerror : ℕ → Bytes
  pub getpwnam : History → Option Passwd
  pub getspnam : History → Option Bytes
  pub crypt : History → Option Bytes
  pub setuid : History → Option ℕ
  pub writev : History → Option ℕ
  pub lseek : History → Option ℕ
  pub sendfile : History → Answer ℕ
  pub read : History → Answer ℕ
  pub write : History → Answer ℕ
  pub send_data : History → Answer ℕ
  pub owners : Stat → Bytes
  pub behind_statbuf : ℕ → Bytes
  pub readdir : History → Option Bytes
  pub clock : History → TimeVal
  pub fallen_off : ℕ → Bool
  pub patience : ℕ

-- The session, errno, the two pools (`real_path` of vfs.c up to `virt_path`, and the string at the
-- start of `state_pool` of state.c; `none` is NULL), and the calls made.
pub record Machine : Type 0 where
  pub session : Session
  pub open session use *
  pub errno : ℕ
  pub root : Option Bytes
  pub state_pool : Option Bytes
  pub trace : History

-- A run ends with a value, or in a failed assertion or a bad pointer, or it is still in a loop when
-- the patience of the environment ends.
pub data Outcome (A : Type 0) : Type 0 where
  done : A → Machine → Outcome A
  crash : Machine → Outcome A
  looping : Machine → Outcome A
