-- ===== src/Tests/Sample.antt =====
-- A system in which all goes well, with one account and an anonymous root.
use ftp_server.Prelude.{pos, ℕ, ◌≡◌, refl, true, false, [], ◌∷◌, none, some, length}
use ftp_server.Text.Ctype.{codes}
use ftp_server.Machine.Types.{
  SockAddr, Env, Config, Passwd, regular, History, Answer, good, sends_data,
}
use ftp_server.Signals.{no_flags}
use ftp_server.Safety.Password.{HasAnonRoot}

abbrev pub sample_config : Config
sample_config = record {
  allow_anon = true;
  allow_links = false;
  anon_root_dir = some (codes "/srv/ftp");
  throttle_rate = 0;
  port = 21;
  pasv_port_start = 4000;
  pasv_port_end = 4010;
}

abbrev pub bob : Passwd
bob = record { pw_uid = 1000; pw_dir = codes "/home/bob" }

abbrev here : SockAddr
here = record { sin_addr = 127 ∷ 0 ∷ 0 ∷ 1 ∷ []; sin_port = 15 ∷ 160 ∷ [] }

-- `send` takes all that it is given.
abbrev took_all : History → Answer ℕ
took_all (sends_data s ∷ h) = good (length s)
took_all _ = good 0

abbrev pub sample_env : Env
sample_env = record {
  config = sample_config;
  send = λ h. none;
  malloc = λ h. true;
  stat = λ h. good (record { kind = regular; size = 5000; mtime = pos 951782400 });
  open_fd = λ h. good 7;
  modify_fs = λ h. good tt;
  xfer_image = λ x. codes "x";
  accept = λ h. good 9;
  socket = λ h. good 8;
  pipe = λ h. good (4, 5);
  setsockopt = λ h. none;
  bind = λ h. none;
  listen = λ h. none;
  getsockname = λ h. good here;
  getpeername = λ h. good here;
  signal_flag = λ h. no_flags;
  strerror = λ e. codes "No such file or directory";
  getpwnam = λ h. some bob;
  getspnam = λ h. some (codes "$1$secret");
  crypt = λ h. some (codes "$1$secret");
  setuid = λ h. none;
  writev = λ h. none;
  lseek = λ h. none;
  sendfile = λ h. good 0;
  read = λ h. good 0;
  write = λ h. good 0;
  send_data = took_all;
  owners = λ st. codes "bob bob";
  behind_statbuf = λ n. [];
  readdir = λ h. none;
  clock = λ h. record { tv_sec = 1000; tv_usec = 0 };
  fallen_off = λ year. true;
  patience = 500;
}

pub sample_anon : sample_env.config.allow_anon ≡ true → HasAnonRoot sample_env
sample_anon e = record { memory = λ h. refl; directory = (codes "/srv/ftp", refl) }
