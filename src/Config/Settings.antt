-- ===== src/Config/Settings.antt =====
-- config.h and the table of config.c: the settings, with their defaults.
use ftp_server.Prelude.{Bool, true, false, List, [], ◌∷◌, Option, none, Bytes, ℤ, pos, negsuc}
use ftp_server.Text.Ctype.{codes}

-- ftp_config_t
pub record Settings : Type 0 where
  pub port : ℤ
  pub ctrl_port : ℤ
  pub max_clients : ℤ
  pub throttle_rate : ℤ
  pub pasv_port_start : ℤ
  pub pasv_port_end : ℤ
  pub idle_timeout : ℤ
  pub debug : Bool
  pub allow_anon : Bool
  pub allow_links : Bool
  pub log_to_file : Bool
  pub syslog : Bool
  pub anon_root_dir : Option Bytes
  pub servername : Option Bytes
  pub logfile : Option Bytes

-- `load_defaults`; the log's two fields are the zeros of a global.
abbrev pub default_settings : Settings
default_settings = record {
  port = pos 8008;
  ctrl_port = pos 7676;
  max_clients = negsuc 0;
  throttle_rate = negsuc 0;
  pasv_port_start = pos 1025;
  pasv_port_end = pos 65535;
  idle_timeout = pos 4000;
  debug = false;
  allow_anon = true;
  allow_links = false;
  log_to_file = false;
  syslog = false;
  anon_root_dir = none;
  servername = none;
  logfile = none;
}

-- The variable of a table entry, by its type.
pub data Variable : Type 0 where
  type_int : (ℤ → Settings → Settings) → Variable
  type_bool : (Bool → Settings → Settings) → Variable
  type_str : (Option Bytes → Settings → Settings) → Variable

-- config_table_t
pub record Entry : Type 0 where
  pub name : Bytes
  pub variable : Variable

abbrev option : Bytes → Variable → Entry
option name variable = record { name = name; variable = variable }

abbrev pub core_config_table : List Entry
core_config_table =
    option (codes "AllowAnonymous") (type_bool (λ b s. record s { allow_anon = b }))
    ∷ option (codes "AllowSymlinks") (type_bool (λ b s. record s { allow_links = b }))
    ∷ option (codes "AnonRootDir") (type_str (λ t s. record s { anon_root_dir = t }))
    ∷ option (codes "IdleTimeout") (type_int (λ n s. record s { idle_timeout = n }))
    ∷ option (codes "LocalPort") (type_int (λ n s. record s { port = n }))
    ∷ option (codes "LogFile") (type_str (λ t s. record s { logfile = t }))
    ∷ option (codes "LogToFile") (type_bool (λ b s. record s { log_to_file = b }))
    ∷ option (codes "LogToSyslog") (type_bool (λ b s. record s { syslog = b }))
    ∷ option (codes "MaxClients") (type_int (λ n s. record s { max_clients = n }))
    ∷ option (codes "PasvPortEnd") (type_int (λ n s. record s { pasv_port_end = n }))
    ∷ option (codes "PasvPortStart") (type_int (λ n s. record s { pasv_port_start = n }))
    ∷ option (codes "ServerName") (type_str (λ t s. record s { servername = t }))
    ∷ option (codes "TransferRate") (type_int (λ n s. record s { throttle_rate = n }))
    ∷ []

-- `unload_config`: every string of the table is freed.
abbrev clear : Variable → Settings → Settings
clear (type_str set) s = set none s
clear _ s = s

unfoldable pub unload_config : List Entry → Settings → Settings
unload_config [] s = s
unload_config (e ∷ es) s = unload_config es (clear e.variable s)
