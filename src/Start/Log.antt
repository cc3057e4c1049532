-- ===== src/Start/Log.antt =====
-- log.c. A message is given as its text, once printf has formatted it.
pub mod Kept
use ftp_server.Prelude.{
  ℕ, ◌≡◌, refl, sym, ap, ◌∙◌, Bool, true, false, ◌&&◌, List, [], ◌∷◌, ◌++◌, append_assoc,
  append-nil, if◌then◌else◌, Bytes, Bool-cases, inl, inr,
}
use ftp_server.Text.Ctype.{codes}
use ftp_server.Text.Number.{decimal}
use ftp_server.Config.Settings.{Settings}

-- `syslog_enabled`, whether there is a socket to syslog, the lines on stderr, and the messages that syslog has been given with their
-- urgencies, in their order.
pub record Log : Type 0 where
  pub syslog_enabled : Bool
  pub connected : Bool
  pub stderr : List Bytes
  pub syslog : List (ℕ × Bytes)

pub data Urgency : Type 0 where
  log_err log_warning log_info log_debug : Urgency

unfoldable pub urgency_code : Urgency → ℕ
urgency_code log_err = 3
urgency_code log_warning = 4
urgency_code log_info = 6
urgency_code log_debug = 7

-- "ftpd[%d]: ", and the message
unfoldable pub error_line : ℕ → Bytes → Bytes
error_line pid text = codes "ftpd[" ++ (decimal pid ++ (codes "]: " ++ text))

unfoldable pub vlogger : Settings → ℕ → Urgency → Bytes → Log → Log
unfolding urgency_code error_line
vlogger config pid urgency text log = record {
  syslog_enabled = log.syslog_enabled;
  connected = log.connected;
  stderr = log.stderr ++ (error_line pid text ∷ []);
  syslog =
      if config.syslog && log.syslog_enabled
      then log.syslog ++ ((urgency_code urgency, text) ∷ [])
      else log.syslog;
}

unfoldable pub logger : Settings → ℕ → Urgency → Bytes → Log → Log
unfolding vlogger
logger = vlogger

unfoldable pub log_fatal : Settings → ℕ → Bytes → Log → Log
unfolding vlogger
log_fatal config pid = vlogger config pid log_err

unfoldable pub log_warn : Settings → ℕ → Bytes → Log → Log
unfolding vlogger
log_warn config pid = vlogger config pid log_warning

unfoldable pub log_inform : Settings → ℕ → Bytes → Log → Log
unfolding vlogger
log_inform config pid = vlogger config pid log_info

unfoldable pub log_dbg : Settings → ℕ → Bytes → Log → Log
unfolding vlogger
log_dbg config pid text log = if config.debug then vlogger config pid log_debug text log else log

-- openlog with LOG_NDELAY connects at once.
unfoldable pub start_log : Settings → ℕ → Log → Log
unfolding log_dbg
start_log config pid log =
    log_dbg config pid (codes "Starting log\n")
      (if config.syslog then record log { syslog_enabled = true; connected = true } else log)

-- A call of one of the functions.
pub record Message : Type 0 where
  pub urgency : Urgency
  pub text : Bytes

unfoldable pub log_message : Settings → ℕ → Message → Log → Log
unfolding log_fatal log_warn log_inform log_dbg
log_message config pid m log = elim m.urgency [
  | log_err ↦ log_fatal config pid m.text log
  | log_warning ↦ log_warn config pid m.text log
  | log_info ↦ log_inform config pid m.text log
  | log_debug ↦ log_dbg config pid m.text log
]

unfoldable pub log_messages : Settings → ℕ → List Message → Log → Log
unfolding log_message
log_messages config pid [] log = log
log_messages config pid (m ∷ ms) log = log_messages config pid ms (log_message config pid m log)
