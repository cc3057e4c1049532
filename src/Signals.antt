-- ===== src/Signals.antt =====
-- signals.c, and `server_handle_signal` of server.c. The flag is written by the handler at any time, so
-- each reading of it is an answer of the environment.
pub mod Caught
use ftp_server.Prelude.{List, [], ◌∷◌, Bool, true, false, ◌||◌, if◌then◌else◌}
use ftp_server.Machine.Types.{Flags, Ret, ftp_success, ftp_quit, signals_read}
use ftp_server.Machine.Monad.{M, pure, ◌>>=◌, call}

pub data Signal : Type 0 where
  sig_int sig_term sig_hup sig_pipe sig_chld sig_usr1 : Signal

unfoldable pub signal_handler : Signal → Flags → Flags
signal_handler sig_int f = record f { sigint = true }
signal_handler sig_term f = record f { sigterm = true }
signal_handler sig_hup f = record f { sighup = true }
signal_handler sig_pipe f = record f { sigpipe = true }
signal_handler sig_chld f = record f { sigchld = true }
signal_handler sig_usr1 f = record f { sigother = true }

-- `init_signals`: the signals that get the handler.
abbrev pub handled_signals : List Signal
handled_signals = sig_int ∷ sig_term ∷ sig_hup ∷ sig_pipe ∷ sig_chld ∷ sig_usr1 ∷ []

-- Whether `signal_flag` is not 0.
unfoldable pub is_set : Flags → Bool
is_set f = f.sigint || (f.sigterm || (f.sighup || (f.sigpipe || (f.sigchld || f.sigother))))

abbrev pub no_flags : Flags
no_flags = record {
  sigint = false;
  sigterm = false;
  sighup = false;
  sigpipe = false;
  sigchld = false;
  sigother = false;
}

-- SIGCHLD and SIGPIPE are dropped, and anything else ends the connection: the result, and the flag.
unfoldable pub take_signals : Flags → Ret × Flags
unfolding is_set
take_signals f =
    let left = record f { sigchld = false; sigpipe = false } in
    if is_set left then (ftp_quit, no_flags) else (ftp_success, left)

-- The flag that is left is read back at the next call, through the environment.
unfoldable pub server_handle_signal : M Ret
unfolding take_signals
server_handle_signal = do f ← call signals_read (λ env. env.signal_flag); pure (take_signals f).0
