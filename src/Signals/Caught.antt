-- ===== src/Signals/Caught.antt =====
-- signals.c and `server_handle_signal`: which signals end a session.
use ftp_server.Prelude.{
  ◌≡◌, refl, ap, ◌∙◌, Bool, true, false, not, ◌||◌, List, [], ◌∷◌, arith, if◌then◌else◌,
}
use ftp_server.Auth.{is_success}
use ftp_server.Machine.Types.{Flags, Ret, ftp_success, ftp_quit}
use ftp_server.Signals.{
  Signal, sig_int, sig_term, sig_hup, sig_pipe, sig_chld, sig_usr1, signal_handler, is_set,
  no_flags, take_signals,
}

-- The flags after the signals, the last one first.
abbrev pub caught : List Signal → Flags
caught [] = no_flags
caught (s ∷ sigs) = signal_handler s (caught sigs)

abbrev pub ends_session : Signal → Bool
ends_session sig_chld = false
ends_session sig_pipe = false
ends_session _ = true

abbrev pub any_ends : List Signal → Bool
any_ends [] = false
any_ends (s ∷ sigs) = ends_session s || any_ends sigs

abbrev left_with : Ret → Flags → Ret × Flags
left_with r f = (r, f)

abbrev terminating : Flags → Bool
terminating f = f.sigint || (f.sigterm || (f.sighup || f.sigother))

flagged :
    (s : Signal) (f : Flags) → terminating (signal_handler s f) ≡ ends_session s || terminating f
unfolding signal_handler
flagged sig_int f = refl
flagged sig_term f = ground arith
flagged sig_hup f = ground arith
flagged sig_pipe f = refl
flagged sig_chld f = refl
flagged sig_usr1 f = ground arith

terminating-caught : (sigs : List Signal) → terminating (caught sigs) ≡ any_ends sigs
terminating-caught [] = refl
terminating-caught (s ∷ sigs) =
    flagged s (caught sigs) ∙ ap (λ b. ends_session s || b) (terminating-caught sigs)

taken :
    (b : Bool) (f : Flags)
    → is_success (if b then left_with ftp_quit no_flags else left_with ftp_success f).0 ≡ not b
unfolding is_success
taken true f = refl
taken false f = refl

take_signals-terminating : (f : Flags) → is_success (take_signals f).0 ≡ not (terminating f)
unfolding take_signals is_set
take_signals-terminating f = taken (terminating f) (record f { sigchld = false; sigpipe = false })

-- Whatever signals a session process catches, in whatever order: the connection goes on exactly when
-- none of them ends it, so no terminating signal is lost to one that does not.
pub take_signals-caught :
    (sigs : List Signal) → is_success (take_signals (caught sigs)).0 ≡ not (any_ends sigs)
take_signals-caught sigs = take_signals-terminating (caught sigs) ∙ ap not (terminating-caught sigs)
