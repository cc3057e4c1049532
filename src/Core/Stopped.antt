-- ===== src/Core/Stopped.antt =====
-- core.c: how the transfers end at a splice that fails.
use ftp_server.Prelude.{Bool, true, false, ◌≢◌, if◌then◌else◌}
use ftp_server.Machine.Types.{ftp_error, ftp_success, ftp_abor}

-- With an error or an abort, and never with success.
pub no_success : (b : Bool) → (if b then ftp_abor else ftp_error) ≢ ftp_success
no_success true e = cc
no_success false e = cc
