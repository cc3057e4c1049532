-- ===== src/Tests/StreamExamples.antt =====
-- The theorems on the connections of a session at concrete inputs.
use ftp_server.Prelude.{
  suc, ap, sym, ltb, if◌then◌else◌, ℕ, ◌≡◌, refl, false, List, [], ◌∷◌, Option, none, some, arith,
  length,
}
use ftp_server.Text.Ctype.{codes}
use ftp_server.Machine.Types.{
  points_to, Env, Machine, History, Answer, good, bad, sends_data, sends_file, sets_option, binds,
  done,
}
use ftp_server.Command.Run.Serve.{new_process, ftp_main}
use ftp_server.Command.Run.Quit.{ftp_main-quits}
use ftp_server.Core.Data.{file, connection}
use ftp_server.Core.Retrieve.Delivered.{IsWhole, IsRetrieved, delivered}
use ftp_server.Core.Retrieve.Range.{transfer_file-IsRetrieved}
use ftp_server.Transfer.{transfer_file}
use ftp_server.Stream.{sendall}
use ftp_server.Stream.Sendall.{IsBounded, IsMoving, IsSent, sent, sendall-IsSent, sendall_returns}
use ftp_server.Server.Listen.{pasv_listen}
use ftp_server.Server.Listen.FirstFree.{IsListening, pasv_listen-IsListening}
use ftp_server.Server.Buffer.{commands_of}
use ftp_server.Server.Framing.{stream}
use ftp_server.Server.Framing.Whole.{IsFraming}
use ftp_server.Server.Poll.{
  Reading, readable, timed_out, poll_failed, given, outcomes, read_poll-IsFraming,
}
use ftp_server.Tests.Sample.{sample_env}

abbrev start : Machine
start = record (new_process (codes "127,0,0,1") (points_to (codes "bob")) 0) {
  state_pool = some [];
  trace = sends_data (codes "first ") ∷ [];
}

abbrev count : Answer ℕ → ℕ
count (good n) = n
count (bad e) = 0

-- The socket takes one byte at a time, and sendfile sends what it is asked for.
abbrev took_one : History → Answer ℕ
took_one (sends_data (c ∷ s) ∷ h) = good 1
took_one _ = good 0

abbrev sent_asked : History → Answer ℕ
sent_asked (sends_file c d o n ∷ h) = good n
sent_asked _ = good 0

abbrev slow : Env
slow = record sample_env { send_data = took_one; sendfile = sent_asked }

slow-IsBounded : IsBounded slow
slow-IsBounded [] h n e = omega (arith, ap count e)
slow-IsBounded (c ∷ s) h n e = omega (arith, ap count e)

slow-IsMoving : IsMoving slow
slow-IsMoving c s h = (0, (refl, omega arith))

sendall-IsSent_example :
    IsSent slow
      (sent slow start.trace)
      (codes "a line\r\n")
      (sendall (codes "a line\r\n") slow start)
sendall-IsSent_example = sendall-IsSent slow start (codes "a line\r\n") slow-IsBounded

sendall_returns_example :
    (t : Machine) × (sendall (codes "a line\r\n") slow start ≡ done (some 8) t)
sendall_returns_example =
    sendall_returns slow start (codes "a line\r\n") slow-IsMoving (omega arith)

slow-IsWhole : IsWhole slow (codes "some text")
slow-IsWhole c d o n k h le e = sym (ap count e)

transfer_file-IsRetrieved_example :
    IsRetrieved slow
      (codes "some text")
      (delivered slow (codes "some text") start.trace)
      5
      4
      (transfer_file (connection 9) (file 7) 5 4 slow start)
transfer_file-IsRetrieved_example =
    transfer_file-IsRetrieved slow (codes "some text") 9 7 5 4 start [] slow-IsWhole (omega arith)
      (omega arith) refl

-- Ports 4000 and 4001 are in use.
abbrev third_free : History → Option ℕ
third_free (binds fd port ∷ h) = if ltb port 4002 then some 98 else none
third_free _ = none

abbrev busy : Env
busy = record sample_env { bind = third_free }

pasv_listen-IsListening_example :
    IsListening busy 8 4000 4011 (sets_option 8 ∷ start.trace) (pasv_listen 8 busy start)
pasv_listen-IsListening_example = pasv_listen-IsListening busy 8 start (omega arith)

ftp_main-quits_example :
    ftp_main 3
      ((codes "NOOP", []) ∷ (codes "QUIT", []) ∷ (codes "DELE", codes "file") ∷ [])
      sample_env
      start
    ≡ ftp_main 3 ((codes "NOOP", []) ∷ (codes "QUIT", []) ∷ []) sample_env start
ftp_main-quits_example =
    ftp_main-quits sample_env start 3 [] ((codes "NOOP", []) ∷ [])
      ((codes "DELE", codes "file") ∷ [])

abbrev readings : List Reading
readings =
    record { polled = readable; recv = good (codes "NO"); quits = false; quits_later = false }
    ∷ record { polled = poll_failed 4; recv = bad 0; quits = false; quits_later = false }
    ∷ record { polled = readable; recv = good (codes "OP\r\n"); quits = false; quits_later = false }
    ∷ record { polled = timed_out; recv = bad 0; quits = false; quits_later = false }
    ∷ []

read_poll-IsFraming_example :
    (stream (outcomes readings) ≡ given readings)
    × IsFraming (given readings) (
        commands_of
          (suc (length (given readings)))
          (outcomes readings)
          (record { line = []; line_len = 512 }))
read_poll-IsFraming_example = read_poll-IsFraming 512 readings
