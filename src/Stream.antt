-- ===== src/Stream.antt =====
-- stream.c: `splice_stream` and `sendall`. An offset that is NULL is `none`.
pub mod Sendall
use ftp_server.Prelude.{
  ℕ, zero, suc, ◌+◌, Option, none, some, ltb, ◌==◌, if◌then◌else◌, length, drop, Bytes, ℤ, pos,
  negsuc, ◌+ℤ◌,
}
use ftp_server.Machine.Types.{
  Answer, good, bad, seeks, sends_file, allocates, reads_data, writes_data, sends_data,
}
use ftp_server.Machine.Errno.{eintr, enomem}
use ftp_server.Machine.Monad.{M, pure, ◌>>=◌, ◌>>◌, call, set_errno, keep_errno, from_env, loop_on}

-- The enum of stream.h.
pub data StreamType : Type 0 where
  s_file s_socket : StreamType

pub record Stream : Type 0 where
  pub fd : ℕ
  pub type : StreamType

-- The result, -1 as an error number, and the two offsets.
pub record Splice : Type 0 where
  pub ret : Answer ℕ
  pub out_offset : Option ℤ
  pub in_offset : Option ℤ

unfoldable pub seek_to : ℕ → Option ℤ → M (Unit {0})
seek_to fd none = pure tt
seek_to fd (some offset) = do failed ← call (seeks fd offset) (λ env. env.lseek); keep_errno failed

abbrev pub advance : Option ℤ → ℤ → Option ℤ
advance none n = none
advance (some offset) n = some (offset +ℤ n)

unfoldable pub failed_with : ℕ → Option ℤ → Option ℤ → M Splice
failed_with e out_offset in_offset = do
  set_errno e
  pure (record { ret = bad e; out_offset = out_offset; in_offset = in_offset })

-- sendfile moves its offset by what it sent.
unfoldable pub file_sent : Option ℤ → Option ℤ → Answer ℕ → M Splice
unfolding failed_with
file_sent out_offset in_offset (bad e) = failed_with e out_offset in_offset
file_sent out_offset in_offset (good n) =
    pure (record { ret = good n; out_offset = out_offset; in_offset = advance in_offset (pos n) })

-- *out_offset += ret, which is -1 when the write failed.
unfoldable pub written : Option ℤ → Option ℤ → Answer ℕ → M Splice
unfolding failed_with
written out_offset in_offset (bad e) = failed_with e (advance out_offset (negsuc 0)) in_offset
written out_offset in_offset (good n) =
    pure (record { ret = good n; out_offset = advance out_offset (pos n); in_offset = in_offset })

unfoldable pub copy_read : Stream → Option ℤ → Option ℤ → Answer ℕ → M Splice
unfolding written failed_with
copy_read stream_out out_offset in_offset (bad e) = failed_with e out_offset in_offset
copy_read stream_out out_offset in_offset (good zero) =
    pure (record { ret = good 0; out_offset = out_offset; in_offset = in_offset })
copy_read stream_out out_offset in_offset (good (suc n)) = do
  a ← call (writes_data stream_out.fd (suc n)) (λ env. env.write)
  written out_offset (advance in_offset (pos (suc n))) a

unfoldable pub copy : Stream → Option ℤ → Stream → Option ℤ → ℕ → M Splice
unfolding copy_read
copy stream_out out_offset stream_in in_offset count = do
  memory ← call allocates (λ env. env.malloc)
  if memory
      then (do
        a ← call (reads_data stream_in.fd count) (λ env. env.read)
        copy_read stream_out out_offset in_offset a)
      else failed_with enomem out_offset in_offset

-- How the bytes are moved: by sendfile from a file to a socket, by a buffer otherwise.
unfoldable pub move : Stream → Option ℤ → Stream → Option ℤ → ℕ → StreamType → StreamType → M Splice
unfolding copy file_sent
move stream_out out_offset stream_in in_offset count s_file s_socket = do
  a ← call (sends_file stream_out.fd stream_in.fd in_offset count) (λ env. env.sendfile)
  file_sent out_offset in_offset a
move stream_out out_offset stream_in in_offset count _ _ =
    copy stream_out out_offset stream_in in_offset count

unfoldable pub splice_stream : Stream → Option ℤ → Stream → Option ℤ → ℕ → M Splice
unfolding seek_to move
splice_stream stream_out out_offset stream_in in_offset count = do
  seek_to stream_out.fd out_offset
  seek_to stream_in.fd in_offset
  move stream_out out_offset stream_in in_offset count stream_in.type stream_out.type

-- What follows a `send`; `again` is the next round, from the new total.
unfoldable pub after_send : (ℕ → M (Option ℕ)) → ℕ → Answer ℕ → M (Option ℕ)
after_send again total (good n) = again (total + n)
after_send again total (bad e) = do set_errno e; if e == eintr then again total else pure none

-- while( total < len ), with `none` for -1
unfoldable pub send_loop : ℕ → Bytes → ℕ → M (Option ℕ)
unfolding after_send
send_loop zero buf total = if ltb total (length buf) then loop_on else pure (some total)
send_loop (suc f) buf total =
    let round = (do
      a ← call (sends_data (drop total buf)) (λ env. env.send_data)
      after_send (send_loop f buf) total a) in
    if ltb total (length buf) then round else pure (some total)

unfoldable pub sendall : Bytes → M (Option ℕ)
unfolding send_loop
sendall buf = do patience ← from_env (λ env. env.patience); send_loop patience buf 0
