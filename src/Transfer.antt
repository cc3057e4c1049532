-- ===== src/Transfer.antt =====
-- The data connection: `accept_data_conn` of util.c, throttle.c, and the transfer loops of core.c.
use ftp_server.Prelude.{
  to_int, ℕ, zero, suc, ◌+◌, ◌-◌, ◌/◌, ◌%◌, true, false, ◌&&◌, ◌||◌, Option, none, some, ltb, ◌==◌,
  if◌then◌else◌, ℤ, pos, negsuc,
}
use ftp_server.Text.Ctype.{codes}
use ftp_server.Text.Time.Difference.{msecdiff}
use ftp_server.Machine.Types.{
  Ret, ftp_error, ftp_success, ftp_quit, ftp_abor, Accepted, got_conn, no_conn, quit_conn, Answer,
  good, bad, Session, t_xfer, accepted, reads_clock, sleeps, TimeVal,
}
use ftp_server.Machine.Errno.{eintr, epipe, econnaborted, econnreset}
use ftp_server.Machine.Monad.{
  M, pure, ◌>>=◌, ◌>>◌, gets, modify, call, set_errno, from_env, loop_on,
}
use ftp_server.Reply.{reply}
use ftp_server.Signals.{server_handle_signal}
use ftp_server.State.{send_state}
use ftp_server.Stream.{Stream, splice_stream}
use ftp_server.Auth.{is_success}

-- What follows a failed `accept`. `quits` is the signal test, made for EINTR only.
unfoldable pub accept_failed : ℕ → Ret → M Accepted
unfolding is_success
accept_failed e signal =
    if e == eintr && (if is_success signal then false else true)
    then pure quit_conn
    else if e == econnaborted
    then pure quit_conn
    else do reply (codes "425 Cannot open data connection\r\n"); pure no_conn

unfoldable pub accepted_conn : Answer ℕ → M Accepted
accepted_conn (good fd) = pure (got_conn fd)
accepted_conn (bad e) = do
  set_errno e
  signal ← if e == eintr then server_handle_signal else pure ftp_success
  accept_failed e signal

unfoldable pub accept_data_conn : M Accepted
unfolding accepted_conn accept_failed
accept_data_conn = do
  pasv_sock ← gets (λ s. s.conn.pasv_sock)
  a ← call (accepted pasv_sock) (λ env. env.accept)
  accepted_conn a

-- XFER_BLOCK_SIZE
abbrev pub xfer_block_size : ℕ
xfer_block_size = 4096

-- Sleep for what is left of the time that the bytes since the last probe should take.
unfoldable pub pause_for : ℕ → ℕ → ℕ → M Ret
pause_for transfer_size rate diff =
    if rate == 0
    then pure ftp_success
    else if ltb (transfer_size / rate) diff
    then pure ftp_success
    else do call (sleeps (transfer_size / rate - diff)) (λ env h. tt); pure ftp_success

-- Tell the master and start a new probe.
-- gettimeofday( &info->xfer_probe, NULL )
unfoldable pub reset_probe : M (Unit {0})
reset_probe = do
  now ← call reads_clock (λ env. env.clock)
  modify (λ s. record s { info = record s.info { xfer_probe = now } })

unfoldable pub new_probe : M (Unit {0})
unfolding reset_probe
new_probe = do
  send_state t_xfer
  reset_probe
  modify (λ s. record s { info = record s.info { probe_len = 0 } })

-- The clock may have gone back.
unfoldable pub throttle_after : ℕ → ℤ → M Ret
unfolding reset_probe
throttle_after transfer_size (negsuc n) = do reset_probe; pure ftp_success
throttle_after transfer_size (pos diff) = do
  if ltb 500 diff then new_probe else pure tt
  rate ← from_env (λ env. env.config.throttle_rate)
  pause_for transfer_size rate diff

-- `probe_len` is cleared each half second, so it fits the int `transfer_size`.
unfoldable pub throttle_pause : M Ret
unfolding throttle_after pause_for new_probe
throttle_pause = do
  now ← call reads_clock (λ env. env.clock)
  info ← gets (λ s. s.info)
  throttle_after info.probe_len (msecdiff now info.xfer_probe)

-- What a call of `splice_stream` comes to: a count of bytes, with the offset in the file that is written,
-- or the return of the loop around it.
pub data Spliced : Type 0 where
  moved : ℕ → Option ℤ → Spliced
  stops : Ret → Spliced

unfoldable pub splice_failed : ℕ → Spliced
splice_failed e = stops (if e == epipe || e == econnreset then ftp_abor else ftp_error)

-- An interrupted call is made again, unless a signal ends the connection; `again` is the next round.
unfoldable pub spliced :
    (Option ℤ → Option ℤ → M Spliced) → Option ℤ → Option ℤ → Answer ℕ → M Spliced
unfolding splice_failed is_success
spliced again out_offset in_offset (good n) = pure (moved n out_offset)
spliced again out_offset in_offset (bad e) =
    if e == eintr
    then (do
      signal ← server_handle_signal
      if is_success signal then again out_offset in_offset else pure (stops ftp_quit))
    else pure (splice_failed e)

-- while( (ret = splice_stream( … )) == -1 )
unfoldable pub splice_loop : ℕ → Stream → Stream → ℕ → Option ℤ → Option ℤ → M Spliced
unfolding spliced
splice_loop zero stream_out stream_in count out_offset in_offset = loop_on
splice_loop (suc f) stream_out stream_in count out_offset in_offset = do
  r ← splice_stream stream_out out_offset stream_in in_offset count
  spliced (splice_loop f stream_out stream_in count) r.out_offset r.in_offset r.ret

unfoldable pub splice : Stream → Stream → ℕ → Option ℤ → Option ℤ → M Spliced
splice stream_out stream_in count out_offset in_offset = do
  patience ← from_env (λ env. env.patience)
  splice_loop patience stream_out stream_in count out_offset in_offset

unfoldable pub add_xfer : ℕ → ℕ → Session → Session
add_xfer len probe s = record s {
  info = record s.info { xfer_len = s.info.xfer_len + len; probe_len = s.info.probe_len + probe };
}

unfoldable pub start_xfer : TimeVal → Session → Session
start_xfer now s = record s {
  info = record s.info { xfer_start = now; xfer_probe = now; xfer_len = 0; probe_len = 0 };
}

-- Behind a block: `rest` is the next round of the loop; `none` is the end of the loop.
unfoldable pub after_block : M (Option Ret) → Spliced → M (Option Ret)
unfolding add_xfer is_success
after_block rest (stops r) = pure (some r)
after_block rest (moved zero o) = pure (some ftp_abor)
after_block rest (moved (suc n) o) = do
  modify (add_xfer xfer_block_size xfer_block_size)
  throttle_pause
  signal ← server_handle_signal
  if is_success signal then rest else pure (some ftp_quit)

-- for( i = 0; i < blocks; i++ ), from the offset of the next block
unfoldable pub send_blocks : Stream → Stream → ℕ → ℕ → M (Option Ret)
unfolding after_block
send_blocks data_conn file zero offset = pure none
send_blocks data_conn file (suc n) offset = do
  r ← splice data_conn file xfer_block_size none (some (pos offset))
  after_block (send_blocks data_conn file n (offset + xfer_block_size)) r

unfoldable pub sent_rest : ℕ → Spliced → M Ret
unfolding add_xfer
sent_rest remainder (stops r) = pure r
sent_rest remainder (moved n o) = do modify (add_xfer remainder 0); pure ftp_success

unfoldable pub send_rest : Stream → Stream → ℕ → ℕ → Option Ret → M Ret
unfolding sent_rest
send_rest data_conn file offset remainder (some r) = pure r
send_rest data_conn file offset remainder none = do
  r ← splice data_conn file remainder none (some (pos offset))
  sent_rest remainder r

-- The rounds of `for( i = 0; i < blocks; i++ )`
unfoldable pub rounds : ℤ → ℕ
rounds (pos n) = n
rounds (negsuc n) = 0

-- `blocks` is an int, of the division of an off_t.
unfoldable pub transfer_file : Stream → Stream → ℕ → ℕ → M Ret
unfolding start_xfer rounds send_blocks send_rest
transfer_file data_conn file file_offset count = do
  now ← call reads_clock (λ env. env.clock)
  modify (start_xfer now)
  stopped ← send_blocks data_conn file (rounds (to_int (pos (count / xfer_block_size)))) file_offset
  send_rest data_conn file (file_offset + count - count % xfer_block_size) (count % xfer_block_size)
      stopped

-- One round of `store_file`; `rest` goes on from the next offset.
unfoldable pub after_store : (Option ℤ → M Ret) → Spliced → M Ret
unfolding add_xfer is_success
after_store rest (stops r) = pure r
after_store rest (moved zero offset) = pure ftp_success
after_store rest (moved (suc n) offset) = do
  modify (add_xfer (suc n) (suc n))
  throttle_pause
  signal ← server_handle_signal
  if is_success signal then rest offset else pure ftp_quit

-- while( ret = splice_stream( file, &offset, data, 0, XFER_BLOCK_SIZE ) )
unfoldable pub store_blocks : ℕ → Stream → Stream → Option ℤ → M Ret
unfolding after_store
store_blocks zero file data_conn offset = loop_on
store_blocks (suc f) file data_conn offset = do
  r ← splice file data_conn xfer_block_size offset none
  after_store (store_blocks f file data_conn) r

unfoldable pub store_file : Stream → Stream → M Ret
unfolding start_xfer store_blocks
store_file file data_conn = do
  offset ← gets (λ s. s.restart_pos)
  now ← call reads_clock (λ env. env.clock)
  modify (start_xfer now)
  patience ← from_env (λ env. env.patience)
  store_blocks patience file data_conn (some (pos offset))
