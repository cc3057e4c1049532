-- ===== src/Master/Pipe.antt =====
-- `seek_pipe` of util.c, by which the master process skips the body of a message.
use ftp_server.Prelude.{
  ℕ, zero, suc, ◌/◌, ◌%◌, Bool, Option, none, some, ◌==◌, if◌then◌else◌, drop, Bytes,
}

-- SEEK_BUFFER_SIZE
abbrev pub seek_buffer_size : ℕ
seek_buffer_size = 1024

-- A read of at most `n` bytes of those that are in the pipe; `none` is -1. A message is written at once,
-- so the bytes are there.
unfoldable pub read_pipe : Bool → ℕ → Bytes → Option Bytes
read_pipe fails n pipe = if fails then none else some (drop n pipe)

-- for( i = 0; i < blocks; i++ ), and the read behind it; `fails` is asked for the number of reads that
-- are still to come.
unfoldable pub behind_read : (Bytes → Option Bytes) → Option Bytes → Option Bytes
behind_read rest none = none
behind_read rest (some pipe) = rest pipe

unfoldable pub seek_blocks : (ℕ → Bool) → ℕ → ℕ → Bytes → Option Bytes
unfolding read_pipe behind_read
seek_blocks fails zero remainder pipe = read_pipe (fails zero) remainder pipe
seek_blocks fails (suc blocks) remainder pipe =
    behind_read (seek_blocks fails blocks remainder)
      (read_pipe (fails (suc blocks)) seek_buffer_size pipe)

-- The bytes that are left in the pipe, `none` for FTP_ERROR.
unfoldable pub seek_pipe : (ℕ → Bool) → ℕ → Bytes → Option Bytes
unfolding seek_blocks
seek_pipe fails offset pipe =
    if offset == 0
    then some pipe
    else seek_blocks fails (offset / seek_buffer_size) (offset % seek_buffer_size) pipe
