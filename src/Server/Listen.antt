-- ===== src/Server/Listen.antt =====
-- server.c: `pasv_listen`, which listens on a port of the configured range.
pub mod FirstFree
use ftp_server.Prelude.{ℕ, zero, suc, ◌+◌, ◌-◌, Option, none, some, ◌==◌, if◌then◌else◌, Bytes}
use ftp_server.Machine.Types.{SockAddr, Answer, good, bad, sets_option, binds, listens, asks_name}
use ftp_server.Machine.Errno.{eaddrinuse}
use ftp_server.Machine.Monad.{M, pure, ◌>>=◌, ◌>>◌, call, set_errno, keep_errno, from_env}

-- What follows a `bind`: `rest` is the next round of the loop.
unfoldable pub after_bind : M (Option ℕ) → ℕ → Option ℕ → M (Option ℕ)
after_bind rest listen_port none = pure (some listen_port)
after_bind rest listen_port (some e) = do set_errno e; if e == eaddrinuse then rest else pure none

-- for( listen_port = start; listen_port < end; listen_port++ ), over the number of ports that are
-- left: the port at which the loop ends, or `none` for the return in it. A port is sent as two bytes.
unfoldable pub bind_ports : ℕ → ℕ → ℕ → M (Option ℕ)
unfolding after_bind
bind_ports zero pasv_sock listen_port = pure (some listen_port)
bind_ports (suc n) pasv_sock listen_port = do
  failed ← call (binds pasv_sock listen_port) (λ env. env.bind)
  after_bind (bind_ports n pasv_sock (suc listen_port)) listen_port failed

unfoldable pub port_named : Answer SockAddr → M (Option Bytes)
port_named (bad e) = do set_errno e; pure none
port_named (good sa) = pure (some sa.sin_port)

unfoldable pub after_listen : ℕ → Option ℕ → M (Option Bytes)
unfolding port_named
after_listen pasv_sock (some e) = do set_errno e; pure none
after_listen pasv_sock none = do
  named ← call (asks_name pasv_sock) (λ env. env.getsockname)
  port_named named

unfoldable pub listen_at : ℕ → ℕ → Option ℕ → M (Option Bytes)
unfolding after_listen
listen_at pasv_sock end none = pure none
listen_at pasv_sock end (some listen_port) =
    if listen_port == end
    then pure none
    else (do failed ← call (listens pasv_sock) (λ env. env.listen); after_listen pasv_sock failed)

-- The port as its two bytes, `none` for FTP_ERROR.
unfoldable pub pasv_listen : ℕ → M (Option Bytes)
unfolding bind_ports listen_at
pasv_listen pasv_sock = do
  failed ← call (sets_option pasv_sock) (λ env. env.setsockopt)
  keep_errno failed
  start ← from_env (λ env. env.config.pasv_port_start)
  end ← from_env (λ env. env.config.pasv_port_end + 1)
  reached ← bind_ports (end - start) pasv_sock start
  listen_at pasv_sock end reached
