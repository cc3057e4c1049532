-- ===== src/Safety/Streams.antt =====
-- The calls that move data or open a port name no path, so every quiet invariant is kept.
use ftp_server.Prelude.{ℕ, zero, suc, ◌+◌, Option, none, some, Bytes, ℤ}
use ftp_server.Machine.Types.{SockAddr, Answer, good, bad, Env, Machine}
use ftp_server.Machine.Monad.{M}
use ftp_server.Machine.Keeps.{
  Keeps, keeps_rules, Keeps-bind, Keeps-pure, Keeps-if, Keeps-set_errno, Keeps-keep_errno,
  Keeps-from_env,
}
use ftp_server.Server.Listen.{
  after_bind, bind_ports, port_named, after_listen, listen_at, pasv_listen,
}
use ftp_server.Stream.{
  StreamType, s_file, s_socket, Stream, seek_to, failed_with, file_sent, written, copy_read, copy,
  move, splice_stream, after_send, send_loop, sendall,
}
use ftp_server.Safety.Invariant.{IsQuiet, Quiet-call}

module _ {env : Env} {P : Machine → Type 0} (p : IsQuiet P) where
  after_bind-Quiet :
      (rest : M (Option ℕ)) (port : ℕ) (o : Option ℕ)
      → Keeps env P rest
      → Keeps env P (after_bind rest port o)
  unfolding after_bind
  after_bind-Quiet rest port none k = Keeps-pure _
  after_bind-Quiet rest port (some e) k =
      Keeps-bind _ _ (Keeps-set_errno p.stable e) (λ _. Keeps-if _ _ _ k (Keeps-pure _))

  bind_ports-Quiet : (n fd port : ℕ) → Keeps env P (bind_ports n fd port)
  unfolding bind_ports
  bind_ports-Quiet zero fd port = Keeps-pure _
  bind_ports-Quiet (suc n) fd port =
      Keeps-bind _ _ (Quiet-call p _ _ tt)
        (λ o. after_bind-Quiet _ port o (bind_ports-Quiet n fd (suc port)))

  port_named-Quiet : (a : Answer SockAddr) → Keeps env P (port_named a)
  unfolding port_named
  port_named-Quiet (bad e) = search (keeps_rules, Keeps-set_errno p.stable)
  port_named-Quiet (good sa) = Keeps-pure _

  after_listen-Quiet : (fd : ℕ) (o : Option ℕ) → Keeps env P (after_listen fd o)
  unfolding after_listen
  after_listen-Quiet fd (some e) = search (keeps_rules, Keeps-set_errno p.stable)
  after_listen-Quiet fd none = search (keeps_rules, Quiet-call p, tt, port_named-Quiet)

  listen_at-Quiet : (fd end : ℕ) (o : Option ℕ) → Keeps env P (listen_at fd end o)
  unfolding listen_at
  listen_at-Quiet fd end none = Keeps-pure _
  listen_at-Quiet fd end (some port) =
      search (keeps_rules, Quiet-call p, tt, after_listen-Quiet) depth 9

  pub pasv_listen-Quiet : (fd : ℕ) → Keeps env P (pasv_listen fd)
  unfolding pasv_listen
  pasv_listen-Quiet fd =
      search
        (
          keeps_rules,
          Quiet-call p,
          tt,
          Keeps-keep_errno p.stable,
          bind_ports-Quiet,
          listen_at-Quiet,
        )
        depth 11

  seek_to-Quiet : (fd : ℕ) (o : Option ℤ) → Keeps env P (seek_to fd o)
  unfolding seek_to
  seek_to-Quiet fd none = Keeps-pure _
  seek_to-Quiet fd (some n) = search (keeps_rules, Quiet-call p, tt, Keeps-keep_errno p.stable)

  failed_with-Quiet : (e : ℕ) (o i : Option ℤ) → Keeps env P (failed_with e o i)
  unfolding failed_with
  failed_with-Quiet e o i = search (keeps_rules, Keeps-set_errno p.stable)

  file_sent-Quiet : (o i : Option ℤ) (a : Answer ℕ) → Keeps env P (file_sent o i a)
  unfolding file_sent
  file_sent-Quiet o i (bad e) = failed_with-Quiet e o i
  file_sent-Quiet o i (good n) = Keeps-pure _

  written-Quiet : (o i : Option ℤ) (a : Answer ℕ) → Keeps env P (written o i a)
  unfolding written
  written-Quiet o i (bad e) = failed_with-Quiet e _ i
  written-Quiet o i (good n) = Keeps-pure _

  copy_read-Quiet : (s : Stream) (o i : Option ℤ) (a : Answer ℕ) → Keeps env P (copy_read s o i a)
  unfolding copy_read
  copy_read-Quiet s o i (bad e) = failed_with-Quiet e o i
  copy_read-Quiet s o i (good zero) = Keeps-pure _
  copy_read-Quiet s o i (good (suc n)) = search (keeps_rules, Quiet-call p, tt, written-Quiet)

  copy-Quiet :
      (out : Stream) (o : Option ℤ) (in_ : Stream) (i : Option ℤ) (count : ℕ)
      → Keeps env P (copy out o in_ i count)
  unfolding copy
  copy-Quiet out o in_ i count =
      search (keeps_rules, Quiet-call p, tt, copy_read-Quiet, failed_with-Quiet) depth 9

  move-Quiet :
      (out : Stream) (o : Option ℤ) (in_ : Stream) (i : Option ℤ) (count : ℕ) (s t : StreamType)
      → Keeps env P (move out o in_ i count s t)
  unfolding move
  move-Quiet out o in_ i count s_file s_socket =
      search (keeps_rules, Quiet-call p, tt, file_sent-Quiet)
  move-Quiet out o in_ i count _ _ = copy-Quiet out o in_ i count

  pub splice_stream-Quiet :
      (out : Stream) (o : Option ℤ) (in_ : Stream) (i : Option ℤ) (count : ℕ)
      → Keeps env P (splice_stream out o in_ i count)
  unfolding splice_stream
  splice_stream-Quiet out o in_ i count = search (keeps_rules, seek_to-Quiet, move-Quiet)

  after_send-Quiet :
      (again : ℕ → M (Option ℕ)) (total : ℕ) (a : Answer ℕ)
      → ((n : ℕ) → Keeps env P (again n))
      → Keeps env P (after_send again total a)
  unfolding after_send
  after_send-Quiet again total (good n) k = k (total + n)
  after_send-Quiet again total (bad e) k =
      Keeps-bind _ _ (Keeps-set_errno p.stable e) (λ _. Keeps-if _ _ _ (k total) (Keeps-pure _))

  send_loop-Quiet : (f : ℕ) (buf : Bytes) (total : ℕ) → Keeps env P (send_loop f buf total)
  unfolding send_loop
  send_loop-Quiet zero buf total = search keeps_rules
  send_loop-Quiet (suc f) buf total =
      Keeps-if _ _ _
        (Keeps-bind _ _ (Quiet-call p _ _ tt)
          (λ a. after_send-Quiet _ total a (send_loop-Quiet f buf)))
        (Keeps-pure _)

  pub sendall-Quiet : (buf : Bytes) → Keeps env P (sendall buf)
  unfolding sendall
  sendall-Quiet buf = Keeps-bind _ _ (Keeps-from_env _) (λ f. send_loop-Quiet f buf 0)
