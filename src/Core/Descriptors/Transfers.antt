-- ===== src/Core/Descriptors/Transfers.antt =====
-- Transfers open and close no descriptor.
use ftp_server.Prelude.{ℕ, zero, suc, ◌+◌, Option, none, some, ℤ, pos, negsuc}
use ftp_server.Machine.Types.{Ret, Answer, good, bad, History, Env}
use ftp_server.Machine.Monad.{M}
use ftp_server.Machine.Stays.{Stays, stays_rules, Stays-bind, Stays-pure, Stays-if, Stays-modify}
use ftp_server.Machine.Descriptors.{IsPlain}
use ftp_server.Stream.{
  StreamType, s_file, s_socket, Stream, seek_to, failed_with, file_sent, written, copy_read, copy,
  move, splice_stream,
}
use ftp_server.Transfer.{
  pause_for, reset_probe, new_probe, throttle_after, throttle_pause, Spliced, moved, stops, spliced,
  splice_loop, splice, after_block, send_blocks, sent_rest, send_rest, transfer_file, after_store,
  store_blocks, store_file,
}
use ftp_server.Core.Descriptors.Plain.{Plain-call, server_handle_signal-Stays, send_state-Stays}

module _ {env : Env} {T : History → Type 0} (p : IsPlain T) where
  reset_probe-Stays : Stays env T reset_probe
  unfolding reset_probe
  reset_probe-Stays = search (stays_rules, Plain-call p, tt)

  new_probe-Stays : Stays env T new_probe
  unfolding new_probe
  new_probe-Stays = search (stays_rules, send_state-Stays p, reset_probe-Stays)

  pause_for-Stays : (n rate diff : ℕ) → Stays env T (pause_for n rate diff)
  unfolding pause_for
  pause_for-Stays n rate diff = search (stays_rules, Plain-call p, tt) depth 9

  throttle_after-Stays : (n : ℕ) (d : ℤ) → Stays env T (throttle_after n d)
  unfolding throttle_after
  throttle_after-Stays n (negsuc m) = search (stays_rules, reset_probe-Stays)
  throttle_after-Stays n (pos diff) = search (stays_rules, new_probe-Stays, pause_for-Stays)

  throttle_pause-Stays : Stays env T throttle_pause
  unfolding throttle_pause
  throttle_pause-Stays = search (stays_rules, Plain-call p, tt, throttle_after-Stays)

  seek_to-Stays : (fd : ℕ) (o : Option ℤ) → Stays env T (seek_to fd o)
  unfolding seek_to
  seek_to-Stays fd none = Stays-pure _
  seek_to-Stays fd (some n) = search (stays_rules, Plain-call p, tt)

  failed_with-Stays : (e : ℕ) (o i : Option ℤ) → Stays env T (failed_with e o i)
  unfolding failed_with
  failed_with-Stays e o i = search stays_rules

  file_sent-Stays : (o i : Option ℤ) (a : Answer ℕ) → Stays env T (file_sent o i a)
  unfolding file_sent
  file_sent-Stays o i (bad e) = failed_with-Stays e o i
  file_sent-Stays o i (good n) = Stays-pure _

  written-Stays : (o i : Option ℤ) (a : Answer ℕ) → Stays env T (written o i a)
  unfolding written
  written-Stays o i (bad e) = failed_with-Stays e _ i
  written-Stays o i (good n) = Stays-pure _

  copy_read-Stays : (s : Stream) (o i : Option ℤ) (a : Answer ℕ) → Stays env T (copy_read s o i a)
  unfolding copy_read
  copy_read-Stays s o i (bad e) = failed_with-Stays e o i
  copy_read-Stays s o i (good zero) = Stays-pure _
  copy_read-Stays s o i (good (suc n)) = search (stays_rules, Plain-call p, tt, written-Stays)

  copy-Stays :
      (out : Stream) (o : Option ℤ) (in_ : Stream) (i : Option ℤ) (count : ℕ)
      → Stays env T (copy out o in_ i count)
  unfolding copy
  copy-Stays out o in_ i count =
      search (stays_rules, Plain-call p, tt, copy_read-Stays, failed_with-Stays) depth 9

  move-Stays :
      (out : Stream) (o : Option ℤ) (in_ : Stream) (i : Option ℤ) (count : ℕ) (s t : StreamType)
      → Stays env T (move out o in_ i count s t)
  unfolding move
  move-Stays out o in_ i count s_file s_socket =
      search (stays_rules, Plain-call p, tt, file_sent-Stays)
  move-Stays out o in_ i count _ _ = copy-Stays out o in_ i count

  splice_stream-Stays :
      (out : Stream) (o : Option ℤ) (in_ : Stream) (i : Option ℤ) (count : ℕ)
      → Stays env T (splice_stream out o in_ i count)
  unfolding splice_stream
  splice_stream-Stays out o in_ i count = search (stays_rules, seek_to-Stays, move-Stays)

  spliced-Stays :
      (again : Option ℤ → Option ℤ → M Spliced) (o i : Option ℤ) (a : Answer ℕ)
      → ((o i : Option ℤ) → Stays env T (again o i))
      → Stays env T (spliced again o i a)
  unfolding spliced
  spliced-Stays again o i (good n) k = Stays-pure _
  spliced-Stays again o i (bad e) k =
      Stays-if _ _ _
        (Stays-bind _ _ (server_handle_signal-Stays p)
          λ signal. Stays-if _ _ _ (k o i) (Stays-pure _))
        (Stays-pure _)

  splice_loop-Stays :
      (f : ℕ) (out in_ : Stream) (count : ℕ) (o i : Option ℤ)
      → Stays env T (splice_loop f out in_ count o i)
  unfolding splice_loop
  splice_loop-Stays zero out in_ count o i = search stays_rules
  splice_loop-Stays (suc f) out in_ count o i =
      Stays-bind _ _ (splice_stream-Stays out o in_ i count) (λ r.
        spliced-Stays _ r.out_offset r.in_offset r.ret
          (λ o i. splice_loop-Stays f out in_ count o i))

  splice-Stays :
      (out in_ : Stream) (count : ℕ) (o i : Option ℤ) → Stays env T (splice out in_ count o i)
  unfolding splice
  splice-Stays out in_ count o i = search (stays_rules, splice_loop-Stays)

  after_block-Stays :
      (rest : M (Option Ret)) (r : Spliced) → Stays env T rest → Stays env T (after_block rest r)
  unfolding after_block
  after_block-Stays rest (stops r) k = Stays-pure _
  after_block-Stays rest (moved zero o) k = Stays-pure _
  after_block-Stays rest (moved (suc n) o) k = Stays-bind _ _ (Stays-modify _) λ _.
      Stays-bind _ _ throttle_pause-Stays
        λ _. Stays-bind _ _ (server_handle_signal-Stays p) λ signal. Stays-if _ _ _ k (Stays-pure _)

  send_blocks-Stays : (c d : Stream) (n offset : ℕ) → Stays env T (send_blocks c d n offset)
  unfolding send_blocks
  send_blocks-Stays c d zero offset = Stays-pure _
  send_blocks-Stays c d (suc n) offset =
      Stays-bind _ _ (splice-Stays c d _ _ _)
        (λ r. after_block-Stays _ r (send_blocks-Stays c d n (offset + 4096)))

  sent_rest-Stays : (n : ℕ) (r : Spliced) → Stays env T (sent_rest n r)
  unfolding sent_rest
  sent_rest-Stays n (stops r) = Stays-pure _
  sent_rest-Stays n (moved m o) = search stays_rules

  send_rest-Stays :
      (c d : Stream) (offset n : ℕ) (o : Option Ret) → Stays env T (send_rest c d offset n o)
  unfolding send_rest
  send_rest-Stays c d offset n (some r) = Stays-pure _
  send_rest-Stays c d offset n none = Stays-bind _ _ (splice-Stays c d n _ _) (sent_rest-Stays n)

  pub transfer_file-Stays :
      (c d : Stream) (offset count : ℕ) → Stays env T (transfer_file c d offset count)
  unfolding transfer_file
  transfer_file-Stays c d offset count =
      search (stays_rules, Plain-call p, tt, send_blocks-Stays, send_rest-Stays) depth 9

  after_store-Stays :
      (rest : Option ℤ → M Ret) (r : Spliced)
      → ((o : Option ℤ) → Stays env T (rest o))
      → Stays env T (after_store rest r)
  unfolding after_store
  after_store-Stays rest (stops r) k = Stays-pure _
  after_store-Stays rest (moved zero o) k = Stays-pure _
  after_store-Stays rest (moved (suc n) o) k = Stays-bind _ _ (Stays-modify _) λ _.
      Stays-bind _ _ throttle_pause-Stays λ _.
        Stays-bind _ _ (server_handle_signal-Stays p) λ signal. Stays-if _ _ _ (k o) (Stays-pure _)

  store_blocks-Stays : (f : ℕ) (d c : Stream) (o : Option ℤ) → Stays env T (store_blocks f d c o)
  unfolding store_blocks
  store_blocks-Stays zero d c o = search stays_rules
  store_blocks-Stays (suc f) d c o =
      Stays-bind _ _ (splice-Stays d c _ o none)
        (λ r. after_store-Stays (store_blocks f d c) r (store_blocks-Stays f d c))

  pub store_file-Stays : (d c : Stream) → Stays env T (store_file d c)
  unfolding store_file
  store_file-Stays d c = search (stays_rules, Plain-call p, tt, store_blocks-Stays) depth 9
