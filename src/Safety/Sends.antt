-- ===== src/Safety/Sends.antt =====
-- The messages to the master process and the data connection, once the session is logged in.
use ftp_server.Prelude.{ℕ, zero, suc, ◌+◌, refl, ◌≢◌, Option, none, some, ℤ}
use ftp_server.Machine.Types.{TimeVal, Ret, Answer, good, bad, Env, Event, fs, StateChange, t_login}
use ftp_server.Machine.Monad.{M, modify}
use ftp_server.Machine.Keeps.{
  Keeps, keeps_rules, Keeps-bind, Keeps-pure, Keeps-if, Keeps-from_env, Keeps-set_errno,
}
use ftp_server.Signals.{server_handle_signal}
use ftp_server.State.{send_state}
use ftp_server.Transfer.{
  xfer_block_size, accept_failed, accepted_conn, accept_data_conn, throttle_pause, Spliced, moved,
  stops, spliced, splice_loop, splice, add_xfer, start_xfer, after_block, send_blocks, sent_rest,
  send_rest, transfer_file, after_store, store_blocks, store_file,
}
use ftp_server.Safety.Invariant.{Inside, Inside-quiet, NoFs, IsQuiet, Quiet-call, Quiet-modify}
use ftp_server.Stream.{Stream}
use ftp_server.Safety.Pool.{
  NoFile, Carries, send_state-Keeps, server_handle_signal-Keeps, throttle_pause-Keeps,
}
use ftp_server.Safety.Streams.{splice_stream-Quiet}
use ftp_server.Safety.Replies.{reply-Quiet}

NoFile-NoFs : (e : Event) → NoFile e → NoFs e
NoFile-NoFs (fs op p) h = absurd h
NoFile-NoFs _ h = tt

abbrev q : {env : Env} → IsQuiet (Inside env)
q = Inside-quiet

pub Inside-carries : {env : Env} → Carries (Inside env)
Inside-carries = record {
  stable = q.stable;
  event = λ s e n h. q.event s e (NoFile-NoFs e n) h;
  update = q.update;
  pool = λ s h. (h.pool, h.has_pool);
  fill = λ s buf h. record {
    logged_in = h.logged_in;
    root = h.root;
    home = h.home;
    has_root = h.has_root;
    pool = buf;
    has_pool = refl;
    dirs = h.dirs;
    cwd = h.cwd;
    confined = h.confined;
    user_set = h.user_set;
  };
}

module _ {env : Env} where
  pub send_state-Inside :
      (type : StateChange) → type ≢ t_login → Keeps env (Inside env) (send_state type)
  send_state-Inside type n = send_state-Keeps Inside-carries type n

  pub server_handle_signal-Inside : Keeps env (Inside env) server_handle_signal
  server_handle_signal-Inside = server_handle_signal-Keeps Inside-carries

  pub throttle_pause-Inside : Keeps env (Inside env) throttle_pause
  throttle_pause-Inside = throttle_pause-Keeps Inside-carries

  accept_failed-Inside : (e : ℕ) (r : Ret) → Keeps env (Inside env) (accept_failed e r)
  unfolding accept_failed
  accept_failed-Inside e r = search (keeps_rules, reply-Quiet q)

  accepted_conn-Inside : (a : Answer ℕ) → Keeps env (Inside env) (accepted_conn a)
  unfolding accepted_conn
  accepted_conn-Inside (good fd) = Keeps-pure _
  accepted_conn-Inside (bad e) =
      search
        (keeps_rules, Keeps-set_errno q.stable, server_handle_signal-Inside, accept_failed-Inside)
        depth 9

  pub accept_data_conn-Inside : Keeps env (Inside env) accept_data_conn
  unfolding accept_data_conn
  accept_data_conn-Inside = search (keeps_rules, Quiet-call q, tt, accepted_conn-Inside)

module _ {env : Env} where
  spliced-Inside :
      (again : Option ℤ → Option ℤ → M Spliced) (o i : Option ℤ) (a : Answer ℕ)
      → ((o i : Option ℤ) → Keeps env (Inside env) (again o i))
      → Keeps env (Inside env) (spliced again o i a)
  unfolding spliced
  spliced-Inside again o i (good n) k = Keeps-pure _
  spliced-Inside again o i (bad e) k =
      Keeps-if _ _ _
        (Keeps-bind _ _ server_handle_signal-Inside λ signal. Keeps-if _ _ _ (k o i) (Keeps-pure _))
        (Keeps-pure _)

  splice_loop-Inside :
      (f : ℕ) (out in_ : Stream) (count : ℕ) (o i : Option ℤ)
      → Keeps env (Inside env) (splice_loop f out in_ count o i)
  unfolding splice_loop
  splice_loop-Inside zero out in_ count o i = search keeps_rules
  splice_loop-Inside (suc f) out in_ count o i =
      Keeps-bind _ _ (splice_stream-Quiet q out o in_ i count) (λ r.
        spliced-Inside _ r.out_offset r.in_offset r.ret
          (λ o i. splice_loop-Inside f out in_ count o i))

  splice-Inside :
      (out in_ : Stream) (count : ℕ) (o i : Option ℤ)
      → Keeps env (Inside env) (splice out in_ count o i)
  unfolding splice
  splice-Inside out in_ count o i =
      Keeps-bind _ _ (Keeps-from_env _) (λ f. splice_loop-Inside f out in_ count o i)

  add_xfer-Inside : (len probe : ℕ) → Keeps env (Inside env) (modify (add_xfer len probe))
  add_xfer-Inside len probe = Quiet-modify q _ (λ s. unfold add_xfer in (refl, refl))

  start_xfer-Inside : (t : TimeVal) → Keeps env (Inside env) (modify (start_xfer t))
  start_xfer-Inside t = Quiet-modify q _ (λ s. unfold start_xfer in (refl, refl))

  after_block-Inside :
      (rest : M (Option Ret)) (r : Spliced)
      → Keeps env (Inside env) rest
      → Keeps env (Inside env) (after_block rest r)
  unfolding after_block
  after_block-Inside rest (stops r) k = Keeps-pure _
  after_block-Inside rest (moved zero o) k = Keeps-pure _
  after_block-Inside rest (moved (suc n) o) k =
      Keeps-bind _ _ (add_xfer-Inside xfer_block_size xfer_block_size) λ _.
        Keeps-bind _ _ throttle_pause-Inside
          λ _. Keeps-bind _ _ server_handle_signal-Inside λ signal. Keeps-if _ _ _ k (Keeps-pure _)

  send_blocks-Inside :
      (c d : Stream) (n offset : ℕ) → Keeps env (Inside env) (send_blocks c d n offset)
  unfolding send_blocks
  send_blocks-Inside c d zero offset = Keeps-pure _
  send_blocks-Inside c d (suc n) offset =
      Keeps-bind _ _ (splice-Inside c d _ _ _)
        (λ r. after_block-Inside _ r (send_blocks-Inside c d n (offset + xfer_block_size)))

  sent_rest-Inside : (n : ℕ) (r : Spliced) → Keeps env (Inside env) (sent_rest n r)
  unfolding sent_rest
  sent_rest-Inside n (stops r) = Keeps-pure _
  sent_rest-Inside n (moved m o) = search (keeps_rules, add_xfer-Inside)

  send_rest-Inside :
      (c d : Stream) (offset n : ℕ) (o : Option Ret)
      → Keeps env (Inside env) (send_rest c d offset n o)
  unfolding send_rest
  send_rest-Inside c d offset n (some r) = Keeps-pure _
  send_rest-Inside c d offset n none = Keeps-bind _ _ (splice-Inside c d n _ _) (sent_rest-Inside n)

  pub transfer_file-Inside :
      (c d : Stream) (offset count : ℕ) → Keeps env (Inside env) (transfer_file c d offset count)
  unfolding transfer_file
  transfer_file-Inside c d offset count =
      search
        (keeps_rules, Quiet-call q, tt, start_xfer-Inside, send_blocks-Inside, send_rest-Inside)
        depth 9

  after_store-Inside :
      (rest : Option ℤ → M Ret) (r : Spliced)
      → ((o : Option ℤ) → Keeps env (Inside env) (rest o))
      → Keeps env (Inside env) (after_store rest r)
  unfolding after_store
  after_store-Inside rest (stops r) k = Keeps-pure _
  after_store-Inside rest (moved zero o) k = Keeps-pure _
  after_store-Inside rest (moved (suc n) o) k =
      Keeps-bind _ _ (add_xfer-Inside (suc n) (suc n)) λ _.
        Keeps-bind _ _ throttle_pause-Inside λ _.
          Keeps-bind _ _ server_handle_signal-Inside λ signal. Keeps-if _ _ _ (k o) (Keeps-pure _)

  store_blocks-Inside :
      (f : ℕ) (d c : Stream) (o : Option ℤ) → Keeps env (Inside env) (store_blocks f d c o)
  unfolding store_blocks
  store_blocks-Inside zero d c o = search keeps_rules
  store_blocks-Inside (suc f) d c o =
      Keeps-bind _ _ (splice-Inside d c xfer_block_size o none)
        (λ r. after_store-Inside (store_blocks f d c) r (store_blocks-Inside f d c))

  pub store_file-Inside : (d c : Stream) → Keeps env (Inside env) (store_file d c)
  unfolding store_file
  store_file-Inside d c =
      search (keeps_rules, Quiet-call q, tt, start_xfer-Inside, store_blocks-Inside) depth 9
