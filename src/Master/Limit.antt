-- ===== src/Master/Limit.antt =====
-- daemon.c, `daemon_main`: there are never more clients than the configuration allows.
use ftp_server.Prelude.{
  ℕ, ◌≤◌, ◌<◌, ◌≡◌, refl, Bool, true, false, List, [], ◌∷◌, Option, none, some, leb, if◌then◌else◌,
  arith, inl, inr, Option-cases,
}
use ftp_server.Machine.Types.{
  Ret, ftp_success, ftp_error, ftp_quit, ftp_fail, ftp_abor, Flags, StateChange,
}
use ftp_server.Auth.{is_success}
use ftp_server.Master.Children.{Child, new_client, remove_client, count_clients}
use ftp_server.Master.Daemon.{
  reap, daemon_handle_signal, pre_server, Forked, not_forked, in_child, in_parent, Incoming,
  accept_error, client_at, add_new, after_fork, handle_client, Header, header, unreadable, Body,
  no_body, body, recv_known, recv_state, Polled, interrupted, poll_error, found, Round, take_client,
  take_message, goes, take_poll, after_signal, round, next_round, daemon_main,
}
use ftp_server.Master.Counting.{count-add_client, count-at_client, count-remove_client}

module _ (n : ℕ) where
  abbrev Within : List Child → Type 0
  Within head = count_clients head ≤ n

  abbrev Reaped : Option (List Child) → Type 0
  Reaped none = Unit
  Reaped (some head) = Within head

  reap-Within : (head : List Child) (waited : Option ℕ) → Within head → Reaped (reap head waited)
  unfolding reap
  reap-Within head none h = tt
  reap-Within head (some pid) h = elim (Option-cases (remove_client head pid)) [
    | inl e ↦ rw (e) tt
    | inr (left, e) ↦ rw (e) (omega (arith, h, count-remove_client head left pid e))
  ]

  abbrev Handled : Option (Ret × List Child) → Type 0
  Handled none = Unit
  Handled (some r) = Within r.1

  handled :
      (b : Bool) (o : Option (List Child)) (r : Ret) (head : List Child)
      → Reaped o
      → Within head
      → Handled (
          if b
          then elim o [ none ↦ none | some left ↦ some (ftp_success, left) ]
          else some (r, head))
  handled true none r head k h = tt
  handled true (some left) r head k h = k
  handled false o r head k h = h

  daemon_handle_signal-Within :
      (head : List Child) (f : Flags) (waited : Option ℕ)
      → Within head
      → Handled (daemon_handle_signal head f waited)
  unfolding daemon_handle_signal
  daemon_handle_signal-Within head f waited h =
      handled f.sigchld (reap head waited) _ head (reap-Within head waited h) h

  room :
      (b : Bool) (head : List Child)
      → leb n (count_clients head) ≡ b
      → is_success (if b then ftp_error else ftp_success) ≡ true
      → count_clients head < n
  unfolding is_success
  room true head e s = cc
  room false head e s = ground arith

  added :
      (b : Bool) (head : List Child) (pid addr : ℕ)
      → count_clients head < n
      → Within (add_new head (new_client b pid addr)).1
  unfolding add_new new_client
  added false head pid addr h = omega (arith, h)
  added true head pid addr h = rw (count-add_client head _) h

  after_fork-Within :
      (head : List Child) (memory : Bool) (addr : ℕ) (forked : Forked)
      → count_clients head < n
      → Within (after_fork head memory addr forked).1
  unfolding after_fork
  after_fork-Within head memory addr not_forked h = omega (arith, h)
  after_fork-Within head memory addr in_child h = omega (arith, h)
  after_fork-Within head memory addr (in_parent pid) h = added memory head pid addr h

  let_in :
      (b : Bool) (head : List Child) (r : Ret × List Child)
      → (b ≡ true → Within r.1)
      → Within head
      → Within (if b then r else (ftp_success, head)).1
  let_in true head r k h = k refl
  let_in false head r k h = h

  handle_client-Within :
      (head : List Child) (incoming : Incoming) (forked : Forked) (memory : Bool)
      → Within head
      → Within (handle_client (some n) head incoming forked memory).1
  unfolding handle_client pre_server
  handle_client-Within head (accept_error eintr) forked memory h = h
  handle_client-Within head (client_at addr) forked memory h =
      let_in _ head _
        (λ s.
          after_fork-Within head memory addr forked (room (leb n (count_clients head)) head refl s))
        h

  recv_known-Within :
      (head : List Child) (pid : ℕ) (type : StateChange) (b : Body) (client : Option Child)
      → Within head
      → Within (recv_known head pid type b client).1
  unfolding recv_known
  recv_known-Within head pid type no_body client h = h
  recv_known-Within head pid type (body text info) none h = h
  recv_known-Within head pid type (body text info) (some child) h =
      rw (count-at_client head pid _) h

  recv_state-Within :
      (head : List Child) (h : Header) (b : Body) → Within head → Within (recv_state head h b).1
  unfolding recv_state
  recv_state-Within head unreadable b w = w
  recv_state-Within head (header pid type) b w = recv_known-Within head pid type b _ w

  take_client-Within :
      (head : List Child) (o : Option (Incoming × (Forked × Bool)))
      → Within head
      → Within (take_client (some n) head o).1
  unfolding take_client
  take_client-Within head none w = w
  take_client-Within head (some (i, (f, m))) w = handle_client-Within head i f m w

  or_same :
      (b : Bool) (r s : Ret × List Child) → Within r.1 → Within s.1 → Within (if b then r else s).1
  or_same true r s v w = v
  or_same false r s v w = w

  take_message-Within :
      (r : Ret × List Child) (o : Option (Header × Body)) → Within r.1 → Within (take_message r o).1
  unfolding take_message
  take_message-Within (ret, head) none w = w
  take_message-Within (ret, head) (some (h, b)) w =
      or_same (is_success ret) _ _ (recv_state-Within head h b w) w

  goes-Within : (r : Ret × List Child) → Within r.1 → Within (goes r).1
  unfolding goes
  goes-Within (ftp_success, head) w = w
  goes-Within (ftp_error, head) w = w
  goes-Within (ftp_quit, head) w = w
  goes-Within (ftp_fail, head) w = w
  goes-Within (ftp_abor, head) w = w

  take_poll-Within :
      (head : List Child) (p : Polled) → Within head → Within (take_poll (some n) head p).1
  unfolding take_poll
  take_poll-Within head interrupted w = w
  take_poll-Within head poll_error w = w
  take_poll-Within head (found client message) w =
      goes-Within _ (take_message-Within _ message (take_client-Within head client w))

  abbrev Gone : Option (Option Ret × List Child) → Type 0
  Gone none = Unit
  Gone (some r) = Within r.1

  polled :
      (b : Bool) (r s : Option Ret × List Child)
      → Within r.1
      → Within s.1
      → Within (if b then r else s).1
  polled true r s v w = v
  polled false r s v w = w

  after_signal-Within :
      (p : Polled) (o : Option (Ret × List Child)) → Handled o → Gone (after_signal (some n) p o)
  unfolding after_signal
  after_signal-Within p none w = tt
  after_signal-Within p (some (ret, head)) w =
      polled (is_success ret) _ _ (take_poll-Within head p w) w

  round-Within : (head : List Child) (r : Round) → Within head → Gone (round (some n) head r)
  unfolding round
  round-Within head r w =
      after_signal-Within r.polled _ (daemon_handle_signal-Within head r.signal_flag r.waited w)

  -- The list at the end, if there is one.
  abbrev pub AtMost : Option (List Child × List ℕ) → Type 0
  AtMost none = Unit
  AtMost (some r) = count_clients r.0 ≤ n

  next_round-AtMost :
      (rest : List Child → Option (List Child × List ℕ)) (o : Option (Option Ret × List Child))
      → Gone o
      → ((head : List Child) → Within head → AtMost (rest head))
      → AtMost (next_round rest o)
  unfolding next_round
  next_round-AtMost rest none g k = tt
  next_round-AtMost rest (some (none, head)) g k = k head g
  next_round-AtMost rest (some (some ret, head)) g k = g

  -- Whatever happens in the rounds of the master process, the clients on its list are never more than
  -- the configured maximum, if they were not at the start.
  pub daemon_main-AtMost :
      (rounds : List Round) (head : List Child)
      → count_clients head ≤ n
      → AtMost (daemon_main (some n) rounds head)
  unfolding daemon_main
  daemon_main-AtMost [] head w = w
  daemon_main-AtMost (r ∷ rounds) head w =
      next_round-AtMost (daemon_main (some n) rounds) _ (round-Within head r w)
        (λ head'. daemon_main-AtMost rounds head')
