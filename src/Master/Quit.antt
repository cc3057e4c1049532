-- ===== src/Master/Quit.antt =====
-- daemon.c: a signal that is none of the children's ends the master process, and its children.
use ftp_server.Prelude.{
  ◌⊎◌, inl, inr, sym, ◌∙◌, ℕ, ◌≡◌, ◌≢◌, refl, ap, Bool, true, false, List, [], ◌∷◌, ◌++◌, Option,
  none, some, All, map, if◌then◌else◌,
}
use ftp_server.Machine.Leads.{none_not_some}
use ftp_server.Master.Table.{Reaps, round_returns}
use ftp_server.Machine.Types.{Ret, ftp_success, ftp_error, ftp_quit, StateChange}
use ftp_server.Signals.{is_set}
use ftp_server.Auth.{is_success}
use ftp_server.Master.Children.{Child, remove_all_clients}
use ftp_server.Master.Daemon.{
  daemon_handle_signal, pre_server, Forked, not_forked, in_child, in_parent, Incoming, accept_error,
  client_at, add_new, after_fork, handle_client, Header, header, unreadable, Body, body, no_body,
  recv_known, recv_state, Polled, poll_error, interrupted, found, Round, take_client, take_message,
  goes, take_poll, after_signal, round, shut_down, next_round, daemon_main,
}

abbrev pub IsParent : Polled → Type 0
IsParent (found (some (i, (in_child, m))) message) = ⊥
IsParent _ = Unit {0}

-- The process that goes through the round is the master: it is not a child that a fork has made.
abbrev pub StaysParent : Round → Type 0
StaysParent r = IsParent r.polled

-- The flags hold a signal, and no SIGCHLD.
pub record Stops (r : Round) : Type 0 where
  pub no_child : r.signal_flag.sigchld ≡ false
  pub caught : is_set r.signal_flag ≡ true

-- A round that the run comes to has a SIGCHLD for which waitpid gives no client of the list.
abbrev pub Crashes : Option ℕ → List Child → List Round → Type 0
Crashes max head [] = ⊥
Crashes max head (r ∷ rounds) =
    (Reaps head r → ⊥)
    ⊎ ((left : List Child) × ((round max head r ≡ some (none, left)) × Crashes max left rounds))

-- The loop has ended: every child that is left gets a SIGTERM.
abbrev pub Quits : Option ℕ → List Child → List Round → Option (List Child × List ℕ) → Type 0
Quits max head rounds none = Crashes max head rounds
Quits max head rounds (some (left, killed)) = killed ≡ map (λ c. c.pid) left

module _ (max : Option ℕ) where
  abbrev NoQuit : Ret × List Child → Type 0
  NoQuit r = r.0 ≢ ftp_quit

  if-NoQuit :
      (b : Bool) (x y : Ret × List Child) → NoQuit x → NoQuit y → NoQuit (if b then x else y)
  if-NoQuit true x y p q = p
  if-NoQuit false x y p q = q

  recv_known-NoQuit :
      (head : List Child) (pid : ℕ) (type : StateChange) (b : Body) (c : Option Child)
      → NoQuit (recv_known head pid type b c)
  unfolding recv_known
  recv_known-NoQuit head pid type no_body c = λ e. cc
  recv_known-NoQuit head pid type (body text info) none = λ e. cc
  recv_known-NoQuit head pid type (body text info) (some child) = λ e. cc

  recv_state-NoQuit : (head : List Child) (h : Header) (b : Body) → NoQuit (recv_state head h b)
  unfolding recv_state
  recv_state-NoQuit head unreadable b = λ e. cc
  recv_state-NoQuit head (header pid type) b = recv_known-NoQuit head pid type b _

  add_new-NoQuit : (head : List Child) (o : Option Child) → NoQuit (add_new head o)
  unfolding add_new
  add_new-NoQuit head none = λ e. cc
  add_new-NoQuit head (some c) = λ e. cc

  accept-NoQuit :
      (b : Bool) (head : List Child) → NoQuit (if b then ftp_success else ftp_error, head)
  accept-NoQuit true head = λ e. cc
  accept-NoQuit false head = λ e. cc

  -- A fork that is not the child's.
  abbrev NotChild : Forked → Type 0
  NotChild in_child = ⊥
  NotChild _ = Unit {0}

  after_fork-NoQuit :
      (head : List Child) (m : Bool) (addr : ℕ) (f : Forked)
      → NotChild f
      → NoQuit (after_fork head m addr f)
  unfolding after_fork
  after_fork-NoQuit head m addr not_forked n = λ e. cc
  after_fork-NoQuit head m addr in_child n = absurd n
  after_fork-NoQuit head m addr (in_parent pid) n = add_new-NoQuit head _

  handle_client-NoQuit :
      (head : List Child) (i : Incoming) (f : Forked) (m : Bool)
      → NotChild f
      → NoQuit (handle_client max head i f m)
  unfolding handle_client
  handle_client-NoQuit head (accept_error b) f m n = accept-NoQuit b head
  handle_client-NoQuit head (client_at addr) f m n =
      if-NoQuit (is_success (pre_server max head)) _ _ (after_fork-NoQuit head m addr f n) (λ e. cc)

  take_message-NoQuit :
      (r : Ret × List Child) (message : Option (Header × Body))
      → NoQuit r
      → NoQuit (take_message r message)
  unfolding take_message
  take_message-NoQuit (r, head) none n = n
  take_message-NoQuit (r, head) (some (h, b)) n =
      if-NoQuit (is_success r) _ _ (recv_state-NoQuit head h b) n

  goes-NoQuit : (r : Ret × List Child) → NoQuit r → (goes r).0 ≢ some ftp_quit
  unfolding goes
  goes-NoQuit (ftp_quit, head) n = absurd (n refl)
  goes-NoQuit (ftp_success, head) n = λ e. cc
  goes-NoQuit (_, head) n = λ e. cc

  take_poll-NoQuit :
      (head : List Child) (p : Polled) → IsParent p → (take_poll max head p).0 ≢ some ftp_quit
  unfolding take_poll take_client
  take_poll-NoQuit head interrupted h = λ e. cc
  take_poll-NoQuit head poll_error h = λ e. cc
  take_poll-NoQuit head (found none message) h =
      goes-NoQuit _ (take_message-NoQuit (ftp_success, head) message (λ e. cc))
  take_poll-NoQuit head (found (some (i, (in_child, m))) message) h = absurd h
  take_poll-NoQuit head (found (some (i, (not_forked, m))) message) h =
      goes-NoQuit _ (take_message-NoQuit _ message (handle_client-NoQuit head i not_forked m tt))
  take_poll-NoQuit head (found (some (i, (in_parent pid, m))) message) h =
      goes-NoQuit _
        (take_message-NoQuit _ message (handle_client-NoQuit head i (in_parent pid) m tt))

  all_killed : (head : List Child) → remove_all_clients head true ≡ map (λ c. c.pid) head
  unfolding remove_all_clients
  all_killed [] = refl
  all_killed (c ∷ cs) = ap (λ l. c.pid ∷ l) (all_killed cs)

  shut_down-Quits :
      (start : List Child) (rounds : List Round) (ret : Ret) (head : List Child)
      → ret ≢ ftp_quit
      → Quits max start rounds (some (head, shut_down ret head))
  unfolding shut_down
  shut_down-Quits start rounds ftp_quit head n = absurd (n refl)
  shut_down-Quits start rounds _ head n = all_killed head

  returns_not_none : (head : List Child) (r : Round) → round max head r ≡ none → Reaps head r → ⊥
  returns_not_none head r e k = let x = round_returns max head r k in none_not_some _ (sym e ∙ x.1)

  one_earlier :
      (head left : List Child) (r : Round) (rounds : List Round) (o : Option (List Child × List ℕ))
      → round max head r ≡ some (none, left)
      → Quits max left rounds o
      → Quits max head (r ∷ rounds) o
  one_earlier head left r rounds none e q = inr (left, (e, q))
  one_earlier head left r rounds (some x) e q = q

  next_round-Quits :
      (rounds : List Round) (rest : List Child → Option (List Child × List ℕ)) (head : List Child)
      (r : Round) (o : Option (Option Ret × List Child))
      → round max head r ≡ o
      → ((left : List Child) → o ≢ some (some ftp_quit, left))
      → ((left : List Child) → Quits max left rounds (rest left))
      → Quits max head (r ∷ rounds) (next_round rest o)
  unfolding next_round
  next_round-Quits rounds rest head r none e n k = inl (returns_not_none head r e)
  next_round-Quits rounds rest head r (some (none, left)) e n k =
      one_earlier head left r rounds (rest left) e (k left)
  next_round-Quits rounds rest head r (some (some ret, left)) e n k =
      shut_down-Quits head (r ∷ rounds) ret left (λ q. n left (ap (λ x. some (some x, left)) q))

  abbrev result_of : Option (Option Ret × List Child) → Option Ret
  result_of none = none
  result_of (some r) = r.0

  polled-NoQuit :
      (b : Bool) (head : List Child) (p : Polled)
      → IsParent p
      → (if b then take_poll max head p else (some ftp_success, head)).0 ≢ some ftp_quit
  polled-NoQuit true head p h = take_poll-NoQuit head p h
  polled-NoQuit false head p h = λ e. cc

  after_signal-NoQuit :
      (p : Polled) (o : Option (Ret × List Child)) (left : List Child)
      → IsParent p
      → after_signal max p o ≢ some (some ftp_quit, left)
  unfolding after_signal
  after_signal-NoQuit p none left h = λ e. cc
  after_signal-NoQuit p (some (ret, head)) left h =
      λ e. polled-NoQuit (is_success ret) head p h (ap result_of e)

  round-NoQuit :
      (head : List Child) (r : Round) (left : List Child)
      → StaysParent r
      → round max head r ≢ some (some ftp_quit, left)
  unfolding round
  round-NoQuit head r left h = after_signal-NoQuit r.polled _ left h

  signal_stops :
      (c s : Bool) (head : List Child) (p : Polled) (dead : Option (Ret × List Child))
      → c ≡ false
      → s ≡ true
      → after_signal max p (if c then dead else some (if s then ftp_quit else ftp_success, head))
        ≡ some (some ftp_success, head)
  unfolding after_signal is_success
  signal_stops true s head p dead e f = cc
  signal_stops false true head p dead e f = refl
  signal_stops false false head p dead e f = cc

  stopped :
      (head : List Child) (r : Round) → Stops r → round max head r ≡ some (some ftp_success, head)
  unfolding round daemon_handle_signal
  stopped head r s =
      signal_stops r.signal_flag.sigchld (is_set r.signal_flag) head r.polled _ s.no_child s.caught

  Stops-Quits :
      (r : Round) (after : List Round) (head : List Child)
      → Stops r
      → Quits max head (r ∷ after) (daemon_main max (r ∷ after) head)
  unfolding daemon_main next_round
  Stops-Quits r after head s =
      let k = shut_down-Quits head (r ∷ after) ftp_success head (λ e. cc) in rw (stopped head r s) k

-- A signal other than SIGCHLD, caught in a round without one, ends the master process in that round at
-- the latest, whatever has happened before and is still to come: every child that is then in the list
-- is sent a SIGTERM. The one other end is a crash, in a round that the run comes to and that has a
-- SIGCHLD for which waitpid gives no child of the list.
pub daemon_main-Quits :
    (max : Option ℕ) (before after : List Round) (r : Round) (head : List Child)
    → All StaysParent before
    → Stops r
    → Quits max head (before ++ (r ∷ after)) (daemon_main max (before ++ (r ∷ after)) head)
unfolding daemon_main
daemon_main-Quits max [] after r head p s = Stops-Quits max r after head s
daemon_main-Quits max (b ∷ before) after r head p s =
    next_round-Quits max (before ++ (r ∷ after)) (daemon_main max (before ++ (r ∷ after))) head b
      (round max head b) refl (λ left. round-NoQuit max head b left p.0)
      (λ left. daemon_main-Quits max before after r left p.1 s)
