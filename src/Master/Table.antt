-- ===== src/Master/Table.antt =====
-- child.c: the list as a table from pids to children, and who it is that a message or a death changes.
use ftp_server.Prelude.{
  take, ℕ, ◌≡◌, ◌≢◌, refl, ap, ◌∙◌, Bool, true, false, List, [], ◌∷◌, Option, none, some, ◌==◌,
  if◌then◌else◌, arith,
}
use ftp_server.Machine.Types.{
  Ret, ftp_success, StateChange, t_login, t_chdir, t_xfer_start, t_xfer, t_xfer_stop, XferInfo,
}
use ftp_server.Master.Children.{Child, keep_first, remove_client, find_client, at_client}
use ftp_server.Master.Daemon.{
  reap, daemon_handle_signal, header, body, recv_fun, recv_known, recv_state, Round, after_signal,
  round,
}

recv_fun_pid :
    (type : StateChange) (text : List ℕ) (info : XferInfo) (c : Child)
    → (recv_fun type text info c).pid ≡ c.pid
unfolding recv_fun
recv_fun_pid t_login text info c = refl
recv_fun_pid t_chdir text info c = refl
recv_fun_pid t_xfer_start text info c = refl
recv_fun_pid t_xfer text info c = refl
recv_fun_pid t_xfer_stop text info c = refl

differs : (a pid q : ℕ) → (a == pid) ≡ true → q ≢ pid → (a == q) ≡ false
differs a pid q e n = ground arith

module _ (pid : ℕ) (f : Child → Child) (keeps : (c : Child) → (f c).pid ≡ c.pid) where
  own_if :
      (b : Bool) (c d : Child) (cs rest : List Child) (o : Option Child)
      → (c.pid == pid) ≡ b
      → (o ≡ some d → find_client rest pid ≡ some (f d))
      → (if b then some c else o) ≡ some d
      → find_client (if b then f c ∷ cs else c ∷ rest) pid ≡ some (f d)
  unfolding find_client
  own_if true c d cs rest o e k h =
      let same : c ≡ d = cc in
      let test : ((f c).pid == pid) ≡ true = ap (λ n. n == pid) (keeps c) ∙ e in
      rw (test) (ap (λ x. some (f x)) same)
  own_if false c d cs rest o e k h = rw (e) (k h)

  find-at_client :
      (head : List Child) (d : Child)
      → find_client head pid ≡ some d
      → find_client (at_client head pid f) pid ≡ some (f d)
  unfolding find_client at_client
  find-at_client [] d h = cc
  find-at_client (c ∷ cs) d h =
      own_if (c.pid == pid) c d cs (at_client cs pid f) (find_client cs pid) refl
        (find-at_client cs d) h

  other_if :
      (b : Bool) (c : Child) (cs rest : List Child) (q : ℕ)
      → (c.pid == pid) ≡ b
      → q ≢ pid
      → find_client rest q ≡ find_client cs q
      → find_client (if b then f c ∷ cs else c ∷ rest) q ≡ find_client (c ∷ cs) q
  unfolding find_client
  other_if true c cs rest q e n k =
      let old : (c.pid == q) ≡ false = differs c.pid pid q e n in
      let new : ((f c).pid == q) ≡ false = ap (λ m. m == q) (keeps c) ∙ old in rw (old, new)
  other_if false c cs rest q e n k = rw (k)

  find-at_client_other :
      (head : List Child) (q : ℕ)
      → q ≢ pid
      → find_client (at_client head pid f) q ≡ find_client head q
  unfolding at_client
  find-at_client_other [] q n = refl
  find-at_client_other (c ∷ cs) q n =
      other_if (c.pid == pid) c cs (at_client cs pid f) q refl n (find-at_client_other cs q n)

-- What a message leaves of the list.
pub record IsOwn (head after : List Child) (pid : ℕ) (child : Child) : Type 0 where
  pub own : find_client after pid ≡ some child
  pub others : (q : ℕ) → q ≢ pid → find_client after q ≡ find_client head q

pub recv_state-recv_fun :
    (head : List Child) (pid : ℕ) (type : StateChange) (text : List ℕ) (info : XferInfo)
    (child : Child)
    → find_client head pid ≡ some child
    → ((recv_state head (header pid type) (body text info)).0 ≡ ftp_success)
      × IsOwn head
          (recv_state head (header pid type) (body text info)).1
          pid
          (recv_fun type text info child)
unfolding recv_state recv_known
recv_state-recv_fun head pid type text info child e =
    let f = recv_fun type text info in
    rw (e) (
      refl,
      record {
        own = find-at_client pid f (recv_fun_pid type text info) head child e;
        others = find-at_client_other pid f (recv_fun_pid type text info) head;
      },
    )

-- What a message says of its client: each field is told by some types of message, and no other changes
-- it. Of a file's name the first 255 bytes are kept.
pub record IsTold (type : StateChange) (text : List ℕ) (info : XferInfo) (old new : Child)
    : Type 0 where
  pub pid : new.pid ≡ old.pid
  pub client_addr : new.client_addr ≡ old.client_addr
  pub login_name : new.login_name ≡ elim type [ t_login ↦ text | _ ↦ old.login_name ]
  pub path : new.path ≡ elim type [ t_chdir ↦ text | _ ↦ old.path ]
  pub filename : new.filename ≡ elim type [ t_xfer_start ↦ take 255 text | _ ↦ old.filename ]
  pub xfer_info :
      new.xfer_info ≡ elim type [ t_xfer ↦ info | t_xfer_stop ↦ info | _ ↦ old.xfer_info ]
  pub xfer_in_progress :
      new.xfer_in_progress
      ≡ elim type [ t_xfer_start ↦ true | t_xfer_stop ↦ false | _ ↦ old.xfer_in_progress ]

recv_fun-IsTold :
    (type : StateChange) (text : List ℕ) (info : XferInfo) (c : Child)
    → IsTold type text info c (recv_fun type text info c)
unfolding recv_fun
recv_fun-IsTold t_login text info c = record {
  pid = refl;
  client_addr = refl;
  login_name = refl;
  path = refl;
  filename = refl;
  xfer_info = refl;
  xfer_in_progress = refl;
}
recv_fun-IsTold t_chdir text info c = record {
  pid = refl;
  client_addr = refl;
  login_name = refl;
  path = refl;
  filename = refl;
  xfer_info = refl;
  xfer_in_progress = refl;
}
recv_fun-IsTold t_xfer_start text info c = record {
  pid = refl;
  client_addr = refl;
  login_name = refl;
  path = refl;
  filename = refl;
  xfer_info = refl;
  xfer_in_progress = refl;
}
recv_fun-IsTold t_xfer text info c = record {
  pid = refl;
  client_addr = refl;
  login_name = refl;
  path = refl;
  filename = refl;
  xfer_info = refl;
  xfer_in_progress = refl;
}
recv_fun-IsTold t_xfer_stop text info c = record {
  pid = refl;
  client_addr = refl;
  login_name = refl;
  path = refl;
  filename = refl;
  xfer_info = refl;
  xfer_in_progress = refl;
}

-- A message of a client that is on the list is received: the entry of that client becomes one that
-- differs from the old in what the message says, by its type, and the entry of no other client changes.
pub recv_state-IsOwn :
    (head : List Child) (pid : ℕ) (type : StateChange) (text : List ℕ) (info : XferInfo)
    (child : Child)
    → find_client head pid ≡ some child
    → ((recv_state head (header pid type) (body text info)).0 ≡ ftp_success)
      × ((told : Child) × (IsTold type text info child told
            × IsOwn head (recv_state head (header pid type) (body text info)).1 pid told))
recv_state-IsOwn head pid type text info child e =
    let r = recv_state-recv_fun head pid type text info child e in
    (r.0, (recv_fun type text info child, (recv_fun-IsTold type text info child, r.1)))

removes_if :
    (b : Bool) (c : Child) (cs : List Child) (o : Option (List Child)) (p : Option Child)
    (child : Child)
    → (p ≡ some child → (left : List Child) × (o ≡ some left))
    → (if b then some c else p) ≡ some child
    → (left : List Child) × ((if b then some cs else keep_first c o) ≡ some left)
removes_if true c cs o p child k e = (cs, refl)
removes_if false c cs o p child k e = let r = k e in (c ∷ r.0, ap (keep_first c) r.1)

remove_client_returns :
    (list : List Child) (pid : ℕ) (child : Child)
    → find_client list pid ≡ some child
    → (left : List Child) × (remove_client list pid ≡ some left)
unfolding find_client remove_client
remove_client_returns [] pid child e = cc
remove_client_returns (c ∷ cs) pid child e =
    removes_if (c.pid == pid) c cs _ (find_client cs pid) child (remove_client_returns cs pid child)
      e

-- Where a SIGCHLD comes, waitpid gives a client of the list.
abbrev pub Reaps : List Child → Round → Type 0
Reaps head r =
    r.signal_flag.sigchld ≡ true
    → (pid : ℕ) × ((child : Child) × ((r.waited ≡ some pid) × (find_client head pid ≡ some child)))

abbrev Handles : Option (Ret × List Child) → Type 0
Handles o = (x : Ret × List Child) × (o ≡ some x)

Handles-if :
    (b : Bool) (o : Option (List Child)) (r : Ret × List Child)
    → (b ≡ true → (left : List Child) × (o ≡ some left))
    → Handles (if b then elim o [ none ↦ none | some left ↦ some (ftp_success, left) ] else some r)
Handles-if true o r k = let l = k refl in ((ftp_success, l.0), rw (l.1))
Handles-if false o r k = (r, refl)

reap_returns :
    (head : List Child) (waited : Option ℕ) (pid : ℕ) (child : Child)
    → waited ≡ some pid
    → find_client head pid ≡ some child
    → (left : List Child) × (reap head waited ≡ some left)
unfolding reap
reap_returns head waited pid child e f =
    let r = remove_client_returns head pid child f in (r.0, ap (reap head) e ∙ r.1)

-- A round in which each SIGCHLD comes with the death of a client of the list ends without a crash.
pub round_returns :
    (max : Option ℕ) (head : List Child) (r : Round)
    → Reaps head r
    → (result : Option Ret × List Child) × (round max head r ≡ some result)
unfolding round daemon_handle_signal after_signal
round_returns max head r k =
    let h =
      Handles-if r.signal_flag.sigchld (reap head r.waited) _
        (λ e. let d = k e in reap_returns head r.waited d.0 d.1.0 d.1.1.0 d.1.1.1) in
    (_, ap (after_signal max r.polled) h.1)
