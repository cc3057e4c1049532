-- ===== src/Server/Listen/FirstFree.antt =====
-- server.c, `pasv_listen`: the port that it takes.
use mathlib.Core.Path.{subst}
use ftp_server.Prelude.{
  ℕ, zero, suc, ◌+◌, ◌-◌, ◌≤◌, ◌<◌, ◌≡◌, ◌≢◌, refl, sym, ap, ◌∙◌, Bool, true, false, ◌∷◌, Option,
  none, some, ◌==◌, ==_iff, if◌then◌else◌, arith, Bytes,
}
use ftp_server.Machine.Types.{
  SockAddr, Answer, good, bad, History, sets_option, binds, listens, asks_name, Env, Machine,
  Outcome, done, crash, looping,
}
use ftp_server.Machine.Errno.{eaddrinuse}
use ftp_server.Machine.Monad.{M, pure, ◌>>=◌, ◌>>◌, call, set_errno, keep_errno, from_env}
use ftp_server.Server.Listen.{
  after_bind, bind_ports, port_named, after_listen, listen_at, pasv_listen,
}

-- The history after `n` binds of a socket, to the ports from `port` on, in their order.
abbrev pub tried : ℕ → ℕ → ℕ → History → History
tried fd port zero h = h
tried fd port (suc n) h = binds fd (port + n) ∷ tried fd port n h

-- All of these binds failed, as their ports were in use.
abbrev pub AllInUse : Env → ℕ → ℕ → ℕ → History → Type 0
AllInUse env fd port zero h = Unit
AllInUse env fd port (suc n) h =
    AllInUse env fd port n h × (env.bind (tried fd port (suc n) h) ≡ some eaddrinuse)

-- The socket has the first free port from `start` on, `count` ports on and before `end`: the history
-- that is left, of which `at_bind` is the part up to the bind.
pub record HasFirstFree (env : Env) (fd start end : ℕ) (h at_bind : History) : Type 0 where
  pub count : ℕ
  pub in_range : start + count < end
  pub in_use : AllInUse env fd start count h
  pub free : env.bind at_bind ≡ none
  pub binds : at_bind ≡ tried fd start (suc count) h

-- Why there is no port: none of the range is free, or another error of a call.
pub data NoPort (env : Env) (fd start end : ℕ) (h : History) : History → Type 0 where
  all_in_use :
      AllInUse env fd start (end - start) h
      → NoPort env fd start end h (tried fd start (end - start) h)
  bind_failed :
      (n e : ℕ)
      → AllInUse env fd start n h
      → env.bind (tried fd start (suc n) h) ≡ some e
      → e ≢ eaddrinuse
      → NoPort env fd start end h (tried fd start (suc n) h)
  listen_failed :
      (e : ℕ) (at_bind : History)
      → HasFirstFree env fd start end h at_bind
      → env.listen (listens fd ∷ at_bind) ≡ some e
      → NoPort env fd start end h (listens fd ∷ at_bind)
  name_failed :
      (e : ℕ) (at_bind : History)
      → HasFirstFree env fd start end h at_bind
      → env.getsockname (asks_name fd ∷ listens fd ∷ at_bind) ≡ bad e
      → NoPort env fd start end h (asks_name fd ∷ listens fd ∷ at_bind)

-- The port is listened on, and named.
pub record Listens (env : Env) (fd start end : ℕ) (h : History) (port : Bytes) (t : History)
    : Type 0 where
  pub at_bind : History
  pub first : HasFirstFree env fd start end h at_bind
  pub listening : env.listen (listens fd ∷ at_bind) ≡ none
  pub name : SockAddr
  pub named : env.getsockname t ≡ good name
  pub is_port : port ≡ name.sin_port
  pub trace : t ≡ asks_name fd ∷ listens fd ∷ at_bind

abbrev pub IsListening : Env → ℕ → ℕ → ℕ → History → Outcome (Option Bytes) → Type 0
IsListening env fd start end h (done (some port) s) = Listens env fd start end h port s.trace
IsListening env fd start end h (done none s) = NoPort env fd start end h s.trace
IsListening env fd start end h (crash s) = ⊥
IsListening env fd start end h (looping s) = ⊥

module _ (env : Env) (fd start end : ℕ) (h : History) where
  abbrev Result : Outcome (Option Bytes) → Type 0
  Result = IsListening env fd start end h

  after_name :
      (at_bind : History) (s : Machine) (a : Answer SockAddr)
      → HasFirstFree env fd start end h at_bind
      → s.trace ≡ listens fd ∷ at_bind
      → env.listen (listens fd ∷ at_bind) ≡ none
      → env.getsockname (asks_name fd ∷ s.trace) ≡ a
      → Result (port_named a env (record s { trace = asks_name fd ∷ s.trace }))
  unfolding port_named set_errno pure ◌>>=◌
  after_name at_bind s (bad e) first path l a =
      subst (λ t. NoPort env fd start end h (asks_name fd ∷ t)) (sym path)
        (name_failed e at_bind first (ap (λ t. env.getsockname (asks_name fd ∷ t)) (sym path) ∙ a))
  after_name at_bind s (good sa) first path l a = record {
    name = sa;
    is_port = refl;
    at_bind = at_bind;
    first = first;
    listening = l;
    named = a;
    trace = ap (λ t. asks_name fd ∷ t) path;
  }

  after_listen-Result :
      (at_bind : History) (s : Machine) (o : Option ℕ)
      → HasFirstFree env fd start end h at_bind
      → s.trace ≡ listens fd ∷ at_bind
      → env.listen (listens fd ∷ at_bind) ≡ o
      → Result (after_listen fd o env s)
  unfolding after_listen set_errno pure call ◌>>=◌
  after_listen-Result at_bind s (some e) first path l =
      subst (NoPort env fd start end h) (sym path) (listen_failed e at_bind first l)
  after_listen-Result at_bind s none first path l = after_name at_bind s _ first path l refl

  -- Behind a bind that succeeded.
  listen_at-bound :
      (at_bind : History) (s : Machine) (port : ℕ)
      → HasFirstFree env fd start end h at_bind
      → s.trace ≡ at_bind
      → port < end
      → Result (listen_at fd end (some port) env s)
  unfolding listen_at call ◌>>=◌
  listen_at-bound at_bind s port first path lt =
      let other : (port == end) ≡ false = ground (arith, lt) in
      rw (other) (
        after_listen-Result at_bind _ _ first (ap (λ t. listens fd ∷ t) path)
          (ap (λ t. env.listen (listens fd ∷ t)) (sym path)))

  -- The search goes on, or ends with the error.
  goes_on :
      (b : Bool) (rest : M (Option ℕ)) (s : Machine)
      → (b ≡ true → Result ((rest >>= listen_at fd end) env s))
      → (b ≡ false → NoPort env fd start end h s.trace)
      → Result (((if b then rest else pure none) >>= listen_at fd end) env s)
  unfolding listen_at pure ◌>>=◌
  goes_on true rest s p q = p refl
  goes_on false rest s p q = q refl

  after_bind-Result :
      (rest : M (Option ℕ)) (k port : ℕ) (s : Machine) (o : Option ℕ)
      → start + k < end
      → port ≡ start + k
      → s.trace ≡ tried fd start (suc k) h
      → AllInUse env fd start k h
      → env.bind (tried fd start (suc k) h) ≡ o
      → ((t : Machine)
          → t.trace ≡ tried fd start (suc k) h
          → AllInUse env fd start (suc k) h
          → Result ((rest >>= listen_at fd end) env t))
      → Result ((after_bind rest port o >>= listen_at fd end) env s)
  unfolding after_bind set_errno pure ◌>>=◌
  after_bind-Result rest k port s none lt at path used e go =
      listen_at-bound (tried fd start (suc k) h) s port
        (record { count = k; in_range = lt; in_use = used; free = e; binds = refl }) path
        (omega (arith, lt, at))
  after_bind-Result rest k port s (some c) lt at path used e go =
      goes_on (c == eaddrinuse) rest (record s { errno = c })
        (λ y.
          let same : c ≡ eaddrinuse = (==_iff c eaddrinuse).0 y in
          go (record s { errno = c }) path (used, e ∙ ap some same))
        (λ n.
          subst (NoPort env fd start end h) (sym path)
            (bind_failed k c used e (λ y. ground (arith, n, y))))

  -- `n` ports are left, at `port`.
  bind_ports-Result :
      (n k port : ℕ) (s : Machine)
      → start < end
      → k + n ≡ end - start
      → port ≡ start + k
      → s.trace ≡ tried fd start k h
      → AllInUse env fd start k h
      → Result ((bind_ports n fd port >>= listen_at fd end) env s)
  unfolding bind_ports listen_at call pure ◌>>=◌
  bind_ports-Result zero k port s usable left at path used =
      let all : k ≡ end - start = omega (arith, left) in
      let last : (port == end) ≡ true = ground (arith, usable, left, at) in
      rw (last) (
        subst (NoPort env fd start end h) (sym (path ∙ ap (λ n. tried fd start n h) all))
          (all_in_use (subst (λ n. AllInUse env fd start n h) all used)))
  bind_ports-Result (suc n) k port s usable left at path used =
      let same : binds fd port ∷ s.trace ≡ tried fd start (suc k) h =
        ap (λ p. binds fd p ∷ s.trace) at ∙ ap (λ t. binds fd (start + k) ∷ t) path in
      after_bind-Result (bind_ports n fd (suc port)) k port
        (record s { trace = binds fd port ∷ s.trace }) _ (omega (arith, usable, left)) at same used
        (ap env.bind (sym same))
        (λ t p u.
          bind_ports-Result n (suc k) (suc port) t usable (omega (arith, left)) (omega (arith, at))
            p u)

option_set :
    {A : Type 0} (R : Outcome A → Type 0) (o : Option ℕ) (m : M A) (env : Env) (s : Machine)
    → ((t : Machine) → t.trace ≡ s.trace → R (m env t))
    → R ((keep_errno o >> m) env s)
unfolding keep_errno set_errno pure ◌>>=◌
option_set R none m env s k = k s refl
option_set R (some e) m env s k = k (record s { errno = e }) refl

-- In a configuration whose first port is not above its last, `pasv_listen` always returns: with the
-- name of the first port of the range that is not in use, all ports before it tried in their order and
-- found in use, and the socket listening; or with an error, because every port of the range is in use,
-- or because a bind failed for another reason, or the listen or the naming of the bound socket did.
pub pasv_listen-IsListening :
    (env : Env) (fd : ℕ) (s : Machine)
    → env.config.pasv_port_start ≤ env.config.pasv_port_end
    → IsListening env fd env.config.pasv_port_start
        (env.config.pasv_port_end + 1)
        (sets_option fd ∷ s.trace)
        (pasv_listen fd env s)
unfolding pasv_listen call from_env ◌>>=◌
pasv_listen-IsListening env fd s usable =
    let start = env.config.pasv_port_start in
    let end = env.config.pasv_port_end + 1 in
    let h = sets_option fd ∷ s.trace in
    option_set (IsListening env fd start end h) (env.setsockopt h) _ env (record s { trace = h })
      (λ t p.
        bind_ports-Result env fd start end h (end - start) 0 start t (omega (arith, usable))
          (omega arith) (omega arith) p tt)
