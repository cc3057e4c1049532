-- ===== src/Safety/Pool.antt =====
-- The messages to the master process and the pauses of a transfer, for any invariant that has a pool.
use mathlib.Core.Path.{subst}
use ftp_server.Prelude.{ℕ, ℤ, pos, negsuc, ◌≡◌, refl, ◌≢◌, ◌∷◌, Option, none, some, Bytes}
use ftp_server.Machine.Types.{
  Env, Event, fs, seeks, sends_file, reads_data, writes_data, Machine, Session, StateChange,
  t_login, t_chdir, t_xfer_start, t_xfer, t_xfer_stop, History,
}
use ftp_server.Machine.Monad.{M, ◌>>=◌, gets, modify, deref, set_state_pool, call}
use ftp_server.Machine.Keeps.{
  Ends, Keeps, keeps_rules, Keeps-bind, Keeps-pure, Keeps-keep_errno, Keeps-call, Keeps-modify,
  IsStable,
}
use ftp_server.Signals.{server_handle_signal}
use ftp_server.State.{send_fun, write_state, send_state}
use ftp_server.Transfer.{pause_for, reset_probe, new_probe, throttle_after, throttle_pause}
use ftp_server.Safety.Invariant.{Leaves}

-- Calls that touch no file.
abbrev pub NoFile : Event → Type 0
NoFile (fs op path) = ⊥
NoFile (seeks fd n) = ⊥
NoFile (sends_file c d o n) = ⊥
NoFile (reads_data fd n) = ⊥
NoFile (writes_data fd n) = ⊥
NoFile _ = Unit {0}

-- An invariant under which the pool of messages is there, and which is kept by messages, by calls
-- that touch no file, and by updates of neither the login nor the working directory.
pub record Carries (P : Machine → Type 0) : Type 0 where
  pub stable : IsStable P
  pub event : (s : Machine) (e : Event) → NoFile e → P s → P (record s { trace = e ∷ s.trace })
  pub update :
      (s : Machine) (f : Session → Session)
      → Leaves f
      → P s
      → P (record s { session = f s.session })
  pub pool : (s : Machine) → P s → (buf : Bytes) × (s.state_pool ≡ some buf)
  pub fill : (s : Machine) (buf : Bytes) → P s → P (record s { state_pool = some buf })

module _ {env : Env} {P : Machine → Type 0} (c : Carries P) where
  pub Carries-call :
      {A : Type 0} (e : Event) (f : Env → History → A) → NoFile e → Keeps env P (call e f)
  Carries-call e f n = Keeps-call e f (λ s h. c.event s e n h)

  pub Carries-modify : (f : Session → Session) → Leaves f → Keeps env P (modify f)
  Carries-modify f l = Keeps-modify f (λ s h. c.update s f l h)

Ends-deref :
    {A : Type 0} (P : Machine → Type 0) (env : Env) (o : Option Bytes) (f : Bytes → M A)
    (s : Machine) (a : Bytes)
    → o ≡ some a
    → Ends P (f a env s)
    → Ends P ((deref o >>= f) env s)
unfolding deref ◌>>=◌
Ends-deref P env none f s a e h = cc
Ends-deref P env (some b) f s a e h =
    let same : a ≡ b = cc in subst (λ c. Ends P (f c env s)) same h

module _ {env : Env} {P : Machine → Type 0} (c : Carries P) where
  set_state_pool-Keeps : (buf : Bytes) → Keeps env P (set_state_pool (some buf))
  unfolding set_state_pool
  set_state_pool-Keeps buf = record { at = λ s h. c.fill s buf h }

  -- The assertion of `send_state` holds.
  state_pool-bind :
      {A : Type 0} (f : Bytes → M A)
      → ((buf : Bytes) → Keeps env P (f buf))
      → Keeps env P (gets (λ s. s.state_pool) >>= λ pool. deref pool >>= f)
  unfolding gets deref ◌>>=◌
  state_pool-bind f k = record {
    at = λ s h.
        Ends-deref P env s.state_pool f s (c.pool s h).0 (c.pool s h).1 ((k (c.pool s h).0).at s h);
  }

  write_state-Keeps : (type : StateChange) (o : Option Bytes) → Keeps env P (write_state type o)
  unfolding write_state
  write_state-Keeps type none = Keeps-pure _
  write_state-Keeps type (some payload) =
      search (keeps_rules, set_state_pool-Keeps, Carries-call c, Keeps-keep_errno c.stable) depth 9

  send_fun-Keeps :
      (type : StateChange) (buf : Bytes) → type ≢ t_login → Keeps env P (send_fun type buf)
  unfolding send_fun
  send_fun-Keeps t_login buf n = absurd (n refl)
  send_fun-Keeps t_chdir buf n = search keeps_rules
  send_fun-Keeps t_xfer_start buf n = search keeps_rules
  send_fun-Keeps t_xfer buf n = search keeps_rules
  send_fun-Keeps t_xfer_stop buf n = search keeps_rules

  pub send_state-Keeps : (type : StateChange) → type ≢ t_login → Keeps env P (send_state type)
  unfolding send_state
  send_state-Keeps type n =
      state_pool-bind _ (λ buf. Keeps-bind _ _ (send_fun-Keeps type buf n) (write_state-Keeps type))

  pub server_handle_signal-Keeps : Keeps env P server_handle_signal
  unfolding server_handle_signal
  server_handle_signal-Keeps = search (keeps_rules, Carries-call c, tt)

  pause_for-Keeps : (n rate diff : ℕ) → Keeps env P (pause_for n rate diff)
  unfolding pause_for
  pause_for-Keeps n rate diff = search (keeps_rules, Carries-call c, tt) depth 9

  reset_probe-Keeps : Keeps env P reset_probe
  unfolding reset_probe
  reset_probe-Keeps =
      Keeps-bind _ _ (Carries-call c _ _ tt) λ now. Carries-modify c _ (λ s. (refl, refl))

  new_probe-Keeps : Keeps env P new_probe
  unfolding new_probe
  new_probe-Keeps =
      Keeps-bind _ _ (send_state-Keeps t_xfer (λ e. cc))
        λ _. Keeps-bind _ _ reset_probe-Keeps λ _. Carries-modify c _ (λ s. (refl, refl))

  throttle_after-Keeps : (n : ℕ) (d : ℤ) → Keeps env P (throttle_after n d)
  unfolding throttle_after
  throttle_after-Keeps n (negsuc m) = search (keeps_rules, reset_probe-Keeps)
  throttle_after-Keeps n (pos diff) = search (keeps_rules, new_probe-Keeps, pause_for-Keeps)

  pub throttle_pause-Keeps : Keeps env P throttle_pause
  unfolding throttle_pause
  throttle_pause-Keeps = search (keeps_rules, Carries-call c, tt, throttle_after-Keeps)
