-- ===== src/Core/Store/Splice.antt =====
-- core.c, the loop around `splice_stream` of `store_file`: one block of what a client sends.
use ftp_server.Prelude.{
  ℕ, ◌+◌, ◌≤◌, ◌≡◌, ◌≢◌, refl, ap, ◌∙◌, true, false, Option, none, some, ◌==◌, if◌then◌else◌,
  length, take, drop, Bytes, ℤ, pos,
}
use ftp_server.Machine.Types.{
  Ret, ftp_success, ftp_quit, History, Env, Machine, Outcome, done, crash, looping,
}
use ftp_server.Machine.Errno.{eintr}
use ftp_server.Machine.Monad.{M, pure, ◌>>=◌, set_errno}
use ftp_server.Machine.Keeps.{Keeps-then}
use ftp_server.Auth.{is_success}
use ftp_server.Signals.{server_handle_signal}
use ftp_server.Stream.{failed_with}
use ftp_server.Transfer.{Spliced, moved, stops, splice_failed, spliced}
use ftp_server.Safety.Pool.{Carries, server_handle_signal-Keeps}
use ftp_server.Core.Stopped.{no_success}
use ftp_server.Core.Store.Upload.{Upload, overwrite, uploaded, uploaded-NoFile}

-- The first `k` bytes of what the client sends stand in the file from the position on, and elsewhere
-- there is what was there before.
pub record Stored (env : Env) (d c : ℕ) (start base : Upload) (from k : ℕ) (s : Machine)
    : Type 0 where
  pub pool : (buf : Bytes) × (s.state_pool ≡ some buf)
  pub fits : k ≤ length base.unread
  pub got :
      (uploaded env d c start s.trace).content ≡ overwrite from (take k base.unread) base.content

-- And no more has been read.
pub record Storing (env : Env) (d c : ℕ) (start base : Upload) (from k : ℕ) (s : Machine)
    : Type 0 where
  pub stored : Stored env d c start base from k s
  pub open stored use *
  pub unread : (uploaded env d c start s.trace).unread ≡ drop k base.unread

module _ (env : Env) (d c : ℕ) (start base : Upload) (from : ℕ) where
  abbrev P : ℕ → Machine → Type 0
  P = Storing env d c start base from

  abbrev Q : ℕ → Machine → Type 0
  Q = Stored env d c start base from

  abbrev up : History → Upload
  up = uploaded env d c start

  -- A history that leaves file and stream as they are.
  pub stays :
      (k : ℕ) (s t : Machine) (buf : Bytes)
      → t.state_pool ≡ some buf
      → up t.trace ≡ up s.trace
      → P k s
      → P k t
  stays k s t buf p e h = record {
    stored = record { pool = (buf, p); fits = h.fits; got = ap (λ u. u.content) e ∙ h.got };
    unread = ap (λ u. u.unread) e ∙ h.unread;
  }

  pub Storing-Carries : (k : ℕ) → Carries (P k)
  Storing-Carries k = record {
    stable = record { errno = λ s e h. stays k s _ h.pool.0 h.pool.1 refl h };
    event = λ s e n h. stays k s _ h.pool.0 h.pool.1 (uploaded-NoFile env d c start e s.trace n) h;
    update = λ s f l h. stays k s _ h.pool.0 h.pool.1 refl h;
    pool = λ s h. h.pool;
    fill = λ s buf h. stays k s _ buf refl refl h;
  }

  -- A splice of some bytes has stored them, and goes on behind them; one of none has met the end.
  abbrev pub IsStep : ℕ → Outcome Spliced → Type 0
  IsStep k (done (moved n o) t) =
      (o ≡ some (pos (from + (k + n)))) × ((n ≡ 0 → k ≡ length base.unread) × P (k + n) t)
  IsStep k (done (stops r) t) = (r ≢ ftp_success) × Q k t
  IsStep k (crash t) = ⊥
  IsStep k (looping t) = Q k t

  signal_ends :
      (again : M Spliced) (r : Ret) (k : ℕ) (t : Machine)
      → P k t
      → IsStep k (again env t)
      → IsStep k ((if is_success r then again else pure (stops ftp_quit)) env t)
  unfolding is_success pure
  signal_ends again ftp_success k t h g = g
  signal_ends again _ k t h g = ((λ e. cc), h.stored)

  -- An interrupted call is made again, any other error stops.
  pub failed :
      (again : Option ℤ → Option ℤ → M Spliced) (o : Option ℤ) (e k : ℕ) (t : Machine)
      → P k t
      → ((u : Machine) → P k u → IsStep k (again o none env u))
      → IsStep k
          ((failed_with e o none >>= λ r. spliced again r.out_offset r.in_offset r.ret) env t)
  unfolding failed_with spliced splice_failed set_errno pure ◌>>=◌
  failed again o e k t h g =
      elim (e == eintr)
        as (λ b. IsStep k (
          (if b
              then (server_handle_signal >>= λ r.
                  if is_success r then again o none else pure (stops ftp_quit))
              else pure (splice_failed e))
            env (record t { errno = e }))) [
              | true ↦
                  Keeps-then (P k) env (IsStep k) server_handle_signal _ _
                    (server_handle_signal-Keeps (Storing-Carries k))
                    (stays k t _ h.pool.0 h.pool.1 refl h)
                    (λ r u p. signal_ends (again o none) r k u p (g u p)) (λ u p. p.stored)
              | false ↦ (no_success _, (stays k t _ h.pool.0 h.pool.1 refl h).stored)
            ]
