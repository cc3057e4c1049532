-- ===== src/Core/Store/Written.antt =====
-- core.c, `store_file`: the blocks of what a client sends, and where they are stored.
use mathlib.Core.Path.{subst}
use ftp_server.Prelude.{
  ℕ, zero, suc, ◌+◌, ◌∷◌, ◌≡◌, refl, sym, Option, some, if◌then◌else◌, length, arith, Bytes, ℤ, pos,
}
use ftp_server.Machine.Types.{
  Ret, ftp_success, ftp_quit, Env, Machine, reads_clock, Outcome, done, crash, looping,
}
use ftp_server.Machine.Monad.{M, pure, ◌>>=◌, call, modify, gets, from_env, loop_on, continue}
use ftp_server.Machine.Keeps.{Keeps-then}
use ftp_server.Auth.{is_success}
use ftp_server.Signals.{server_handle_signal}
use ftp_server.Transfer.{
  Spliced, moved, stops, add_xfer, start_xfer, throttle_pause, after_store, store_blocks,
  store_file,
}
use ftp_server.Core.Data.{file, connection}
use ftp_server.Safety.Pool.{server_handle_signal-Keeps, throttle_pause-Keeps}
use ftp_server.Core.Store.Upload.{Upload, uploaded, IsPlentiful, overwrite-nil}
use ftp_server.Core.Store.Splice.{Stored, Storing, Storing-Carries, IsStep}
use ftp_server.Core.Store.Round.{splice-IsStep}

-- A front of what the client sends is stored; all of it where the transfer succeeds.
abbrev pub IsStored : Env → ℕ → ℕ → Upload → Upload → ℕ → Outcome Ret → Type 0
IsStored env d c start base from (done r t) =
    (k : ℕ) × ((r ≡ ftp_success → k ≡ length base.unread) × Stored env d c start base from k t)
IsStored env d c start base from (crash t) = ⊥
IsStored env d c start base from (looping t) = (k : ℕ) × Stored env d c start base from k t

module _ (env : Env) (d c : ℕ) (start base : Upload) (from : ℕ) where
  abbrev P : ℕ → Machine → Type 0
  P = Storing env d c start base from

  abbrev Done : Outcome Ret → Type 0
  Done = IsStored env d c start base from

  next_or_quit :
      (rest : M Ret) (r : Ret) (k : ℕ) (t : Machine)
      → P k t
      → Done (rest env t)
      → Done ((if is_success r then rest else pure ftp_quit) env t)
  unfolding is_success pure
  next_or_quit rest ftp_success k t h g = g
  next_or_quit rest _ k t h g = (k, ((λ e. cc), h.stored))

  -- Between two blocks the transfer may pause, and stop by a signal.
  go_on :
      (rest : M Ret) (k : ℕ) (t : Machine)
      → P k t
      → ((u : Machine) → P k u → Done (rest env u))
      → Done (
          (throttle_pause >>= λ a.
          server_handle_signal >>= λ r. if is_success r then rest else pure ftp_quit)
            env t)
  go_on rest k t h g =
      let carries = Storing-Carries env d c start base from k in
      let signal = λ (r : Ret). if is_success r then rest else pure ftp_quit in
      Keeps-then (P k) env Done throttle_pause (λ a. server_handle_signal >>= signal) t
        (throttle_pause-Keeps carries) h
        (λ a u p.
          Keeps-then (P k) env Done server_handle_signal signal u
            (server_handle_signal-Keeps carries) p (λ r v q. next_or_quit rest r k v q (g v q))
            (λ v q. (k, q.stored)))
        (λ u p. (k, p.stored))

  after_store-IsStored :
      (rest : Option ℤ → M Ret) (k : ℕ) (out : Outcome Spliced)
      → IsStep env d c start base from k out
      → ((n : ℕ) (u : Machine) → P n u → Done (rest (some (pos (from + n))) env u))
      → Done (continue out (after_store rest) env)
  unfolding after_store add_xfer modify pure ◌>>=◌
  after_store-IsStored rest k (done (moved zero o) t) h g =
      (k + 0, ((λ e. omega (arith, h.1.0 refl)), h.1.1.stored))
  after_store-IsStored rest k (done (moved (suc n) o) t) h g =
      let j = k + suc n in
      let carries = Storing-Carries env d c start base from j in
      go_on (rest o) j (record t { session = add_xfer (suc n) (suc n) t.session })
        (carries.update t (add_xfer (suc n) (suc n)) (λ s. (refl, refl)) h.1.1)
        (λ v q. subst (λ o. Done (rest o env v)) (sym h.0) (g j v q))
  after_store-IsStored rest k (done (stops r) t) h g = (k, ((λ e. absurd (h.0 e)), h.1))
  after_store-IsStored rest k (crash t) h g = h
  after_store-IsStored rest k (looping t) h g = (k, h)

  store_blocks-IsStored :
      (f k : ℕ) (s : Machine)
      → IsPlentiful env d c start
      → P k s
      → Done (store_blocks f (file d) (connection c) (some (pos (from + k))) env s)
  unfolding store_blocks loop_on ◌>>=◌
  store_blocks-IsStored zero k s ok h = (k, h.stored)
  store_blocks-IsStored (suc f) k s ok h =
      after_store-IsStored _ k _ (splice-IsStep env d c start base from k 4096 s ok h)
        (λ n u p. store_blocks-IsStored f n u ok p)

-- In a session with its message pool: if reads return what the client sends, and nothing only at its
-- end, if writes are neither short nor interrupted, and if the file can be positioned, then
-- `store_file` does not crash, and at each of its ends a front of what the client has sent stands in
-- the file from the restart position on, in its order and nothing twice, a gap in front of it is
-- filled with NULs, and the rest of the file is as it was. Where it returns FTP_SUCCESS, all that the
-- client has sent is stored.
pub store_file-IsStored :
    (env : Env) (d c : ℕ) (start : Upload) (s : Machine) (buf : Bytes)
    → IsPlentiful env d c start
    → s.state_pool ≡ some buf
    → IsStored env d c start
        (uploaded env d c start s.trace)
        s.restart_pos
        (store_file (file d) (connection c) env s)
unfolding store_file start_xfer gets from_env modify call ◌>>=◌
store_file-IsStored env d c start s buf ok pool =
    let base = uploaded env d c start s.trace in
    let from = s.restart_pos in
    let t = record s {
      session = start_xfer (env.clock (reads_clock ∷ s.trace)) s.session;
      trace = reads_clock ∷ s.trace;
    } in
    let at : from + 0 ≡ from = omega arith in
    subst
      (λ o.
        IsStored env d c start base from
          (store_blocks env.patience (file d) (connection c) (some (pos o)) env t))
      at
      (store_blocks-IsStored env d c start base from env.patience 0 t ok (record {
        stored = record {
          pool = (buf, pool);
          fits = omega arith;
          got = sym (overwrite-nil from base.content);
        };
        unread = refl;
      }))
