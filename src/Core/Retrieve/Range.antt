-- ===== src/Core/Retrieve/Range.antt =====
-- core.c, `transfer_file`: the range of a file that is delivered, block by block.
use mathlib.Core.Path.{subst}
use ftp_server.Prelude.{
  to_int, to_int_small, pos, ◌∷◌, ◌<◌, ℕ, zero, suc, ◌+◌, ◌-◌, ◌*◌, ◌/◌, ◌%◌, ◌≤◌, ◌≡◌, ◌≢◌, refl,
  sym, Option, none, some, if◌then◌else◌, arith, length, append-nil, Bytes, ℤ,
}
use ftp_server.Machine.Types.{
  reads_clock, Ret, ftp_success, ftp_quit, Env, Machine, Outcome, done, crash, looping,
}
use ftp_server.Machine.Monad.{M, pure, ◌>>=◌, call, modify, continue}
use ftp_server.Machine.Keeps.{Keeps-then}
use ftp_server.Auth.{is_success}
use ftp_server.Signals.{server_handle_signal}
use ftp_server.Transfer.{
  rounds, Spliced, moved, stops, add_xfer, start_xfer, throttle_pause, after_block, send_blocks,
  sent_rest, send_rest, transfer_file,
}
use ftp_server.Core.Data.{file, connection}
use ftp_server.Safety.Pool.{server_handle_signal-Keeps, throttle_pause-Keeps}
use ftp_server.Core.Retrieve.Delivered.{
  IsWhole, Delivering, IsRetrieved, delivered, P-carries, IsSpliced, splice-IsSpliced,
}

module _ (env : Env) (content base : Bytes) (from : ℕ) where
  -- A front of at most `m` bytes.
  abbrev Front : ℕ → Machine → Type 0
  Front m t = (j : ℕ) × ((j ≤ m) × Delivering env content base from j t)

  abbrev IsBlocks : ℕ → Outcome (Option Ret) → Type 0
  IsBlocks m (done none t) = Delivering env content base from m t
  IsBlocks m (done (some r) t) = (r ≢ ftp_success) × Front m t
  IsBlocks m (crash t) = ⊥
  IsBlocks m (looping t) = Front m t

  next_or_quit :
      (rest : M (Option Ret)) (r : Ret) (k m : ℕ) (t : Machine)
      → k ≤ m
      → Delivering env content base from k t
      → IsBlocks m (rest env t)
      → IsBlocks m ((if is_success r then rest else pure (some ftp_quit)) env t)
  unfolding is_success pure
  next_or_quit rest ftp_success k m t le h g = g
  next_or_quit rest _ k m t le h g = ((λ e. cc), (k, (le, h)))

  after_block-IsBlocks :
      (rest : M (Option Ret)) (x k m : ℕ) (o : Option ℤ) (t : Machine)
      → k ≤ m
      → Delivering env content base from k t
      → ((u : Machine) → Delivering env content base from k u → IsBlocks m (rest env u))
      → IsBlocks m (after_block rest (moved x o) env t)
  unfolding after_block add_xfer modify pure ◌>>=◌
  after_block-IsBlocks rest zero k m o t le h g = ((λ e. cc), (k, (le, h)))
  after_block-IsBlocks rest (suc x) k m o t le h g =
      let stay : (u : Machine) → Delivering env content base from k u → Front m u =
        λ u p. (k, (le, p)) in
      Keeps-then (Delivering env content base from k) env (IsBlocks m) throttle_pause _ _
        (throttle_pause-Keeps (P-carries env content base from k))
        (record { pool = h.pool; got = h.got })
        (λ a u p.
          Keeps-then (Delivering env content base from k) env (IsBlocks m) server_handle_signal _ u
            (server_handle_signal-Keeps (P-carries env content base from k)) p
            (λ r v q. next_or_quit rest r k m v le q (g v q)) stay)
        stay

  -- Behind a splice of `n` bytes.
  behind_splice :
      (n k m : ℕ) (rest : M (Option Ret)) (out : Outcome Spliced)
      → k + n ≤ m
      → IsSpliced env content base from k n out
      → ((u : Machine) → Delivering env content base from (k + n) u → IsBlocks m (rest env u))
      → IsBlocks m (continue out (after_block rest) env)
  unfolding after_block pure
  behind_splice n k m rest (done (moved x o) t) le h g =
      after_block-IsBlocks rest x (k + n) m o t le h.1 g
  behind_splice n k m rest (done (stops r) t) le h g = (h.0, (k, (omega (arith, le), h.1)))
  behind_splice n k m rest (crash t) le h g = h
  behind_splice n k m rest (looping t) le h g = (k, (omega (arith, le), h))

  -- The rest of the range, behind the blocks.
  abbrev IsRest : ℕ → Outcome Ret → Type 0
  IsRest = IsRetrieved env content base from

  behind-IsRest :
      (n k m : ℕ) (out : Outcome Spliced)
      → k + n ≡ m
      → IsSpliced env content base from k n out
      → IsRest m (continue out (sent_rest n) env)
  unfolding sent_rest add_xfer modify pure ◌>>=◌
  behind-IsRest n k m (done (moved x o) t) all h =
      (k + n, (omega (arith, all), ((λ e. all), record { pool = h.1.pool; got = h.1.got })))
  behind-IsRest n k m (done (stops r) t) all h =
      (k, (omega (arith, all), ((λ e. absurd (h.0 e)), h.1)))
  behind-IsRest n k m (crash t) all h = h
  behind-IsRest n k m (looping t) all h = (k, (omega (arith, all), h))

  module _ (whole : IsWhole env content) (c d : ℕ) where
    send_blocks-IsBlocks :
        (n k offset : ℕ) (s : Machine)
        → Delivering env content base from k s
        → offset ≡ from + k
        → offset + n * 4096 ≤ length content
        → IsBlocks (k + n * 4096) (send_blocks (connection c) (file d) n offset env s)
    unfolding send_blocks pure ◌>>=◌
    send_blocks-IsBlocks zero k offset s h at le =
        let e : k ≡ k + 0 * 4096 = omega arith in rw (sym e) h
    send_blocks-IsBlocks (suc n) k offset s h at le =
        let m : k + 4096 + n * 4096 ≡ k + suc n * 4096 = omega arith in
        behind_splice 4096 k (k + suc n * 4096) _ _ (omega arith)
          (splice-IsSpliced env content base from whole c d k 4096 offset s h at
            (omega (arith, le)))
          (λ u p.
            subst (λ m. IsBlocks m (send_blocks (connection c) (file d) n (offset + 4096) env u)) m
              (send_blocks-IsBlocks n (k + 4096) (offset + 4096) u p (omega (arith, at))
                (omega (arith, le))))

    behind_blocks :
        (n k offset : ℕ) (out : Outcome (Option Ret))
        → offset ≡ from + k
        → offset + n ≤ length content
        → IsBlocks k out
        → IsRest (k + n) (continue out (send_rest (connection c) (file d) offset n) env)
    unfolding send_rest pure ◌>>=◌
    behind_blocks n k offset (done none t) at le h =
        behind-IsRest n k (k + n) _ refl
          (splice-IsSpliced env content base from whole c d k n offset t h at le)
    behind_blocks n k offset (done (some r) t) at le h =
        (h.1.0, (omega (arith, h.1.1.0), ((λ e. absurd (h.0 e)), h.1.1.1)))
    behind_blocks n k offset (crash t) at le h = h
    behind_blocks n k offset (looping t) at le h = (h.0, (omega (arith, h.1.0), h.1.1))

rounds_small : (n : ℕ) → n < 2147483648 → rounds (to_int (pos n)) ≡ n
unfolding rounds
rounds_small n h = rw (to_int_small n h)

-- In a session with its message pool: if the range is shorter than 2^43 bytes, so that its blocks are
-- counted by an int, if the file is at least as long as the range, and a sendfile that succeeds sends
-- all that it is asked for, then `transfer_file` does not crash, and at each of its ends a front of the
-- range has been delivered to the client, in its order and nothing twice, interrupts included. Where it
-- returns FTP_SUCCESS, the whole range has.
pub transfer_file-IsRetrieved :
    (env : Env) (content : Bytes) (c d offset count : ℕ) (s : Machine) (buf : Bytes)
    → IsWhole env content
    → offset + count ≤ length content
    → count < 8796093022208
    → s.state_pool ≡ some buf
    → IsRetrieved env content
        (delivered env content s.trace)
        offset
        count
        (transfer_file (connection c) (file d) offset count env s)
unfolding transfer_file start_xfer modify call ◌>>=◌
transfer_file-IsRetrieved env content c d offset count s buf whole le small pool =
    let b = count / 4096 in
    let n = count % 4096 in
    let all : 0 + b * 4096 + n ≡ count = omega arith in
    let base = delivered env content s.trace in
    let rest = send_rest (connection c) (file d) (offset + count - n) n in
    let t = record s {
      session = start_xfer (env.clock (reads_clock ∷ s.trace)) s.session;
      trace = reads_clock ∷ s.trace;
    } in
    let run = λ (i : ℕ). continue (send_blocks (connection c) (file d) i offset env t) rest env in
    subst (λ i. IsRetrieved env content base offset count (run i))
      (sym (rounds_small b (omega (arith, small))))
      (subst (λ m. IsRetrieved env content base offset m (run b)) all
        (behind_blocks env content base offset whole c d n (0 + b * 4096) (offset + count - n) _
          (omega (arith, all)) (omega (arith, all, le))
          (send_blocks-IsBlocks env content base offset whole c d b 0 offset t
            (record { pool = (buf, pool); got = sym (append-nil base) }) (omega arith)
            (omega (arith, all, le)))))
