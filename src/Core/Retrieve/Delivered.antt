-- ===== src/Core/Retrieve/Delivered.antt =====
-- core.c, the loop around `splice_stream` of `transfer_file`: what a sendfile delivers to the client.
use ftp_server.Prelude.{
  ℕ, zero, suc, ◌+◌, ◌≤◌, ◌≡◌, ◌≢◌, refl, sym, ap, ◌∙◌, Bool, true, false, [], ◌∷◌, ◌++◌, Option,
  none, some, ◌==◌, if◌then◌else◌, length, take, drop, take_add, drop_add, append-nil, append_assoc,
  Bytes, ℤ, pos,
}
use ftp_server.Machine.Types.{
  Ret, ftp_success, ftp_quit, Answer, good, bad, History, Event, fs, sends_file, Env, Machine,
  Outcome, done, crash, looping,
}
use ftp_server.Machine.Errno.{eintr}
use ftp_server.Machine.Monad.{M, pure, ◌>>=◌, call, set_errno, from_env, loop_on}
use ftp_server.Machine.Keeps.{Keeps, Keeps-call, Keeps-then, Keeps-keep_errno, Keeps-bind}
use ftp_server.Auth.{is_success}
use ftp_server.Signals.{server_handle_signal}
use ftp_server.Stream.{
  Splice, s_file, s_socket, seek_to, failed_with, file_sent, move, splice_stream,
}
use ftp_server.Transfer.{Spliced, moved, stops, splice_failed, spliced, splice_loop, splice}
use ftp_server.Core.Stopped.{no_success}
use ftp_server.Core.Data.{file, connection}
use ftp_server.Safety.Pool.{NoFile, Carries, server_handle_signal-Keeps}

-- What an answer of sendfile takes from the bytes at its offset.
abbrev pub part : Answer ℕ → Bytes → Bytes
part (good n) s = take n s
part (bad e) s = []

abbrev pub from_offset : Option ℤ → Bytes → Bytes
from_offset (some (pos o)) content = drop o content
from_offset _ content = []

-- What the client has received of a file with this content.
abbrev pub delivered : Env → Bytes → History → Bytes
delivered env content [] = []
delivered env content (sends_file c d o n ∷ h) =
    delivered env content h ++ part (env.sendfile (sends_file c d o n ∷ h)) (from_offset o content)
delivered env content (_ ∷ h) = delivered env content h

-- A sendfile that succeeds sends all that it is asked for, as far as the file goes.
abbrev pub IsWhole : Env → Bytes → Type 0
IsWhole env content =
    (c d o n k : ℕ) (h : History)
    → o + n ≤ length content
    → env.sendfile (sends_file c d (some (pos o)) n ∷ h) ≡ good k
    → k ≡ n

-- The messages of the session have their pool, and `k` bytes of the range have been delivered.
pub record Delivering (env : Env) (content base : Bytes) (from k : ℕ) (s : Machine) : Type 0 where
  pub pool : (buf : Bytes) × (s.state_pool ≡ some buf)
  pub got : delivered env content s.trace ≡ base ++ take k (drop from content)

-- A front of the range is delivered; all of it where the transfer succeeds.
abbrev pub IsRetrieved : Env → Bytes → Bytes → ℕ → ℕ → Outcome Ret → Type 0
IsRetrieved env content base from count (done r t) =
    (k : ℕ) × ((k ≤ count) × ((r ≡ ftp_success → k ≡ count) × Delivering env content base from k t))
IsRetrieved env content base from count (crash t) = ⊥
IsRetrieved env content base from count (looping t) =
    (k : ℕ) × ((k ≤ count) × Delivering env content base from k t)

delivered-NoFile :
    (env : Env) (content : Bytes) (e : Event) (h : History)
    → NoFile e
    → delivered env content (e ∷ h) ≡ delivered env content h
delivered-NoFile env content (fs op p) h n = refl
delivered-NoFile env content (sends_file c d o k) h n = absurd n
delivered-NoFile env content _ h n = refl

module _ (env : Env) (content base : Bytes) (from : ℕ) where
  abbrev P : ℕ → Machine → Type 0
  P = Delivering env content base from

  pub P-carries : (k : ℕ) → Carries (P k)
  P-carries k = record {
    stable = record { errno = λ s e h. record { pool = h.pool; got = h.got } };
    event =
        λ s e n h. record { pool = h.pool; got = delivered-NoFile env content e s.trace n ∙ h.got };
    update = λ s f l h. record { pool = h.pool; got = h.got };
    pool = λ s h. h.pool;
    fill = λ s buf h. record { pool = (buf, refl); got = h.got };
  }

  seek_to-Keeps : (k fd : ℕ) (o : Option ℤ) → Keeps env (P k) (seek_to fd o)
  unfolding seek_to pure
  seek_to-Keeps k fd none = record { at = λ s h. h }
  seek_to-Keeps k fd (some n) =
      Keeps-bind _ _ (Keeps-call _ _ (λ s h. record { pool = h.pool; got = h.got }))
        (Keeps-keep_errno (P-carries k).stable)

  -- The next bytes of the range.
  got_next :
      (k n o : ℕ) (h : Bytes)
      → o ≡ from + k
      → h ≡ base ++ take k (drop from content)
      → h ++ take n (drop o content) ≡ base ++ take (k + n) (drop from content)
  got_next k n o h at e =
      let X = drop from content in
      ap (λ t. t ++ take n (drop o content)) e
      ∙ ap (λ m. (base ++ take k X) ++ take n (drop m content)) at
      ∙ ap (λ t. (base ++ take k X) ++ take n t) (drop_add from k content)
      ∙ append_assoc base (take k X) (take n (drop k X))
      ∙ ap (λ t. base ++ t) (sym (take_add k n X))

  abbrev pub IsSpliced : ℕ → ℕ → Outcome Spliced → Type 0
  IsSpliced k n (done (moved m o) t) = (m ≡ n) × P (k + n) t
  IsSpliced k n (done (stops r) t) = (r ≢ ftp_success) × P k t
  IsSpliced k n (crash t) = ⊥
  IsSpliced k n (looping t) = P k t

  module _ (whole : IsWhole env content) where
    signal_ends :
        (again : M Spliced) (r : Ret) (k n : ℕ) (t : Machine)
        → P k t
        → IsSpliced k n (again env t)
        → IsSpliced k n ((if is_success r then again else pure (stops ftp_quit)) env t)
    unfolding is_success pure
    signal_ends again ftp_success k n t h g = g
    signal_ends again _ k n t h g = ((λ e. cc), h)

    -- An interrupted sendfile is made again, any other error stops.
    interrupted :
        (again : M Spliced) (b : Bool) (x k n : ℕ) (t : Machine)
        → P k t
        → ((u : Machine) → P k u → IsSpliced k n (again env u))
        → IsSpliced k n (
            (if b
                then (server_handle_signal >>= λ r.
                    if is_success r then again else pure (stops ftp_quit))
                else pure (splice_failed x))
              env t)
    unfolding splice_failed pure
    interrupted again true x k n t h g =
        Keeps-then (P k) env (IsSpliced k n) server_handle_signal _ t
          (server_handle_signal-Keeps (P-carries k)) h
          (λ r u p. signal_ends again r k n u p (g u p)) (λ u p. p)
    interrupted again false x k n t h g = (no_success _, h)

    answered :
        (again : Option ℤ → Option ℤ → M Spliced) (c d k n o : ℕ) (s : Machine) (a : Answer ℕ)
        → P k s
        → o ≡ from + k
        → o + n ≤ length content
        → ((u : Machine) → P k u → IsSpliced k n (again none (some (pos o)) env u))
        → env.sendfile (sends_file c d (some (pos o)) n ∷ s.trace) ≡ a
        → IsSpliced k n (
            (file_sent none (some (pos o)) a >>= λ r. spliced again r.out_offset r.in_offset r.ret)
              env
              (record s { trace = sends_file c d (some (pos o)) n ∷ s.trace }))
    unfolding file_sent failed_with spliced set_errno pure ◌>>=◌
    answered again c d k n o s (good m) h at le g e =
        let all : m ≡ n = whole c d o n m s.trace le e in
        let more =
          ap (λ a. delivered env content s.trace ++ part a (drop o content)) (e ∙ ap good all) in
        (all, record { pool = h.pool; got = more ∙ got_next k n o _ at h.got })
    answered again c d k n o s (bad x) h at le g e =
        let same =
          ap (λ a. delivered env content s.trace ++ part a (drop o content)) e ∙ append-nil _ in
        interrupted (again none (some (pos o))) (x == eintr) x k n _
          (record { pool = h.pool; got = same ∙ h.got }) g

    splice_loop-IsSpliced :
        (f c d k n o : ℕ) (s : Machine)
        → P k s
        → o ≡ from + k
        → o + n ≤ length content
        → IsSpliced k n (splice_loop f (connection c) (file d) n none (some (pos o)) env s)
    unfolding splice_loop splice_stream move loop_on call pure ◌>>=◌
    splice_loop-IsSpliced zero c d k n o s h at le = h
    splice_loop-IsSpliced (suc f) c d k n o s h at le =
        let again = splice_loop f (connection c) (file d) n in
        let rest = λ (r : Splice). spliced again r.out_offset r.in_offset r.ret in
        Keeps-then (P k) env (λ out. IsSpliced k n (((λ e t. out) >>= rest) env s))
          (seek_to d (some (pos o)))
          (λ u. move (connection c) none (file d) (some (pos o)) n s_file s_socket) s
          (seek_to-Keeps k d (some (pos o))) h
          (λ u t p.
            answered again c d k n o t _ p at le
              (λ v q. splice_loop-IsSpliced f c d k n o v q at le) refl)
          (λ t p. p)

    pub splice-IsSpliced :
        (c d k n o : ℕ) (s : Machine)
        → P k s
        → o ≡ from + k
        → o + n ≤ length content
        → IsSpliced k n (splice (connection c) (file d) n none (some (pos o)) env s)
    unfolding splice from_env ◌>>=◌
    splice-IsSpliced c d k n o s h at le = splice_loop-IsSpliced env.patience c d k n o s h at le
