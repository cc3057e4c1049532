-- ===== src/Core/Store/Round.antt =====
-- stream.c, `splice_stream` as `store_file` uses it: one round, from the seek to the write.
use mathlib.Core.Path.{subst}
use ftp_server.Prelude.{
  ℕ, zero, suc, ◌+◌, ◌-◌, ◌≤◌, ◌≡◌, refl, sym, ap, ◌∙◌, Bool, true, false, ◌∷◌, Option, none, some,
  ◌==◌, if◌then◌else◌, length, take, drop, drop_add, length-drop, ℤ, pos, arith,
}
use ftp_server.Machine.Types.{
  Answer, good, bad, History, seeks, allocates, reads_data, writes_data, Env, Machine, Outcome,
}
use ftp_server.Machine.Errno.{eintr, enomem}
use ftp_server.Machine.Monad.{M, pure, ◌>>=◌, call, set_errno, keep_errno, from_env, loop_on}
use ftp_server.Stream.{Splice, seek_to, failed_with, written, copy_read, copy, move, splice_stream}
use ftp_server.Transfer.{Spliced, splice_failed, spliced, splice_loop, splice}
use ftp_server.Core.Stopped.{no_success}
use ftp_server.Core.Data.{file, connection}
use ftp_server.Core.Store.Upload.{
  Upload, overwrite, uploaded, IsPlentiful, same_again, put_next, on_seek, on_read, on_write,
}
use ftp_server.Core.Store.Splice.{Stored, Storing, IsStep, stays, failed}

module _ (env : Env) (d c : ℕ) (start base : Upload) (from : ℕ) where
  abbrev P : ℕ → Machine → Type 0
  P = Storing env d c start base from

  abbrev Q : ℕ → Machine → Type 0
  Q = Stored env d c start base from

  abbrev up : History → Upload
  up = uploaded env d c start

  abbrev Step : ℕ → Outcome Spliced → Type 0
  Step = IsStep env d c start base from

  abbrev next : (Option ℤ → Option ℤ → M Spliced) → Splice → M Spliced
  next again r = spliced again r.out_offset r.in_offset r.ret

  abbrev offset_at : ℕ → Option ℤ
  offset_at k = some (pos (from + k))

  module _ (env_ok : IsPlentiful env d c start) (again : Option ℤ → Option ℤ → M Spliced) where
    module _ (k count : ℕ) (s : Machine) (h : P k s)
        (g : (u : Machine) → P k u → Step k (again (offset_at k) none env u)) where
      -- The histories of one round.
      abbrev sought : History
      sought = allocates ∷ seeks d (pos (from + k)) ∷ s.trace

      abbrev read_in : History
      read_in = reads_data c count ∷ sought

      up-sought : up sought ≡ on_seek (pos (from + k)) none (up s.trace)
      up-sought =
          same_again d _ _
          ∙ ap (λ a. on_seek (pos (from + k)) a (up s.trace))
              (env_ok.seeks_well (pos (from + k)) s.trace)

      up-read_in : (a : Answer ℕ) → env.read read_in ≡ a → up read_in ≡ on_read a (up sought)
      up-read_in a e = same_again c _ _ ∙ ap (λ a. on_read a (up sought)) e

      left : length (up sought).unread ≡ length base.unread - k
      left = ap (λ u. length u.unread) up-sought ∙ ap length h.unread ∙ length-drop k base.unread

      at_sought : (e : ℕ) → P k (record s { errno = e; trace = sought })
      at_sought e = record {
        stored = record {
          pool = h.pool;
          fits = h.fits;
          got = ap (λ u. u.content) up-sought ∙ h.got;
        };
        unread = ap (λ u. u.unread) up-sought ∙ h.unread;
      }

      abbrev wrote : ℕ → History
      wrote n = writes_data d n ∷ read_in

      up-wrote :
          (n : ℕ) (w : Answer ℕ)
          → env.read read_in ≡ good n
          → env.write (wrote n) ≡ w
          → up (wrote n)
            ≡ on_write w (on_read (good n) (on_seek (pos (from + k)) none (up s.trace)))
      up-wrote n w e f =
          same_again d _ _
          ∙ ap (λ w. on_write w (up read_in)) f
          ∙ ap (on_write w) (up-read_in (good n) e)
          ∙ ap (λ u. on_write w (on_read (good n) u)) up-sought

      fits_next : (n : ℕ) → env.read read_in ≡ good n → k + n ≤ length base.unread
      fits_next n e = omega (arith, env_ok.reads count n sought e, left, h.fits)

      stored_next :
          (n : ℕ)
          → env.read read_in ≡ good n
          → env.write (wrote n) ≡ good n
          → P (k + n) (record s { trace = wrote n })
      stored_next n e f =
          let now = up-wrote n (good n) e f in
          record {
            stored = record {
              pool = h.pool;
              fits = fits_next n e;
              got =
                  ap (λ u. u.content) now
                  ∙ ap (λ r. overwrite (from + k) (take n (take n r)) (up s.trace).content) h.unread
                  ∙ ap (λ f. overwrite (from + k) (take n (take n (drop k base.unread))) f) h.got
                  ∙ put_next from k n base.unread base.content h.fits;
            };
            unread = ap (λ u. u.unread) now ∙ ap (drop n) h.unread ∙ sym (drop_add k n base.unread);
          }

      not_stored :
          (n x : ℕ)
          → env.read read_in ≡ good n
          → env.write (wrote n) ≡ bad x
          → Q k (record s { errno = x; trace = wrote n })
      not_stored n x e f = record {
        pool = h.pool;
        fits = h.fits;
        got = ap (λ u. u.content) (up-wrote n (bad x) e f) ∙ h.got;
      }

      -- Nothing is read at the end of what the client sends.
      at_end : env.read read_in ≡ good 0 → P k (record s { trace = read_in })
      at_end e =
          let p = at_sought s.errno in
          let now = up-read_in (good 0) e in
          record {
            stored = record { pool = h.pool; fits = h.fits; got = ap (λ u. u.content) now ∙ p.got };
            unread = ap (λ u. u.unread) now ∙ p.unread;
          }

      given_up :
          (b : Bool) (m : M Spliced) (x : ℕ) (t : Machine)
          → b ≡ false
          → Q k t
          → Step k ((if b then m else pure (splice_failed x)) env t)
      unfolding splice_failed pure
      given_up true m x t e q = cc
      given_up false m x t e q = (no_success _, q)

      written-IsStep :
          (n : ℕ) (w : Answer ℕ)
          → env.read read_in ≡ good (suc n)
          → env.write (wrote (suc n)) ≡ w
          → Step k (
              (written (offset_at k) none w >>= next again) env
                (record s { trace = wrote (suc n) }))
      unfolding written failed_with spliced splice_failed set_errno pure ◌>>=◌
      written-IsStep n (good m) e f =
          let all : m ≡ suc n = env_ok.writes (suc n) m read_in f in
          let stored = stored_next (suc n) e (f ∙ ap good all) in
          let behind : from + k + m ≡ from + (k + m) = omega arith in
          (
            ap (λ o. some (pos o)) behind,
            (
              (λ z. omega (arith, all, z)),
              subst (λ m. P (k + m) (record s { trace = wrote (suc n) })) (sym all) stored,
            ),
          )
      written-IsStep n (bad x) e f =
          given_up (x == eintr) _ x _ (env_ok.uninterrupted (suc n) x read_in f)
            (not_stored (suc n) x e f)

      copy_read-IsStep :
          (a : Answer ℕ)
          → env.read read_in ≡ a
          → Step k (
              (copy_read (file d) (offset_at k) none a >>= next again) env
                (record s { trace = read_in }))
      unfolding copy_read spliced call pure ◌>>=◌
      copy_read-IsStep (bad x) e =
          failed env d c start base from again (offset_at k) x k _
            (stays env d c start base from k (record s { errno = s.errno; trace = sought }) _
              h.pool.0 h.pool.1 (up-read_in (bad x) e) (at_sought s.errno))
            g
      copy_read-IsStep (good zero) e =
          let none_more : k ≡ k + 0 = omega arith in
          (
            ap (λ k. some (pos (from + k))) none_more,
            (
              (λ z. omega (arith, env_ok.ends count sought e, left, h.fits)),
              subst (λ k. P k (record s { trace = read_in })) none_more (at_end e),
            ),
          )
      copy_read-IsStep (good (suc n)) e = written-IsStep n _ e refl

      allocated-IsStep :
          (b : Bool)
          → Step k (
              ((if b
                    then (call (reads_data c count) (λ env. env.read)
                        >>= copy_read (file d) (offset_at k) none)
                    else failed_with enomem (offset_at k) none)
                  >>= next again)
                env
                (record s { trace = sought }))
      unfolding call ◌>>=◌
      allocated-IsStep true = copy_read-IsStep _ refl
      allocated-IsStep false =
          failed env d c start base from again (offset_at k) enomem k _ (at_sought s.errno) g

      sought-IsStep :
          (o : Option ℕ)
          → o ≡ none
          → Step k (
              ((keep_errno o >>= λ u. copy (file d) (offset_at k) (connection c) none count)
                  >>= next again)
                env
                (record s { trace = seeks d (pos (from + k)) ∷ s.trace }))
      unfolding keep_errno copy call pure ◌>>=◌
      sought-IsStep none e = allocated-IsStep _
      sought-IsStep (some x) e = cc

  splice_loop-IsStep :
      (f k count : ℕ) (s : Machine)
      → IsPlentiful env d c start
      → P k s
      → Step k (splice_loop f (file d) (connection c) count (offset_at k) none env s)
  unfolding splice_loop splice_stream seek_to move loop_on call pure ◌>>=◌
  splice_loop-IsStep zero k count s env_ok h = h.stored
  splice_loop-IsStep (suc f) k count s env_ok h =
      sought-IsStep env_ok (splice_loop f (file d) (connection c) count) k count s h
        (λ u p. splice_loop-IsStep f k count u env_ok p) _
        (env_ok.seeks_well (pos (from + k)) s.trace)

  pub splice-IsStep :
      (k count : ℕ) (s : Machine)
      → IsPlentiful env d c start
      → P k s
      → Step k (splice (file d) (connection c) count (offset_at k) none env s)
  unfolding splice from_env ◌>>=◌
  splice-IsStep k count s env_ok h = splice_loop-IsStep env.patience k count s env_ok h
