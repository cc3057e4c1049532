-- ===== src/Stream/Sendall.antt =====
-- stream.c, `sendall`: what reaches the socket, whatever the kernel takes at a time.
use ftp_server.Prelude.{
  ℕ, zero, suc, ◌+◌, ◌-◌, ◌≤◌, ◌<◌, ◌≡◌, ◌≢◌, refl, sym, ap, ◌∙◌, Bool, true, false, [], ◌∷◌, ◌++◌,
  Option, none, some, ltb, ltb→lt, ltb→le, ◌==◌, Bool-cases, inl, inr, if◌then◌else◌, arith, length,
  take, drop, length-drop, take-length, take_add, append-nil, append_assoc, Bytes,
}
use ftp_server.Machine.Types.{
  Answer, good, bad, History, sends_data, Env, Machine, Outcome, done, crash, looping,
}
use ftp_server.Machine.Errno.{eintr}
use ftp_server.Machine.Monad.{M, pure, ◌>>=◌, call, set_errno, from_env, loop_on}
use ftp_server.Stream.{after_send, send_loop, sendall}

-- What an answer of `send` takes of its buffer.
abbrev pub taken : Answer ℕ → Bytes → Bytes
taken (good n) s = take n s
taken (bad e) s = []

-- All that the calls of a history have put on the data connection.
abbrev pub sent : Env → History → Bytes
sent env [] = []
sent env (sends_data s ∷ h) = sent env h ++ taken (env.send_data (sends_data s ∷ h)) s
sent env (_ ∷ h) = sent env h

-- `send` never takes more than it is given.
abbrev pub IsBounded : Env → Type 0
IsBounded env =
    (s : Bytes) (h : History) (n : ℕ) → env.send_data (sends_data s ∷ h) ≡ good n → n ≤ length s

-- The connection holds `base` and a front of the buffer.
abbrev pub Holds : Env → Bytes → Bytes → ℕ → Machine → Type 0
Holds env base buf k s = sent env s.trace ≡ base ++ take k buf

-- Success is the whole buffer; another end has sent a front of it, and failed for a reason that is not
-- an interrupt.
abbrev pub IsSent : Env → Bytes → Bytes → Outcome (Option ℕ) → Type 0
IsSent env base buf (done (some n) s) = (n ≡ length buf) × (sent env s.trace ≡ base ++ buf)
IsSent env base buf (done none s) =
    (s.errno ≢ eintr) × ((k : ℕ) × ((k < length buf) × Holds env base buf k s))
IsSent env base buf (crash s) = ⊥
IsSent env base buf (looping s) = (k : ℕ) × ((k ≤ length buf) × Holds env base buf k s)

module _ (env : Env) (bounded : IsBounded env) (base buf : Bytes) where
  choose :
      (b : Bool) (m n : M (Option ℕ)) (s : Machine)
      → (b ≡ true → IsSent env base buf (m env s))
      → (b ≡ false → IsSent env base buf (n env s))
      → IsSent env base buf ((if b then m else n) env s)
  choose true m n s p q = p refl
  choose false m n s p q = q refl

  all-IsSent :
      (total : ℕ) (s : Machine)
      → total ≤ length buf
      → ltb total (length buf) ≡ false
      → Holds env base buf total s
      → IsSent env base buf (pure (some total) env s)
  unfolding pure
  all-IsSent total s le no_less h =
      let same : total ≡ length buf = omega (arith, le, ltb→le total (length buf) no_less) in
      (same, h ∙ ap (λ n. base ++ take n buf) same ∙ ap (λ t. base ++ t) (take-length buf))

  -- The bytes that a call takes follow those that were sent before.
  taken_next :
      (total n : ℕ) (s : Machine)
      → Holds env base buf total s
      → sent env s.trace ++ take n (drop total buf) ≡ base ++ take (total + n) buf
  taken_next total n s h =
      ap (λ t. t ++ take n (drop total buf)) h
      ∙ append_assoc base (take total buf) (take n (drop total buf))
      ∙ ap (λ t. base ++ t) (sym (take_add total n buf))

  abbrev asked : ℕ → Machine → History
  asked total s = sends_data (drop total buf) ∷ s.trace

  abbrev Goes : (ℕ → M (Option ℕ)) → Type 0
  Goes again =
      (n : ℕ) (s : Machine)
      → n ≤ length buf
      → Holds env base buf n s
      → IsSent env base buf (again n env s)

  after_send-IsSent :
      (again : ℕ → M (Option ℕ)) (total : ℕ) (s : Machine) (a : Answer ℕ)
      → Goes again
      → total < length buf
      → Holds env base buf total s
      → env.send_data (asked total s) ≡ a
      → IsSent env base buf (after_send again total a env (record s { trace = asked total s }))
  unfolding after_send set_errno pure ◌>>=◌
  after_send-IsSent again total s (good n) go lt h e =
      let bound : n ≤ length buf - total =
        rw (sym (length-drop total buf)) (bounded (drop total buf) s.trace n e) in
      go (total + n) (record s { trace = asked total s }) (omega (arith, bound, lt))
        (ap (λ a. sent env s.trace ++ taken a (drop total buf)) e ∙ taken_next total n s h)
  after_send-IsSent again total s (bad k) go lt h e =
      let same : Holds env base buf total (record s { trace = asked total s; errno = k }) =
        ap (λ a. sent env s.trace ++ taken a (drop total buf)) e
        ∙ append-nil (sent env s.trace)
        ∙ h in
      choose (k == eintr) _ _ _ (λ y. go total _ (omega (arith, lt)) same)
        (λ n. ((λ y. ground (arith, n, y)), (total, (lt, same))))

  send_loop-IsSent : (f : ℕ) → Goes (send_loop f buf)
  unfolding send_loop loop_on call ◌>>=◌
  send_loop-IsSent zero total s le h =
      choose (ltb total (length buf)) _ _ s (λ lt. (total, (le, h)))
        (λ ge. all-IsSent total s le ge h)
  send_loop-IsSent (suc f) total s le h =
      choose (ltb total (length buf)) _ _ s
        (λ lt.
          after_send-IsSent (send_loop f buf) total s _ (send_loop-IsSent f)
            (ltb→lt total (length buf) lt) h refl)
        (λ ge. all-IsSent total s le ge h)

-- If `send` never takes more than it is given, `sendall` of a buffer returns its length only when
-- exactly the bytes of the buffer have been added to what was sent, in their order. It returns -1 only
-- for an error that is not an interrupt, after a proper front of the buffer, and while it goes on it has
-- sent a front of the buffer.
pub sendall-IsSent :
    (env : Env) (s : Machine) (buf : Bytes)
    → IsBounded env
    → IsSent env (sent env s.trace) buf (sendall buf env s)
unfolding sendall from_env ◌>>=◌
sendall-IsSent env s buf bounded =
    send_loop-IsSent env bounded (sent env s.trace) buf env.patience 0 s (omega arith)
      (sym (append-nil (sent env s.trace)))

-- Each call takes at least a byte, and no more than it is given.
abbrev pub IsMoving : Env → Type 0
IsMoving env =
    (c : ℕ) (s : Bytes) (h : History)
    → (n : ℕ) × ((env.send_data (sends_data (c ∷ s) ∷ h) ≡ good (suc n)) × (n ≤ length s))

abbrev Returned : Env → Bytes → ℕ → ℕ → Machine → Type 0
Returned env buf f total s =
    (t : Machine) × (send_loop f buf total env s ≡ done (some (length buf)) t)

drop-cons :
    (n : ℕ) (s : Bytes)
    → n < length s
    → (c : ℕ) × ((r : Bytes) × ((drop n s ≡ c ∷ r) × (n + suc (length r) ≡ length s)))
drop-cons n [] h = absurd (omega (arith, h))
drop-cons zero (c ∷ s) h = (c, (s, (refl, omega arith)))
drop-cons (suc n) (c ∷ s) h =
    let r = drop-cons n s (omega (arith, h)) in (r.0, (r.1.0, (r.1.1.0, omega (arith, r.1.1.1))))

module _ (env : Env) (moving : IsMoving env) (buf : Bytes) where
  at_end : (f total : ℕ) (s : Machine) → total ≡ length buf → Returned env buf f total s
  unfolding send_loop pure
  at_end zero total s e =
      let no : ltb total (length buf) ≡ false = ground (arith, e) in (s, rw (no, e))
  at_end (suc f) total s e =
      let no : ltb total (length buf) ≡ false = ground (arith, e) in (s, rw (no, e))

  step :
      (f total n c : ℕ) (r : Bytes) (s : Machine)
      → ltb total (length buf) ≡ true
      → drop total buf ≡ c ∷ r
      → env.send_data (sends_data (c ∷ r) ∷ s.trace) ≡ good n
      → send_loop (suc f) buf total env s
        ≡ send_loop f buf (total + n) env (record s { trace = sends_data (c ∷ r) ∷ s.trace })
  unfolding send_loop after_send call ◌>>=◌
  step f total n c r s lt d e = rw (lt, d, e)

  send_loop_returns :
      (f total : ℕ) (s : Machine)
      → total ≤ length buf
      → length buf ≤ total + f
      → Returned env buf f total s
  send_loop_returns zero total s le fuel = at_end zero total s (omega (arith, le, fuel))
  send_loop_returns (suc f) total s le fuel = elim (Bool-cases (ltb total (length buf))) [
    | inr ge ↦ at_end (suc f) total s (omega (arith, le, ltb→le total (length buf) ge))
    | inl lt ↦
        let d = drop-cons total buf (ltb→lt total (length buf) lt) in
        let c = d.0 in
        let r = d.1.0 in
        let m = moving c r s.trace in
        let next =
          send_loop_returns f (total + suc m.0) (record s { trace = sends_data (c ∷ r) ∷ s.trace })
            (omega (arith, m.1.1, d.1.1.1)) (omega (arith, fuel)) in
        (next.0, step f total (suc m.0) c r s lt d.1.1.0 m.1.0 ∙ next.1)
  ]

-- If each `send` takes at least a byte and no more than it is given, and the patience is at least the
-- length of the buffer, `sendall` returns, with that length.
pub sendall_returns :
    (env : Env) (s : Machine) (buf : Bytes)
    → IsMoving env
    → length buf ≤ env.patience
    → (t : Machine) × (sendall buf env s ≡ done (some (length buf)) t)
unfolding sendall from_env ◌>>=◌
sendall_returns env s buf moving fuel =
    send_loop_returns env moving buf env.patience 0 s (omega arith) (omega (arith, fuel))
