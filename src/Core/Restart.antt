-- ===== src/Core/Restart.antt =====
-- core.c, `dorest`: the offset that a client sends, and the errno that is left from before.
use mathlib.Core.Path.{subst}
use ftp_server.Prelude.{
  ℕ, ◌+◌, ◌%◌, ◌<◌, ◌≡◌, refl, sym, ap, ◌∙◌, Bool, true, false, [], ◌∷◌, ◌++◌, All, append-nil,
  All-front, All-back, Option, none, some, ◌==◌, if◌then◌else◌, arith, Bytes,
}
use ftp_server.Text.Ctype.{is_digit, is_blank, is_space}
use ftp_server.Text.Util.{trim_whitespace, trim_in_line}
use ftp_server.Text.Util.Trim.{IsTrimmed, trim_whitespace-IsTrimmed}
use ftp_server.Text.Util.Trim.Returns.{trim_whitespace_returns}
use ftp_server.Text.Number.{digits, decimal, strtoll, llong_max, Parsed}
use ftp_server.Text.Number.RoundTrip.{Digits, decimal-Digits, strtoll-decimal, digit_no_space}
use ftp_server.Machine.Types.{Ret, ftp_success, Env, Machine, Outcome, done, crash, looping}
use ftp_server.Machine.Errno.{erange}
use ftp_server.Machine.Monad.{M, pure, ◌>>=◌, ◌>>◌, gets, call, modify, set_errno, keep_errno}
use ftp_server.Reply.{reply, reply_format}
use ftp_server.Text.Ctype.{codes}
use ftp_server.Core.Info.{dorest, restart_at, set_restart, is_bad_offset}

-- Digits hold nothing to trim.
no_blank : (c : ℕ) → is_digit c ≡ true → is_blank c ≡ false
unfolding is_digit is_blank
no_blank c h = ground arith

clash : (b : Bool) → b ≡ true → b ≡ false → ⊥
clash b e f = cc

nothing_cut :
    (p : ℕ → Bool) (s : Bytes)
    → ((c : ℕ) → is_digit c ≡ true → p c ≡ false)
    → All (λ c. p c ≡ true) s
    → Digits s
    → s ≡ []
nothing_cut p [] k a d = refl
nothing_cut p (c ∷ s) k a d = absurd (clash (p c) a.0 (k c d.0))

IsTrimmed-Digits : (s t : Bytes) → Digits s → IsTrimmed s t → t ≡ s
IsTrimmed-Digits s t d k =
    let all : Digits (k.front ++ (t ++ k.back)) = subst Digits k.split d in
    let front =
      nothing_cut is_blank k.front no_blank k.blanks (All-front _ k.front (t ++ k.back) all) in
    let back =
      nothing_cut is_space k.back digit_no_space k.spaces
        (All-back _ t k.back (All-back _ k.front (t ++ k.back) all)) in
    sym (k.split ∙ ap (λ f. f ++ (t ++ k.back)) front ∙ ap (λ b. t ++ b) back ∙ append-nil t)

trim_in_line_lem : (s t : Bytes) → trim_whitespace s ≡ some t → trim_in_line s ≡ t
unfolding trim_in_line
trim_in_line_lem s t e = rw (e, trim_in_line)

trim_in_line-Digits :
    (front : Bytes) (c : ℕ)
    → Digits (front ++ (c ∷ []))
    → trim_in_line (front ++ (c ∷ [])) ≡ front ++ (c ∷ [])
trim_in_line-Digits front c d =
    let last = All-back (λ c. is_digit c ≡ true) front (c ∷ []) d in
    let r = trim_whitespace_returns front c [] (digit_no_space c last.0) in
    trim_in_line_lem _ r.0 r.1 ∙ IsTrimmed-Digits _ r.0 d (trim_whitespace-IsTrimmed _ r.0 r.1)

trim_in_line-decimal : (n : ℕ) → trim_in_line (decimal n) ≡ decimal n
unfolding decimal digits
trim_in_line-decimal n = trim_in_line-Digits _ (48 + n % 10) (decimal-Digits n)

-- A reply always returns.
kept_errno :
    (o : Option ℕ) (env : Env) (s : Machine) → (t : Machine) × (keep_errno o env s ≡ done tt t)
unfolding keep_errno pure set_errno
kept_errno none env s = (s, refl)
kept_errno (some e) env s = (record s { errno = e }, refl)

pub reply_returns :
    (msg : Bytes) (env : Env) (s : Machine) → (t : Machine) × (reply msg env s ≡ done tt t)
unfolding reply call ◌>>=◌
reply_returns msg env s = kept_errno _ env _

-- The command succeeds, and transfers restart at `n`.
abbrev pub Restarts : ℕ → Outcome Ret → Type 0
Restarts n (done r s) = (r ≡ ftp_success) × (s.restart_pos ≡ n)
Restarts n (crash s) = ⊥
Restarts n (looping s) = ⊥

after_reply :
    (msg : Bytes) (m : M Ret) (n : ℕ) (env : Env) (s : Machine)
    → ((t : Machine) → Restarts n (m env t))
    → Restarts n ((reply msg >> m) env s)
unfolding ◌>>=◌
after_reply msg m n env s k = let r = reply_returns msg env s in rw (r.1) (k r.0)

set_restart_lem : (n : ℕ) (env : Env) (s : Machine) → Restarts n (set_restart n env s)
unfolding set_restart modify pure ◌>>=◌
set_restart_lem n env s = (refl, refl)

chosen :
    (b : Bool) (n : ℕ) (msg : Bytes) (env : Env) (s : Machine)
    → Restarts (if b then 0 else n) (
        (if b
            then reply (codes "501-Invalid seek argument\r\n")
              >> (reply (codes "501 Seek reset to 0\r\n") >> set_restart 0)
            else reply_format msg >> set_restart n)
          env s)
unfolding reply_format
chosen true n msg env s =
    after_reply _ _ 0 env s (λ t. after_reply _ _ 0 env t (λ u. set_restart_lem 0 env u))
chosen false n msg env s = after_reply _ _ n env s (λ t. set_restart_lem n env t)

abbrev plain : ℕ → Parsed
plain n = record { negative = false; magnitude = n; overflowed = false }

restart_at-plain :
    (n : ℕ) (env : Env) (s : Machine)
    → n < llong_max
    → Restarts (if s.errno == erange then 0 else n) (restart_at (plain n) env s)
unfolding restart_at is_bad_offset keep_errno gets pure ◌>>=◌
restart_at-plain n env s h =
    let good : (n == llong_max) ≡ false = ground arith in
    rw (good) (chosen (s.errno == erange) n _ env s)

-- REST with the digits of an offset always returns with success, and the next transfer starts at that
-- offset, unless errno is still ERANGE from an earlier conversion: then it starts at 0.
pub dorest-decimal :
    (env : Env) (s : Machine) (n : ℕ)
    → n < llong_max
    → s.arg ≡ decimal n
    → Restarts (if s.errno == erange then 0 else n) (dorest env s)
unfolding dorest gets ◌>>=◌
dorest-decimal env s n h e =
    let parsed : strtoll (trim_in_line s.arg) ≡ plain n =
      ap (λ t. strtoll (trim_in_line t)) e
      ∙ ap strtoll (trim_in_line-decimal n)
      ∙ strtoll-decimal n (omega (arith, h)) in
    subst (λ p. Restarts (if s.errno == erange then 0 else n) (restart_at p env s)) (sym parsed)
      (restart_at-plain n env s h)
