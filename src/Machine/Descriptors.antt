-- ===== src/Machine/Descriptors.antt =====
-- The descriptors that the calls of a history have opened and not closed.
use ftp_server.Prelude.{
  ℕ, ◌≡◌, sym, ap, ◌∙◌, true, List, [], ◌∷◌, ◌==◌, ==_iff, Bool-cases, inl, inr, if◌then◌else◌,
  arith,
}
use ftp_server.Machine.Types.{
  Answer, good, bad, History, Event, closed, accepted, sockets, pipes, fs, op_open, op_creat,
  op_opendir, closes_dir, Env,
}

-- The descriptors that a history leaves open, the last one first.
abbrev pub without : ℕ → List ℕ → List ℕ
without fd [] = []
without fd (x ∷ xs) = let rest = without fd xs in if x == fd then xs else x ∷ rest

abbrev pub with_fd : Answer ℕ → List ℕ → List ℕ
with_fd (good fd) fds = fd ∷ fds
with_fd (bad e) fds = fds

abbrev pub with_pipe : Answer (ℕ × ℕ) → List ℕ → List ℕ
with_pipe (good p) fds = p.1 ∷ p.0 ∷ fds
with_pipe (bad e) fds = fds

abbrev pub open_fds : Env → History → List ℕ
open_fds env [] = []
open_fds env (closed fd ∷ h) = without fd (open_fds env h)
open_fds env (sockets ∷ h) = with_fd (env.socket (sockets ∷ h)) (open_fds env h)
open_fds env (pipes ∷ h) = with_pipe (env.pipe (pipes ∷ h)) (open_fds env h)
open_fds env (accepted o ∷ h) = with_fd (env.accept (accepted o ∷ h)) (open_fds env h)
open_fds env (fs op_open p ∷ h) = with_fd (env.open_fd (fs op_open p ∷ h)) (open_fds env h)
open_fds env (fs op_opendir p ∷ h) = with_fd (env.open_fd (fs op_opendir p ∷ h)) (open_fds env h)
open_fds env (closes_dir fd ∷ h) = without fd (open_fds env h)
open_fds env (fs op_creat p ∷ h) = with_fd (env.open_fd (fs op_creat p ∷ h)) (open_fds env h)
open_fds env (_ ∷ h) = open_fds env h

-- Calls that open and close no descriptor.
abbrev pub NoFd : Event → Type 0
NoFd (fs op_open p) = ⊥
NoFd (fs op_creat p) = ⊥
NoFd (fs op_opendir p) = ⊥
NoFd (closes_dir fd) = ⊥
NoFd (closed fd) = ⊥
NoFd (accepted o) = ⊥
NoFd sockets = ⊥
NoFd pipes = ⊥
NoFd _ = Unit {0}

-- Kept by every such call.
abbrev pub IsPlain : (History → Type 0) → Type 0
IsPlain T = (e : Event) (h : History) → NoFd e → T h → T (e ∷ h)

abbrev pub Has : Env → List ℕ → History → Type 0
Has env fds h = open_fds env h ≡ fds

pub Has-IsPlain : (env : Env) (fds : List ℕ) → IsPlain (Has env fds)
Has-IsPlain env fds (fs op_open p) h n k = absurd n
Has-IsPlain env fds (fs op_creat p) h n k = absurd n
Has-IsPlain env fds (fs op_opendir p) h n k = absurd n
Has-IsPlain env fds (closes_dir fd) h n k = absurd n
Has-IsPlain env fds (fs _ p) h n k = k
Has-IsPlain env fds (closed fd) h n k = absurd n
Has-IsPlain env fds (accepted o) h n k = absurd n
Has-IsPlain env fds sockets h n k = absurd n
Has-IsPlain env fds pipes h n k = absurd n
Has-IsPlain env fds _ h n k = k

pub without-first : (fds : List ℕ) (fd : ℕ) (l : List ℕ) → l ≡ fd ∷ fds → without fd l ≡ fds
without-first fds fd l e =
    let same : (fd == fd) ≡ true = ground arith in
    let first : without fd (fd ∷ fds) ≡ fds = rw (same) in ap (without fd) e ∙ first

-- Two descriptors are closed, the older first.
pub without-both :
    (fds : List ℕ) (a b : ℕ) (l : List ℕ) → l ≡ b ∷ a ∷ fds → without b (without a l) ≡ fds
without-both fds a b l e = ap (λ l. without b (without a l)) e ∙ both
  where
    same : (n : ℕ) → (n == n) ≡ true
    same n = ground arith

    both : without b (without a (b ∷ a ∷ fds)) ≡ fds
    both = elim (Bool-cases (b == a)) [
      | inl y ↦ let e : b ≡ a = (==_iff b a).0 y in rw (y) (rw (ap (λ n. n == b) (sym e) ∙ same b))
      | inr n ↦ rw (n, same a, same b)
    ]
