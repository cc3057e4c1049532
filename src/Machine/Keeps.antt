-- ===== src/Machine/Keeps.antt =====
-- Invariants of code, one rule for each way to build it. Code that keeps `P` does not crash from `P`.
use ftp_server.Prelude.{ℕ, Bool, true, false, ◌∷◌, Option, none, some, if◌then◌else◌}
use ftp_server.Machine.Types.{Event, History, Env, Machine, Session, Outcome, done, crash, looping}
use ftp_server.Machine.Monad.{
  M, pure, continue, ◌>>=◌, gets, modify, call, set_errno, keep_errno, from_env, loop_on,
}

abbrev pub Ends : {A : Type 0} → (Machine → Type 0) → Outcome A → Type 0
Ends P (done a s) = P s
Ends P (crash s) = ⊥
Ends P (looping s) = P s

pub record Keeps {A : Type 0} (env : Env) (P : Machine → Type 0) (m : M A) : Type 0 where
  pub at : (s : Machine) → P s → Ends P (m env s)

-- What does not look at errno.
pub record IsStable (P : Machine → Type 0) : Type 0 where
  pub errno : (s : Machine) (e : ℕ) → P s → P (record s { errno = e })

module _ {env : Env} {P : Machine → Type 0} where
  pub Keeps-pure : {A : Type 0} (a : A) → Keeps env P (pure a)
  unfolding pure
  Keeps-pure a = record { at = λ s h. h }

  pub Keeps-loop_on : {A : Type 0} → Keeps {A = A} env P loop_on
  unfolding loop_on
  Keeps-loop_on = record { at = λ s h. h }

  pub Keeps-gets : {A : Type 0} (f : Machine → A) → Keeps env P (gets f)
  unfolding gets
  Keeps-gets f = record { at = λ s h. h }

  pub Keeps-from_env : {A : Type 0} (f : Env → A) → Keeps env P (from_env f)
  unfolding from_env
  Keeps-from_env f = record { at = λ s h. h }

  -- What is read is known.
  pub Keeps-read :
      {A B : Type 0} (g : Env → A) (f : A → M B)
      → Keeps env P (f (g env))
      → Keeps env P (from_env g >>= f)
  unfolding from_env ◌>>=◌
  Keeps-read g f k = record { at = k.at }

  pub Keeps-modify :
      (f : Session → Session)
      → ((s : Machine) → P s → P (record s { session = f s.session }))
      → Keeps env P (modify f)
  unfolding modify
  Keeps-modify f k = record { at = k }

  pub Keeps-call :
      {A : Type 0} (e : Event) (q : Env → History → A)
      → ((s : Machine) → P s → P (record s { trace = e ∷ s.trace }))
      → Keeps env P (call e q)
  unfolding call
  Keeps-call e q k = record { at = k }

  pub Keeps-keep_errno : IsStable P → (o : Option ℕ) → Keeps env P (keep_errno o)
  unfolding keep_errno
  Keeps-keep_errno st none = record { at = λ s h. h }
  Keeps-keep_errno st (some e) = record { at = λ s h. st.errno s e h }

  pub Keeps-set_errno : IsStable P → (e : ℕ) → Keeps env P (set_errno e)
  unfolding set_errno
  Keeps-set_errno st e = record { at = λ s h. st.errno s e h }

  pub Keeps-if :
      {A : Type 0} (b : Bool) (m n : M A)
      → Keeps env P m
      → Keeps env P n
      → Keeps env P (if b then m else n)
  Keeps-if true m n km kn = km
  Keeps-if false m n km kn = kn

  continue-Ends :
      {A B : Type 0} (o : Outcome A) (f : A → M B)
      → Ends P o
      → ((a : A) → Keeps env P (f a))
      → Ends P (continue o f env)
  continue-Ends (done a s) f h k = (k a).at s h
  continue-Ends (crash s) f h k = h
  continue-Ends (looping s) f h k = h

  pub Keeps-bind :
      {A B : Type 0} (m : M A) (f : A → M B)
      → Keeps env P m
      → ((a : A) → Keeps env P (f a))
      → Keeps env P (m >>= f)
  unfolding ◌>>=◌
  Keeps-bind m f km kf = record { at = λ s h. continue-Ends (m env s) f (km.at s h) kf }

-- Behind code that keeps an invariant, a property of outcomes holds if the rest gives it.
Ends-then :
    {A B : Type 0} (P : Machine → Type 0) (env : Env) (R : Outcome B → Type 0) (o : Outcome A)
    (f : A → M B)
    → Ends P o
    → ((a : A) (t : Machine) → P t → R (f a env t))
    → ((t : Machine) → P t → R (looping t))
    → R (continue o f env)
Ends-then P env R (done a s) f h k l = k a s h
Ends-then P env R (crash s) f h k l = absurd h
Ends-then P env R (looping s) f h k l = l s h

pub Keeps-then :
    {A B : Type 0} (P : Machine → Type 0) (env : Env) (R : Outcome B → Type 0) (m : M A)
    (f : A → M B) (s : Machine)
    → Keeps env P m
    → P s
    → ((a : A) (t : Machine) → P t → R (f a env t))
    → ((t : Machine) → P t → R (looping t))
    → R ((m >>= f) env s)
unfolding ◌>>=◌
Keeps-then P env R m f s k h = Ends-then P env R (m env s) f (k.at s h)

pub ruleset keeps_rules =
    (Keeps-pure, Keeps-loop_on, Keeps-gets, Keeps-from_env, Keeps-if, Keeps-bind)
