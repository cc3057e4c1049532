-- ===== src/Machine/Stays.antt =====
-- What holds of the history where code ends with a value, one rule for each way to build it.
use ftp_server.Prelude.{ℕ, Bool, true, false, ◌∷◌, Option, none, some, if◌then◌else◌, Bytes}
use ftp_server.Machine.Types.{
  CharPtr, undefined, null, points_to, Event, History, Env, Machine, Session, Outcome, done, crash,
  looping,
}
use ftp_server.Machine.Monad.{
  read_ptr, M, pure, continue, ◌>>=◌, gets, modify, call, set_errno, keep_errno, from_env, loop_on,
  fault, deref, set_state_pool, set_root,
}

abbrev pub Reaches : {A : Type 0} → (A → History → Type 0) → Outcome A → Type 0
Reaches U (done a s) = U a s.trace
Reaches U (crash s) = Unit
Reaches U (looping s) = Unit

-- From a history in `T`, a value `a` comes with a history in `U a`.
pub record Moves {A : Type 0} (env : Env) (T : History → Type 0) (U : A → History → Type 0)
    (m : M A) : Type 0 where
  pub at : (s : Machine) → T s.trace → Reaches U (m env s)

abbrev pub Stays : {A : Type 0} → Env → (History → Type 0) → M A → Type 0
Stays env T m = Moves env T (λ a. T) m

continue-Reaches :
    {A B : Type 0} {U : A → History → Type 0} {V : B → History → Type 0} (env : Env) (o : Outcome A)
    (f : A → M B)
    → Reaches U o
    → ((a : A) → Moves env (U a) V (f a))
    → Reaches V (continue o f env)
continue-Reaches env (done a s) f h k = (k a).at s h
continue-Reaches env (crash s) f h k = tt
continue-Reaches env (looping s) f h k = tt

module _ {env : Env} {T : History → Type 0} where
  pub Moves-bind :
      {A B : Type 0} (U : A → History → Type 0) {V : B → History → Type 0} (m : M A) (f : A → M B)
      → Moves env T U m
      → ((a : A) → Moves env (U a) V (f a))
      → Moves env T V (m >>= f)
  unfolding ◌>>=◌
  Moves-bind U m f km kf = record { at = λ s h. continue-Reaches env (m env s) f (km.at s h) kf }

  pub Moves-pure :
      {A : Type 0} {U : A → History → Type 0} (a : A)
      → ((h : History) → T h → U a h)
      → Moves env T U (pure a)
  unfolding pure
  Moves-pure a k = record { at = λ s h. k s.trace h }

  pub Moves-call :
      {A : Type 0} {U : A → History → Type 0} (e : Event) (q : Env → History → A)
      → ((h : History) → T h → U (q env (e ∷ h)) (e ∷ h))
      → Moves env T U (call e q)
  unfolding call
  Moves-call e q k = record { at = λ s h. k s.trace h }

  pub Stays-bind :
      {A B : Type 0} (m : M A) (f : A → M B)
      → Stays env T m
      → ((a : A) → Stays env T (f a))
      → Stays env T (m >>= f)
  Stays-bind m f km kf = Moves-bind (λ a. T) m f km kf

  pub Stays-pure : {A : Type 0} (a : A) → Stays env T (pure a)
  Stays-pure a = Moves-pure a (λ h t. t)

  pub Stays-if :
      {A : Type 0} (b : Bool) (m n : M A)
      → Stays env T m
      → Stays env T n
      → Stays env T (if b then m else n)
  Stays-if true m n km kn = km
  Stays-if false m n km kn = kn

  pub Stays-gets : {A : Type 0} (f : Machine → A) → Stays env T (gets f)
  unfolding gets
  Stays-gets f = record { at = λ s h. h }

  pub Stays-from_env : {A : Type 0} (f : Env → A) → Stays env T (from_env f)
  unfolding from_env
  Stays-from_env f = record { at = λ s h. h }

  pub Stays-modify : (f : Session → Session) → Stays env T (modify f)
  unfolding modify
  Stays-modify f = record { at = λ s h. h }

  pub Stays-set_errno : (e : ℕ) → Stays env T (set_errno e)
  unfolding set_errno
  Stays-set_errno e = record { at = λ s h. h }

  pub Stays-keep_errno : (o : Option ℕ) → Stays env T (keep_errno o)
  unfolding keep_errno
  Stays-keep_errno none = Stays-pure tt
  Stays-keep_errno (some e) = Stays-set_errno e

  pub Stays-loop_on : {A : Type 0} → Stays {A = A} env T loop_on
  unfolding loop_on
  Stays-loop_on = record { at = λ s h. tt }

  pub Stays-deref : {A : Type 0} (o : Option A) → Stays env T (deref o)
  unfolding deref fault
  Stays-deref none = record { at = λ s h. tt }
  Stays-deref (some a) = Stays-pure a

  pub Stays-fault : {A : Type 0} → Stays {A = A} env T fault
  unfolding fault
  Stays-fault = record { at = λ s h. tt }

  pub Stays-read_ptr : (p : CharPtr) → Stays env T (read_ptr p)
  unfolding read_ptr
  Stays-read_ptr undefined = Stays-fault
  Stays-read_ptr null = Stays-fault
  Stays-read_ptr (points_to s) = Stays-pure s

  pub Stays-set_state_pool : (o : Option Bytes) → Stays env T (set_state_pool o)
  unfolding set_state_pool
  Stays-set_state_pool o = record { at = λ s h. h }

  pub Stays-set_root : (o : Option Bytes) → Stays env T (set_root o)
  unfolding set_root
  Stays-set_root o = record { at = λ s h. h }

pub ruleset stays_rules = (
  Stays-pure, Stays-loop_on, Stays-gets, Stays-from_env, Stays-modify, Stays-set_errno,
  Stays-keep_errno, Stays-deref, Stays-read_ptr, Stays-set_state_pool, Stays-if, Stays-bind,
)
