-- ===== src/Machine/Leads.antt =====
-- Code that leads from one state of affairs to another, and neither crashes nor waits for ever.
use ftp_server.Prelude.{Bytes, Bool, true, false, ◌≡◌, refl, Option, none, some, if◌then◌else◌}
use ftp_server.Machine.Types.{
  CharPtr, undefined, null, points_to, Env, Machine, Outcome, done, crash, looping,
}
use ftp_server.Machine.Monad.{read_ptr, M, pure, continue, ◌>>=◌, gets, deref, fault, from_env}

abbrev pub EndsIn : {A : Type 0} → (A → Machine → Type 0) → Outcome A → Type 0
EndsIn Q (done a s) = Q a s
EndsIn Q (crash s) = ⊥
EndsIn Q (looping s) = ⊥

pub record Leads {A : Type 0} (env : Env) (P : Machine → Type 0) (Q : A → Machine → Type 0)
    (m : M A) : Type 0 where
  pub at : (s : Machine) → P s → EndsIn Q (m env s)

continue-EndsIn :
    {A B : Type 0} {Q : A → Machine → Type 0} {R : B → Machine → Type 0} (env : Env) (o : Outcome A)
    (f : A → M B)
    → EndsIn Q o
    → ((a : A) → Leads env (Q a) R (f a))
    → EndsIn R (continue o f env)
continue-EndsIn env (done a s) f h k = (k a).at s h
continue-EndsIn env (crash s) f h k = h
continue-EndsIn env (looping s) f h k = h

pub none_not_some : {A : Type 0} (a : A) → none ≡ some a → ⊥
none_not_some a e = cc

module _ {env : Env} {P : Machine → Type 0} where
  pub Leads-if :
      {A : Type 0} {Q : A → Machine → Type 0} (b : Bool) (m n : M A)
      → (b ≡ true → Leads env P Q m)
      → (b ≡ false → Leads env P Q n)
      → Leads env P Q (if b then m else n)
  Leads-if true m n km kn = km refl
  Leads-if false m n km kn = kn refl

  pub Leads-bind :
      {A B : Type 0} (Q : A → Machine → Type 0) {R : B → Machine → Type 0} (m : M A) (f : A → M B)
      → Leads env P Q m
      → ((a : A) → Leads env (Q a) R (f a))
      → Leads env P R (m >>= f)
  unfolding ◌>>=◌
  Leads-bind Q m f km kf = record { at = λ s h. continue-EndsIn env (m env s) f (km.at s h) kf }

  pub Leads-pure :
      {A : Type 0} {Q : A → Machine → Type 0} (a : A)
      → ((s : Machine) → P s → Q a s)
      → Leads env P Q (pure a)
  unfolding pure
  Leads-pure a k = record { at = k }

  pub Leads-gets : {A : Type 0} (f : Machine → A) → Leads env P (λ a s. P s × (f s ≡ a)) (gets f)
  unfolding gets
  Leads-gets f = record { at = λ s h. (h, refl) }

  pub Leads-peek : {A : Type 0} (f : Machine → A) → Leads env P (λ a. P) (gets f)
  unfolding gets
  Leads-peek f = record { at = λ s h. h }

  pub Leads-deref :
      {A : Type 0} (o : Option A)
      → ((s : Machine) → P s → (a : A) × (o ≡ some a))
      → Leads env P (λ a. P) (deref o)
  unfolding deref pure fault
  Leads-deref none k = record { at = λ s h. absurd (none_not_some (k s h).0 (k s h).1) }
  Leads-deref (some a) k = record { at = λ s h. h }

  pub Leads-from :
      {A : Type 0} {P' : Machine → Type 0} {Q : A → Machine → Type 0} (m : M A)
      → ((s : Machine) → P s → P' s)
      → Leads env P' Q m
      → Leads env P Q m
  Leads-from m k l = record { at = λ s h. l.at s (k s h) }

  pub Leads-from_env :
      {A B : Type 0} {R : B → Machine → Type 0} (g : Env → A) (f : A → M B)
      → Leads env P R (f (g env))
      → Leads env P R (from_env g >>= f)
  unfolding from_env ◌>>=◌
  Leads-from_env g f l = record { at = l.at }

  -- A pointer that is read is known.
  pub Leads-deref_known :
      {A : Type 0} (o : Option A)
      → ((s : Machine) → P s → (a : A) × (o ≡ some a))
      → Leads env P (λ a s. P s × (o ≡ some a)) (deref o)
  unfolding deref pure fault
  Leads-deref_known none k = record { at = λ s h. absurd (none_not_some (k s h).0 (k s h).1) }
  Leads-deref_known (some a) k = record { at = λ s h. (h, refl) }

  pub Leads-read_ptr :
      (p : CharPtr)
      → ((s : Machine) → P s → (a : Bytes) × (p ≡ points_to a))
      → Leads env P (λ a. P) (read_ptr p)
  unfolding read_ptr pure fault
  Leads-read_ptr undefined k = record {
    at = λ s h. let e : undefined ≡ points_to (k s h).0 = (k s h).1 in cc;
  }
  Leads-read_ptr null k = record {
    at = λ s h. let e : null ≡ points_to (k s h).0 = (k s h).1 in cc;
  }
  Leads-read_ptr (points_to a) k = record { at = λ s h. h }

-- What is known of the state chooses the proof.
pub Leads-by :
    {A : Type 0} {X : Type 0} {env : Env} {P : Machine → Type 0} {Q : A → Machine → Type 0}
    (m : M A)
    → ((s : Machine) → P s → X)
    → (X → Leads env P Q m)
    → Leads env P Q m
Leads-by m x l = record { at = λ s h. (l (x s h)).at s h }
