-- ===== src/Auth/Match.antt =====
-- auth.c, `login_user`: who it lets in.
use mathlib.Core.Path.{subst}
use ftp_server.Prelude.{
  ℕ, ◌≡◌, refl, sym, ap, ◌∙◌, true, false, Bool, not, Option, none, some, Bytes, [], ◌∷◌,
  if◌then◌else◌, arith,
}
use ftp_server.Machine.Types.{
  Env, History, Machine, Passwd, Outcome, done, crash, looping, asks_user, asks_shadow, encrypts,
}
use ftp_server.Machine.Monad.{M, pure, ◌>>=◌, call, continue}
use ftp_server.Auth.{
  same_text, is_success, open_pools, check_encrypted, check_shadow, check_user, login_user,
}

pub same_text-≡ : (a b : Bytes) → same_text a b ≡ true → a ≡ b
unfolding same_text
same_text-≡ [] [] h = refl
same_text-≡ [] (y ∷ b) h = cc
same_text-≡ (x ∷ a) [] h = cc
same_text-≡ (x ∷ a) (y ∷ b) h = ground (arith, same_text-≡ a b)

-- The account's user id, where the password's encryption is the stored one.
pub record IsMatch (env : Env) (s : Machine) (user password : Bytes) (uid : ℕ) : Type 0 where
  pub pwd : Passwd
  pub shadow : Bytes
  pub account : env.getpwnam (asks_user user ∷ s.trace) ≡ some pwd
  pub stored : env.getspnam (asks_shadow user ∷ asks_user user ∷ s.trace) ≡ some shadow
  pub encrypted :
      env.crypt (encrypts password shadow ∷ asks_shadow user ∷ asks_user user ∷ s.trace)
      ≡ some shadow
  pub who : pwd.pw_uid ≡ uid

-- The value of a run that is done.
abbrev pub Gives : {A : Type 0} → A → Outcome A → Type 0
Gives a (done b s) = b ≡ a
Gives a (crash s) = ⊥
Gives a (looping s) = ⊥

-- What holds of the result, if there is one.
abbrev Results : {A : Type 0} → (A → Type 0) → Outcome A → Type 0
Results R (done a s) = R a
Results R (crash s) = Unit
Results R (looping s) = Unit

continue-Results :
    {A B : Type 0} (R : B → Type 0) (env : Env) (o : Outcome A) (f : A → M B)
    → ((a : A) (s : Machine) → Results R (f a env s))
    → Results R (continue o f env)
continue-Results R env (done a s) f k = k a s
continue-Results R env (crash s) f k = tt
continue-Results R env (looping s) f k = tt

Results-Gives :
    {A : Type 0} (R : A → Type 0) (o : Outcome A) (a : A) → Results R o → Gives a o → R a
Results-Gives R (done b s) a r g = subst R g r
Results-Gives R (crash s) a r g = absurd g
Results-Gives R (looping s) a r g = absurd g

-- The result is the account's user id, if it is one.
abbrev Only : ℕ → Option ℕ → Type 0
Only pw_uid o = (uid : ℕ) → o ≡ some uid → pw_uid ≡ uid

record Always {A : Type 0} (env : Env) (R : A → Type 0) (m : M A) : Type 0 where
  at : (s : Machine) → Results R (m env s)

module _ {env : Env} where
  Always-bind :
      {A B : Type 0} (R : B → Type 0) (m : M A) (f : A → M B)
      → ((a : A) → Always env R (f a))
      → Always env R (m >>= f)
  unfolding ◌>>=◌
  Always-bind R m f k = record { at = λ s. continue-Results R env (m env s) f (λ a t. (k a).at t) }

  pure-Only : (b : Bool) (n : ℕ) → Always env (Only n) (pure (if b then some n else none))
  unfolding pure
  pure-Only true n = record { at = λ s uid e. cc }
  pure-Only false n = record { at = λ s uid e. cc }

  if-Only :
      (b : Bool) (n : ℕ) (m : M (Option ℕ))
      → Always env (Only n) m
      → Always env (Only n) (if not b then pure none else m)
  unfolding pure
  if-Only true n m r = r
  if-Only false n m r = record { at = λ s uid e. cc }

  open_pools-Only : (pwd : Passwd) → Always env (Only pwd.pw_uid) (open_pools pwd)
  unfolding open_pools
  open_pools-Only pwd = Always-bind _ _ _ λ state.
      if-Only (is_success state) pwd.pw_uid _
        (Always-bind _ _ _ (λ vfs. pure-Only (is_success vfs) pwd.pw_uid))

module _ (env : Env) (s : Machine) (user password : Bytes) where
  abbrev Match : Option ℕ → Type 0
  Match o = (uid : ℕ) → o ≡ some uid → IsMatch env s user password uid

  no-Match : (t : Machine) → Results Match (pure none env t)
  unfolding pure
  no-Match t = λ uid e. cc

  abbrev h1 : History
  h1 = asks_user user ∷ s.trace

  abbrev h2 : History
  h2 = asks_shadow user ∷ h1

  Only-Match :
      (pwd : Passwd) (o : Option ℕ)
      → ((uid : ℕ) → pwd.pw_uid ≡ uid → IsMatch env s user password uid)
      → Only pwd.pw_uid o
      → Match o
  Only-Match pwd o k only uid e = k uid (only uid e)

  Results-map :
      {A : Type 0} {R Q : A → Type 0} (o : Outcome A)
      → ((a : A) → R a → Q a)
      → Results R o
      → Results Q o
  Results-map (done a t) k r = k a r
  Results-map (crash t) k r = r
  Results-map (looping t) k r = r

  matches_if :
      (t : Machine) (pwd : Passwd) (b : Bool)
      → (b ≡ true → (uid : ℕ) → pwd.pw_uid ≡ uid → IsMatch env s user password uid)
      → Results Match ((if b then open_pools pwd else pure none) env t)
  matches_if t pwd true k =
      Results-map _ (λ o. Only-Match pwd o (k refl)) ((open_pools-Only pwd).at t)
  matches_if t pwd false k = no-Match t

  matches_encrypted :
      (t : Machine) (pwd : Passwd) (shadow : Bytes) (o : Option Bytes)
      → env.getpwnam h1 ≡ some pwd
      → env.getspnam h2 ≡ some shadow
      → env.crypt (encrypts password shadow ∷ h2) ≡ o
      → Results Match (check_encrypted pwd shadow o env t)
  unfolding check_encrypted
  matches_encrypted t pwd shadow none a b c = no-Match t
  matches_encrypted t pwd shadow (some e) a b c =
      matches_if t pwd (same_text e shadow) λ same uid who. record {
        pwd = pwd;
        shadow = shadow;
        account = a;
        stored = b;
        encrypted = c ∙ ap some (same_text-≡ e shadow same);
        who = who;
      }

  matches_shadow :
      (t : Machine) (pwd : Passwd) (o : Option Bytes)
      → t.trace ≡ h2
      → env.getpwnam h1 ≡ some pwd
      → env.getspnam h2 ≡ o
      → Results Match (check_shadow pwd password o env t)
  unfolding check_shadow call ◌>>=◌
  matches_shadow t pwd none e a b = no-Match t
  matches_shadow t pwd (some shadow) e a b =
      matches_encrypted _ pwd shadow _ a b
        (ap (λ h. env.crypt (encrypts password shadow ∷ h)) (sym e))

  matches_user :
      (t : Machine) (o : Option Passwd)
      → t.trace ≡ h1
      → env.getpwnam h1 ≡ o
      → Results Match (check_user user password o env t)
  unfolding check_user call ◌>>=◌
  matches_user t none e a = no-Match t
  matches_user t (some pwd) e a =
      matches_shadow _ pwd _ (ap (λ h. asks_shadow user ∷ h) e) a
        (ap (λ h. env.getspnam (asks_shadow user ∷ h)) (sym e))

-- `login_user` gives a user id only for an account that there is, when the encryption of the password
-- is the one that is stored for the user, and the id is then the account's.
pub login_user-IsMatch :
    (env : Env) (s : Machine) (user password : Bytes) (uid : ℕ)
    → Gives (some uid) (login_user user password env s)
    → IsMatch env s user password uid
unfolding login_user call ◌>>=◌
login_user-IsMatch env s user password uid g =
    Results-Gives (Match env s user password) _ (some uid)
      (matches_user env s user password _ (env.getpwnam (asks_user user ∷ s.trace)) refl refl) g uid
      refl
