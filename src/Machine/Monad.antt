-- ===== src/Machine/Monad.antt =====
-- Sequencing: a piece of code runs in an environment and from a machine state.
use ftp_server.Prelude.{ℕ, ◌∷◌, Option, none, some, Bytes}
use ftp_server.Machine.Types.{
  CharPtr, undefined, null, points_to, Event, History, Env, Machine, Session, Outcome, done, crash,
  looping,
}

abbrev pub M : Type 0 → Type 0
M A = Env → Machine → Outcome A

unfoldable pub pure : {A : Type 0} → A → M A
pure a env s = done a s

abbrev pub continue : {A B : Type 0} → Outcome A → (A → M B) → Env → Outcome B
continue (done a s) f env = f a env s
continue (crash s) f env = crash s
continue (looping s) f env = looping s

infixl 5 ◌>>=◌ ◌>>◌
unfoldable pub ◌>>=◌ : {A B : Type 0} → M A → (A → M B) → M B
unfolding pure
◌>>=◌ m f env s = continue (m env s) f env

abbrev pub ◌>>◌ : {A B : Type 0} → M A → M B → M B
m >> k = m >>= λ _. k

unfoldable pub gets : {A : Type 0} → (Machine → A) → M A
gets f env s = done (f s) s

unfoldable pub modify : (Session → Session) → M (Unit {0})
modify f env s = done tt (record s { session = f s.session })

-- A call to the outside, with its answer.
unfoldable pub call : {A : Type 0} → Event → (Env → History → A) → M A
call e q env s = done (q env (e ∷ s.trace)) (record s { trace = e ∷ s.trace })

unfoldable pub set_errno : ℕ → M (Unit {0})
set_errno e env s = done tt (record s { errno = e })

-- errno after a call that may fail
unfoldable pub keep_errno : Option ℕ → M (Unit {0})
unfolding set_errno pure
keep_errno none = pure tt
keep_errno (some e) = set_errno e

unfoldable pub from_env : {A : Type 0} → (Env → A) → M A
from_env f env s = done (f env) s

unfoldable pub fault : {A : Type 0} → M A
fault env s = crash s

unfoldable pub set_root : Option Bytes → M (Unit {0})
set_root r env s = done tt (record s { root = r })

unfoldable pub set_state_pool : Option Bytes → M (Unit {0})
set_state_pool p env s = done tt (record s { state_pool = p })

-- The value of a pointer that the code reads through: NULL crashes.
unfoldable pub deref : {A : Type 0} → Option A → M A
unfolding pure fault
deref none = fault
deref (some a) = pure a

unfoldable pub read_ptr : CharPtr → M Bytes
unfolding pure fault
read_ptr undefined = fault
read_ptr null = fault
read_ptr (points_to s) = pure s

-- free( p )
unfoldable pub free_ptr : CharPtr → M (Unit {0})
unfolding pure fault
free_ptr undefined = fault
free_ptr _ = pure tt

-- The loop goes on, and is not followed further.
unfoldable pub loop_on : {A : Type 0} → M A
loop_on env s = looping s
