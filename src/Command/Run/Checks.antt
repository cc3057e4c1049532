-- ===== src/Command/Run/Checks.antt =====
-- The table's names are found by the search, and a command's checks.
use ftp_server.Prelude.{
  ℕ, ◌≡◌, ◌≢◌, refl, ap, sym, ◌∙◌, ◌⊎◌, inl, inr, Bool, true, false, not, ◌&&◌, List, [], ◌∷◌,
  Option, none, some, Bytes, if◌then◌else◌,
}
use ftp_server.Text.Ctype.{codes, Order, less, same, greater, strcasecmp, to_lower}
use ftp_server.Auth.{is_same, is_success}
use ftp_server.Machine.Types.{
  Ret, ftp_success, ftp_error, Env, Machine, Outcome, done, crash, looping,
}
use ftp_server.Machine.Monad.{M, pure, ◌>>=◌, gets, continue}
use ftp_server.Reply.{reply, answer}
use ftp_server.Command.Lookup.Correct.{find, AllDiffer, Differs, bsearch-qsort}
use ftp_server.Command.Run.Table.{
  CmdHandler, core_command_list, command_pool, search_command, is_missing, is_empty, refuse,
  pre_command, run_found,
}

and_left : (a b : Bool) → (a && b) ≡ true → a ≡ true
and_left true b h = refl
and_left false b h = h

and_right : (a b : Bool) → (a && b) ≡ true → b ≡ true
and_right true b h = h
and_right false b h = cc

not_same : (o : Order) → not (is_same o) ≡ true → o ≢ same
unfolding is_same
not_same less h = λ e. cc
not_same same h = cc
not_same greater h = λ e. cc

module _ {E : Type 0} (name : E → Bytes) where
  abbrev no_other : E → List E → Bool
  no_other e [] = true
  no_other e (x ∷ xs) = not (is_same (strcasecmp (name e) (name x))) && no_other e xs

  abbrev all_differ : List E → Bool
  all_differ [] = true
  all_differ (x ∷ xs) = no_other x xs && all_differ xs

  no_other-Differs : (e : E) (xs : List E) → no_other e xs ≡ true → Differs name e xs
  no_other-Differs e [] h = tt
  no_other-Differs e (x ∷ xs) h =
      (not_same _ (and_left _ _ h), no_other-Differs e xs (and_right _ _ h))

  all_differ-AllDiffer : (xs : List E) → all_differ xs ≡ true → AllDiffer name xs
  all_differ-AllDiffer [] h = tt
  all_differ-AllDiffer (x ∷ xs) h =
      (no_other-Differs x xs (and_left _ _ h), all_differ-AllDiffer xs (and_right _ _ h))

names_differ : all_differ (λ c. c.name) core_command_list ≡ true
unfolding is_same strcasecmp to_lower
names_differ = refl

-- A command is looked up as if the table of core.c were read from its start for the first name that
-- is the key but for case: the sort and the halving lose and confuse none of its entries.
pub search_command-find :
    (key : Bytes) → search_command key ≡ find (λ c. c.name) key core_command_list
unfolding search_command command_pool
search_command-find key =
    bsearch-qsort (λ c. c.name) key core_command_list
      (all_differ-AllDiffer (λ c. c.name) core_command_list names_differ)

-- What a command needs is there.
pub record Meets (c : CmdHandler) (s : Machine) : Type 0 where
  pub login : c.needs_login ≡ true → s.login.logged_in ≡ true
  pub data_conn : c.needs_data ≡ true → s.conn.pasv_sock ≢ none
  pub argument : c.needs_arg ≡ true → s.arg ≢ []

passes_login : (n l : Bool) → (n ≡ true → l ≡ true) → (n && not l) ≡ false
passes_login true true k = refl
passes_login true false k = let e : false ≡ true = k refl in cc
passes_login false l k = refl

passes_data : (n : Bool) (o : Option ℕ) → (n ≡ true → o ≢ none) → (n && is_missing o) ≡ false
unfolding is_missing
passes_data true none k = absurd (k refl refl)
passes_data true (some fd) k = refl
passes_data false o k = refl

passes_arg : (n : Bool) (s : Bytes) → (n ≡ true → s ≢ []) → (n && is_empty s) ≡ false
unfolding is_empty
passes_arg true [] k = absurd (k refl refl)
passes_arg true (c ∷ s) k = refl
passes_arg false s k = refl

skip_if :
    {A : Type 0} (b : Bool) (m n : M A) (env : Env) (s : Machine)
    → b ≡ false
    → (if b then m else n) env s ≡ n env s
skip_if true m n env s e = cc
skip_if false m n env s e = refl

pre_command-passes :
    (env : Env) (c : CmdHandler) (s : Machine)
    → Meets c s
    → pre_command c env s ≡ pure ftp_success env s
unfolding pre_command gets ◌>>=◌
pre_command-passes env c s m =
    skip_if _ _ _ env s (passes_login c.needs_login s.login.logged_in m.login)
    ∙ skip_if _ _ _ env s (passes_data c.needs_data s.conn.pasv_sock m.data_conn)
    ∙ skip_if _ _ _ env s (passes_arg c.needs_arg s.arg m.argument)

-- A command whose needs are met runs its handler, from the state as it stands and with the handler's
-- result.
pub run_found-runs :
    (env : Env) (c : CmdHandler) (s : Machine)
    → Meets c s
    → run_found (some c) env s ≡ c.handler env s
unfolding run_found ◌>>=◌ is_success
run_found-runs env c s m = rw (pre_command-passes env c s m, pure)

after_reply :
    (o : Outcome (Unit {0})) (m : M Ret) (env : Env)
    → continue
        (continue o (λ u. pure ftp_error) env)
        (λ passed. if is_success passed then m else pure ftp_success)
        env
      ≡ continue o (λ u. pure ftp_success) env
unfolding pure is_success
after_reply (done u s) m env = refl
after_reply (crash s) m env = refl
after_reply (looping s) m env = refl

refused :
    (env : Env) (s : Machine) (msg : Bytes) (m : M Ret)
    → (refuse msg >>= λ passed. if is_success passed then m else pure ftp_success) env s
      ≡ answer msg env s
unfolding refuse answer ◌>>=◌
refused env s msg m = after_reply (reply msg env s) m env

needed_login : (n l : Bool) → (n && not l) ≡ false → n ≡ true → l ≡ true
needed_login true true h e = refl
needed_login true false h e = sym h
needed_login false l h e = cc

needed_data : (n : Bool) (o : Option ℕ) → (n && is_missing o) ≡ false → n ≡ true → o ≢ none
unfolding is_missing
needed_data true none h e = cc
needed_data true (some fd) h e = λ q. cc
needed_data false o h e = cc

needed_arg : (n : Bool) (s : Bytes) → (n && is_empty s) ≡ false → n ≡ true → s ≢ []
unfolding is_empty
needed_arg true [] h e = cc
needed_arg true (c ∷ s) h e = λ q. cc
needed_arg false s h e = cc

-- The three tests, in their order.
abbrev tests : Bool → Bool → Bool → M Ret
tests a b c =
    if a
    then refuse (codes "530 You're not logged in\r\n")
    else if b
    then refuse (codes "425 Cannot open data connection\r\n")
    else if c
    then refuse (codes "501 Missing argument\r\n")
    else pure ftp_success

tests-cases :
    (a b c : Bool)
    → ((msg : Bytes) × (tests a b c ≡ refuse msg)) ⊎ ((a ≡ false) × ((b ≡ false) × (c ≡ false)))
tests-cases true b c = inl (_, refl)
tests-cases false true c = inl (_, refl)
tests-cases false false true = inl (_, refl)
tests-cases false false false = inr (refl, (refl, refl))

-- A command that lacks the login, the data connection or the argument that it needs is answered with
-- one reply, and its handler does not run.
pub run_found-refuses :
    (env : Env) (c : CmdHandler) (s : Machine)
    → ¬ Meets c s
    → (msg : Bytes) × (run_found (some c) env s ≡ answer msg env s)
unfolding run_found pre_command gets ◌>>=◌
run_found-refuses env c s lacks =
    let login = c.needs_login && not s.login.logged_in in
    let data_conn = c.needs_data && is_missing s.conn.pasv_sock in
    let argument = c.needs_arg && is_empty s.arg in
    elim (tests-cases login data_conn argument) [
      | inl (msg, e) ↦ (
        msg,
        ap (λ m. (m >>= λ passed. if is_success passed then c.handler else pure ftp_success) env s)
              e
            ∙ refused env s msg c.handler,
      )
      | inr (a, (b, d)) ↦ absurd (
          lacks (record {
            login = needed_login _ _ a;
            data_conn = needed_data _ _ b;
            argument = needed_arg _ _ d;
          }))
    ]
