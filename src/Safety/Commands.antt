-- ===== src/Safety/Commands.antt =====
-- command.c: a command, with its checks, keeps a session safe.
use ftp_server.Prelude.{
  ◌≡◌, refl, inl, inr, true, false, Bool, not, ◌&&◌, Option, none, some, Bytes, [], ◌∷◌, List,
  if◌then◌else◌, Bool-cases, suc, length,
}
use ftp_server.Machine.Types.{Ret, ftp_success, Env, Machine, Outcome, done, crash, looping}
use ftp_server.Machine.Monad.{M, pure, ◌>>=◌, gets, modify, continue}
use ftp_server.Machine.Keeps.{
  Ends, Keeps, keeps_rules, Keeps-bind, Keeps-pure, Keeps-gets, Keeps-if,
}
use ftp_server.Machine.Leads.{Leads, EndsIn, Leads-bind, Leads-pure}
use ftp_server.Auth.{is_success}
use ftp_server.Command.Lookup.Entries.{IfFound, All-qsort, bsearch-IfFound}
use ftp_server.Command.Run.Table.{
  CmdHandler, core_command_list, command_pool, search_command, refuse, pre_command, run_found,
  do_cmd,
}
use ftp_server.Command.Run.Serve.{set_command, serve}
use ftp_server.Safety.Invariant.{
  Inside, Inside-quiet, Outside, Outside-quiet, IsSafe, IsQuiet, Quiet-modify,
}
use ftp_server.Safety.Replies.{reply-Quiet, answer-Quiet}
use ftp_server.Safety.Naming.{reply-Leads}
use ftp_server.Safety.Password.{HasAnonRoot}
use ftp_server.Safety.Main.{IsSound, core_command_list-IsSound}

-- Safety is quiet, too.
pub IsSafe-quiet : (env : Env) → IsQuiet (IsSafe env)
IsSafe-quiet env =
    let o = Outside-quiet env.config in
    let i = Inside-quiet {env = env} in
    record {
      stable = record {
        errno = λ s e h. elim h [
          | inl a ↦ inl (o.stable.errno s e a)
          | inr b ↦ inr (i.stable.errno s e b)
        ];
      };
      event = λ s e n h. elim h [ inl a ↦ inl (o.event s e n a) | inr b ↦ inr (i.event s e n b) ];
      update =
          λ s f l h. elim h [ inl a ↦ inl (o.update s f l a) | inr b ↦ inr (i.update s f l b) ];
    }

pub Ends-then :
    {A B : Type 0} {P Q : Machine → Type 0} (env : Env) (o : Outcome A) (f : A → M B)
    → Ends P o
    → ((s : Machine) → P s → Q s)
    → ((a : A) (s : Machine) → P s → Ends Q (f a env s))
    → Ends Q (continue o f env)
Ends-then env (done a s) f h k l = l a s h
Ends-then env (crash s) f h k l = h
Ends-then env (looping s) f h k l = k s h

EndsIn-then :
    {A B : Type 0} (P : A → Machine → Type 0) (Q : Machine → Type 0) (env : Env) (o : Outcome A)
    (f : A → M B)
    → EndsIn P o
    → ((a : A) (s : Machine) → P a s → Ends Q (f a env s))
    → Ends Q (continue o f env)
EndsIn-then P Q env (done a s) f h l = l a s h
EndsIn-then P Q env (crash s) f h l = absurd h
EndsIn-then P Q env (looping s) f h l = absurd h

EndsIn-if :
    {A : Type 0} (Q : A → Machine → Type 0) (env : Env) (b : Bool) (m n : M A) (s : Machine)
    → b ≡ true
    → EndsIn Q (m env s)
    → EndsIn Q ((if b then m else n) env s)
EndsIn-if Q env true m n s e h = h
EndsIn-if Q env false m n s e h = cc

both : (n l : Bool) → n ≡ true → l ≡ false → (n && not l) ≡ true
both n l e f = rw (e, f)

module _ (env : Env) (a : env.config.allow_anon ≡ true → HasAnonRoot env) where
  abbrev Safe : Machine → Type 0
  Safe = IsSafe env

  abbrev S : IsQuiet Safe
  S = IsSafe-quiet env

  refuse-Quiet : {P : Machine → Type 0} → IsQuiet P → (msg : Bytes) → Keeps env P (refuse msg)
  unfolding refuse
  refuse-Quiet q msg = search (keeps_rules, reply-Quiet q)

  -- The checks of a command keep whatever is quiet.
  pre_command-Quiet :
      {P : Machine → Type 0} → IsQuiet P → (c : CmdHandler) → Keeps env P (pre_command c)
  unfolding pre_command
  pre_command-Quiet q c = search (keeps_rules, refuse-Quiet q) depth 9

  search_command-IsSound : (key : Bytes) → IfFound (IsSound env) (search_command key)
  unfolding search_command command_pool
  search_command-IsSound key =
      bsearch-IfFound (λ c. c.name) (IsSound env) (suc (length core_command_list)) key _
        (All-qsort (λ c. c.name) (IsSound env) core_command_list (core_command_list-IsSound env a))

  found_inside : (c : CmdHandler) → IsSound env c → Keeps env (Inside env) (run_found (some c))
  unfolding run_found
  found_inside c snd =
      Keeps-bind _ _ (pre_command-Quiet Inside-quiet c)
        (λ passed. Keeps-if (is_success passed) _ _ snd.inside (Keeps-pure _))

  refuse-Leads :
      {P : Machine → Type 0}
      → IsQuiet P
      → (msg : Bytes) → Leads env P (λ r s. P s × (is_success r ≡ false)) (refuse msg)
  unfolding refuse is_success
  refuse-Leads q msg = Leads-bind _ _ _ (reply-Leads q msg) (λ _. Leads-pure _ (λ s h. (h, refl)))

  -- A command that needs a login is refused outside.
  pre_command-refuses :
      (c : CmdHandler)
      → c.needs_login ≡ true
      → Leads env
          (Outside env.config)
          (λ r s. Outside env.config s × (is_success r ≡ false))
          (pre_command c)
  unfolding pre_command gets ◌>>=◌
  pre_command-refuses c n = record {
    at = λ s h.
        EndsIn-if _ env _ _ _ s (both c.needs_login s.login.logged_in n h.logged_out)
          ((refuse-Leads (Outside-quiet env.config) _).at s h);
  }

  skipped :
      (b : Bool) (m : M Ret) (s : Machine)
      → b ≡ false
      → Outside env.config s
      → Ends Safe ((if b then m else pure ftp_success) env s)
  unfolding pure
  skipped false m s e h = inl h
  skipped true m s e h = cc

  ran :
      (b : Bool) (m : M Ret) (s : Machine)
      → Ends Safe (m env s)
      → Outside env.config s
      → Ends Safe ((if b then m else pure ftp_success) env s)
  unfolding pure
  ran false m s k h = inl h
  ran true m s k h = k

  found_outside :
      (c : CmdHandler) (s : Machine)
      → IsSound env c
      → Outside env.config s
      → Ends Safe (run_found (some c) env s)
  unfolding run_found ◌>>=◌
  found_outside c s snd h = elim (Bool-cases c.needs_login) [
    | inl n ↦
        EndsIn-then (λ r t. Outside env.config t × (is_success r ≡ false)) Safe env
          (pre_command c env s) _ ((pre_command-refuses c n).at s h)
          (λ r s' k. skipped (is_success r) c.handler s' k.1 k.0)
    | inr n ↦
        Ends-then env (pre_command c env s) _
          ((pre_command-Quiet (Outside-quiet env.config) c).at s h) (λ s' k. inl k)
          (λ r s' k. ran (is_success r) c.handler s' (snd.outside n s' k) k)
  ]

  Ends-inr : {A : Type 0} (o : Outcome A) → Ends (Inside env) o → Ends Safe o
  Ends-inr (done a s) h = inr h
  Ends-inr (crash s) h = h
  Ends-inr (looping s) h = inr h

  run_found-Safe : (o : Option CmdHandler) → IfFound (IsSound env) o → Keeps env Safe (run_found o)
  run_found-Safe none u = unfold run_found in answer-Quiet S _
  run_found-Safe (some c) snd = record {
    at = λ s h. elim h [
      | inl o ↦ found_outside c s snd o
      | inr i ↦ Ends-inr _ ((found_inside c snd).at s i)
    ];
  }

  -- One command, whatever it is, keeps a session safe and does not crash: a session that is not
  -- logged in has named no path, and one that is has its two pools, a canonical working directory,
  -- and has named only canonical paths below its root, which is the one for anonymous users or the home
  -- of the account of its user. In both `login.user`, which `new_session` does not set, has a
  -- value. Where the configuration allows anonymous users it must have a root directory for them, and
  -- memory.
  pub do_cmd-Safe : Keeps env Safe do_cmd
  unfolding do_cmd
  do_cmd-Safe =
      Keeps-bind _ _ (Keeps-gets _)
        (λ name. run_found-Safe (search_command name) (search_command-IsSound name))

  set_command-Safe : (c : Bytes × Bytes) → Keeps env Safe (modify (set_command c))
  set_command-Safe c = Quiet-modify S (set_command c) (λ s. unfold set_command in (refl, refl))

  pub serve-Safe : (commands : List (Bytes × Bytes)) → Keeps env Safe (serve commands)
  unfolding serve
  serve-Safe [] = Keeps-pure _
  serve-Safe (c ∷ cs) = Keeps-bind _ _ (set_command-Safe c) λ _.
      Keeps-bind _ _ do_cmd-Safe λ ret. Keeps-if (is_success ret) _ _ (serve-Safe cs) (Keeps-pure _)
