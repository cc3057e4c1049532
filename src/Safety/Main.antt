-- ===== src/Safety/Main.antt =====
-- The table of core.c: every handler, before and after the login.
use ftp_server.Prelude.{◌≡◌, inl, true, false, Bool, Bytes, All, if◌then◌else◌}
use ftp_server.Text.Ctype.{codes}
use ftp_server.Machine.Types.{Ret, Env, Machine, Outcome, done, crash, looping}
use ftp_server.Machine.Monad.{M, ◌>>=◌, gets}
use ftp_server.Machine.Keeps.{Ends, Keeps}
use ftp_server.Machine.Leads.{EndsIn}
use ftp_server.Auth.{doacct, douser, dopass}
use ftp_server.Core.Info.{
  dosyst, donoop, dotype, dopwd, doquit, dofeat, doopts, doabor, doclnt, doallo, dorest,
}
use ftp_server.Core.Files.{docwd, docdup, dosize, domdtm, domkd, dormd, dodele}
use ftp_server.Core.Data.{dopasv, doretr, dostor}
use ftp_server.Ls.{dolist}
use ftp_server.Command.Run.Table.{CmdHandler, entry, core_command_list}
use ftp_server.Safety.Invariant.{Inside, Inside-quiet, Outside, Outside-quiet, IsSafe, IsQuiet}
use ftp_server.Safety.Replies.{
  answer-Quiet, doacct-Quiet, dosyst-Quiet, donoop-Quiet, dotype-Quiet, dopwd-Quiet, doquit-Quiet,
  dofeat-Quiet, doopts-Quiet, doabor-Quiet, doclnt-Quiet, doallo-Quiet, dorest-Quiet,
}
use ftp_server.Safety.FileHandlers.{
  docwd-Inside, docdup-Inside, dosize-Inside, domdtm-Inside, domkd-Inside, dormd-Inside,
  dodele-Inside, dopasv-Quiet,
}
use ftp_server.Safety.Handlers.{doretr-Inside, dostor-Inside}
use ftp_server.Safety.Listing.{dolist-Inside}
use ftp_server.Safety.Naming.{douser-Outside}
use ftp_server.Safety.Password.{HasAnonRoot, dopass-Outside}

module _ (env : Env) where
  abbrev I : IsQuiet (Inside env)
  I = Inside-quiet

  -- What a handler does: it keeps the session inside, and if it needs no login it leaves a session
  -- outside safe.
  pub record IsSound (c : CmdHandler) : Type 0 where
    pub inside : Keeps env (Inside env) c.handler
    pub outside :
        c.needs_login ≡ false
        → (s : Machine) → Outside env.config s
        → Ends (IsSafe env) (c.handler env s)

  Ends-inl : {A : Type 0} (o : Outcome A) → Ends (Outside env.config) o → Ends (IsSafe env) o
  Ends-inl (done a s) h = inl h
  Ends-inl (crash s) h = h
  Ends-inl (looping s) h = inl h

  inside_only :
      (name : Bytes) (handler : M Ret) (data_conn arg : Bool)
      → Keeps env (Inside env) handler
      → IsSound (record {
        name = name;
        handler = handler;
        needs_login = true;
        needs_data = data_conn;
        needs_arg = arg;
      })
  inside_only name handler d a k = record { inside = k; outside = λ e. cc }

  always :
      (name : Bytes) (handler : M Ret) (data_conn arg : Bool)
      → Keeps env (Inside env) handler
      → Keeps env (Outside env.config) handler
      → IsSound (record {
        name = name;
        handler = handler;
        needs_login = false;
        needs_data = data_conn;
        needs_arg = arg;
      })
  always name handler d a k l = record {
    inside = k;
    outside = λ e s h. Ends-inl (handler env s) (l.at s h);
  }

  O : IsQuiet (Outside env.config)
  O = Outside-quiet env.config

  EndsIn-Ends : {A : Type 0} (P : Machine → Type 0) (o : Outcome A) → EndsIn (λ r. P) o → Ends P o
  EndsIn-Ends P (done a s) h = h
  EndsIn-Ends P (crash s) h = h
  EndsIn-Ends P (looping s) h = absurd h

  Ends-if :
      {A : Type 0} (b : Bool) (m n : M A) (s : Machine)
      → b ≡ true
      → Ends (Inside env) (m env s)
      → Ends (Inside env) ((if b then m else n) env s)
  Ends-if true m n s e h = h
  Ends-if false m n s e h = cc

  -- A client that is logged in cannot log in again.
  dopass-Inside : Keeps env (Inside env) dopass
  unfolding dopass gets ◌>>=◌
  dopass-Inside = record {
    at = λ s h. Ends-if s.login.logged_in _ _ s h.logged_in ((answer-Quiet I _).at s h);
  }

  douser-Inside : Keeps env (Inside env) douser
  unfolding douser gets ◌>>=◌
  douser-Inside = record {
    at = λ s h. Ends-if s.login.logged_in _ _ s h.logged_in ((answer-Quiet I _).at s h);
  }

infixr 4 ◌also◌
pub ◌also◌ : {A B : Type 0} → A → B → A × B
p also a = (p, a)

-- The table: each handler is sound, those that need no login outside as well.
module _ (env : Env) (a : env.config.allow_anon ≡ true → HasAnonRoot env) where
  dopass-entry : IsSound env (entry (codes "PASS") dopass false false false)
  dopass-entry = record {
    inside = dopass-Inside env;
    outside = λ e s h. EndsIn-Ends env (IsSafe env) (dopass env s) ((dopass-Outside env a).at s h);
  }

  pub core_command_list-IsSound : All (IsSound env) core_command_list
  core_command_list-IsSound =
      inside_only env _ doabor _ _ (doabor-Quiet (I env))
      also inside_only env _ doacct _ _ (doacct-Quiet (I env))
      also inside_only env _ doallo _ _ (doallo-Quiet (I env))
      also inside_only env _ docdup _ _ docdup-Inside
      also inside_only env _ doclnt _ _ (doclnt-Quiet (I env))
      also inside_only env _ docwd _ _ docwd-Inside
      also always env _ dofeat _ _ (dofeat-Quiet (I env)) (dofeat-Quiet (O env))
      also inside_only env _ dolist _ _ dolist-Inside
      also inside_only env _ domdtm _ _ domdtm-Inside
      also inside_only env _ domkd _ _ domkd-Inside
      also always env _ donoop _ _ (donoop-Quiet (I env)) (donoop-Quiet (O env))
      also always env _ doopts _ _ (doopts-Quiet (I env)) (doopts-Quiet (O env))
      also dopass-entry
      also inside_only env _ dopasv _ _ (dopasv-Quiet (I env))
      also inside_only env _ dopwd _ _ (dopwd-Quiet (I env))
      also always env _ doquit _ _ (doquit-Quiet (I env)) (doquit-Quiet (O env))
      also inside_only env _ dorest _ _ (dorest-Quiet (I env))
      also inside_only env _ dodele _ _ dodele-Inside
      also inside_only env _ doretr _ _ doretr-Inside
      also inside_only env _ dormd _ _ dormd-Inside
      also inside_only env _ dosize _ _ dosize-Inside
      also always env _ dosyst _ _ (dosyst-Quiet (I env)) (dosyst-Quiet (O env))
      also inside_only env _ dotype _ _ (dotype-Quiet (I env))
      also always env _ douser _ _ (douser-Inside env) douser-Outside
      also inside_only env _ dostor _ _ dostor-Inside
      also tt
