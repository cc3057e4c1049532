-- ===== src/Command/Run/Quit.antt =====
-- server.c and core.c: QUIT ends a session, whatever its client has sent behind it.
use ftp_server.Prelude.{
  ℕ, Bool, true, ◌≡◌, refl, ap, ◌∙◌, false, List, [], ◌∷◌, ◌++◌, some, Bytes, if◌then◌else◌,
}
use ftp_server.Text.Ctype.{codes, strcasecmp, to_lower}
use ftp_server.Auth.{is_success}
use ftp_server.Machine.Types.{
  Ret, ftp_success, ftp_quit, Env, Machine, Outcome, done, crash, looping,
}
use ftp_server.Machine.Monad.{M, pure, ◌>>=◌, gets, modify, continue}
use ftp_server.Reply.{reply, init_reply_pool}
use ftp_server.Core.Info.{doquit}
use ftp_server.Core.Restart.{reply_returns}
use ftp_server.Command.Lookup.Correct.{find}
use ftp_server.Command.Run.Table.{CmdHandler, entry, search_command, run_found, do_cmd}
use ftp_server.Command.Run.Checks.{Meets, search_command-find, run_found-runs}
use ftp_server.Command.Run.Serve.{set_command, serve, leave, ftp_main, new_session, run_session}

abbrev quit : CmdHandler
quit = entry (codes "QUIT") doquit false false false

finds_quit : search_command (codes "QUIT") ≡ some quit
unfolding find strcasecmp to_lower
finds_quit = search_command-find (codes "QUIT") ∙ refl

quit-Meets : (s : Machine) → Meets quit s
quit-Meets s = record { login = λ e. cc; data_conn = λ e. cc; argument = λ e. cc }

-- QUIT always returns, with FTP_QUIT.
doquit_returns : (env : Env) (s : Machine) → (t : Machine) × (doquit env s ≡ done ftp_quit t)
unfolding doquit pure ◌>>=◌
doquit_returns env s = let r = reply_returns (codes "221 Goodbye!\r\n") env s in (r.0, rw (r.1))

do_cmd-quit :
    (env : Env) (s : Machine)
    → s.name ≡ codes "QUIT"
    → (t : Machine) × (do_cmd env s ≡ done ftp_quit t)
unfolding do_cmd gets ◌>>=◌
do_cmd-quit env s e =
    let r = doquit_returns env s in
    (
      r.0,
      ap (λ n. run_found (search_command n) env s) e
          ∙ ap (λ c. run_found c env s) finds_quit
          ∙ run_found-runs env quit s (quit-Meets s)
          ∙ r.1,
    )

continue_same :
    {A B : Type 0} (env : Env) (o : Outcome A) (f g : A → M B)
    → ((a : A) (t : Machine) → f a env t ≡ g a env t)
    → continue o f env ≡ continue o g env
continue_same env (done a t) f g k = k a t
continue_same env (crash t) f g k = refl
continue_same env (looping t) f g k = refl

if_success :
    (r : Ret) (m n : M Ret) (env : Env) (t : Machine)
    → m env t ≡ n env t
    → (if is_success r then m else pure r) env t ≡ (if is_success r then n else pure r) env t
unfolding is_success
if_success ftp_success m n env t e = e
if_success _ m n env t e = refl

module _ (env : Env) (arg : Bytes) where
  abbrev quits : Bytes × Bytes
  quits = (codes "QUIT", arg)

  serve_quits :
      (behind : List (Bytes × Bytes)) (s : Machine)
      → serve (quits ∷ behind) env s ≡ serve (quits ∷ []) env s
  unfolding serve set_command modify is_success ◌>>=◌
  serve_quits behind s =
      let r = do_cmd-quit env (record s { session = set_command quits s.session }) refl in rw (r.1)

  serve_up_to :
      (before behind : List (Bytes × Bytes)) (s : Machine)
      → serve (before ++ (quits ∷ behind)) env s ≡ serve (before ++ (quits ∷ [])) env s
  unfolding serve modify ◌>>=◌
  serve_up_to [] behind s = serve_quits behind s
  serve_up_to (c ∷ before) behind s =
      continue_same env (do_cmd env (record s { session = set_command c s.session })) _ _
        (λ r t. if_success r _ _ env t (serve_up_to before behind t))

if_same :
    {A : Type 0} (b : Bool) (m n o : M A) (env : Env) (t : Machine)
    → m env t ≡ n env t
    → (if b then m else o) env t ≡ (if b then n else o) env t
if_same true m n o env t e = e
if_same false m n o env t e = refl

run_session-quits :
    (env : Env) (arg : Bytes) (before behind : List (Bytes × Bytes)) (s : Machine)
    → run_session (before ++ ((codes "QUIT", arg) ∷ behind)) env s
      ≡ run_session (before ++ ((codes "QUIT", arg) ∷ [])) env s
unfolding run_session ◌>>=◌
run_session-quits env arg before behind s =
    continue_same env (reply (codes "220 Welcome\r\n") env s) _ _
      (λ u t. ap (λ o. continue o (λ r. leave) env) (serve_up_to env arg before behind t))

-- What a client sends behind a QUIT is never run: the session does, answers and leaves behind just what
-- it does when the QUIT is the last command.
pub ftp_main-quits :
    (env : Env) (s : Machine) (sock : ℕ) (arg : Bytes) (before behind : List (Bytes × Bytes))
    → ftp_main sock (before ++ ((codes "QUIT", arg) ∷ behind)) env s
      ≡ ftp_main sock (before ++ ((codes "QUIT", arg) ∷ [])) env s
unfolding ftp_main ◌>>=◌
ftp_main-quits env s sock arg before behind = continue_same env (init_reply_pool env s) _ _ λ p t.
    if_same (is_success p) _ _ _ env t (
      continue_same env (new_session sock env t) _ _
        λ r u. if_same (is_success r) _ _ _ env u (run_session-quits env arg before behind u))
