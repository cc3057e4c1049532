-- ===== src/Start/Main/Ready.antt =====
-- main.c: with what the master process starts.
use ftp_server.Prelude.{
  ℤ, pos, negsuc, to_int, Bytes, List, ap, ◌∙◌, ◌≢◌, ◌++◌, if◌then◌else◌, ℕ, zero, suc, ◌≤◌, ◌≡◌,
  ◌⊎◌, inl, inr, refl, Bool, true, false, [], ◌∷◌, Option, none, some, arith, length,
}
use ftp_server.Machine.Types.{Ret, ftp_success, ftp_error, Machine, Outcome, done, crash, looping}
use ftp_server.Config.Settings.{Settings}
use ftp_server.Config.Check.{
  ConfigFile, no_file, no_status, not_regular, not_mapped, file, Loaded, closing, load_config,
  IsUsable, load_config-IsUsable, load_config-closes,
}
use ftp_server.Command.Pool.{Pool, init_command_pool, Sorts, add_command_list-Sorts}
use ftp_server.Command.Run.Table.{CmdHandler, core_command_list, command_pool}
use ftp_server.Machine.Descriptors.{open_fds}
use ftp_server.Start.Listener.{Listener, Opens, init_masterserver-Opens}
use ftp_server.Auth.{is_success}
use ftp_server.Start.Log.{start_log}
use ftp_server.Start.Main.{
  Opt, opt_c, opt_d, opt_n, opt_missing, opt_unknown, print, usage, Program, parse_args,
  new_program, World, Started, ready, exits, environment, listening_on, with_commands, with_pool,
  with_config, with_args, start_server,
}

-- A file whose size, as an int, is 0.
abbrev pub IsEmpty : ConfigFile → Type 0
IsEmpty f =
    (fd : ℕ) × ((text : Bytes) × ((f ≡ file fd text) × (to_int (pos (length text)) ≡ pos 0)))

-- The settings are usable, or they were left alone by an empty file; the file is closed; the pool is the sorted table of
-- all commands; the server socket and the pipe are what is open in addition.
pub record IsReady (w : World) (p : Program) (pool : Pool CmdHandler) (l : Listener) (t : Machine)
    : Type 0 where
  pub settings : IsUsable p.config ⊎ IsEmpty (w.config_file p.config_path)
  pub closed : p.left_open ≡ []
  pub commands : pool.commands ≡ command_pool
  pub room : length core_command_list ≤ pool.size
  pub descriptors :
      open_fds (environment w p.config) t.trace
      ≡ l.pipefds.1
        ∷ l.pipefds.0
        ∷ l.server_socket
        ∷ open_fds (environment w p.config) w.machine.trace

-- The one crash is a read of the configuration that is outside of a line or of the file.
abbrev pub StartsFrom : World → Program → Option Started → Type 0
StartsFrom w q (some (ready p pool l t)) = IsReady w p pool l t
StartsFrom w q (some (exits p)) = Unit
StartsFrom w q none =
    load_config w.line_buffer w.line_memory (w.config_file q.config_path) q.config ≡ none

-- From the globals that the arguments leave.
abbrev pub Starts : World → Option Started → Type 0
Starts w = StartsFrom w (parse_args w.pid w.opts new_program).1

int_zero : (n : ℤ) → (n ≡ pos 0) ⊎ (n ≢ pos 0)
int_zero (pos zero) = inl refl
int_zero (pos (suc n)) = inr (λ e. cc)
int_zero (negsuc n) = inr (λ e. cc)

success_of : (r : Ret) → is_success r ≡ true → r ≡ ftp_success
unfolding is_success
success_of ftp_success e = refl
success_of _ e = cc

error_not_success : ftp_error ≡ ftp_success → ⊥
error_not_success e = cc

abbrev IsNoFile : ConfigFile → Type 0
IsNoFile (file fd text) = ⊥
IsNoFile _ = Unit {0}

failed_load :
    (l : Loaded) (s : Settings) (fds : List ℕ)
    → some (record { ret = ftp_error; settings = s; left_open = fds }) ≡ some l
    → l.ret ≡ ftp_success
    → ⊥
failed_load l s fds k r =
    let same : record { ret = ftp_error; settings = s; left_open = fds } ≡ l = cc in
    error_not_success (ap (λ l. l.ret) same ∙ r)

module _ (w : World) (q : Program) where
  abbrev From : Option Started → Type 0
  From = StartsFrom w q

  listening_on-Starts :
      (p : Program) (pool : Pool CmdHandler) (o : Outcome (Option Listener))
      → IsUsable p.config ⊎ IsEmpty (w.config_file p.config_path)
      → p.left_open ≡ []
      → pool.commands ≡ command_pool
      → length core_command_list ≤ pool.size
      → Opens (environment w p.config) (open_fds (environment w p.config) w.machine.trace) o
      → From (listening_on p pool o)
  unfolding listening_on
  listening_on-Starts p pool (done (some l) t) u n c r h = record {
    settings = u;
    closed = n;
    commands = c;
    room = r;
    descriptors = h;
  }
  listening_on-Starts p pool (done none t) u n c r h = tt
  listening_on-Starts p pool (crash t) u n c r h = absurd h
  listening_on-Starts p pool (looping t) u n c r h = absurd h

  with_commands-Starts :
      (p : Program) (o : Option (Ret × Pool CmdHandler))
      → IsUsable p.config ⊎ IsEmpty (w.config_file p.config_path)
      → p.left_open ≡ []
      → Sorts (λ c. c.name) core_command_list o
      → From (with_commands w p o)
  unfolding with_commands command_pool
  with_commands-Starts p none u n h = absurd h
  with_commands-Starts p (some (ftp_success, pool)) u n h =
      listening_on-Starts p pool _ u n h.0 h.1
        (init_masterserver-Opens (environment w p.config) w.machine)
  with_commands-Starts p (some (_, pool)) u n h = tt

  with_pool-Starts :
      (p : Program) (b : Bool)
      → IsUsable p.config ⊎ IsEmpty (w.config_file p.config_path)
      → p.left_open ≡ []
      → From (with_pool w p (init_command_pool b (record { commands = []; size = 0 })))
  unfolding with_pool init_command_pool
  with_pool-Starts p true u n =
      let pool : Pool CmdHandler = record { commands = []; size = 16 } in
      with_commands-Starts p _ u n (
        add_command_list-Sorts (λ c. c.name) w.realloc core_command_list pool
          (record { has_room = omega arith; fits = omega arith }))
  with_pool-Starts p false u n = tt

  not_loaded :
      (p : Program) (f : ConfigFile) (l : Loaded)
      → IsNoFile f
      → load_config w.line_buffer w.line_memory f p.config ≡ some l
      → l.ret ≡ ftp_success
      → ⊥
  unfolding load_config closing
  not_loaded p no_file l n k r = failed_load l _ [] k r
  not_loaded p (no_status fd) l n k r = failed_load l _ _ k r
  not_loaded p (not_regular fd) l n k r = failed_load l _ _ k r
  not_loaded p (not_mapped fd) l n k r = failed_load l _ _ k r
  not_loaded p (file fd text) l n k r = absurd n

  loaded :
      (p : Program) (f : ConfigFile) (l : Loaded)
      → w.config_file p.config_path ≡ f
      → load_config w.line_buffer w.line_memory f p.config ≡ some l
      → l.ret ≡ ftp_success
      → IsUsable l.settings ⊎ IsEmpty (w.config_file p.config_path)
  loaded p (file fd text) l e k r = elim (int_zero (to_int (pos (length text)))) [
    | inl z ↦ inr (fd, (text, (e, z)))
    | inr z ↦ inl (load_config-IsUsable w.line_buffer w.line_memory fd text p.config l z k r)
  ]
  loaded p no_file l e k r = absurd (not_loaded p no_file l tt k r)
  loaded p (no_status fd) l e k r = absurd (not_loaded p (no_status fd) l tt k r)
  loaded p (not_regular fd) l e k r = absurd (not_loaded p (not_regular fd) l tt k r)
  loaded p (not_mapped fd) l e k r = absurd (not_loaded p (not_mapped fd) l tt k r)

  after_load :
      (b : Bool) (l : Loaded)
      → (b ≡ true → IsUsable l.settings ⊎ IsEmpty (w.config_file q.config_path))
      → q.left_open ++ l.left_open ≡ []
      → From (
          if b
          then with_pool w
              (record q {
                config = l.settings;
                left_open = q.left_open ++ l.left_open;
                log = start_log l.settings w.pid q.log;
              })
              (init_command_pool w.pool_memory (record { commands = []; size = 0 }))
          else some
              (exits (record q { config = l.settings; left_open = q.left_open ++ l.left_open })))
  after_load true l u n = with_pool-Starts _ w.pool_memory (u refl) n
  after_load false l u n = tt

  with_config-Starts :
      (o : Option Loaded)
      → load_config w.line_buffer w.line_memory (w.config_file q.config_path) q.config ≡ o
      → q.left_open ≡ []
      → From (with_config w q o)
  unfolding with_config
  with_config-Starts none e n = e
  with_config-Starts (some l) e n =
      let m = load_config-closes w.line_buffer w.line_memory _ q.config l e in
      after_load (is_success l.ret) l (λ b. loaded q _ l refl e (success_of l.ret b))
        (ap (λ xs. xs ++ l.left_open) n ∙ m)

with_args-Starts :
    (w : World) (r : ℕ × Program) → r.1.left_open ≡ [] → StartsFrom w r.1 (with_args w r)
unfolding with_args
with_args-Starts w (zero, p) n = with_config-Starts w p _ refl n
with_args-Starts w (suc k, p) n = tt

parse_args-left_open :
    (pid : ℕ) (opts : List Opt) (p : Program) → (parse_args pid opts p).1.left_open ≡ p.left_open
unfolding parse_args print usage
parse_args-left_open pid [] p = refl
parse_args-left_open pid (opt_c optarg ∷ opts) p =
    parse_args-left_open pid opts (record p { config_path = optarg })
parse_args-left_open pid (opt_d ∷ opts) p = parse_args-left_open pid opts _
parse_args-left_open pid (opt_n ∷ opts) p = parse_args-left_open pid opts p
parse_args-left_open pid (opt_missing c ∷ opts) p = refl
parse_args-left_open pid (opt_unknown c ∷ opts) p = refl

-- The start of the server ends in one of three ways: it has returned from `main`; or the configuration
-- that the arguments name was read outside of a line or of the file; or it enters the loop of the
-- master process. Then the settings are usable unless the size of the configuration file is 0 as an
-- int, that file is closed, the command pool is the whole table of core.c in its sorted order and in
-- bounds, and beside the server socket and the two ends of the pipe `init_masterserver` has left no
-- descriptor open.
pub start_server-Starts : (w : World) → Starts w (start_server w)
unfolding start_server
start_server-Starts w =
    with_args-Starts w (parse_args w.pid w.opts new_program)
      (parse_args-left_open w.pid w.opts new_program)
