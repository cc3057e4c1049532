-- ===== src/Safety/Naming.antt =====
-- auth.c, USER: a session that is not logged in stays so.
use ftp_server.Prelude.{ℕ, ◌≡◌, refl, sym, true, false, Bool, Option, none, some, Bytes}
use ftp_server.Machine.Types.{Ret, ftp_success, Env, Event, History, Machine}
use ftp_server.Machine.Monad.{call, keep_errno}
use ftp_server.Machine.Keeps.{Keeps, keeps_rules, Keeps-bind, Keeps-modify, Keeps-if, Keeps-read}
use ftp_server.Machine.Leads.{Leads, Leads-bind, Leads-pure}
use ftp_server.Reply.{reply, answer}
use ftp_server.Auth.{name_user, take_anonymous, take_user, douser}
use ftp_server.Safety.Invariant.{NoFs, Outside, Outside-quiet, IsQuiet, Quiet-call}
use ftp_server.Safety.Replies.{reply-Quiet, reply_format-Quiet, answer-Quiet}

-- Quiet code, with what it leads to.
module _ {env : Env} {P : Machine → Type 0} (q : IsQuiet P) where
  pub call-Leads :
      {A : Type 0} (e : Event) (f : Env → History → A) → NoFs e → Leads env P (λ a. P) (call e f)
  unfolding call
  call-Leads e f n = record { at = λ s h. q.event s e n h }

  pub keep_errno-Leads : (o : Option ℕ) → Leads env P (λ a. P) (keep_errno o)
  unfolding keep_errno
  keep_errno-Leads none = record { at = λ s h. h }
  keep_errno-Leads (some e) = record { at = λ s h. q.stable.errno s e h }

  pub reply-Leads : (msg : Bytes) → Leads env P (λ a. P) (reply msg)
  unfolding reply
  reply-Leads msg = Leads-bind (λ a. P) _ _ (call-Leads _ _ tt) keep_errno-Leads

  pub answer-Leads :
      {Q : Ret → Machine → Type 0} (msg : Bytes)
      → ((s : Machine) → P s → Q ftp_success s)
      → Leads env P Q (answer msg)
  unfolding answer
  answer-Leads msg k = Leads-bind (λ a. P) _ _ (reply-Leads msg) (λ _. Leads-pure ftp_success k)

abbrev out_q : (env : Env) → IsQuiet (Outside env.config)
out_q env = Outside-quiet env.config

-- The naming of a user, in a session that stays logged out.
module _ {env : Env} where
  name_user-Outside :
      (username : Bytes) (b : Bool) → Keeps env (Outside env.config) (name_user username b)
  unfolding name_user
  name_user-Outside username false = search keeps_rules
  name_user-Outside username true =
      Keeps-bind _ _
        (Keeps-modify _ λ s h. record {
          logged_out = h.logged_out;
          anonymous = h.anonymous;
          at_root = h.at_root;
          no_fs = h.no_fs;
          user_set = λ e. cc;
        })
        (λ _. search (keeps_rules, reply_format-Quiet (out_q env)))

  take_anonymous-Outside :
      (b : Bool) → b ≡ env.config.allow_anon → Keeps env (Outside env.config) (take_anonymous b)
  unfolding take_anonymous
  take_anonymous-Outside false e = answer-Quiet (out_q env) _
  take_anonymous-Outside true e = Keeps-bind _ _ (reply-Quiet (out_q env) _) λ _.
      Keeps-bind _ _
        (Keeps-modify _ λ s h. record {
          logged_out = h.logged_out;
          anonymous = λ _. sym e;
          at_root = h.at_root;
          no_fs = h.no_fs;
          user_set = h.user_set;
        })
        (λ _. search keeps_rules)

  take_user-Outside : (username : Bytes) → Keeps env (Outside env.config) (take_user username)
  unfolding take_user
  take_user-Outside username =
      Keeps-bind _ _
        (Keeps-modify _ λ s h. record {
          logged_out = h.logged_out;
          anonymous = h.anonymous;
          at_root = h.at_root;
          no_fs = h.no_fs;
          user_set = λ e. cc;
        })
        (λ _. Keeps-read _ _ (
          Keeps-if _ _ _ (take_anonymous-Outside _ refl)
            (Keeps-bind _ _ (Quiet-call (out_q env) _ _ tt) (name_user-Outside username))))

  pub douser-Outside : Keeps env (Outside env.config) douser
  unfolding douser
  douser-Outside = search (keeps_rules, answer-Quiet (out_q env), take_user-Outside) depth 9
