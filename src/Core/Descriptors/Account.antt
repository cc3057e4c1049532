-- ===== src/Core/Descriptors/Account.antt =====
-- The handlers of auth.c open and close no descriptor.
use ftp_server.Prelude.{ℕ, Bool, true, false, Option, none, some, Bytes}
use ftp_server.Machine.Types.{CharPtr, undefined, null, points_to, History, Env, Passwd}
use ftp_server.Machine.Stays.{Stays-fault, Stays, stays_rules, Stays-pure, Stays-set_root}
use ftp_server.Machine.Descriptors.{IsPlain}
use ftp_server.State.{init_state_pool}
use ftp_server.Vfs.Ops.{init_vfs_pool}
use ftp_server.Auth.{
  name_user, take_anonymous, take_user, douser, open_pools, check_encrypted, check_shadow,
  check_user, login_user, log_in, become, admit, admit_anonymous, take_password, dopass,
}
use ftp_server.Core.Descriptors.Plain.{
  Plain-call, reply-Stays, reply_format-Stays, answer-Stays, send_state-Stays,
}

module _ {env : Env} {T : History → Type 0} (p : IsPlain T) where
  name_user-Stays : (name : Bytes) (b : Bool) → Stays env T (name_user name b)
  unfolding name_user
  name_user-Stays name false = Stays-pure _
  name_user-Stays name true = search (stays_rules, reply_format-Stays p)

  take_anonymous-Stays : (b : Bool) → Stays env T (take_anonymous b)
  unfolding take_anonymous
  take_anonymous-Stays false = answer-Stays p _
  take_anonymous-Stays true = search (stays_rules, reply-Stays p)

  take_user-Stays : (name : Bytes) → Stays env T (take_user name)
  unfolding take_user
  take_user-Stays name =
      search (stays_rules, Plain-call p, name_user-Stays, take_anonymous-Stays) depth 11

  pub douser-Stays : Stays env T douser
  unfolding douser
  douser-Stays = search (stays_rules, answer-Stays p, take_user-Stays) depth 9

  init_state_pool-Stays : Stays env T init_state_pool
  unfolding init_state_pool
  init_state_pool-Stays = search (stays_rules, Plain-call p, tt) depth 9

  init_vfs_pool-Stays : (o : Option Bytes) → Stays env T (init_vfs_pool o)
  unfolding init_vfs_pool
  init_vfs_pool-Stays o = search (stays_rules, Plain-call p, tt, Stays-set_root) depth 9

  open_pools-Stays : (pwd : Passwd) → Stays env T (open_pools pwd)
  unfolding open_pools
  open_pools-Stays pwd = search (stays_rules, init_state_pool-Stays, init_vfs_pool-Stays) depth 9

  check_encrypted-Stays :
      (pwd : Passwd) (shadow : Bytes) (o : Option Bytes)
      → Stays env T (check_encrypted pwd shadow o)
  unfolding check_encrypted
  check_encrypted-Stays pwd shadow none = Stays-pure _
  check_encrypted-Stays pwd shadow (some e) = search (stays_rules, open_pools-Stays)

  check_shadow-Stays :
      (pwd : Passwd) (password : Bytes) (o : Option Bytes)
      → Stays env T (check_shadow pwd password o)
  unfolding check_shadow
  check_shadow-Stays pwd password none = Stays-pure _
  check_shadow-Stays pwd password (some s) =
      search (stays_rules, Plain-call p, tt, check_encrypted-Stays)

  check_user-Stays :
      (user password : Bytes) (o : Option Passwd) → Stays env T (check_user user password o)
  unfolding check_user
  check_user-Stays user password none = Stays-pure _
  check_user-Stays user password (some pwd) =
      search (stays_rules, Plain-call p, tt, check_shadow-Stays)

  login_user-Stays : (user password : Bytes) → Stays env T (login_user user password)
  unfolding login_user
  login_user-Stays user password = search (stays_rules, Plain-call p, tt, check_user-Stays)

  become-Stays : (o : Option ℕ) → Stays env T (become o)
  unfolding become log_in
  become-Stays (some e) = search stays_rules
  become-Stays none = search (stays_rules, send_state-Stays p, answer-Stays p)

  admit-Stays : (o : Option ℕ) → Stays env T (admit o)
  unfolding admit
  admit-Stays none = search (stays_rules, reply-Stays p)
  admit-Stays (some uid) = search (stays_rules, Plain-call p, tt, become-Stays)

  admit_anonymous-Stays : Stays env T admit_anonymous
  unfolding admit_anonymous log_in
  admit_anonymous-Stays =
      search (stays_rules, reply-Stays p, init_vfs_pool-Stays, init_state_pool-Stays) depth 11

  take_password-Stays : (o : CharPtr) → Stays env T (take_password o)
  unfolding take_password
  take_password-Stays undefined = Stays-fault
  take_password-Stays null = answer-Stays p _
  take_password-Stays (points_to user) = search (stays_rules, login_user-Stays, admit-Stays)

  pub dopass-Stays : Stays env T dopass
  unfolding dopass
  dopass-Stays =
      search (stays_rules, answer-Stays p, admit_anonymous-Stays, take_password-Stays) depth 9
