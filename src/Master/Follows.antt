-- ===== src/Master/Follows.antt =====
-- state.c, both halves: the master process knows the directory of a session.
use ftp_server.Prelude.{
  ℕ, ◌≡◌, refl, ap, ◌∙◌, List, none, some, leb, if◌then◌else◌, arith, length, Bytes, ◌<◌, [], ◌∷◌,
}
use ftp_server.Machine.Types.{Env, Machine, done, t_chdir, XferInfo}
use ftp_server.Machine.Monad.{gets, pure, ◌>>=◌}
use ftp_server.Text.Util.{strlcpy}
use ftp_server.Vfs.Realpath.{ftp_max_path}
use ftp_server.Vfs.Stack.{IsCanonical}
use ftp_server.Safety.Paths.{strlcpy_canonical}
use ftp_server.State.{send_fun, send_chdir}
use ftp_server.Master.Children.{Child, find_client}
use ftp_server.Master.Daemon.{header, body, recv_fun, recv_state}
use ftp_server.Master.Table.{IsOwn, recv_state-recv_fun}

not_too_long : (n len : ℕ) (o : Bytes) → len < n → (if leb n len then none else some o) ≡ some o
not_too_long n len o h = ground arith

strlcpy_len : (old s : Bytes) (n : ℕ) → (strlcpy old s n).1 ≡ length s
unfolding strlcpy
strlcpy_len old [] n = refl
strlcpy_len old (c ∷ s) n = refl

-- What a session sends of its directory is the directory.
send_chdir_lem :
    (env : Env) (s : Machine) (dirs : List Bytes) (buf : Bytes)
    → IsCanonical s.virt_path dirs
    → send_fun t_chdir buf env s ≡ done (some s.virt_path) s
unfolding send_fun send_chdir gets pure ◌>>=◌
send_chdir_lem env s dirs buf c =
    let copy = strlcpy buf s.virt_path ftp_max_path in
    let fits : copy.1 < ftp_max_path = rw (strlcpy_len buf s.virt_path ftp_max_path) c.fits in
    ap (λ o. done o s)
      (not_too_long ftp_max_path copy.1 copy.0 fits ∙ ap some (strlcpy_canonical buf s.virt_path c))

-- A session whose working directory is canonical sends it whole, whatever the buffer held, and when
-- the master process receives that message of a client on its list, the path that it keeps for the
-- client is the session's working directory, and no other client's entry changes.
pub chdir_round_trip :
    (env : Env) (s : Machine) (dirs : List Bytes) (buf : Bytes) (head : List Child) (pid : ℕ)
    (child : Child) (info : XferInfo)
    → IsCanonical s.virt_path dirs
    → find_client head pid ≡ some child
    → (text : Bytes) × ((send_fun t_chdir buf env s ≡ done (some text) s)
        × IsOwn head
            (recv_state head (header pid t_chdir) (body text info)).1
            pid
            (record child { path = s.virt_path }))
unfolding recv_fun
chdir_round_trip env s dirs buf head pid child info c f = (
  s.virt_path,
  (
    send_chdir_lem env s dirs buf c,
    (recv_state-recv_fun head pid t_chdir s.virt_path info child f).1,
  ),
)
