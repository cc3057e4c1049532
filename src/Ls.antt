-- ===== src/Ls.antt =====
-- ls.c: LIST.
use ftp_server.Prelude.{
  ltb, ℕ, zero, suc, ◌+◌, ◌-◌, Bool, true, false, not, ◌&&◌, ◌||◌, List, [], ◌∷◌, ◌++◌, Option,
  none, some, ◌==◌, if◌then◌else◌, take, length, Bytes,
}
use ftp_server.Stream.{sendall}
use ftp_server.Text.Ctype.{codes, is_blank}
use ftp_server.Text.Number.{decimal, decimal_int, padded_int}
use ftp_server.Text.Time.{Tm, is_leap, convert_time}
use ftp_server.Text.Util.{strlcpy, skip_blanks, trim_in_line, find_basename}
use ftp_server.Machine.Types.{
  Ret, ftp_error, ftp_success, ftp_quit, ftp_fail, ftp_abor, FileKind, directory, regular,
  char_device, block_device, fifo, symlink, socket, other_kind, Stat, Accepted, got_conn, no_conn,
  quit_conn, reads_dir, Session,
}
use ftp_server.Machine.Errno.{epipe, econnreset}
use ftp_server.Machine.Monad.{M, pure, ◌>>=◌, ◌>>◌, gets, modify, call, from_env, loop_on}
use ftp_server.Reply.{reply, failed_vfs_reply}
use ftp_server.Vfs.Realpath.{ftp_max_path}
use ftp_server.Vfs.Ops.{vfs_stat, vfs_chdir, vfs_opendir, vfs_closedir}
use ftp_server.Transfer.{accept_data_conn}
use ftp_server.Core.Files.{is_dir}
use ftp_server.Core.Data.{close_fd, set_data_sock}

-- `get_modechar` of util.c
unfoldable pub get_modechar : FileKind → ℕ
get_modechar directory = b'd'
get_modechar regular = b'-'
get_modechar char_device = b'c'
get_modechar block_device = b'b'
get_modechar fifo = b'p'
get_modechar symlink = b'l'
get_modechar socket = b's'
get_modechar other_kind = b'-'

unfoldable pub months : List Bytes
months =
    codes "Jan"
    ∷ codes "Feb"
    ∷ codes "Mar"
    ∷ codes "Apr"
    ∷ codes "May"
    ∷ codes "Jun"
    ∷ codes "Jul"
    ∷ codes "Aug"
    ∷ codes "Sep"
    ∷ codes "Oct"
    ∷ codes "Nov"
    ∷ codes "Dec"
    ∷ []

abbrev pub entry_at : ℕ → List Bytes → Bytes
entry_at n [] = []
entry_at zero (x ∷ xs) = x
entry_at (suc n) (x ∷ xs) = entry_at n xs

-- snprintf cuts the date to 12 bytes.
unfoldable pub list_date : Tm → Bytes
unfolding months
list_date tm = take 12 (
    entry_at tm.tm_mon months
    ++ (codes " "
        ++ (decimal_int tm.tm_mday
            ++ (codes " " ++ (padded_int 2 tm.tm_hour ++ (codes ":" ++ padded_int 2 tm.tm_min))))))

-- STAT_BUFFER_SIZE
abbrev pub stat_buffer_size : ℕ
stat_buffer_size = 128 + 256

-- The line of a file, as long as snprintf finds it. `owners` is the text of the link count and of
-- the two ids.
unfoldable pub stat_line : Bytes → Stat → Tm → Bytes → Bytes
unfolding get_modechar list_date
stat_line owners st tm basename =
    get_modechar st.kind
    ∷ (codes "rwxrwxrwx "
        ++ (owners
            ++ (codes " "
                ++ (decimal st.size
                    ++ (codes " "
                        ++ (list_date tm ++ (codes " " ++ (basename ++ codes "\r\n"))))))))

-- What is sent: snprintf returns the length of the line before it cut it to the buffer, so that of a longer
-- line the NUL is sent, and what stands behind the buffer.
unfoldable pub sent_line : (ℕ → Bytes) → Bytes → Bytes
sent_line behind line =
    if ltb (length line) stat_buffer_size
    then line
    else take (stat_buffer_size - 1) line ++ (0 ∷ behind (length line - stat_buffer_size))

-- The result of `sendall`.
unfoldable pub data_sent : Option ℕ → M Ret
data_sent (some n) = pure ftp_success
data_sent none = do
  e ← gets (λ s. s.errno)
  pure (if e == epipe || e == econnreset then ftp_abor else ftp_error)

-- A file that cannot be read is FTP_FAIL.
unfoldable pub send_found : Bytes → Option Stat → M Ret
unfolding stat_line sent_line data_sent
send_found vpath none = pure ftp_fail
send_found vpath (some st) = do
  tm ← from_env (λ env. convert_time (is_leap env.fallen_off) st.mtime)
  owners ← from_env (λ env. env.owners st)
  behind ← from_env (λ env. env.behind_statbuf)
  sent ← sendall (sent_line behind (stat_line owners st tm (find_basename vpath)))
  data_sent sent

unfoldable pub send_filestat : Bytes → M Ret
unfolding send_found
send_filestat vpath = do found ← vfs_stat vpath; send_found vpath found

unfoldable pub list_file : Bytes → M Ret
unfolding send_filestat
list_file filepath = send_filestat filepath

-- while( *arg && !isblank( *arg ) ): whether an `a` was met, and the rest.
unfoldable pub read_options : Bytes → Bool → Bool × Bytes
unfolding is_blank
read_options [] opt_a = (opt_a, [])
read_options (c ∷ s) opt_a =
    let rest = read_options s (c == b'a' || opt_a) in if is_blank c then (opt_a, c ∷ s) else rest

-- while( *arg == '-' ), each round on its fuel
unfoldable pub option_groups : ℕ → Bytes → Bool → Bool × Bytes
unfolding read_options skip_blanks
option_groups zero arg opt_a = (opt_a, arg)
option_groups (suc f) [] opt_a = (opt_a, [])
option_groups (suc f) (c ∷ s) opt_a =
    let (a, left) = read_options s opt_a in
    let rest = option_groups f (skip_blanks left) a in if c == b'-' then rest else (opt_a, c ∷ s)

-- `opt_a`, and the argument behind the options.
unfoldable pub parse_list_options : Bytes → Bool × Bytes
unfolding option_groups trim_in_line
parse_list_options arg =
    let (opt_a, rest) = option_groups (suc (length arg)) (skip_blanks arg) false in
    (opt_a, trim_in_line rest)

unfoldable pub is_hidden : Bytes → Bool
is_hidden [] = false
is_hidden (c ∷ s) = c == b'.'

unfoldable pub goes_on : Ret → Bool
goes_on ftp_success = true
goes_on ftp_fail = true
goes_on _ = false

-- One entry; `rest` is the next round.
unfoldable pub list_entry : Bool → M Ret → Option Bytes → M Ret
unfolding is_hidden goes_on
list_entry opt_a rest none = pure ftp_success
list_entry opt_a rest (some name) =
    if is_hidden name && not opt_a
    then rest
    else (do ret ← send_filestat name; if goes_on ret then rest else pure ftp_success)

-- while( (next = readdir( drv )) != NULL )
unfoldable pub list_entries : ℕ → Bool → M Ret
unfolding list_entry
list_entries zero opt_a = loop_on
list_entries (suc f) opt_a = do
  next ← call reads_dir (λ env. env.readdir)
  list_entry opt_a (list_entries f opt_a) next

unfoldable pub restore_path : Bytes → Session → Session
restore_path saved s = record s { virt_path = (strlcpy s.virt_path saved ftp_max_path).0 }

unfoldable pub list_opened : Bool → Bytes → Option ℕ → M Ret
unfolding list_entries restore_path
list_opened opt_a saved none = do failed_vfs_reply; pure ftp_error
list_opened opt_a saved (some drv) = do
  patience ← from_env (λ env. env.patience)
  list_entries patience opt_a
  vfs_closedir drv
  modify (restore_path saved)
  pure ftp_success

unfoldable pub list_directory : Bytes → Bool → M Ret
unfolding list_opened
list_directory dirname opt_a = do
  saved ← gets (λ s. s.virt_path)
  vfs_chdir dirname
  drv ← vfs_opendir (codes ".")
  list_opened opt_a saved drv

unfoldable pub list_reply : Ret → M (Unit {0})
list_reply ftp_success = reply (codes "226 Listing sent OK\r\n")
list_reply ftp_abor = reply (codes "226 Listing aborted\r\n")
list_reply ftp_fail = reply (codes "550 Listing failed\r\n")
list_reply _ = reply (codes "450 Error during write to data connection\r\n")

unfoldable pub list_over : Bytes → Bool → Stat → Accepted → M Ret
unfolding list_reply is_dir
list_over argument opt_a st no_conn = pure ftp_success
list_over argument opt_a st quit_conn = pure ftp_quit
list_over argument opt_a st (got_conn conn) = do
  reply (codes "125 Data connection ok, transferring listing\r\n")
  ret ← if is_dir st.kind then list_directory argument opt_a else list_file argument
  list_reply ret
  close_fd conn
  pure ftp_success

unfoldable pub list_found : Bytes → Bool → Option Stat → M Ret
unfolding list_over set_data_sock
list_found argument opt_a none = failed_vfs_reply
list_found argument opt_a (some st) = do
  conn ← accept_data_conn
  set_data_sock conn
  list_over argument opt_a st conn

-- An empty argument means the current directory.
unfoldable pub or_here : Bytes → Bytes
or_here [] = codes "."
or_here (c ∷ s) = c ∷ s

unfoldable pub dolist : M Ret
unfolding list_found or_here
dolist = do
  arg ← gets (λ s. s.arg)
  let (opt_a, argument) = parse_list_options arg
  found ← vfs_stat (or_here argument)
  list_found (or_here argument) opt_a found
