-- ===== src/Server/Buffer.antt =====
-- server.c: `read_cmd`, `parse_cmd` and `remove_cmd`, and the loop around them.
use ftp_server.Prelude.{
  ℕ, zero, suc, ◌+◌, ◌-◌, Bool, true, false, List, [], ◌∷◌, ◌++◌, Option, none, some, leb, ◌==◌,
  if◌then◌else◌, length, take, drop, Bytes,
}
use ftp_server.Machine.Types.{Ret, ftp_error, ftp_quit}
use ftp_server.Text.Ctype.{is_space}

-- ftp_command_t: the dirty bytes at `line`, and the size of the buffer.
pub record Command : Type 0 where
  pub line : Bytes
  pub line_len : ℕ

-- What `read_poll` comes to: bytes; 0, for a client that is gone or silent; an interrupted call, with
-- whether the signals end the connection; another error.
pub data Received : Type 0 where
  received : Bytes → Received
  gone : Received
  interrupted : Bool → Received
  broken : Received

-- How a loop of the server goes on: a command is there, the connection ends, or it waits for the
-- client.
pub data Progress : Type 0 where
  ready waits : Progress
  ends : Ret → Progress

abbrev pub newline : ℕ
newline = 10

abbrev pub behind : ℕ → Option (Bytes × Bytes) → Option (Bytes × Bytes)
behind c none = none
behind c (some (front, back)) = some (c ∷ front, back)

-- The bytes in front of the first one that is `b`, and those behind it.
unfoldable pub cut : ℕ → Bytes → Option (Bytes × Bytes)
cut b [] = none
cut b (c ∷ s) = let rest = cut b s in if c == b then some ([], s) else behind c rest

-- recv gives at most `max` bytes; a full buffer ends the connection.
unfoldable pub take_read :
    (Command → Progress × (Command × List Received))
    → List Received
    → Command
    → Received
    → Progress × (Command × List Received)
take_read again reads c gone = (ends ftp_quit, (c, reads))
take_read again reads c broken = (ends ftp_error, (c, reads))
take_read again reads c (interrupted true) = (ends ftp_quit, (c, reads))
take_read again reads c (interrupted false) = again c
take_read again reads c (received []) = (ends ftp_quit, (c, reads))
take_read again reads c (received (b ∷ bytes)) =
    let max = c.line_len - length c.line in
    let c' = record c { line = c.line ++ take max (b ∷ bytes) } in
    if leb c.line_len (length c'.line) then (ends ftp_quit, (c', reads)) else again c'

unfoldable pub is_some : {A : Type 0} → Option A → Bool
is_some none = false
is_some (some a) = true

-- Over the answers that `read_poll` will have.
unfoldable pub read_cmd : List Received → Command → Progress × (Command × List Received)
unfolding take_read is_some
read_cmd [] c = (if is_some (cut newline c.line) then ready else waits, (c, []))
read_cmd (r ∷ reads) c =
    let more = take_read (read_cmd reads) reads c r in
    if is_some (cut newline c.line) then (ready, (c, r ∷ reads)) else more

-- *(bufend-1) == '\r'
unfoldable pub drop_cr : Bytes → Bytes
drop_cr [] = []
drop_cr (c ∷ []) = if c == 13 then [] else c ∷ []
drop_cr (c ∷ d ∷ s) = c ∷ drop_cr (d ∷ s)

-- The bytes up to the first NUL.
unfoldable pub c_string : Bytes → Bytes
c_string [] = []
c_string (c ∷ s) = if c == 0 then [] else c ∷ c_string s

unfoldable pub skip_spaces : Bytes → Bytes
unfolding is_space
skip_spaces [] = []
skip_spaces (c ∷ s) = if is_space c then skip_spaces s else c ∷ s

-- A line without its NL, as the command and its argument.
unfoldable pub parse_line : Bytes → Bytes × Bytes
unfolding drop_cr c_string skip_spaces cut
parse_line line =
    let buf = c_string (drop_cr line) in
    elim (cut b' ' buf) [ none ↦ (buf, []) | some (name, argument) ↦ (name, skip_spaces argument) ]

-- The command, its argument, and `command->len`; `none` is FTP_ERROR.
unfoldable pub parse_cmd : Command → Option ((Bytes × Bytes) × ℕ)
unfolding parse_line
parse_cmd c = elim (cut newline c.line) [
  | none ↦ none
  | some (front, back) ↦ some (parse_line front, length front + 1)
]

unfoldable pub remove_cmd : ℕ → Command → Command
remove_cmd len c =
    if len == length c.line then record c { line = [] } else record c { line = drop len c.line }

-- The loop of `ftp_main`: the commands in their order, and how it ends; `none` is the end of the fuel.
unfoldable pub after_parse :
    (Command → List (Bytes × Bytes) × Option Progress)
    → Command
    → Option ((Bytes × Bytes) × ℕ)
    → List (Bytes × Bytes) × Option Progress
unfolding remove_cmd
after_parse rest c none = ([], some (ends ftp_error))
after_parse rest c (some (command, len)) =
    let (commands, end) = rest (remove_cmd len c) in (command ∷ commands, end)

unfoldable pub after_read :
    (List Received → Command → List (Bytes × Bytes) × Option Progress)
    → Progress × (Command × List Received)
    → List (Bytes × Bytes) × Option Progress
unfolding after_parse
after_read rest (ready, (c, reads)) = after_parse (rest reads) c (parse_cmd c)
after_read rest (waits, r) = ([], some waits)
after_read rest (ends e, r) = ([], some (ends e))

unfoldable pub commands_of : ℕ → List Received → Command → List (Bytes × Bytes) × Option Progress
unfolding after_read
commands_of zero reads c = ([], none)
commands_of (suc f) reads c = after_read (commands_of f) (read_cmd reads c)
