-- ===== src/Config/Parse.antt =====
-- config.c: `parse_config`, `parse_attribute` and `load_config`.
use ftp_server.Prelude.{
  ◌/◌, ℤ, pos, negsuc, ℕ, zero, suc, ◌+◌, ◌-◌, ◌*◌, ◌^◌, Bool, true, false, not, ◌&&◌, ◌||◌, List,
  [], ◌∷◌, Option, none, some, leb, ltb, ◌==◌, if◌then◌else◌, length, Bytes,
}
use ftp_server.Text.Ctype.{codes, is_digit, to_lower, strcasecmp}
use ftp_server.Text.Util.{skip_blanks, trim_whitespace, trim_in_line}
use ftp_server.Auth.{is_same}
use ftp_server.Server.Buffer.{cut, c_string, skip_spaces}
use ftp_server.Config.Settings.{
  Settings, Variable, type_int, type_bool, type_str, Entry, core_config_table,
}

-- The value of a digit, for bases up to 36.
unfoldable pub digit_value : ℕ → ℕ
unfolding to_lower is_digit
digit_value c =
    if is_digit c
    then c - b'0'
    else if leb b'a' (to_lower c) && leb (to_lower c) b'z'
    then to_lower c - 87
    else 36

-- The digits at the front as a number, and what is behind them.
unfoldable pub read_digits : ℕ → ℕ → Bytes → ℕ × Bytes
unfolding digit_value
read_digits base n [] = (n, [])
read_digits base n (c ∷ s) =
    let rest = read_digits base (n * base + digit_value c) s in
    if ltb (digit_value c) base then rest else (n, c ∷ s)

-- The number behind a sign, by its prefix; `none` where there is no digit.
unfoldable pub read_based : Bytes → Option (ℕ × Bytes)
unfolding digit_value read_digits
read_based [] = none
read_based (c ∷ []) = if is_digit c then some (c - b'0', []) else none
read_based (c ∷ x ∷ s) =
    if c == b'0'
    then if to_lower x == b'x' && elim s [ [] ↦ false | d ∷ t ↦ ltb (digit_value d) 16 ]
      then some (read_digits 16 0 s)
      else some (read_digits 8 0 (x ∷ s))
    else if is_digit c
    then some (read_digits 10 0 (c ∷ x ∷ s))
    else none

unfoldable pub read_signed : Bytes → Bool × Option (ℕ × Bytes)
unfolding read_based
read_signed [] = (false, none)
read_signed (c ∷ s) =
    if c == b'-'
    then (true, read_based s)
    else if c == b'+'
    then (false, read_based s)
    else (false, read_based (c ∷ s))

-- The parser's errors, in config.h.
pub data ParserError : Type 0 where
  missing_argument unknown_option range nan nomem : ParserError

-- The texts that are logged for them.
unfoldable pub ftp_parse_strerror : ParserError → Bytes
ftp_parse_strerror missing_argument = codes "Missing argument"
ftp_parse_strerror unknown_option = codes "Unknown option"
ftp_parse_strerror range = codes "Out of range"
ftp_parse_strerror nan = codes "Not a number"
ftp_parse_strerror nomem = codes "Out of memory"

-- A line, or all of them: the settings are changed, or there is an error, or a read in front of a line
-- or behind the mapped file.
pub data Attribute : Type 0 where
  accepts : Settings → Attribute
  rejects : ParserError → Attribute
  wild : Attribute

abbrev pub signed : Bool → ℕ → ℤ
signed true (suc n) = negsuc n
signed true zero = pos 0
signed false n = pos n

-- What a long holds beside an int is out of range as well, so ERANGE is no case of its own.
unfoldable pub is_int : Bool → ℕ → Bool
is_int negative n = if negative then leb n (2 ^ 31) else ltb n (2 ^ 31)

unfoldable pub store_int :
    (ℤ → Settings → Settings) → Settings → Bool × Option (ℕ × Bytes) → Attribute
unfolding is_int
store_int set s (negative, none) = rejects nan
store_int set s (negative, some (n, rest)) =
    if not (is_int negative n)
    then rejects range
    else elim rest [ [] ↦ accepts (set (signed negative n) s) | c ∷ t ↦ rejects nan ]

unfoldable pub parse_attribute_int : Bytes → (ℤ → Settings → Settings) → Settings → Attribute
unfolding read_signed store_int skip_spaces
parse_attribute_int argument set s = store_int set s (read_signed (skip_spaces argument))

unfoldable pub is_yes : Bytes → Bool
is_yes [] = false
is_yes (c ∷ s) = c == b'1' || (to_lower c == b'y' || to_lower c == b't')

unfoldable pub parse_attribute_bool : Bytes → (Bool → Settings → Settings) → Settings → Attribute
unfolding is_yes
parse_attribute_bool argument set s = accepts (set (is_yes argument) s)

-- `memory` is whether strdup succeeds.
unfoldable pub parse_attribute_string :
    Bool → Bytes → (Option Bytes → Settings → Settings) → Settings → Attribute
parse_attribute_string memory argument set s =
    if memory then accepts (set (some (trim_in_line argument)) s) else rejects nomem

unfoldable pub store : Bool → Bytes → Settings → Variable → Attribute
unfolding parse_attribute_int parse_attribute_bool parse_attribute_string
store memory argument s (type_int set) = parse_attribute_int argument set s
store memory argument s (type_bool set) = parse_attribute_bool argument set s
store memory argument s (type_str set) = parse_attribute_string memory argument set s

unfoldable pub find_option : List Entry → Bytes → Option Variable
unfolding is_same
find_option [] line = none
find_option (e ∷ es) line =
    let rest = find_option es line in
    if is_same (strcasecmp e.name line) then some e.variable else rest

unfoldable pub store_named : Bool → Bytes → Settings → Option Bytes → Attribute
unfolding find_option store
store_named memory argument s none = wild
store_named memory argument s (some name) = elim (find_option core_config_table name) [
  | none ↦ rejects unknown_option
  | some variable ↦ store memory argument s variable
]

unfoldable pub split_option : Bool → Settings → Option (Bytes × Bytes) → Attribute
unfolding store_named
split_option memory s none = rejects missing_argument
split_option memory s (some (name, behind)) = elim (skip_blanks behind) [
  | [] ↦ rejects missing_argument
  | c ∷ t ↦ store_named memory (c ∷ t) s (trim_whitespace name)
]

unfoldable pub parse_attribute : Bool → Bytes → Settings → Attribute
unfolding split_option
parse_attribute memory line s = elim (trim_whitespace line) [
  | none ↦ wild
  | some [] ↦ accepts s
  | some (c ∷ t) ↦ split_option memory s (cut b'=' (c ∷ t))
]

abbrev pub first_line : ℕ → List Bytes → List Bytes
first_line c [] = (c ∷ []) ∷ []
first_line c (l ∷ ls) = (c ∷ l) ∷ ls

-- The lines of the file, with the one that no NL ends.
unfoldable pub file_lines : Bytes → List Bytes
file_lines [] = [] ∷ []
file_lines (c ∷ s) = let rest = file_lines s in if c == 10 then [] ∷ rest else first_line c rest

abbrev pub is_skipped : Bytes → Bool
is_skipped [] = true
is_skipped (c ∷ s) = c == b'#'

abbrev pub go_on : Attribute → (Settings → Attribute) → Attribute
go_on (accepts s) rest = rest s
go_on (rejects e) rest = rejects e
go_on wild rest = wild

-- `memory n` is whether realloc and strdup succeed in line n; `tmplen` is the size of the line buffer,
-- which grows for a longer line.
unfoldable pub parse_lines : (ℕ → Bool × Bool) → ℕ → ℕ → List Bytes → Settings → Attribute
unfolding parse_attribute c_string
parse_lines memory tmplen linenum [] s = accepts s
parse_lines memory tmplen linenum (l ∷ ls) s =
    let rest = parse_lines memory tmplen (suc linenum) ls in
    let grown = parse_lines memory (length l + 1) (suc linenum) ls in
    let (realloc, strdup) = memory linenum in
    let result = parse_attribute strdup (c_string l) s in
    if is_skipped l
    then rest s
    else if ltb (length l) tmplen
    then go_on result rest
    else if realloc
    then go_on result grown
    else rejects nomem

-- `*start` of the last round of the loop: the byte behind the text, or the one behind that where no NL
-- ends the text.
unfoldable pub last_read : Bytes → ℕ
last_read [] = 0
last_read (c ∷ []) = if c == 10 then 1 else 2
last_read (c ∷ d ∷ s) = let rest = last_read (d ∷ s) in suc rest

-- A mapping goes to the end of a page of 4096 bytes; the page behind it is taken not to be mapped.
unfoldable pub read_behind : Bytes → Attribute → Attribute
unfolding last_read
read_behind text (accepts s) =
    if ltb (last_read text) ((length text + 4095) / 4096 * 4096) then accepts s else wild
read_behind text result = result

-- The buffer starts with 81 bytes, and malloc may fail.
unfoldable pub parse_config : Bool → (ℕ → Bool × Bool) → Bytes → Settings → Attribute
unfolding parse_lines file_lines read_behind
parse_config malloc memory text s =
    if malloc then read_behind text (parse_lines memory 81 1 (file_lines text) s) else rejects nomem
