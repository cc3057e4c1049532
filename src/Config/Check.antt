-- ===== src/Config/Check.antt =====
-- config.c: `check_config` and `load_config`.
use mathlib.Core.Path.{subst}
use ftp_server.Prelude.{
  to_int, length, take, zero, sym, ap, ◌∙◌, List, ℤ, pos, negsuc, ℕ, suc, ◌≤◌, ◌≡◌, ◌≢◌, refl, Bool,
  true, false, ◌&&◌, ◌||◌, [], ◌∷◌, Option, none, some, ltb, if◌then◌else◌, arith, Bytes,
}
use ftp_server.Machine.Descriptors.{without, without-first}
use ftp_server.Machine.Types.{Ret, ftp_success, ftp_error}
use ftp_server.Config.Settings.{Settings}
use ftp_server.Config.Parse.{Attribute, accepts, rejects, wild, parse_config}

-- n < 0 || n > 65535
unfoldable pub no_port : ℤ → Bool
no_port (negsuc n) = true
no_port (pos n) = ltb 65535 n

unfoldable pub exceeds : ℤ → ℤ → Bool
exceeds (negsuc a) (negsuc b) = ltb a b
exceeds (negsuc a) (pos b) = false
exceeds (pos a) (negsuc b) = true
exceeds (pos a) (pos b) = ltb b a

-- n < -1
unfoldable pub below_minus_one : ℤ → Bool
below_minus_one (negsuc (suc n)) = true
below_minus_one _ = false

unfoldable pub is_null : Option Bytes → Bool
is_null none = true
is_null (some s) = false

unfoldable pub check_config : Settings → Ret
unfolding no_port exceeds below_minus_one is_null
check_config s =
    if no_port s.port
    then ftp_error
    else if no_port s.ctrl_port
    then ftp_error
    else if below_minus_one s.throttle_rate
    then ftp_error
    else if no_port s.pasv_port_start
        || (no_port s.pasv_port_end || exceeds s.pasv_port_start s.pasv_port_end)
    then ftp_error
    else if s.allow_anon && is_null s.anon_root_dir
    then ftp_error
    else ftp_success

-- The file: the descriptor that open gives for it, and what fstat and mmap find.
pub data ConfigFile : Type 0 where
  no_file : ConfigFile
  no_status not_regular not_mapped : ℕ → ConfigFile
  file : ℕ → Bytes → ConfigFile

-- The result and the settings, and the descriptors that were opened and not closed.
pub record Loaded : Type 0 where
  pub ret : Ret
  pub settings : Settings
  pub left_open : List ℕ

-- close( fd ), of the descriptor that is open
unfoldable pub closing : ℕ → Ret → Settings → Loaded
closing fd ret s = record { ret = ret; settings = s; left_open = without fd (fd ∷ []) }

-- `none` is a read outside of a line or of the file.
unfoldable pub checked : ℕ → Settings → Attribute → Option Loaded
unfolding closing check_config
checked fd s (accepts s') = some (closing fd (check_config s') s')
checked fd s (rejects e) = some (closing fd ftp_error s)
checked fd s wild = none

-- By the length of the file as an int. An empty file keeps the settings, unchecked; a mapping of a
-- negative length fails. The settings behind an error are not looked at again.
unfoldable pub load_mapped : Bool → (ℕ → Bool × Bool) → ℕ → Bytes → Settings → ℤ → Option Loaded
unfolding checked closing
load_mapped malloc memory fd text s (pos zero) = some (closing fd ftp_success s)
load_mapped malloc memory fd text s (pos (suc n)) =
    checked fd s (parse_config malloc memory (take (suc n) text) s)
load_mapped malloc memory fd text s (negsuc n) = some (closing fd ftp_error s)

unfoldable pub load_config : Bool → (ℕ → Bool × Bool) → ConfigFile → Settings → Option Loaded
unfolding load_mapped
load_config malloc memory no_file s =
    some (record { ret = ftp_error; settings = s; left_open = [] })
load_config malloc memory (no_status fd) s = some (closing fd ftp_error s)
load_config malloc memory (not_regular fd) s = some (closing fd ftp_error s)
load_config malloc memory (not_mapped fd) s = some (closing fd ftp_error s)
load_config malloc memory (file fd text) s =
    load_mapped malloc memory fd text s (to_int (pos (length text)))

-- What a session may rely on.
pub data IsPort : ℤ → Type 0 where
  port : (n : ℕ) → n ≤ 65535 → IsPort (pos n)

pub record IsUsable (s : Settings) : Type 0 where
  pub port : IsPort s.port
  pub first : IsPort s.pasv_port_start
  pub last : IsPort s.pasv_port_end
  pub ordered : exceeds s.pasv_port_start s.pasv_port_end ≡ false
  pub anon_root : s.allow_anon ≡ true → (dir : Bytes) × (s.anon_root_dir ≡ some dir)

IsPort-of : (n : ℤ) → no_port n ≡ false → IsPort n
unfolding no_port
IsPort-of (negsuc n) e = cc
IsPort-of (pos n) e = port n (ground arith)

error_not_success : ftp_error ≡ ftp_success → ⊥
error_not_success e = cc

-- The tests of a check that succeeds have failed.
passed :
    (b : Bool) (r : Ret)
    → (if b then ftp_error else r) ≡ ftp_success
    → (b ≡ false) × (r ≡ ftp_success)
passed true r e = absurd (error_not_success e)
passed false r e = (refl, e)

or_left : (a b : Bool) → (a || b) ≡ false → a ≡ false
or_left true b e = e
or_left false b e = refl

or_right : (a b : Bool) → (a || b) ≡ false → b ≡ false
or_right true b e = cc
or_right false b e = e

anon_dir :
    (a : Bool) (o : Option Bytes)
    → (a && is_null o) ≡ false
    → a ≡ true
    → (dir : Bytes) × (o ≡ some dir)
unfolding is_null
anon_dir true none e h = cc
anon_dir true (some d) e h = (d, refl)
anon_dir false o e h = cc

check_config-IsUsable : (s : Settings) → check_config s ≡ ftp_success → IsUsable s
unfolding check_config
check_config-IsUsable s e =
    let a = passed (no_port s.port) _ e in
    let b = passed (no_port s.ctrl_port) _ a.1 in
    let c = passed (below_minus_one s.throttle_rate) _ b.1 in
    let d =
      passed
        (no_port s.pasv_port_start
          || (no_port s.pasv_port_end || exceeds s.pasv_port_start s.pasv_port_end))
        _ c.1 in
    let f = passed (s.allow_anon && is_null s.anon_root_dir) _ d.1 in
    let g = or_right (no_port s.pasv_port_start) _ d.0 in
    record {
      port = IsPort-of s.port a.0;
      first = IsPort-of s.pasv_port_start (or_left (no_port s.pasv_port_start) _ d.0);
      last = IsPort-of s.pasv_port_end (or_left (no_port s.pasv_port_end) _ g);
      ordered = or_right (no_port s.pasv_port_end) _ g;
      anon_root = anon_dir s.allow_anon s.anon_root_dir f.0;
    }

checked-IsUsable :
    (fd : ℕ) (s : Settings) (a : Attribute) (l : Loaded)
    → checked fd s a ≡ some l
    → l.ret ≡ ftp_success
    → IsUsable l.settings
unfolding checked closing
checked-IsUsable fd s (accepts t) l e k =
    let same : closing fd (check_config t) t ≡ l = cc in
    let ok = ap (λ l. l.ret) same ∙ k in
    subst IsUsable (ap (λ l. l.settings) same) (check_config-IsUsable t ok)
checked-IsUsable fd s (rejects x) l e k =
    let same : closing fd ftp_error s ≡ l = cc in
    absurd (error_not_success (ap (λ l. l.ret) same ∙ k))
checked-IsUsable fd s wild l e k = cc

load_mapped-IsUsable :
    (malloc : Bool) (memory : ℕ → Bool × Bool) (fd : ℕ) (text : Bytes) (s : Settings) (n : ℤ)
    (l : Loaded)
    → n ≢ pos 0
    → load_mapped malloc memory fd text s n ≡ some l
    → l.ret ≡ ftp_success
    → IsUsable l.settings
unfolding load_mapped closing
load_mapped-IsUsable malloc memory fd text s (pos zero) l n e k = absurd (n refl)
load_mapped-IsUsable malloc memory fd text s (pos (suc m)) l n e k =
    checked-IsUsable fd s (parse_config malloc memory (take (suc m) text) s) l e k
load_mapped-IsUsable malloc memory fd text s (negsuc m) l n e k =
    let same : closing fd ftp_error s ≡ l = cc in
    absurd (error_not_success (ap (λ l. l.ret) same ∙ k))

-- Settings that were loaded from a file whose size, as an int, is not 0 are usable: the ports are in
-- range, those for passive connections in order, and where anonymous users are allowed there is a root
-- directory for them.
pub load_config-IsUsable :
    (malloc : Bool) (memory : ℕ → Bool × Bool) (fd : ℕ) (text : Bytes) (s : Settings) (l : Loaded)
    → to_int (pos (length text)) ≢ pos 0
    → load_config malloc memory (file fd text) s ≡ some l
    → l.ret ≡ ftp_success
    → IsUsable l.settings
unfolding load_config
load_config-IsUsable malloc memory fd text s l n e k =
    load_mapped-IsUsable malloc memory fd text s _ l n e k

-- On each of its ways the file is closed.
closing-closes :
    (fd : ℕ) (ret : Ret) (s : Settings) (l : Loaded)
    → some (closing fd ret s) ≡ some l
    → l.left_open ≡ []
unfolding closing
closing-closes fd ret s l e =
    let same : closing fd ret s ≡ l = cc in
    sym (ap (λ l. l.left_open) same) ∙ without-first [] fd (fd ∷ []) refl

checked-closes :
    (fd : ℕ) (s : Settings) (a : Attribute) (l : Loaded)
    → checked fd s a ≡ some l
    → l.left_open ≡ []
unfolding checked
checked-closes fd s (accepts t) l e = closing-closes fd _ t l e
checked-closes fd s (rejects x) l e = closing-closes fd _ s l e
checked-closes fd s wild l e = cc

load_mapped-closes :
    (malloc : Bool) (memory : ℕ → Bool × Bool) (fd : ℕ) (text : Bytes) (s : Settings) (n : ℤ)
    (l : Loaded)
    → load_mapped malloc memory fd text s n ≡ some l
    → l.left_open ≡ []
unfolding load_mapped
load_mapped-closes malloc memory fd text s (pos zero) l e = closing-closes fd _ s l e
load_mapped-closes malloc memory fd text s (pos (suc n)) l e = checked-closes fd s _ l e
load_mapped-closes malloc memory fd text s (negsuc n) l e = closing-closes fd _ s l e

pub load_config-closes :
    (malloc : Bool) (memory : ℕ → Bool × Bool) (f : ConfigFile) (s : Settings) (l : Loaded)
    → load_config malloc memory f s ≡ some l
    → l.left_open ≡ []
unfolding load_config
load_config-closes malloc memory no_file s l e =
    let same : record { ret = ftp_error; settings = s; left_open = [] } ≡ l = cc in
    sym (ap (λ l. l.left_open) same)
load_config-closes malloc memory (no_status fd) s l e = closing-closes fd _ s l e
load_config-closes malloc memory (not_regular fd) s l e = closing-closes fd _ s l e
load_config-closes malloc memory (not_mapped fd) s l e = closing-closes fd _ s l e
load_config-closes malloc memory (file fd text) s l e =
    load_mapped-closes malloc memory fd text s _ l e
