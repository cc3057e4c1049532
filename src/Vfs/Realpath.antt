-- ===== src/Vfs/Realpath.antt =====
-- `vfs_realpath` of vfs.c. A list `dst` holds virt_path[0] .. dst[-1], its last byte first, so its
-- head is `dst[-1]`; nothing behind the pointer is read before it is written.
use ftp_server.Prelude.{
  ℕ, zero, suc, ◌+◌, Bool, false, ◌&&◌, [], ◌∷◌, ◌++◌, reverse, Option, none, some, ltb, leb, ◌==◌,
  if◌then◌else◌, length, Bytes,
}

-- FTP_MAX_PATH
abbrev pub ftp_max_path : ℕ
ftp_max_path = 1024

-- `dst[-1] == '/'`, or `path[0] == '/'`
abbrev pub head_is_sep : Bytes → Bool
head_is_sep [] = false
head_is_sep (c ∷ s) = c == b'/'

-- while( *start == '/' ) ++start;
unfoldable pub skip_seps : Bytes → Bytes
skip_seps [] = []
skip_seps (c ∷ s) = if c == b'/' then skip_seps s else c ∷ s

-- The bytes from `start` to `end`, and those from `end` on.
unfoldable pub dir_block : Bytes → Bytes
dir_block [] = []
dir_block (c ∷ s) = if c == b'/' then [] else c ∷ dir_block s

unfoldable pub after_block : Bytes → Bytes
after_block [] = []
after_block (c ∷ s) = if c == b'/' then c ∷ s else after_block s

-- while( (--dst)[-1] != '/' ) ;
unfoldable pub back_up : Bytes → Bytes
back_up [] = []
back_up (c ∷ d) = if head_is_sep d then d else back_up d

-- Append a directory, behind a separator, if it fits; `none` is ENAMETOOLONG.
unfoldable pub enter : Bytes → Bytes → Option Bytes
enter dst dir =
    let dst' = if head_is_sep dst then dst else b'/' ∷ dst in
    if leb ftp_max_path (length dst' + length dir) then none else some (reverse dir ++ dst')

abbrev pub is_dot : Bytes → Bool
is_dot (a ∷ []) = a == b'.'
is_dot _ = false

abbrev pub is_dot_dot : Bytes → Bool
is_dot_dot (a ∷ b ∷ []) = a == b'.' && b == b'.'
is_dot_dot _ = false

unfoldable pub take_dir : Bytes → Bytes → Option Bytes
unfolding back_up enter
take_dir dst dir =
    if is_dot dir
    then some dst
    else if is_dot_dot dir
    then some (if ltb 1 (length dst) then back_up dst else dst)
    else enter dst dir

abbrev pub bind {ℓ κ} : {A : Type ℓ} {B : Type κ} → Option A → (A → Option B) → Option B
bind none f = none
bind (some a) f = f a

-- for( start = end = path; *start; start = end ), each round on its fuel
unfoldable pub walk : ℕ → Bytes → Bytes → Option Bytes
walk zero path dst = none
walk (suc f) [] dst = some dst
walk (suc f) (c ∷ s) dst =
    let start = skip_seps (c ∷ s) in
    elim (dir_block start) [
      | [] ↦ some dst
      | b ∷ bs ↦ bind (take_dir dst (b ∷ bs)) (λ dst'. walk f (after_block start) dst')
    ]

-- --dst
abbrev pub but_last : Bytes → Bytes
but_last [] = []
but_last (c ∷ s) = s

-- The last separator goes, unless it is the root.
unfoldable pub drop_last_sep : Bytes → Bytes
drop_last_sep dst = if ltb 1 (length dst) && head_is_sep dst then but_last dst else dst

unfoldable pub start_at : Bytes → Bytes → Option Bytes
start_at cwd path =
    if head_is_sep path
    then some (b'/' ∷ [])
    else if leb ftp_max_path (length cwd)
    then none
    else some (reverse cwd)

-- The string left in `virt_path`, or `none` for -1 with ENAMETOOLONG.
unfoldable pub vfs_realpath : Bytes → Bytes → Option Bytes
unfolding start_at walk skip_seps dir_block after_block take_dir drop_last_sep
vfs_realpath cwd path =
    bind (start_at cwd path)
      λ dst. bind (walk (suc (length path)) path dst) λ dst'. some (reverse (drop_last_sep dst'))
