-- ===== src/Vfs/Ops.antt =====
-- The calls of vfs.c on a client's path. Every caller passes the session's `virt_path` as `cwd`.
use ftp_server.Prelude.{
  ℕ, Bool, true, false, not, ◌&&◌, ◌++◌, Option, none, some, if◌then◌else◌, Bytes,
}
use ftp_server.Text.Util.{strlcpy}
use ftp_server.Machine.Types.{
  FsOp, op_lstat, op_stat, op_open, op_creat, op_mkdir, op_rmdir, op_unlink, op_opendir, Answer,
  good, bad, Stat, FileKind, symlink, Env, Machine, History, fs, done, crash, closed, closes_dir,
  allocates, Ret, ftp_success, ftp_error,
}
use ftp_server.Machine.Errno.{enametoolong, eacces}
use ftp_server.Machine.Monad.{
  M, pure, ◌>>=◌, ◌>>◌, call, set_errno, from_env, modify, set_root, deref,
}
use ftp_server.Vfs.Realpath.{ftp_max_path, vfs_realpath}

abbrev pub resolved : Bytes → Option Bytes → Machine → Option (Bytes × Bytes) × Machine
resolved root none s = (none, record s { errno = enametoolong })
resolved root (some virt) s = (some (root ++ virt, virt), s)

-- `vfs_realpath` as the other calls use it: it asserts that the pool exists, and leaves `real_path`,
-- the root and behind it `virt_path`, or fails with errno set.
unfoldable pub resolve_path : Bytes → M (Option (Bytes × Bytes))
resolve_path path env s = elim s.root [
  | none ↦ crash s
  | some root ↦ let (r, s') = resolved root (vfs_realpath s.virt_path path) s in done r s'
]

-- A result, or -1 with errno set.
unfoldable pub or_errno : {A : Type 0} → Answer A → M (Option A)
or_errno (good a) = pure (some a)
or_errno (bad e) = do set_errno e; pure none

unfoldable pub on_real :
    {A : Type 0} → FsOp → (Env → History → Answer A) → Option (Bytes × Bytes) → M (Option A)
on_real op q none = pure none
on_real op q (some (real, virt)) = do a ← call (fs op real) q; or_errno a

-- Resolve the path and make one system call on it.
unfoldable pub on_path : {A : Type 0} → FsOp → (Env → History → Answer A) → Bytes → M (Option A)
on_path op q path = do r ← resolve_path path; on_real op q r

unfoldable pub is_symlink : FileKind → Bool
is_symlink symlink = true
is_symlink _ = false

-- A link is refused unless links are allowed; otherwise `stat` follows it.
unfoldable pub stat_target : Option (Bytes × Bytes) → Option Stat → M (Option Stat)
unfolding is_symlink
stat_target r none = pure none
stat_target r (some tmp) = do
  allow_links ← from_env (λ env. env.config.allow_links)
  if is_symlink tmp.kind && not allow_links
      then (do set_errno eacces; pure none)
      else on_real op_stat (λ env. env.stat) r

unfoldable pub vfs_stat : Bytes → M (Option Stat)
vfs_stat path = do
  r ← resolve_path path
  tmp ← on_real op_lstat (λ env. env.stat) r
  stat_target r tmp

unfoldable pub vfs_creat : Bytes → M (Option ℕ)
vfs_creat = on_path op_creat (λ env. env.open_fd)

unfoldable pub vfs_open : Bytes → M (Option ℕ)
vfs_open = on_path op_open (λ env. env.open_fd)

unfoldable pub vfs_mkdir : Bytes → M (Option (Unit {0}))
vfs_mkdir = on_path op_mkdir (λ env. env.modify_fs)

unfoldable pub vfs_rmdir : Bytes → M (Option (Unit {0}))
vfs_rmdir = on_path op_rmdir (λ env. env.modify_fs)

unfoldable pub vfs_unlink : Bytes → M (Option (Unit {0}))
vfs_unlink = on_path op_unlink (λ env. env.modify_fs)

-- A DIR is the descriptor that it stands for.
unfoldable pub vfs_opendir : Bytes → M (Option ℕ)
vfs_opendir = on_path op_opendir (λ env. env.open_fd)

unfoldable pub vfs_close : ℕ → M (Unit {0})
vfs_close fd = call (closed fd) (λ env h. tt)

unfoldable pub vfs_closedir : ℕ → M (Unit {0})
vfs_closedir dirp = call (closes_dir dirp) (λ env h. tt)

unfoldable pub enter_dir : Option (Bytes × Bytes) → M Bool
enter_dir none = pure false
enter_dir (some (real, virt)) = do
  modify (λ s. record s { virt_path = (strlcpy s.virt_path virt ftp_max_path).0 })
  pure true

-- Whether the directory was changed.
unfoldable pub vfs_chdir : Bytes → M Bool
vfs_chdir path = do r ← resolve_path path; enter_dir r

-- `root_dir` is read by strlen, so NULL crashes.
unfoldable pub init_vfs_pool : Option Bytes → M Ret
init_vfs_pool root_dir = do
  dir ← deref root_dir
  ok ← call allocates (λ env. env.malloc)
  if ok then (do set_root (some dir); pure ftp_success) else pure ftp_error

unfoldable pub destroy_vfs_pool : M Ret
destroy_vfs_pool = do set_root none; pure ftp_success
