-- ===== src/Tests/StoreExamples.antt =====
-- The theorem on what a client stores at a concrete input.
use ftp_server.Prelude.{
  ℕ, ◌≡◌, ◌≤◌, refl, ap, sym, Bool, true, false, ◌||◌, [], ◌∷◌, some, ◌==◌, if◌then◌else◌, length,
  drop, arith, pos, Bytes,
}
use ftp_server.Text.Ctype.{codes}
use ftp_server.Machine.Types.{
  points_to, Env, Machine, History, Answer, good, bad, seeks, reads_data, writes_data,
}
use ftp_server.Command.Run.Serve.{new_process}
use ftp_server.Core.Data.{file, connection}
use ftp_server.Core.Store.Upload.{Upload, on_read, uploaded, IsPlentiful}
use ftp_server.Core.Store.Written.{IsStored, store_file-IsStored}
use ftp_server.Transfer.{store_file}
use ftp_server.Tests.Sample.{sample_env}

abbrev sent : Bytes
sent = codes "some bytes"

abbrev has_read : History → Bool
has_read [] = false
has_read (reads_data fd n ∷ h) = let before = has_read h in (fd == 9) || before
has_read (_ ∷ h) = has_read h

-- The first read returns all ten bytes.
abbrev all_at_once : History → Answer ℕ
all_at_once (reads_data fd n ∷ h) = if has_read h then good 0 else good 10
all_at_once _ = good 0

abbrev took_all : History → Answer ℕ
took_all (writes_data fd n ∷ h) = good n
took_all _ = good 0

abbrev uploading : Env
uploading = record sample_env { read = all_at_once; write = took_all; patience = 3 }

abbrev before : Upload
before = record { unread = sent; buffer = []; content = codes "0123456789"; position = pos 0 }

abbrev resumed : Machine
resumed =
    let fresh = new_process (codes "127,0,0,1") (points_to (codes "bob")) 0 in
    record fresh { session = record fresh.session { restart_pos = 4 }; state_pool = some [] }

read_step :
    (b a : Bool) (u : Upload)
    → u.unread ≡ (if a then [] else sent)
    → (if b then on_read (if a then good 0 else good 10) u else u).unread
      ≡ (if b || a then [] else sent)
read_step false a u e = e
read_step true true u e = e
read_step true false u e = ap (drop 10) e

unmoved :
    (b : Bool) (u v : Upload) (s : Bytes)
    → u.unread ≡ s
    → v.unread ≡ s
    → (if b then u else v).unread ≡ s
unmoved true u v s e f = e
unmoved false u v s e f = f

unread :
    (h : History) → (uploaded uploading 7 9 before h).unread ≡ (if has_read h then [] else sent)
unread [] = refl
unread (reads_data fd n ∷ h) = read_step (fd == 9) (has_read h) _ (unread h)
unread (seeks fd o ∷ h) = unmoved (fd == 7) _ _ _ (unread h) (unread h)
unread (writes_data fd n ∷ h) = unmoved (fd == 7) _ _ _ (unread h) (unread h)
unread (_ ∷ h) = unread h

abbrev count : Answer ℕ → ℕ
count (good n) = n
count (bad e) = 0

read_fits :
    (a : Bool) (m : ℕ) (s : Bytes)
    → s ≡ (if a then [] else sent)
    → if◌then◌else◌ {A = Answer ℕ} a (good 0) (good 10) ≡ good m
    → m ≤ length s
read_fits true m s e f = omega (arith, ap count f)
read_fits false m s e f = omega (arith, ap count f, ap length e)

read_ends :
    (a : Bool) (s : Bytes)
    → s ≡ (if a then [] else sent)
    → if◌then◌else◌ {A = Answer ℕ} a (good 0) (good 10) ≡ good 0
    → length s ≡ 0
read_ends true s e f = ap length e
read_ends false s e f = omega (arith, ap count f)

uploading-IsPlentiful : IsPlentiful uploading 7 9 before
uploading-IsPlentiful = record {
  reads = λ n m h e. read_fits (has_read h) m _ (unread h) e;
  ends = λ n h e. read_ends (has_read h) _ (unread h) e;
  writes = λ n m h e. sym (ap count e);
  uninterrupted = λ n e h f. cc;
  seeks_well = λ o h. refl;
}

store_file-IsStored_example :
    IsStored uploading 7 9 before before 4 (store_file (file 7) (connection 9) uploading resumed)
store_file-IsStored_example =
    store_file-IsStored uploading 7 9 before resumed [] uploading-IsPlentiful refl
