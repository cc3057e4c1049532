-- ===== src/Core/Store/Upload.antt =====
-- core.c, `store_file`: the file and the stream of a client, as the calls of a history leave them.
use ftp_server.Prelude.{
  ℕ, zero, suc, ◌+◌, ◌≤◌, ◌≡◌, refl, ap, ◌∙◌, sym, [], ◌∷◌, ◌++◌, Option, none, some, ◌==◌,
  if◌then◌else◌, length, length-take, take, drop, take_add, true, false, Bytes, ℤ, pos, negsuc,
  ◌+ℤ◌, arith,
}
use ftp_server.Machine.Types.{
  Answer, good, bad, History, Event, seeks, reads_data, writes_data, Env,
}
use ftp_server.Machine.Errno.{eintr}
use ftp_server.Safety.Pool.{NoFile}

-- Bytes written at a position of a file; a gap behind its end is filled with NULs.
abbrev pub overwrite : ℕ → Bytes → Bytes → Bytes
overwrite zero [] f = f
overwrite zero (c ∷ s) [] = c ∷ overwrite zero s []
overwrite zero (c ∷ s) (x ∷ f) = c ∷ overwrite zero s f
overwrite (suc p) [] [] = []
overwrite (suc p) (c ∷ s) [] = 0 ∷ overwrite p (c ∷ s) []
overwrite (suc p) s (x ∷ f) = x ∷ overwrite p s f

-- What the client sends and is not yet read, the last bytes that were, the file and the position in it.
pub record Upload : Type 0 where
  pub unread : Bytes
  pub buffer : Bytes
  pub content : Bytes
  pub position : ℤ

abbrev pub on_seek : ℤ → Option ℕ → Upload → Upload
on_seek o none u = record u { position = o }
on_seek o (some e) u = u

abbrev pub on_read : Answer ℕ → Upload → Upload
on_read (good n) u = record u { unread = drop n u.unread; buffer = take n u.unread }
on_read (bad e) u = u

abbrev pub put_at : ℤ → Bytes → Bytes → Bytes
put_at (pos p) s f = overwrite p s f
put_at (negsuc p) s f = f

abbrev pub on_write : Answer ℕ → Upload → Upload
on_write (good n) u = record u {
  content = put_at u.position (take n u.buffer) u.content;
  position = u.position +ℤ pos n;
}
on_write (bad e) u = u

-- Calls on other descriptors change neither the file `d` nor the connection `c`.
abbrev pub where_same : ℕ → ℕ → Upload → Upload → Upload
where_same a b changed u = if a == b then changed else u

abbrev pub uploaded : Env → ℕ → ℕ → Upload → History → Upload
uploaded env d c u [] = u
uploaded env d c u (seeks fd o ∷ h) =
    let before = uploaded env d c u h in
    where_same fd d (on_seek o (env.lseek (seeks fd o ∷ h)) before) before
uploaded env d c u (reads_data fd n ∷ h) =
    let before = uploaded env d c u h in
    where_same fd c (on_read (env.read (reads_data fd n ∷ h)) before) before
uploaded env d c u (writes_data fd n ∷ h) =
    let before = uploaded env d c u h in
    where_same fd d (on_write (env.write (writes_data fd n ∷ h)) before) before
uploaded env d c u (_ ∷ h) = uploaded env d c u h

-- A read returns some of what the client sends, and nothing only behind its last byte; a write that
-- succeeds takes all that it is given, and no write is interrupted; and the file can be positioned.
pub record IsPlentiful (env : Env) (d c : ℕ) (u : Upload) : Type 0 where
  pub reads :
      (n m : ℕ) (h : History)
      → env.read (reads_data c n ∷ h) ≡ good m
      → m ≤ length (uploaded env d c u h).unread
  pub ends :
      (n : ℕ) (h : History)
      → env.read (reads_data c n ∷ h) ≡ good 0
      → length (uploaded env d c u h).unread ≡ 0
  pub writes : (n m : ℕ) (h : History) → env.write (writes_data d n ∷ h) ≡ good m → m ≡ n
  pub uninterrupted :
      (n e : ℕ) (h : History) → env.write (writes_data d n ∷ h) ≡ bad e → (e == eintr) ≡ false
  pub seeks_well : (o : ℤ) (h : History) → env.lseek (seeks d o ∷ h) ≡ none

overwrite_past : (n m x : ℕ) (t f : Bytes) → n ≡ suc m → overwrite n t (x ∷ f) ≡ x ∷ overwrite m t f
overwrite_past n m x t f e = ap (λ n. overwrite n t (x ∷ f)) e

-- Two writes, the second where the first has ended, are one.
pub overwrite_again :
    (p : ℕ) (s t f : Bytes) → overwrite (p + length s) t (overwrite p s f) ≡ overwrite p (s ++ t) f
overwrite_again zero [] t f = let e : 0 + 0 ≡ 0 = omega arith in ap (λ n. overwrite n t f) e
overwrite_again zero (c ∷ s) t [] =
    overwrite_past _ (0 + length s) c t _ (omega arith)
    ∙ ap (λ f. c ∷ f) (overwrite_again zero s t [])
overwrite_again zero (c ∷ s) t (x ∷ f) =
    overwrite_past _ (0 + length s) c t _ (omega arith)
    ∙ ap (λ f. c ∷ f) (overwrite_again zero s t f)
overwrite_again (suc p) [] t [] =
    let e : suc p + 0 ≡ suc p = omega arith in ap (λ n. overwrite n t []) e
overwrite_again (suc p) (c ∷ s) t [] =
    overwrite_past _ (p + length (c ∷ s)) 0 t _ (omega arith)
    ∙ ap (λ f. 0 ∷ f) (overwrite_again p (c ∷ s) t [])
overwrite_again (suc p) s t (x ∷ f) =
    overwrite_past _ (p + length s) x t _ (omega arith) ∙ ap (λ f. x ∷ f) (overwrite_again p s t f)

-- What neither seeks, reads nor writes leaves both as they are.
pub uploaded-NoFile :
    (env : Env) (d c : ℕ) (u : Upload) (e : Event) (h : History)
    → NoFile e
    → uploaded env d c u (e ∷ h) ≡ uploaded env d c u h
uploaded-NoFile env d c u (seeks fd o) h n = absurd n
uploaded-NoFile env d c u (reads_data fd k) h n = absurd n
uploaded-NoFile env d c u (writes_data fd k) h n = absurd n
uploaded-NoFile env d c u _ h n = refl

pub same_again : (n : ℕ) (a b : Upload) → where_same n n a b ≡ a
same_again n a b = let same : (n == n) ≡ true = ground arith in rw (same)

take_twice : (n : ℕ) (s : Bytes) → take n (take n s) ≡ take n s
take_twice zero s = refl
take_twice (suc n) [] = refl
take_twice (suc n) (x ∷ s) = rw (take_twice n s)

-- The next bytes of the stream, behind those that are stored.
pub put_next :
    (p k n : ℕ) (stream f : Bytes)
    → k ≤ length stream
    → overwrite (p + k) (take n (take n (drop k stream))) (overwrite p (take k stream) f)
      ≡ overwrite p (take (k + n) stream) f
put_next p k n stream f le =
    let front = take k stream in
    let past = overwrite p front f in
    let at : p + k ≡ p + length front = omega (arith, length-take k stream le) in
    ap (λ s. overwrite (p + k) s past) (take_twice n (drop k stream))
    ∙ ap (λ q. overwrite q (take n (drop k stream)) past) at
    ∙ overwrite_again p front (take n (drop k stream)) f
    ∙ ap (λ s. overwrite p s f) (sym (take_add k n stream))

pub overwrite-nil : (p : ℕ) (f : Bytes) → overwrite p [] f ≡ f
overwrite-nil zero f = refl
overwrite-nil (suc p) [] = refl
overwrite-nil (suc p) (x ∷ f) = rw (overwrite-nil p f)
