-- ===== src/Server/Framing.antt =====
-- server.c: the command buffer gives the lines that the client sends, however its bytes arrive.
pub mod Whole
use mathlib.Core.Path.{subst}
use ftp_server.Prelude.{
  ℕ, zero, suc, ◌+◌, ◌-◌, ◌<◌, ◌≤◌, ◌≡◌, ◌≢◌, refl, sym, ap, ◌∙◌, ◌⊎◌, inl, inr, Bool, true, false,
  List, [], ◌∷◌, ◌++◌, append-nil, append_assoc, map, Option, none, some, leb, ◌==◌, if◌then◌else◌,
  length, length-append, take, drop, Bytes, arith, Bool-cases, ==_iff,
}
use ftp_server.Machine.Types.{Ret, ftp_success, ftp_error, ftp_quit}
use ftp_server.Server.Buffer.{
  Command, Received, received, gone, interrupted, broken, Progress, ready, waits, ends, newline,
  behind, cut, take_read, is_some, read_cmd, parse_line, parse_cmd, remove_cmd, after_parse,
  after_read, commands_of,
}

abbrev in_first : ℕ → List Bytes → List Bytes
in_first c [] = []
in_first c (l ∷ ls) = (c ∷ l) ∷ ls

-- The lines of a text, each without its NL; what follows the last NL is none.
abbrev pub lines : Bytes → List Bytes
lines [] = []
lines (c ∷ s) = let rest = lines s in if c == newline then [] ∷ rest else in_first c rest

-- The bytes that will arrive.
abbrev pub stream : List Received → Bytes
stream [] = []
stream (received bytes ∷ reads) = bytes ++ stream reads
stream (r ∷ reads) = stream reads

-- A text cut at its first NL.
pub record IsCut (s front back : Bytes) : Type 0 where
  pub len : length s ≡ length front + 1 + length back
  pub first : lines s ≡ front ∷ lines back
  pub rest : drop (suc (length front)) s ≡ back

abbrev here : Bytes → Option (Bytes × Bytes)
here s = some ([], s)

IsCut-if :
    (b : Bool) (c : ℕ) (s : Bytes) (o : Option (Bytes × Bytes)) (front back : Bytes)
    → (c == newline) ≡ b
    → ((front back : Bytes) → o ≡ some (front, back) → IsCut s front back)
    → (if b then here s else behind c o) ≡ some (front, back)
    → IsCut (c ∷ s) front back
IsCut-if true c s o front back e k q =
    let f : [] ≡ front = cc in
    let b : s ≡ back = cc in
    record { len = rw (sym f, sym b) (omega arith); first = rw (e, f, b); rest = rw (sym f) b }
IsCut-if false c s none front back e k q = cc
IsCut-if false c s (some (f, t)) front back e k q =
    let rec = k f t refl in
    let g : c ∷ f ≡ front = cc in
    let b : t ≡ back = cc in
    record {
      len = rw (sym g, sym b) (omega (arith, rec.len));
      first = rw (e, rec.first, sym g, sym b);
      rest = rw (sym g) (rec.rest ∙ b);
    }

pub cut-IsCut : (s front back : Bytes) → cut newline s ≡ some (front, back) → IsCut s front back
unfolding cut
cut-IsCut [] front back q = cc
cut-IsCut (c ∷ s) front back q =
    IsCut-if (c == newline) c s (cut newline s) front back refl (cut-IsCut s) q

appended_if :
    (b : Bool) (c : ℕ) (s t : Bytes) (o p : Option (Bytes × Bytes)) (front back : Bytes)
    → ((front back : Bytes) → o ≡ some (front, back) → p ≡ some (front, back ++ t))
    → (if b then here s else behind c o) ≡ some (front, back)
    → (if b then here (s ++ t) else behind c p) ≡ some (front, back ++ t)
appended_if true c s t o p front back k q =
    let f : [] ≡ front = cc in let b : s ≡ back = cc in rw (sym f, b)
appended_if false c s t none p front back k q = cc
appended_if false c s t (some (f, u)) p front back k q =
    let g : c ∷ f ≡ front = cc in let b : u ≡ back = cc in rw (k f u refl, sym g, b)

-- More bytes change nothing of the first line.
pub cut_append :
    (s t front back : Bytes)
    → cut newline s ≡ some (front, back)
    → cut newline (s ++ t) ≡ some (front, back ++ t)
unfolding cut
cut_append [] t front back q = cc
cut_append (c ∷ s) t front back q =
    appended_if (c == newline) c s t _ _ front back (cut_append s t) q

no_lines_if :
    (b : Bool) (c : ℕ) (s : Bytes) (o : Option (Bytes × Bytes))
    → (c == newline) ≡ b
    → (o ≡ none → lines s ≡ [])
    → (if b then here s else behind c o) ≡ none
    → lines (c ∷ s) ≡ []
no_lines_if true c s o e k q = cc
no_lines_if false c s none e k q = rw (e, k refl)
no_lines_if false c s (some (f, u)) e k q = cc

pub cut-none : (s : Bytes) → cut newline s ≡ none → lines s ≡ []
unfolding cut
cut-none [] q = refl
cut-none (c ∷ s) q = no_lines_if (c == newline) c s (cut newline s) refl (cut-none s) q

-- What `read_cmd` comes to, from its buffer and what will arrive.
abbrev pub ReadsTo : Bytes → Progress × (Command × List Received) → Type 0
ReadsTo text (ready, (c, reads)) =
    ((front : Bytes) × ((back : Bytes) × (cut newline c.line ≡ some (front, back))))
    × (c.line ++ stream reads ≡ text)
ReadsTo text (waits, (c, reads)) = (cut newline c.line ≡ none) × (c.line ≡ text)
ReadsTo text (ends e, r) = Unit

some_cut :
    (o : Option (Bytes × Bytes))
    → is_some o ≡ true
    → (front : Bytes) × ((back : Bytes) × (o ≡ some (front, back)))
unfolding is_some
some_cut none e = cc
some_cut (some (f, b)) e = (f, (b, refl))

no_cut : (o : Option (Bytes × Bytes)) → is_some o ≡ false → o ≡ none
unfolding is_some
no_cut none e = refl
no_cut (some p) e = cc

ready_or :
    (b : Bool) (c : Command) (reads : List Received) (more : Progress × (Command × List Received))
    → is_some (cut newline c.line) ≡ b
    → ReadsTo (c.line ++ stream reads) more
    → ReadsTo (c.line ++ stream reads) (if b then (ready, (c, reads)) else more)
ready_or true c reads more e k = (some_cut _ e, refl)
ready_or false c reads more e k = k

take_short : (n : ℕ) (s : Bytes) → length (take n s) < n → take n s ≡ s
take_short zero s h = elim h [ ]
take_short (suc n) [] h = refl
take_short (suc n) (c ∷ s) h = ap (λ t. c ∷ t) (take_short n s (omega (arith, h)))

not_full :
    (b : Bool) (size : ℕ) (line new bytes : Bytes) (reads : List Received) (c' : Command)
    (more : Progress × (Command × List Received))
    → leb size (length (line ++ new)) ≡ b
    → (length (line ++ new) < size → new ≡ bytes)
    → ReadsTo ((line ++ new) ++ stream reads) more
    → ReadsTo (line ++ (bytes ++ stream reads)) (if b then (ends ftp_quit, (c', reads)) else more)
not_full true size line new bytes reads c' more e k r = tt
not_full false size line new bytes reads c' more e k r =
    let same : new ≡ bytes = k (ground arith) in
    let text : (line ++ new) ++ stream reads ≡ line ++ (bytes ++ stream reads) =
      ap (λ t. (line ++ t) ++ stream reads) same ∙ append_assoc line bytes (stream reads) in
    subst (λ t. ReadsTo t more) text r

take_read-ReadsTo :
    (again : Command → Progress × (Command × List Received)) (reads : List Received) (c : Command)
    (r : Received)
    → ((c : Command) → ReadsTo (c.line ++ stream reads) (again c))
    → ReadsTo (c.line ++ stream (r ∷ reads)) (take_read again reads c r)
unfolding take_read
take_read-ReadsTo again reads c gone k = tt
take_read-ReadsTo again reads c broken k = tt
take_read-ReadsTo again reads c (interrupted true) k = tt
take_read-ReadsTo again reads c (interrupted false) k = k c
take_read-ReadsTo again reads c (received []) k = tt
take_read-ReadsTo again reads c (received (b ∷ bytes)) k =
    let max = c.line_len - length c.line in
    let new = take max (b ∷ bytes) in
    not_full (leb c.line_len (length (c.line ++ new))) c.line_len c.line new (b ∷ bytes) reads _ _
      refl (λ h. take_short max (b ∷ bytes) (omega (arith, h, length-append c.line new)))
      (k (record c { line = c.line ++ new }))

waits_or :
    (b : Bool) (c : Command)
    → is_some (cut newline c.line) ≡ b
    → ReadsTo (c.line ++ []) (if b then ready else waits, (c, []))
waits_or true c e = (some_cut _ e, refl)
waits_or false c e = (no_cut _ e, sym (append-nil c.line))

pub read_cmd-ReadsTo :
    (reads : List Received) (c : Command) → ReadsTo (c.line ++ stream reads) (read_cmd reads c)
unfolding read_cmd
read_cmd-ReadsTo [] c = waits_or (is_some (cut newline c.line)) c refl
read_cmd-ReadsTo (r ∷ reads) c =
    ready_or (is_some (cut newline c.line)) c (r ∷ reads) _ refl
      (take_read-ReadsTo (read_cmd reads) reads c r (read_cmd-ReadsTo reads))
