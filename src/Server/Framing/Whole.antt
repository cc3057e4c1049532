-- ===== src/Server/Framing/Whole.antt =====
-- server.c: the loop of `ftp_main` over the command buffer.
use mathlib.Core.Path.{subst}
use ftp_server.Prelude.{
  ℕ, zero, suc, ◌+◌, ◌<◌, ◌≡◌, ◌≢◌, refl, sym, ap, ◌∙◌, Bool, true, false, List, [], ◌∷◌, ◌++◌, map,
  Option, none, some, ◌==◌, if◌then◌else◌, length, drop, Bytes, arith,
}
use ftp_server.Server.Buffer.{
  Command, Received, Progress, ready, waits, ends, newline, cut, read_cmd, parse_line, parse_cmd,
  remove_cmd, after_parse, after_read, commands_of,
}
use ftp_server.Server.Framing.{
  lines, stream, IsCut, cut-IsCut, cut_append, cut-none, ReadsTo, read_cmd-ReadsTo,
}

-- The commands are those of the lines of the text, in their order and from the first on: of all lines
-- if the loop waits for the client.
pub record IsFraming (text : Bytes) (r : List (Bytes × Bytes) × Option Progress) : Type 0 where
  pub rest : List (Bytes × Bytes)
  pub commands : r.0 ++ rest ≡ map parse_line (lines text)
  pub complete : r.1 ≡ some waits → rest ≡ []
  pub ended : r.1 ≢ none

no_length : (s : Bytes) → length s ≡ 0 → [] ≡ s
no_length [] h = refl
no_length (c ∷ s) h = absurd (omega (arith, h))

removed_if :
    (b : Bool) (c : Command) (front back : Bytes)
    → (length front + 1 == length c.line) ≡ b
    → IsCut c.line front back
    → (if b then record c { line = [] } else record c { line = drop (length front + 1) c.line })
      ≡ record c { line = back }
removed_if true c front back e k =
    let same : length front + 1 ≡ length c.line = ground arith in
    ap (λ s. record c { line = s }) (no_length back (omega (arith, same, k.len)))
removed_if false c front back e k =
    let one : length front + 1 ≡ suc (length front) = omega arith in
    ap (λ s. record c { line = s }) (ap (λ n. drop n c.line) one ∙ k.rest)

-- What is left behind the command is the text behind its line.
remove_cmd_lem :
    (c : Command) (front back : Bytes)
    → IsCut c.line front back
    → remove_cmd (length front + 1) c ≡ record c { line = back }
unfolding remove_cmd
remove_cmd_lem c front back k = removed_if _ c front back refl k

parse_cmd_lem :
    (c : Command) (front back : Bytes)
    → cut newline c.line ≡ some (front, back)
    → parse_cmd c ≡ some (parse_line front, length front + 1)
unfolding parse_cmd
parse_cmd_lem c front back e = rw (e, parse_cmd)

IsFraming-cons :
    (text front text' : Bytes) (r : List (Bytes × Bytes) × Option Progress)
    → lines text ≡ front ∷ lines text'
    → IsFraming text' r
    → IsFraming text (parse_line front ∷ r.0, r.1)
IsFraming-cons text front text' r e k = record {
  rest = k.rest;
  commands = ap (λ cs. parse_line front ∷ cs) k.commands ∙ sym (ap (map parse_line) e);
  complete = k.complete;
  ended = k.ended;
}

not_none : (p : Progress) → some p ≢ none
not_none p e = cc

after_read-IsFraming :
    (rest : List Received → Command → List (Bytes × Bytes) × Option Progress) (text : Bytes)
    (r : Progress × (Command × List Received))
    → ReadsTo text r
    → ((reads : List Received) (c : Command)
        → length (c.line ++ stream reads) < length text
        → IsFraming (c.line ++ stream reads) (rest reads c))
    → IsFraming text (after_read rest r)
unfolding after_read
after_read-IsFraming rest text (ends e, r) h k = record {
  rest = map parse_line (lines text);
  commands = refl;
  complete = λ q. cc;
  ended = not_none (ends e);
}
after_read-IsFraming rest text (waits, (c, reads)) h k =
    let nothing : lines text ≡ [] = rw (sym h.1) (cut-none c.line h.0) in
    record {
      rest = [];
      commands = sym (ap (map parse_line) nothing);
      complete = λ q. refl;
      ended = not_none waits;
    }
after_read-IsFraming rest text (ready, (c, reads)) h k =
    let front = h.0.0 in
    let back = h.0.1.0 in
    let here = cut-IsCut c.line front back h.0.1.1 in
    let c' : Command = record c { line = back } in
    let whole = cut-IsCut text front (back ++ stream reads) (
      subst (λ t. cut newline t ≡ some (front, back ++ stream reads)) h.1
        (cut_append c.line (stream reads) front back h.0.1.1)) in
    rw (parse_cmd_lem c front back h.0.1.1, after_parse, remove_cmd_lem c front back here)
      (IsFraming-cons text front (back ++ stream reads) (rest reads c') whole.first
        (k reads c' (omega (arith, whole.len))))

commands_of-IsFraming :
    (f : ℕ) (reads : List Received) (c : Command)
    → length (c.line ++ stream reads) < f
    → IsFraming (c.line ++ stream reads) (commands_of f reads c)
unfolding commands_of
commands_of-IsFraming zero reads c h = elim h [ ]
commands_of-IsFraming (suc f) reads c h =
    after_read-IsFraming (commands_of f) _ (read_cmd reads c) (read_cmd-ReadsTo reads c)
      (λ reads' c' less. commands_of-IsFraming f reads' c' (omega (arith, less, h)))

-- However the bytes of a client are cut into reads, and whatever interrupts them: the loop ends, the
-- commands it has run by then are the lines that the client sent, parsed, in their order and without a
-- gap, and when it waits for more it has run all of them.
pub commands_of-stream :
    (line_len : ℕ) (reads : List Received)
    → IsFraming (stream reads) (
        commands_of (suc (length (stream reads))) reads (record { line = []; line_len = line_len }))
commands_of-stream line_len reads =
    commands_of-IsFraming (suc (length (stream reads))) reads
      (record { line = []; line_len = line_len }) (omega arith)
