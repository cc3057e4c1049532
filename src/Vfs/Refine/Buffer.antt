-- ===== src/Vfs/Refine/Buffer.antt =====
-- The buffer of `vfs_realpath` spells a stack, with or without a separator at its end.
use ftp_server.Prelude.{
  suc, ◌+◌, ◌≤◌, ◌<◌, ◌≡◌, refl, ap, ◌≢◌, inl, inr, true, false, List, [], ◌∷◌, ◌++◌, reverse,
  Option, none, some, if◌then◌else◌, arith, length, length-append, length-reverse, Bytes, All,
  All-reverse, Bool-cases, ltb, leb, ltb→lt,
}
use ftp_server.Vfs.Realpath.{
  ftp_max_path, head_is_sep, is_dot, is_dot_dot, back_up, enter, take_dir, drop_last_sep,
}
use ftp_server.Vfs.Stack.{spine, path_of, parent, push_within, step, IsName}

abbrev pub NoSep : Bytes → Type 0
NoSep = All (λ c. c ≢ b'/')

reverse-ne-nil : (d : Bytes) → d ≢ [] → reverse d ≢ []
reverse-ne-nil [] h e = h refl
reverse-ne-nil (c ∷ d) h e = absurd (omega (arith, ap length e, length-reverse (c ∷ d)))

head-NoSep : (r t : Bytes) → NoSep r → r ≢ [] → head_is_sep (r ++ t) ≡ false
head-NoSep [] t h n = absurd (n refl)
head-NoSep (c ∷ r) t h n = ground arith

back_up-name : (r t : Bytes) → NoSep r → r ≢ [] → back_up (r ++ b'/' ∷ t) ≡ b'/' ∷ t
unfolding back_up
back_up-name [] t h n = absurd (n refl)
back_up-name (c ∷ []) t h n = refl
back_up-name (c ∷ x ∷ r) t h n =
    rw (head-NoSep (x ∷ r) (b'/' ∷ t) h.1 (cc)) (back_up-name (x ∷ r) t h.1 (cc))

module _ {d : Bytes} (name : IsName d) (ds : List Bytes) where
  pub spine-no_sep : head_is_sep (spine (d ∷ ds)) ≡ false
  unfolding spine
  spine-no_sep =
      head-NoSep (reverse d) (b'/' ∷ spine ds) (All-reverse _ d name.no_sep)
        (reverse-ne-nil d name.not_empty)

  pub back_up-spine : back_up (spine (d ∷ ds)) ≡ b'/' ∷ spine ds
  unfolding spine
  back_up-spine =
      back_up-name (reverse d) (spine ds) (All-reverse _ d name.no_sep)
        (reverse-ne-nil d name.not_empty)

  pub back_up-sep-spine : back_up (b'/' ∷ spine (d ∷ ds)) ≡ b'/' ∷ spine ds
  unfolding back_up
  back_up-sep-spine = rw spine-no_sep back_up-spine

pub length-spine :
    (d : Bytes) (ds : List Bytes) → length (spine (d ∷ ds)) ≡ length d + 1 + length (spine ds)
unfolding spine
length-spine d ds = omega (arith, length-append (reverse d) (b'/' ∷ spine ds), length-reverse d)

length-pos : (d : Bytes) → d ≢ [] → 1 ≤ length d
length-pos [] h = absurd (h refl)
length-pos (c ∷ d) h = omega arith

-- What the buffer holds for a stack.
pub data At (ds : List Bytes) (dst : Bytes) : Type 0 where
  at_sep : dst ≡ b'/' ∷ spine ds → At ds dst
  at_name : ds ≢ [] → dst ≡ spine ds → At ds dst

-- Both fail, or both succeed and the buffer holds the stack, which is short enough.
abbrev pub Agrees : Option (List Bytes) → Option Bytes → Type 0
Agrees none none = Unit
Agrees (some ds) (some dst) = At ds dst × All IsName ds × (length (spine ds) < ftp_max_path)
Agrees _ _ = ⊥

push-Agrees :
    (ds : List Bytes) (dst d : Bytes)
    → IsName d
    → All IsName ds
    → (if head_is_sep dst then dst else b'/' ∷ dst) ≡ b'/' ∷ spine ds
    → Agrees (push_within ds d) (enter dst d)
unfolding push_within enter
push-Agrees ds dst d name names e = elim (Bool-cases (ltb (length (spine (d ∷ ds))) ftp_max_path)) [
  | inl room ↦ rw (room, e, no_overflow room) (at_name (cc) refl, (name, names), ltb→lt _ _ room)
  | inr full ↦ rw (full, e, overflow full) tt
]
  where
    no_overflow :
        ltb (length (spine (d ∷ ds))) ftp_max_path ≡ true
        → leb ftp_max_path (length (b'/' ∷ spine ds) + length d) ≡ false
    no_overflow room = ground (arith, length-spine d ds)

    overflow :
        ltb (length (spine (d ∷ ds))) ftp_max_path ≡ false
        → leb ftp_max_path (length (b'/' ∷ spine ds) + length d) ≡ true
    overflow full = ground (arith, length-spine d ds)

-- The separator is written unless it is there.
At-sep :
    (ds : List Bytes) {dst : Bytes}
    → All IsName ds
    → At ds dst
    → (if head_is_sep dst then dst else b'/' ∷ dst) ≡ b'/' ∷ spine ds
At-sep ds names (at_sep e) = rw e refl
At-sep [] names (at_name ne e) = absurd (ne refl)
At-sep (d ∷ ds) names (at_name ne e) = rw e (rw (spine-no_sep names.0 ds) refl)

long_spine : {d : Bytes} (ds : List Bytes) → IsName d → ltb 1 (length (spine (d ∷ ds))) ≡ true
long_spine {d} ds name = ground (arith, length-spine d ds, length-pos d name.not_empty)

long_sep_spine :
    {d : Bytes} (ds : List Bytes) → IsName d → ltb 1 (suc (length (spine (d ∷ ds)))) ≡ true
long_sep_spine {d} ds name = ground (arith, length-spine d ds, length-pos d name.not_empty)

At-up :
    (ds : List Bytes) {dst : Bytes}
    → All IsName ds
    → At ds dst
    → At (parent ds) (if ltb 1 (length dst) then back_up dst else dst)
unfolding parent
At-up [] names (at_sep e) = at_sep (rw e (unfold spine in refl))
At-up (d ∷ ds) names (at_sep e) =
    at_sep (rw e (rw (long_sep_spine ds names.0) (back_up-sep-spine names.0 ds)))
At-up [] names (at_name ne e) = absurd (ne refl)
At-up (d ∷ ds) names (at_name ne e) =
    at_sep (rw e (rw (long_spine ds names.0) (back_up-spine names.0 ds)))

parent-shorter : (ds : List Bytes) → length (spine (parent ds)) ≤ length (spine ds)
unfolding parent
parent-shorter [] = omega arith
parent-shorter (d ∷ ds) = omega (arith, length-spine d ds)

parent_fits :
    (ds : List Bytes) → length (spine ds) < ftp_max_path → length (spine (parent ds)) < ftp_max_path
parent_fits ds h = omega (arith, parent-shorter ds)

parent-names : (ds : List Bytes) → All IsName ds → All IsName (parent ds)
unfolding parent
parent-names [] h = tt
parent-names (d ∷ ds) h = h.1

-- One directory of the path.
pub take_dir-Agrees :
    (ds : List Bytes) (dst d : Bytes)
    → d ≢ []
    → NoSep d
    → At ds dst
    → All IsName ds
    → length (spine ds) < ftp_max_path
    → Agrees (step ds d) (take_dir dst d)
unfolding step take_dir
take_dir-Agrees ds dst d ne ns at names fits = elim (Bool-cases (is_dot d)) [
  | inl dot ↦ rw dot (at, names, fits)
  | inr dot ↦ elim (Bool-cases (is_dot_dot d)) [
    | inl up ↦ rw (dot, up) (At-up ds names at, parent-names ds names, parent_fits ds fits)
    | inr up ↦
        rw (dot, up)
          (push-Agrees ds dst d
            (record { not_empty = ne; no_sep = ns; not_dot = dot; not_dot_dot = up }) names
            (At-sep ds names at))
  ]
]

-- What is left when the path has ended.
pub drop_last_sep-path_of :
    (ds : List Bytes) {dst : Bytes}
    → At ds dst
    → All IsName ds
    → reverse (drop_last_sep dst) ≡ path_of ds
unfolding drop_last_sep path_of
drop_last_sep-path_of [] (at_sep e) names = rw e (unfold spine in refl)
drop_last_sep-path_of (d ∷ ds) (at_sep e) names = rw e (rw (long_sep_spine ds names.0))
drop_last_sep-path_of [] (at_name ne e) names = absurd (ne refl)
drop_last_sep-path_of (d ∷ ds) (at_name ne e) names =
    rw e (rw (long_spine ds names.0, spine-no_sep names.0 ds))
