-- ===== src/Master/Entries.antt =====
-- child.c: clients come to the list and leave it.
use mathlib.Core.Path.{subst}
use ftp_server.Prelude.{
  ℕ, ◌≡◌, ◌≢◌, refl, sym, ap, ◌∙◌, Bool, true, false, List, [], ◌∷◌, Option, none, some, ◌==◌,
  if◌then◌else◌, arith, All,
}
use ftp_server.Master.Children.{Child, add_client, keep_first, remove_client, find_client}

-- No two clients have one pid.
abbrev pub Distinct : List Child → Type 0
Distinct [] = Unit
Distinct (c ∷ cs) = All (λ d. d.pid ≢ c.pid) cs × Distinct cs

-- The list without one client.
pub record IsWithout (list left : List Child) (pid : ℕ) : Type 0 where
  pub gone : find_client left pid ≡ none
  pub others : (q : ℕ) → q ≢ pid → find_client left q ≡ find_client list q
  pub distinct : Distinct left
  pub fewer : (p : ℕ) → All (λ d. d.pid ≢ p) list → All (λ d. d.pid ≢ p) left

differs : (a b : ℕ) → a ≢ b → (a == b) ≡ false
differs a b n = ground arith

no_client : (cs : List Child) (pid : ℕ) → All (λ d. d.pid ≢ pid) cs → find_client cs pid ≡ none
unfolding find_client
no_client [] pid a = refl
no_client (c ∷ cs) pid a =
    let other : (c.pid == pid) ≡ false = differs c.pid pid a.0 in rw (other) (no_client cs pid a.1)

IsWithout-if :
    (b : Bool) (c : Child) (cs left : List Child) (o : Option (List Child)) (pid : ℕ)
    → (c.pid == pid) ≡ b
    → Distinct (c ∷ cs)
    → ((l : List Child) → o ≡ some l → IsWithout cs l pid)
    → (if b then some cs else keep_first c o) ≡ some left
    → IsWithout (c ∷ cs) left pid
unfolding find_client
IsWithout-if true c cs left o pid e d k q =
    let same : cs ≡ left = cc in
    let here : c.pid ≡ pid = ground arith in
    subst (λ l. IsWithout (c ∷ cs) l pid) same
      (record {
        gone = no_client cs pid (subst (λ p. All (λ x. x.pid ≢ p) cs) here d.0);
        others = λ p n. rw (differs c.pid p (λ r. n (sym r ∙ here)));
        distinct = d.1;
        fewer = λ p a. a.1;
      })
IsWithout-if false c cs left none pid e d k q = cc
IsWithout-if false c cs left (some l) pid e d k q =
    let same : c ∷ l ≡ left = cc in
    let rec = k l refl in
    subst (λ x. IsWithout (c ∷ cs) x pid) same
      (record {
        gone = rw (e) rec.gone;
        others = λ p n. ap (λ x. if c.pid == p then some c else x) (rec.others p n);
        distinct = (rec.fewer c.pid d.0, rec.distinct);
        fewer = λ p a. (a.0, rec.fewer p a.1);
      })

-- Where no two clients have one pid, the removal of a pid takes that client from the list, leaves the
-- entry of each other pid as it was, and still no two clients have one pid.
pub remove_client-IsWithout :
    (list left : List Child) (pid : ℕ)
    → Distinct list
    → remove_client list pid ≡ some left
    → IsWithout list left pid
unfolding remove_client
remove_client-IsWithout [] left pid d e = cc
remove_client-IsWithout (c ∷ cs) left pid d e =
    IsWithout-if (c.pid == pid) c cs left (remove_client cs pid) pid refl d
      (λ l. remove_client-IsWithout cs l pid d.1) e

-- The list with one more client.
pub record IsWith (head list : List Child) (new : Child) : Type 0 where
  pub there : find_client list new.pid ≡ some new
  pub others : (q : ℕ) → q ≢ new.pid → find_client list q ≡ find_client head q
  pub distinct : Distinct list
  pub more : (p : ℕ) → new.pid ≢ p → All (λ d. d.pid ≢ p) head → All (λ d. d.pid ≢ p) list

-- A client whose pid is new to a list without doubles is found in it afterwards, the entry of each
-- other pid is as it was, and the list has no doubles.
pub add_client-IsWith :
    (head : List Child) (new : Child)
    → Distinct head
    → All (λ d. d.pid ≢ new.pid) head
    → IsWith head (add_client head new) new
unfolding add_client find_client
add_client-IsWith [] new d a =
    let own : (new.pid == new.pid) ≡ true = ground arith in
    record {
      there = rw (own);
      others = λ q n. rw (differs new.pid q (λ r. n (sym r)));
      distinct = (tt, tt);
      more = λ p n u. (n, tt);
    }
add_client-IsWith (c ∷ cs) new d a =
    let rec = add_client-IsWith cs new d.1 a.1 in
    record {
      there = rw (differs c.pid new.pid a.0) rec.there;
      others = λ q n. ap (λ x. if c.pid == q then some c else x) (rec.others q n);
      distinct = (rec.more c.pid (λ r. a.0 (sym r)) d.0, rec.distinct);
      more = λ p n u. (u.0, rec.more p n u.1);
    }
