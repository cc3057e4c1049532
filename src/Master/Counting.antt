-- ===== src/Master/Counting.antt =====
-- child.c: the number of clients.
use ftp_server.Prelude.{
  ℕ, suc, ◌≡◌, refl, ap, ◌∙◌, Bool, true, false, List, [], ◌∷◌, Option, none, some, ◌==◌,
  if◌then◌else◌, arith,
}
use ftp_server.Master.Children.{
  Child, add_client, keep_first, remove_client, count_clients, at_client,
}

pub count-add_client :
    (head : List Child) (new : Child)
    → count_clients (add_client head new) ≡ suc (count_clients head)
unfolding count_clients add_client
count-add_client [] new = refl
count-add_client (c ∷ cs) new = ap suc (count-add_client cs new)

pub count-at_client :
    (head : List Child) (pid : ℕ) (f : Child → Child)
    → count_clients (at_client head pid f) ≡ count_clients head
unfolding count_clients at_client
count-at_client [] pid f = refl
count-at_client (c ∷ cs) pid f = ground (arith, count-at_client cs pid f)

removed_if :
    (b : Bool) (c : Child) (cs left : List Child) (o : Option (List Child))
    → ((l : List Child) → o ≡ some l → count_clients cs ≡ suc (count_clients l))
    → (if b then some cs else keep_first c o) ≡ some left
    → count_clients (c ∷ cs) ≡ suc (count_clients left)
unfolding count_clients
removed_if true c cs left o k e = let same : cs ≡ left = cc in ap (λ l. suc (count_clients l)) same
removed_if false c cs left none k e = cc
removed_if false c cs left (some l) k e =
    let same : c ∷ l ≡ left = cc in ap suc (k l refl) ∙ ap (λ l. suc (count_clients l)) same

-- One child fewer.
pub count-remove_client :
    (list left : List Child) (pid : ℕ)
    → remove_client list pid ≡ some left
    → count_clients list ≡ suc (count_clients left)
unfolding remove_client
count-remove_client [] left pid e = cc
count-remove_client (c ∷ cs) left pid e =
    removed_if (c.pid == pid) c cs left (remove_client cs pid) (λ l. count-remove_client cs l pid) e
