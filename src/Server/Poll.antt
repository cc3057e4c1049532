-- ===== src/Server/Poll.antt =====
-- server.c: `read_poll`, and what `read_cmd` takes it for.
use mathlib.Core.Path.{subst}
use ftp_server.Prelude.{
  ℕ, suc, ◌≡◌, refl, ap, ◌∙◌, Bool, true, false, ◌&&◌, List, [], ◌∷◌, ◌++◌, ◌==◌, if◌then◌else◌,
  length, Bytes,
}
use ftp_server.Machine.Types.{Answer, good, bad}
use ftp_server.Machine.Errno.{eintr, econnreset}
use ftp_server.Server.Buffer.{Received, received, gone, interrupted, broken, commands_of}
use ftp_server.Server.Framing.{stream}
use ftp_server.Server.Framing.Whole.{IsFraming, commands_of-stream}

-- What poll finds: no byte in the time of a silent client, an error, or something to read.
pub data PollAnswer : Type 0 where
  timed_out readable : PollAnswer
  poll_failed : ℕ → PollAnswer

-- The answers that a call of `read_poll` gets: of poll, of recv, of `server_handle_signal` in it, which
-- is FTP_QUIT or not, and of the one in `read_cmd` behind it.
pub record Reading : Type 0 where
  pub polled : PollAnswer
  pub recv : Answer Bytes
  pub quits : Bool
  pub quits_later : Bool

-- The bytes that are read, none for 0; or -1, with errno.
unfoldable pub recv_failed : Bool → ℕ → Answer Bytes
recv_failed quits e =
    if e == eintr && quits then good [] else if e == econnreset then good [] else bad e

unfoldable pub poll_broken : Bool → ℕ → Answer Bytes
poll_broken quits e = if e == eintr && quits then good [] else bad e

unfoldable pub received_by : Bool → Answer Bytes → Answer Bytes
unfolding recv_failed
received_by quits (good bytes) = good bytes
received_by quits (bad e) = recv_failed quits e

unfoldable pub read_poll : Reading → Answer Bytes
unfolding poll_broken received_by
read_poll r = elim r.polled [
  | timed_out ↦ good []
  | poll_failed e ↦ poll_broken r.quits e
  | readable ↦ received_by r.quits r.recv
]

-- The cases of `read_cmd` on the result.
unfoldable pub outcome_of : Bool → Answer Bytes → Received
outcome_of quits (good []) = gone
outcome_of quits (good (b ∷ bytes)) = received (b ∷ bytes)
outcome_of quits (bad e) = if e == eintr then interrupted quits else broken

unfoldable pub outcomes : List Reading → List Received
unfolding outcome_of read_poll
outcomes [] = []
outcomes (r ∷ rs) = outcome_of r.quits_later (read_poll r) ∷ outcomes rs

-- The bytes that recv gives.
abbrev pub given_by : Reading → Bytes
given_by r = elim r.polled [ readable ↦ elim r.recv [ good bytes ↦ bytes | bad e ↦ [] ] | _ ↦ [] ]

abbrev pub given : List Reading → Bytes
given [] = []
given (r ∷ rs) = given_by r ++ given rs

-- The bytes of an outcome.
abbrev adds : Received → Bytes
adds (received bytes) = bytes
adds _ = []

stream-adds : (x : Received) (xs : List Received) → stream (x ∷ xs) ≡ adds x ++ stream xs
stream-adds (received bytes) xs = refl
stream-adds gone xs = refl
stream-adds (interrupted q) xs = refl
stream-adds broken xs = refl

module _ (later : Bool) where
  abbrev Adds : Answer Bytes → Bytes → Type 0
  Adds a bytes = adds (outcome_of later a) ≡ bytes

  good-Adds : (bytes : Bytes) → Adds (good bytes) bytes
  unfolding outcome_of
  good-Adds [] = refl
  good-Adds (b ∷ bytes) = refl

  either : (b : Bool) → adds (if b then interrupted later else broken) ≡ []
  either true = refl
  either false = refl

  bad-Adds : (e : ℕ) → Adds (bad e) []
  unfolding outcome_of
  bad-Adds e = either (e == eintr)

  if_nothing :
      (b : Bool) (x y : Answer Bytes) → Adds x [] → Adds y [] → Adds (if b then x else y) []
  if_nothing true x y p q = p
  if_nothing false x y p q = q

  received_by-Adds :
      (quits : Bool) (a : Answer Bytes)
      → Adds (received_by quits a) (elim a [ good bytes ↦ bytes | bad e ↦ [] ])
  unfolding received_by recv_failed
  received_by-Adds quits (good bytes) = good-Adds bytes
  received_by-Adds quits (bad e) =
      if_nothing (e == eintr && quits) _ _ (good-Adds [])
        (if_nothing (e == econnreset) _ _ (good-Adds []) (bad-Adds e))

  read_poll-Adds : (p : PollAnswer) (r : Reading) → r.polled ≡ p → Adds (read_poll r) (given_by r)
  unfolding read_poll poll_broken
  read_poll-Adds timed_out r e = rw (e) (good-Adds [])
  read_poll-Adds readable r e = rw (e) (received_by-Adds r.quits r.recv)
  read_poll-Adds (poll_failed x) r e =
      rw (e) (if_nothing (x == eintr && r.quits) _ _ (good-Adds []) (bad-Adds x))

stream-outcomes : (rs : List Reading) → stream (outcomes rs) ≡ given rs
unfolding outcomes
stream-outcomes [] = refl
stream-outcomes (r ∷ rs) =
    stream-adds (outcome_of r.quits_later (read_poll r)) (outcomes rs)
    ∙ ap (λ b. b ++ stream (outcomes rs)) (read_poll-Adds r.quits_later r.polled r refl)
    ∙ ap (λ b. given_by r ++ b) (stream-outcomes rs)

-- Whatever poll, recv and the signals answer, `read_poll` loses no byte and adds none: what `read_cmd` is
-- given is, in its order, what recv gave. The commands that the loop runs are the lines of these
-- bytes, parsed, in their order and without a gap, and all of them if it waits for the client.
pub read_poll-IsFraming :
    (line_len : ℕ) (rs : List Reading)
    → (stream (outcomes rs) ≡ given rs)
      × IsFraming (given rs) (
          commands_of
            (suc (length (given rs)))
            (outcomes rs)
            (record { line = []; line_len = line_len }))
read_poll-IsFraming line_len rs = (
  stream-outcomes rs,
  subst
      (λ text.
        IsFraming text (
          commands_of (suc (length text)) (outcomes rs)
            (record { line = []; line_len = line_len })))
      (stream-outcomes rs) (commands_of-stream line_len (outcomes rs)),
)
