-- ===== src/Router/Transfer.antt =====
-- A whole transfer, however the network cuts it into pieces.
use com_ipc.Common.{
  ℕ, zero, suc, ◌+◌, ◌-◌, ◌≤◌, ◌<◌, ◌≡◌, refl, sym, ap, List, [], ◌∷◌, ◌++◌, true, false, ◌==◌,
  length, take, drop, arith, take-append-drop, length-drop, length-take,
}
use com_ipc.Router.{Round, Sent, Received, returned, send_all, recv_all}

-- The gateway runs, and every call moves something.
abbrev pub AreLive : List Round → Type 0
AreLive [] = Unit {0}
AreLive (r ∷ rounds) = (r.running ≡ true) × (0 < r.chunk) × AreLive rounds

-- The rounds after a transfer of `n` bytes: still live, and no more than `n` fewer.
abbrev pub Left : (n : ℕ) → (before after : List Round) → Type 0
Left n before after = AreLive after × (length before ≤ length after + n)

abbrev pub sent_whole : List ℕ → List Round → Sent
sent_whole bytes left = record { stream = bytes; outcome = returned true; rounds = left }

take-nil : (n : ℕ) → take {A = ℕ} n [] ≡ []
take-nil zero = refl
take-nil (suc n) = refl

-- `send_all` puts exactly the bytes into the stream and returns true, in whatever pieces `send` takes
-- them, within as many calls as there are bytes.
pub send_all_whole :
    (rounds : List Round) (bytes : List ℕ)
    → AreLive rounds
    → length bytes ≤ length rounds
    → (left : List Round) × Left (length bytes) rounds left
      × (send_all rounds bytes ≡ sent_whole bytes left)
unfolding send_all
send_all_whole [] [] v fuel = ([], (tt, omega arith), refl)
send_all_whole [] (b ∷ bs) v fuel = absurd (omega arith)
send_all_whole (r ∷ rounds) [] v fuel = (r ∷ rounds, (v, omega arith), refl)
send_all_whole (r ∷ rounds) (b ∷ bs) v fuel =
    let n = length-drop r.chunk (b ∷ bs) in
    let (left, (live, few), rest) =
      send_all_whole rounds (drop r.chunk (b ∷ bs)) v.2 (omega (arith, v.1, n)) in
    let some_sent : (r.chunk == 0) ≡ false = ground (arith, v.1) in
    (
      left,
      (live, omega (arith, v.1, n)),
      rw (v.0, some_sent, rest)
          (ap (λ (l : List ℕ). sent_whole l left) (take-append-drop r.chunk (b ∷ bs))),
    )

-- What `recv` gives of a message that more bytes follow.
take-take_append :
    (c : ℕ) (bytes tail : List ℕ) → take (length bytes) (take c (bytes ++ tail)) ≡ take c bytes
take-take_append zero [] tail = refl
take-take_append (suc c) [] tail = refl
take-take_append zero (b ∷ bytes) tail = refl
take-take_append (suc c) (b ∷ bytes) tail = ap (λ l. b ∷ l) (take-take_append c bytes tail)

drop-take_append :
    (c : ℕ) (bytes tail : List ℕ)
    → drop (length (take c bytes)) (bytes ++ tail) ≡ drop c bytes ++ tail
drop-take_append zero bytes tail = refl
drop-take_append (suc c) [] tail = refl
drop-take_append (suc c) (b ∷ bytes) tail = drop-take_append c bytes tail

length-take_missing :
    (c : ℕ) (bytes : List ℕ) → length bytes - length (take c bytes) ≡ length (drop c bytes)
length-take_missing zero bytes = omega arith
length-take_missing (suc c) [] = refl
length-take_missing (suc c) (b ∷ bytes) = omega (arith, length-take_missing c bytes)

abbrev pub received_whole : List ℕ → List Round → List ℕ → Received
received_whole bytes left inbox = record {
  stored = bytes;
  outcome = returned true;
  rounds = left;
  inbox = inbox;
}

-- `recv_all` stores exactly the bytes that were asked for, in whatever pieces `recv` gives them, and
-- leaves the bytes behind them.
pub recv_all_whole :
    (rounds : List Round) (bytes tail : List ℕ)
    → AreLive rounds
    → length bytes ≤ length rounds
    → (left : List Round) × Left (length bytes) rounds left
      × (recv_all rounds (bytes ++ tail) (length bytes) ≡ received_whole bytes left tail)
unfolding recv_all
recv_all_whole [] [] tail v fuel = ([], (tt, omega arith), refl)
recv_all_whole [] (b ∷ bs) tail v fuel = absurd (omega arith)
recv_all_whole (r ∷ rounds) [] tail v fuel = (r ∷ rounds, (v, omega arith), refl)
recv_all_whole (r ∷ rounds) (b ∷ bs) tail v fuel =
    let n = length-drop r.chunk (b ∷ bs) in
    let (left, (live, few), rest) =
      recv_all_whole rounds (drop r.chunk (b ∷ bs)) tail v.2 (omega (arith, v.1, n)) in
    let got = take-take_append r.chunk (b ∷ bs) tail in
    let some_got : (length (take r.chunk (b ∷ bs)) == 0) ≡ false =
      ground (arith, v.1, length-take r.chunk (b ∷ bs)) in
    let some_missing : (length (b ∷ bs) == 0) ≡ false = ground arith in
    (
      left,
      (live, omega (arith, v.1, n)),
      rw
          (
            some_missing,
            v.0,
            got,
            some_got,
            drop-take_append r.chunk (b ∷ bs) tail,
            length-take_missing r.chunk (b ∷ bs),
            rest,
          )
          (ap (λ (l : List ℕ). received_whole l left tail) (take-append-drop r.chunk (b ∷ bs))),
    )

-- At the end of the stream `recv_all` fails.
pub recv_all_closed :
    (r : Round) (rounds : List Round) (size : ℕ)
    → r.running ≡ true
    → recv_all (r ∷ rounds) [] (suc size)
      ≡ (record { stored = []; outcome = returned false; rounds = rounds; inbox = [] })
unfolding recv_all
recv_all_closed r rounds size v =
    let none_left = take-nil r.chunk in rw (v, none_left) (ground arith)

-- `recv_all_whole` for a size that is known otherwise.
pub recv_all_exact :
    (rounds : List Round) (bytes tail : List ℕ) (size : ℕ)
    → length bytes ≡ size
    → AreLive rounds
    → size ≤ length rounds
    → (left : List Round) × Left size rounds left
      × (recv_all rounds (bytes ++ tail) size ≡ received_whole bytes left tail)
recv_all_exact rounds bytes tail size e v fuel =
    let (left, (live, few), same) = recv_all_whole rounds bytes tail v (omega (arith, e)) in
    (left, (live, omega (arith, e)), rw (sym e) same)

-- A transfer from end to end: what `send_all` puts into the stream, in whatever pieces, is what
-- `recv_all` stores, in whatever pieces the network delivers it and whatever follows it, and both
-- return true, if both ends keep running, no call fails, and there are as many calls on either side
-- as bytes.
pub recv_all-send_all :
    (sends receives : List Round) (bytes tail : List ℕ)
    → AreLive sends
    → AreLive receives
    → length bytes ≤ length sends
    → length bytes ≤ length receives
    → let sent = send_all sends bytes in
      let received = recv_all receives (sent.stream ++ tail) (length bytes) in
      (sent.outcome ≡ returned true)
      × (received.outcome ≡ returned true)
      × (received.stored ≡ bytes)
      × (received.inbox ≡ tail)
recv_all-send_all sends receives bytes tail v w m n =
    let (_, _, s) = send_all_whole sends bytes v m in
    let (_, _, r) = recv_all_whole receives bytes tail w n in rw (s, r) (refl, refl, refl, refl)
