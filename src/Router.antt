-- ===== src/Router.antt =====
-- The TCP transport of the gateway: send_all and recv_all of tools/com_router.cpp. A round of a loop
-- is what `running` reads and how much one call of `send` or `recv` moves at most; where the rounds
-- end, the loop is still blocked in a call. The rounds that are left serve the next call.
pub mod Transfer
pub mod Gateway
pub mod Import
pub mod Guard
pub mod Peers
pub mod Sockets
pub mod Descriptors
use com_ipc.Common.{
  ℕ, List, [], ◌∷◌, ◌++◌, Bool, true, false, not, if◌then◌else◌, ◌==◌, length, take, drop, ◌-◌,
}

-- How a transfer is left.
pub data Outcome : Type 0 where
  returned : Bool → Outcome
  blocked : Outcome

-- A call of `send` or `recv`: the most bytes that it moves, 0 for a failure.
pub record Round : Type 0 where
  pub running : Bool
  pub chunk : ℕ

-- What went into the stream, how the transfer is left, and the rounds that are left.
pub record Sent : Type 0 where
  pub stream : List ℕ
  pub outcome : Outcome
  pub rounds : List Round

-- `send_all` of the bytes that are left. A loop that is stopped by `running` returns true.
unfoldable pub send_all : List Round → List ℕ → Sent
send_all rounds [] = record { stream = []; outcome = returned true; rounds = rounds }
send_all [] (b ∷ bs) = record { stream = []; outcome = blocked; rounds = [] }
send_all (r ∷ rounds) (b ∷ bs) =
    let rest = send_all rounds (drop r.chunk (b ∷ bs)) in
    if not r.running
    then record { stream = []; outcome = returned true; rounds = rounds }
    else if r.chunk == 0
    then record { stream = []; outcome = returned false; rounds = rounds }
    else record rest { stream = take r.chunk (b ∷ bs) ++ rest.stream }

-- What was stored, how the transfer is left, and the rounds and the bytes of the peer that are left.
pub record Received : Type 0 where
  pub stored : List ℕ
  pub outcome : Outcome
  pub rounds : List Round
  pub inbox : List ℕ

-- `recv_all` of the `size` bytes that are missing, from a peer that has sent the bytes of `inbox` and
-- closes then: `recv` gives 0 at the end.
unfoldable pub recv_all : List Round → (inbox : List ℕ) → (size : ℕ) → Received
recv_all [] inbox size = record {
  stored = [];
  outcome = if size == 0 then returned true else blocked;
  rounds = [];
  inbox = inbox;
}
recv_all (r ∷ rounds) inbox size =
    let got = take size (take r.chunk inbox) in
    let rest = recv_all rounds (drop (length got) inbox) (size - length got) in
    if size == 0
    then record { stored = []; outcome = returned true; rounds = r ∷ rounds; inbox = inbox }
    else if not r.running
    then record { stored = []; outcome = returned true; rounds = rounds; inbox = inbox }
    else if length got == 0
    then record { stored = []; outcome = returned false; rounds = rounds; inbox = inbox }
    else record rest { stored = got ++ rest.stored }
