-- ===== src/Router/Gateway.antt =====
-- The gateway: the loops of do_export and do_import of tools/com_router.cpp behind the set-up of
-- their sockets. The encoder of MessagePack is a parameter, and gives fewer than 2 ^ 32 bytes.
use com_ipc.Common.{
  ℕ, ◌+◌, ◌-◌, ◌%◌, ◌^◌, List, [], ◌∷◌, ◌++◌, Bool, true, false, Option, some, none, Error, ok,
  throw, if◌then◌else◌, ◌==◌, length, replicate,
}
use com_ipc.Common.Int.{pos}
use com_ipc.Common.Bytes.{le_bytes, of_le}
use com_ipc.CString.{same_chars}
use com_ipc.Types.{msg_custom}
use com_ipc.Pool.{Pool, read, write}
use com_ipc.Topic.{Shm, Call, loan_raw, publish_loaned}
use com_ipc.Subscriber
use com_ipc.Subscriber.{Subscriber, Scene, Reply, LoanedMessage, receive_loaned, done, failed}
use com_ipc.Router.{Round, Sent, Received, returned, blocked, send_all, recv_all}

abbrev pub export_magic : List ℕ
export_magic = b'H' ∷ b'Y' ∷ b'B' ∷ b'R' ∷ []

abbrev pub import_magic : List ℕ
import_magic = b'C' ∷ b'I' ∷ b'P' ∷ b'C' ∷ []

-- The five parts of a frame, each a call of `send_all`.
abbrev pub frame_parts : (meta payload : List ℕ) → List (List ℕ)
frame_parts meta payload =
    export_magic ∷ le_bytes 4 (length meta) ∷ le_bytes 4 (length payload) ∷ meta ∷ payload ∷ []

-- `if (!send_all(…)) break`, before the rest of the parts.
abbrev pub then_parts : (List Round → Sent) → Sent → Sent
then_parts rest s =
    let t = rest s.rounds in
    elim s.outcome [
      | returned true ↦ record t { stream = s.stream ++ t.stream }
      | returned false ↦ s
      | blocked ↦ s
    ]

unfoldable pub send_parts : List (List ℕ) → List Round → Sent
send_parts [] rounds = record { stream = []; outcome = returned true; rounds = rounds }
send_parts (part ∷ parts) rounds = then_parts (send_parts parts) (send_all rounds part)

-- `json::to_msgpack` of the topic, the number, the time and the size.
abbrev pub ToMsgpack : Type 0
ToMsgpack = (topic : List ℕ) (seq timestamp payload_size : ℕ) → List ℕ

-- What a round of exporting finds.
pub record ExportRound : Type 0 where
  pub running : Bool
  pub scene : Scene
  pub now : ℕ

-- How a loop is left: by `running`, by a call that failed, by an exception, or not yet. A loop that
-- goes on with a variable that nothing was read into has no specified end.
pub data Stop : Type 0 where
  stopped : Stop
  failed_call : Stop
  threw : Error → Stop
  in_call : Stop
  unspecified : Stop

abbrev pub after_send : (List Round → List ℕ × Stop) → Sent → List ℕ × Stop
after_send rest s =
    let (stream, stop) = rest s.rounds in
    elim s.outcome [
      | returned true ↦ (s.stream ++ stream, stop)
      | returned false ↦ (s.stream, failed_call)
      | blocked ↦ (s.stream, in_call)
    ]

module _ (to_msgpack : ToMsgpack) (topic : List ℕ) where
  -- What a round sends for the outcome of `receiveLoaned`, before the rest of the loop.
  abbrev pub export_received :
      (count now : ℕ)
      → Pool
      → List Round
      → (Subscriber → ℕ → List Round → List ℕ × Stop)
      → Reply (Subscriber × Option LoanedMessage)
      → List ℕ × Stop
  export_received count now pool rounds rest (done (sub, some m)) =
      after_send (rest sub (count + 1)) (
        send_parts
          (frame_parts (to_msgpack topic count now m.size) (read m.pointer (m.size % 2 ^ 32) pool))
          rounds)
  export_received count now pool rounds rest (done (sub, none)) = rest sub count rounds
  export_received count now pool rounds rest (failed e) = ([], threw e)
  export_received count now pool rounds rest Subscriber.blocked = ([], in_call)

  -- The loop of `do_export`: what goes into the stream, and how it is left.
  unfoldable pub export_loop :
      List ExportRound → Subscriber → (count : ℕ) → List Round → List ℕ × Stop
  export_loop [] sub count rounds = ([], in_call)
  export_loop (r ∷ rs) sub count rounds =
      if r.running
      then export_received count r.now r.scene.pool rounds (export_loop rs)
          (receive_loaned sub (pos 1000) r.scene)
      else ([], stopped)

-- What a round of importing finds.
pub record ImportRound : Type 0 where
  pub running : Bool
  pub call : Call

-- The payload goes straight into the loaned block, and the block is published unless `recv_all`
-- fails.
unfoldable pub import_payload :
    Call → (size ptr : ℕ) → (List Round → List ℕ → Shm → Stop × Shm) → Received → Shm → Stop × Shm
import_payload c size ptr rest got loaned =
    let filled = record loaned { pool = write ptr got.stored loaned.pool } in
    let (r, s) = publish_loaned c ptr size msg_custom filled in
    elim got.outcome [
      | returned false ↦ (failed_call, filled)
      | blocked ↦ (in_call, filled)
      | returned true ↦ (elim r [ throw e ↦ (threw e, s) | ok _ ↦ rest got.rounds got.inbox s ])
    ]

-- A frame of `size` bytes.
unfoldable pub import_frame :
    Call
    → (size : ℕ) → (List Round → List ℕ → Shm → Stop × Shm)
    → List Round
    → List ℕ
    → Shm
    → Stop × Shm
import_frame c size rest rounds inbox s =
    let (r, loaned) = loan_raw c size s in
    elim r [
      | throw e ↦ (threw e, loaned)
      | ok ptr ↦ import_payload c size ptr rest (recv_all rounds inbox size) loaned
    ]

-- The `size_t` in front of a frame.
unfoldable pub import_size :
    Call → (List Round → List ℕ → Shm → Stop × Shm) → Received → Shm → Stop × Shm
import_size c rest got s = elim got.outcome [
  | returned false ↦ (failed_call, s)
  | blocked ↦ (in_call, s)
  | returned true ↦
      (if length got.stored == 8
        then import_frame c (of_le got.stored) rest got.rounds got.inbox s
        else (unspecified, s))
]

-- The loop of `do_import`.
unfoldable pub import_loop : List ImportRound → List Round → List ℕ → Shm → Stop × Shm
import_loop [] rounds inbox s = (in_call, s)
import_loop (r ∷ rs) rounds inbox s =
    if r.running
    then import_size r.call (import_loop rs) (recv_all rounds inbox 8) s
    else (stopped, s)

-- `do_import` refuses the peer, is left before the loop, or imports a topic.
pub data Import : Type 0 where
  invalid_magic : Import
  no_topic : Stop → Import
  importing : (topic : List ℕ) → Stop × Shm → Import

-- The topic's name of `size` bytes: what was not received of it stays zero.
abbrev pub after_name : List ImportRound → (size : ℕ) → Received → Shm → Import
after_name rs size name s = elim name.outcome [
  | returned _ ↦
      importing (name.stored ++ replicate (size - length name.stored) 0)
        (import_loop rs name.rounds name.inbox s)
  | blocked ↦ no_topic in_call
]

-- The `size_t` in front of it; `do_import` does not look at what the two calls of `recv_all` return.
unfoldable pub after_length : List ImportRound → Received → Shm → Import
after_length rs n s =
    if length n.stored == 8
    then after_name rs (of_le n.stored) (recv_all n.rounds n.inbox (of_le n.stored)) s
    else elim n.outcome [ returned _ ↦ no_topic unspecified | blocked ↦ no_topic in_call ]

unfoldable pub after_magic : List ImportRound → Received → Shm → Import
after_magic rs magic s =
    let rest = after_length rs (recv_all magic.rounds magic.inbox 8) s in
    elim magic.outcome [
      | returned false ↦ invalid_magic
      | blocked ↦ no_topic in_call
      | returned true ↦
          (if length magic.stored == 4
            then (if same_chars 4 magic.stored import_magic then rest else invalid_magic)
            else no_topic unspecified)
    ]

-- `do_import` from a client that sends the bytes of `inbox`, with the publisher's shared memory.
unfoldable pub do_import : List ImportRound → List Round → (inbox : List ℕ) → Shm → Import
do_import rs rounds inbox s = after_magic rs (recv_all rounds inbox 4) s
