-- ===== src/Action.antt =====
-- Actions: inc/action_client.h, src/action_client.cpp, inc/action_server.h and src/action_server.cpp
-- on the topics and the service that they are built from. A goal id is the bit pattern of its `int`;
-- the client's counter does not reach its end. Of a received header, `bytes` are the bytes of `data`
-- that were received; the rest of `data` is not specified.
pub mod Opening
pub mod Map
pub mod Server
pub mod Laws
pub mod Wire
pub mod Delivery
pub mod Waiting
use com_ipc.Common.{
  ℕ, zero, suc, ◌+◌, ◌-◌, ◌^◌, List, [], ◌∷◌, ◌++◌, Bool, true, false, not, ◌&&◌, Option, none,
  some, Result, ok, throw, if◌then◌else◌, leb, ◌==◌, length, take, drop,
}
use com_ipc.Common.Int.{ℤ, pos}
use com_ipc.Common.Bytes.{le_bytes, of_le}
use com_ipc.Types.{max_msg_size, msg_custom}
use com_ipc.Types.{ServiceShm}
use com_ipc.Service
use com_ipc.Service.{ServiceClient, CallEnd, replied}
use com_ipc.Topic.{Shm, Call, publish_raw}
use com_ipc.Subscriber.{
  Subscriber, Frame, Scene, Round, receive_raw, receive_size, done, failed, blocked,
}
use com_ipc.Action.Map.{lookup, put, erase, member, insert, remove}

-- `sizeof(ActionGoalHeader) - MAX_MSG_SIZE`
abbrev pub goal_fixed : ℕ
goal_fixed = 16

-- The same of the two headers that carry a status.
abbrev pub report_fixed : ℕ
report_fixed = 20

-- `ActionGoalHeader`, packed, with its payload.
unfoldable pub goal_packet : (id now : ℕ) → List ℕ → List ℕ
goal_packet id now bytes = le_bytes 4 id ++ (le_bytes 8 now ++ (le_bytes 4 (length bytes) ++ bytes))

-- `ActionFeedbackHeader` and `ActionResultHeader`, which have the same fields.
pub record Report : Type 0 where
  pub goal_id : ℕ
  pub status : ℕ
  pub timestamp : ℕ
  pub data_size : ℕ
  pub bytes : List ℕ

unfoldable pub report_packet : (id status now : ℕ) → List ℕ → List ℕ
report_packet id status now bytes =
    le_bytes 4 id ++ (le_bytes 4 status ++ (le_bytes 8 now ++ (le_bytes 4 (length bytes) ++ bytes)))

-- The header at the start of a message.
unfoldable pub read_report : List ℕ → Report
read_report bs = record {
  goal_id = of_le (take 4 bs);
  status = of_le (take 4 (drop 4 bs));
  timestamp = of_le (take 8 (drop 4 (drop 4 bs)));
  data_size = of_le (take 4 (drop 8 (drop 4 (drop 4 bs))));
  bytes = drop 4 (drop 8 (drop 4 (drop 4 bs)));
}

-- `ActionClient`
pub record ActionClient : Type 0 where
  pub next_goal_id : ℕ
  pub pending_goals : List ℕ
  pub results : List (ℕ × Report)
  pub feedbacks : List (ℕ × Report)

-- `sendGoal`; `none` is -1.
unfoldable pub send_goal :
    Call → List ℕ → ActionClient → Shm → Result (Option ℕ) × ActionClient × Shm
send_goal c bytes client s =
    let id = client.next_goal_id in
    let numbered = record client { next_goal_id = id + 1 } in
    let (r, s') = publish_raw c (goal_packet id c.now bytes) msg_custom s in
    elim r [
      | throw e ↦ (throw e, numbered, s')
      | ok false ↦ (ok none, numbered, s')
      | ok true ↦
          (ok (some id), record numbered { pending_goals = insert id client.pending_goals }, s')
    ]

-- `publishFeedback` and `publishResult`, each on its own topic.
unfoldable pub publish_report : Call → (id : ℕ) → List ℕ → (status : ℕ) → Shm → Result Bool × Shm
publish_report c id bytes status s =
    publish_raw c (report_packet id status c.now bytes) msg_custom s

-- The header of a received message, if it is one: its type, its least and its greatest size.
unfoldable pub report_of : Frame → Option Report
unfolding read_report
report_of f =
    if f.header.type == msg_custom && leb report_fixed f.header.data_size
    then (if leb (f.header.data_size - report_fixed) max_msg_size
        then some (read_report f.payload)
        else none)
    else none

-- What `feedbackLoop` does with a message.
unfoldable pub on_feedback : Frame → ActionClient → ActionClient
on_feedback f client = elim (report_of f) [
  | some r ↦ record client { feedbacks = put r.goal_id r client.feedbacks }
  | none ↦ client
]

-- What `resultLoop` does with a message.
unfoldable pub on_result : Frame → ActionClient → ActionClient
on_result f client = elim (report_of f) [
  | some r ↦ record client {
    results = put r.goal_id r client.results;
    pending_goals = remove r.goal_id client.pending_goals;
  }
  | none ↦ client
]

-- The loop of both threads: `running_` and the scene of each round, and what a message does.
pub receive_loop {ℓ} : {A : Type ℓ} → (Frame → A → A) → Subscriber → List Round → A → A
receive_loop on sub [] a = a
receive_loop on sub (r ∷ rounds) a =
    if r.running
    then elim (receive_raw sub receive_size (pos 100) r.scene) [
      | done (sub', some f) ↦ receive_loop on sub' rounds (on f a)
      | done (sub', none) ↦ receive_loop on sub' rounds a
      | failed e ↦ a
      | blocked ↦ a
    ]
    else a

-- `feedbackLoop` and `resultLoop`.
unfoldable pub feedback_loop : Subscriber → List Round → ActionClient → ActionClient
feedback_loop = receive_loop on_feedback

unfoldable pub result_loop : Subscriber → List Round → ActionClient → ActionClient
result_loop = receive_loop on_result

-- `isFinished`
unfoldable pub is_finished : ℕ → ActionClient → Bool
is_finished id client = elim (lookup id client.results) [ some r ↦ true | none ↦ false ]

-- `getResult` for a type of `n` bytes: payload and status.
unfoldable pub get_result : (id n : ℕ) → ActionClient → Option (List ℕ × ℕ) × ActionClient
get_result id n client = elim (lookup id client.results) [
  | none ↦ (none, client)
  | some r ↦
      (if r.data_size == n
        then (
          some (take n r.bytes, r.status),
          record client {
            results = erase id client.results;
            pending_goals = remove id client.pending_goals;
          },
        )
        else (none, client))
]

-- `getFeedback` for a type of `n` bytes.
unfoldable pub get_feedback : (id n : ℕ) → ActionClient → Option (List ℕ × ℕ) × ActionClient
get_feedback id n client = elim (lookup id client.feedbacks) [
  | none ↦ (none, client)
  | some r ↦
      (if r.data_size == n
        then (
          some (take n r.bytes, r.status),
          record client { feedbacks = erase id client.feedbacks },
        )
        else (none, client))
]

-- `resp.success` of a call that returned true.
unfoldable pub is_success : CallEnd → Bool
is_success (replied bytes s) = not (of_le (take 4 bytes) == 0)
is_success _ = false

-- `cancelGoal`: a call of the cancel service, whose response has two 32-bit fields.
unfoldable pub cancel_goal :
    (pid id : ℕ)
    → ServiceClient
    → (lock : ℕ) → (shutdown : Bool) → ServiceShm
    → List Service.Wake
    → ServiceClient × CallEnd × Bool
unfolding is_success
cancel_goal pid id c lock shutdown s ws =
    let (c', ended) = Service.call pid (le_bytes 4 id) 8 c lock shutdown s ws in
    (c', ended, is_success ended)
