-- ===== src/Action/Server.antt =====
-- The action server: src/action_server.cpp.
use com_ipc.Common.{
  ℕ, ◌-◌, ◌^◌, List, [], ◌∷◌, ◌++◌, Bool, true, false, ◌&&◌, Option, none, some, if◌then◌else◌, leb,
  ◌==◌, take, drop,
}
use com_ipc.Common.Bytes.{le_bytes, of_le}
use com_ipc.Types.{msg_custom}
use com_ipc.Subscriber.{Frame}
use com_ipc.Action.Map.{put, member, insert}

-- `ActionServer`: the goals that wait, those that were accepted, and those that a client cancelled.
pub record ActionServer : Type 0 where
  pub goal_queue : List (ℕ × List ℕ)
  pub active_goals : List ℕ
  pub preempted_goals : List ℕ

abbrev pub new_server : ActionServer
new_server = record { goal_queue = []; active_goals = []; preempted_goals = [] }

-- The queue and the set of `goalCallback` and `processLoop`.
unfoldable pub accept_goal : (id : ℕ) → List ℕ → ActionServer → ActionServer
accept_goal id bytes srv = record srv {
  goal_queue = put id bytes srv.goal_queue;
  active_goals = insert id srv.active_goals;
}

-- The first section of a round of `processLoop`: a received message is a goal if its type and size
-- say so. Its data are as long as its own header says.
unfoldable pub on_goal : Frame → ActionServer → ActionServer
unfolding accept_goal
on_goal f srv =
    if f.header.type == msg_custom && leb 16 f.header.data_size
    then accept_goal (of_le (take 4 f.payload))
        (take (of_le (take 4 (drop 8 (drop 4 f.payload)))) (drop 4 (drop 8 (drop 4 f.payload)))) srv
    else srv

-- The second section: take the first goal of the queue.
unfoldable pub next_goal : ActionServer → Option (ℕ × List ℕ) × ActionServer
next_goal srv = elim srv.goal_queue [
  | [] ↦ (none, srv)
  | g ∷ rest ↦ (some g, record srv { goal_queue = rest })
]

-- The third: the callback gets it, unless its id is -1.
abbrev pub executed : Option (ℕ × List ℕ) → Option (ℕ × List ℕ)
executed none = none
executed (some (id, bytes)) = if id == 2 ^ 32 - 1 then none else some (id, bytes)

-- A round of `processLoop` over what `receiveRaw` gave: the goal that is executed.
unfoldable pub process_round : Option Frame → ActionServer → Option (ℕ × List ℕ) × ActionServer
unfolding on_goal next_goal
process_round none srv = let (g, srv') = next_goal srv in (executed g, srv')
process_round (some f) srv = let (g, srv') = next_goal (on_goal f srv) in (executed g, srv')

-- `cancelCallback`: what it writes to `success` and `cancelled_goals`, and what it returns.
unfoldable pub cancel_callback : ℕ → ActionServer → (Bool × ℕ) × Bool × ActionServer
cancel_callback id srv =
    if member id srv.active_goals
    then ((true, 1), true, record srv { preempted_goals = insert id srv.preempted_goals })
    else ((false, 0), true, srv)

abbrev pub of_bool : Bool → ℕ
of_bool true = 1
of_bool false = 0

-- The callback of the cancel service: `success` is what `cancelCallback` returns.
unfoldable pub on_cancel : List ℕ → ℕ → ActionServer → Option (List ℕ) × ActionServer
unfolding cancel_callback
on_cancel req req_size srv =
    if req_size == 4
    then (let ((success, cancelled), ret, srv') = cancel_callback (of_le (take 4 req)) srv in
        (some (le_bytes 4 (of_bool ret) ++ le_bytes 4 cancelled), srv'))
    else (none, srv)

-- `isPreempted`
unfoldable pub is_preempted : ℕ → ActionServer → Bool
is_preempted id srv = member id srv.preempted_goals

-- A step of a server: a round of the loop, or a request to cancel.
pub data Step : ActionServer → ActionServer → Type 0 where
  round : (f : Option Frame) {srv : ActionServer} → Step srv (process_round f srv).1
  cancel : (req : List ℕ) (size : ℕ) {srv : ActionServer} → Step srv (on_cancel req size srv).1

pub data Steps : ActionServer → ActionServer → Type 0 where
  stop : {srv : ActionServer} → Steps srv srv
  more : {a b c : ActionServer} → Step a b → Steps b c → Steps a c
