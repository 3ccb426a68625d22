-- ===== src/Checks/Actions.antt =====
-- Actions: a goal, its result and its cancellation.
use com_ipc.Common.{
  ℕ, ◌^◌, ◌-◌, ◌≡◌, ◌||◌, refl, List, [], ◌∷◌, ◌++◌, Bool, true, false, Option, none, some, ok,
  lock_robust, arith, replicate, length,
}
use com_ipc.Common.Int.{pos}
use com_ipc.Common.Bytes.{le_bytes}
use com_ipc.Pool.{deposit}
use com_ipc.Pool.Bounds
use com_ipc.Topic.{Shm, publish_raw, enqueue}
use com_ipc.Topic.Ring.{new_topic-IsValid}
use com_ipc.Subscriber.{Frame, receive_raw, receive_size, done}
use com_ipc.Action.{
  ActionClient, goal_packet, send_goal, publish_report, on_result, is_finished, get_result, Report,
  report_of, report_packet,
}
use com_ipc.Action.Map.{before, put, insert, member}
use com_ipc.Action.Server.{
  ActionServer, new_server, accept_goal, process_round, on_cancel, is_preempted, Steps, stop, more,
  cancel, round, Step,
}
use com_ipc.Action.Waiting.{wait_for_result, returned, wait_for_result-on_result}
use com_ipc.Action.Delivery.{
  calm, process_round-send_goal, receive_raw-send_goal, get_result-publish_report,
}
use com_ipc.Checks.Fixtures.{fresh, newcomer, quiet}

fresh-IsValid : Bounds.IsValid (fresh.pool)
fresh-IsValid = omega arith

abbrev client : ActionClient
client = record { next_goal_id = 0; pending_goals = []; results = []; feedbacks = [] }

abbrev order : List ℕ
order = 10 ∷ 20 ∷ []

abbrev sent : Shm
sent = (send_goal quiet order client fresh).2

signed_order : (before (2 ^ 32 - 1) 0 ≡ true) × (before 0 (2 ^ 32 - 1) ≡ false)
signed_order = (refl, refl)

first_goal : (process_round none (accept_goal 3 [] (accept_goal 7 [] new_server))).0 ≡ some (3, [])
unfolding process_round accept_goal put com_ipc.Action.Server.next_goal
first_goal = refl

process_round-send_goal_example :
    (f : Frame) × (receive_raw newcomer receive_size (pos 100) (calm sent)
      ≡ done (record newcomer { last_seq = sent.topic.seq }, some f))
    × ((process_round (some f) new_server).0 ≡ some (0, order))
    × (member 0 (process_round (some f) new_server).1.active_goals ≡ true)
    × (member 0 (send_goal quiet order client fresh).1.pending_goals ≡ true)
unfolding send_goal publish_raw deposit enqueue lock_robust goal_packet le_bytes
process_round-send_goal_example =
    process_round-send_goal quiet order client fresh
      {client' = (send_goal quiet order client fresh).1} {s' = sent} 0 newcomer new_server
      fresh-IsValid new_topic-IsValid refl (omega arith) (omega arith) refl (omega arith) refl

abbrev large : List ℕ
large = replicate 250 1

abbrev lost : Shm
lost = (send_goal quiet large client fresh).2

receive_raw-send_goal_example :
    (receive_raw newcomer receive_size (pos 100) (calm lost) ≡ done (newcomer, none))
    × (member 0 (send_goal quiet large client fresh).1.pending_goals ≡ true)
unfolding send_goal publish_raw deposit enqueue lock_robust goal_packet le_bytes
receive_raw-send_goal_example =
    receive_raw-send_goal quiet large client fresh
      {client' = (send_goal quiet large client fresh).1} {s' = lost} 0 newcomer new_topic-IsValid
      refl (omega arith) (omega arith) refl (omega arith)

abbrev reported : Shm
reported = (publish_report quiet 5 order 2 fresh).1

get_result-publish_report_example :
    (f : Frame) × (receive_raw newcomer receive_size (pos 100) (calm reported)
      ≡ done (record newcomer { last_seq = reported.topic.seq }, some f))
    × (is_finished 5 (on_result f client) ≡ true)
    × ((get_result 5 2 (on_result f client)).0 ≡ some (order, 2))
    × (is_finished 5 (get_result 5 2 (on_result f client)).1 ≡ false)
unfolding publish_report publish_raw deposit enqueue lock_robust com_ipc.Action.report_packet
    le_bytes
get_result-publish_report_example =
    get_result-publish_report quiet 5 order 2 fresh {s' = reported} newcomer client fresh-IsValid
      new_topic-IsValid refl (omega arith) (omega arith) (omega arith) (omega arith) refl
      (omega arith)

-- A result of goal 9 with no payload.
abbrev result_frame : Frame
result_frame = record {
  header = record { type = 4; seq = 1; timestamp = 0; data_size = 20; pool_offset = 0 };
  payload = report_packet 9 2 0 [];
}

abbrev done_report : Report
done_report = record { goal_id = 9; status = 2; timestamp = 0; data_size = 0; bytes = [] }

wait_for_result-on_result_example :
    (wait_for_result 9
        (pos 3000)
        client
        (record { client = on_result result_frame client; expired = true } ∷ [])
      ≡ returned true)
    × ((get_result 9 0 (on_result result_frame client)).0 ≡ some ([], 2))
unfolding is_finished report_of report_packet le_bytes com_ipc.Common.Bytes.of_le
    com_ipc.Action.Map.lookup
wait_for_result-on_result_example =
    wait_for_result-on_result (pos 3000) client [] client result_frame true [] {r = done_report}
      refl refl tt
