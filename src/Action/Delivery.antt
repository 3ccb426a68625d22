-- ===== src/Action/Delivery.antt =====
-- Goals and results on their topics, from one side of an action to the other.
use com_ipc.Common.{
  ℕ, ◌+◌, ◌-◌, ◌^◌, ◌≤◌, ◌<◌, ◌≡◌, refl, ap, ◌∙◌, List, [], Bool, true, false, none, some, Result,
  ok, throw, ◌==◌, length, take, arith,
}
use com_ipc.Common.Int.{pos}
use com_ipc.Types.{max_msg_size, msg_custom}
use com_ipc.Pool.{deposits}
use com_ipc.Pool.Bounds
use com_ipc.Topic.{Shm, Call, publish_raw}
use com_ipc.Topic.Ring.{IsValid, newest, newest-enqueue}
use com_ipc.Subscriber.{Subscriber, Scene, Frame, receive_raw, receive_size, done}
use com_ipc.Subscriber.Delivery.{receive_raw-publish_raw, receive_raw_large, publish_raw_success}
use com_ipc.Action.{
  goal_fixed, report_fixed, ActionClient, goal_packet, send_goal, report_packet, publish_report,
  on_result, is_finished, get_result, Report, report_of,
}
use com_ipc.Action.Map.{put, member, insert, lookup-put, lookup-erase, member-insert}
use com_ipc.Action.Server.{ActionServer, accept_goal, next_goal, executed, process_round}
use com_ipc.Action.Wire.{
  length-goal_packet, length-report_packet, report_of-report_packet, on_goal-goal_packet, take-all,
}

-- What a subscriber finds that is not disturbed.
abbrev pub calm : Shm → Scene
calm s = record { shutdown = false; topic = s.topic; lock = 0; wakes = []; pool = s.pool }

abbrev report : (id status now : ℕ) → List ℕ → Report
report id status now bytes = record {
  goal_id = id;
  status = status;
  timestamp = now;
  data_size = length bytes;
  bytes = bytes;
}

-- What a goal that was sent has done.
send_goal_success :
    (c : Call) (bytes : List ℕ) (client client' : ActionClient) (s s' : Shm) (id : ℕ)
    → send_goal c bytes client s ≡ (ok (some id), client', s')
    → (id ≡ client.next_goal_id)
      × (publish_raw c (goal_packet id c.now bytes) msg_custom s ≡ (ok true, s'))
      × (member id client'.pending_goals ≡ true)
unfolding send_goal
send_goal_success c bytes client client' s s' id h =
    go (publish_raw c (goal_packet client.next_goal_id c.now bytes) msg_custom s) refl
  where
    go :
        (p : Result Bool × Shm)
        → publish_raw c (goal_packet client.next_goal_id c.now bytes) msg_custom s ≡ p
        → (id ≡ client.next_goal_id)
          × (publish_raw c (goal_packet id c.now bytes) msg_custom s ≡ (ok true, s'))
          × (member id client'.pending_goals ≡ true)
    go (ok true, t) e =
        let i : id ≡ client.next_goal_id = ground arith in
        let q : client'.pending_goals ≡ insert client.next_goal_id client.pending_goals =
          ground arith in
        let same : t ≡ s' = ground arith in
        (
          i,
          rw i (e ∙ ap (λ u. (ok true, u)) same),
          rw (q, i) (member-insert client.next_goal_id client.pending_goals),
        )
    go (ok false, t) e = ground arith
    go (throw err, t) e = ground arith

-- A goal from end to end: a goal of at most 240 bytes that `sendGoal` gave an id is received, under
-- this id and with exactly its bytes, by a server that is behind it and that has no other goal
-- waiting, in its next round; and the client waits for it.
pub process_round-send_goal :
    (c : Call) (bytes : List ℕ) (client : ActionClient) (s : Shm) {client' : ActionClient}
    {s' : Shm}
    → (id : ℕ) (sub : Subscriber) (srv : ActionServer) → Bounds.IsValid s.pool
    → IsValid s.topic
    → send_goal c bytes client s ≡ (ok (some id), client', s')
    → client.next_goal_id < 2 ^ 31
    → length bytes ≤ max_msg_size - goal_fixed
    → sub.mapped ≡ true
    → sub.last_seq < s'.topic.seq
    → srv.goal_queue ≡ []
    → (f : Frame) × (receive_raw sub receive_size (pos 100) (calm s')
        ≡ done (record sub { last_seq = s'.topic.seq }, some f))
      × ((process_round (some f) srv).0 ≡ some (id, bytes))
      × (member id (process_round (some f) srv).1.active_goals ≡ true)
      × (member id client'.pending_goals ≡ true)
unfolding deposits process_round next_goal accept_goal put
process_round-send_goal c bytes client s {client'} {s'} id sub srv vp vt h small fits mapped behind
      idle =
    let (i, p, pending) = send_goal_success c bytes client client' s s' id h in
    let n = length-goal_packet id c.now bytes in
    let (f, got, payload, type, _, size) =
      receive_raw-publish_raw c (goal_packet id c.now bytes) msg_custom s sub receive_size (pos 100)
        [] 0 vp vt p mapped behind (omega (arith, n)) tt (omega arith) (omega (arith, n)) in
    let heard =
      on_goal-goal_packet f id c.now bytes srv (omega (arith, i)) (omega arith) type size payload in
    let real : (id == 2 ^ 32 - 1) ≡ false = ground arith in
    let ran : executed (some (id, bytes)) ≡ some (id, bytes) = rw real in
    (f, got, rw (heard, idle) ran, rw (heard, idle) (member-insert id srv.active_goals), pending)

-- A longer goal is published and given an id all the same, but its message is larger than the
-- buffer of the server's loop, which takes nothing then: the goal is lost, and the client waits for
-- it.
pub receive_raw-send_goal :
    (c : Call) (bytes : List ℕ) (client : ActionClient) (s : Shm) {client' : ActionClient}
    {s' : Shm}
    → (id : ℕ) (sub : Subscriber) → IsValid s.topic
    → send_goal c bytes client s ≡ (ok (some id), client', s')
    → max_msg_size - goal_fixed < length bytes
    → length bytes ≤ max_msg_size
    → sub.mapped ≡ true
    → sub.last_seq < s'.topic.seq
    → (receive_raw sub receive_size (pos 100) (calm s') ≡ done (sub, none))
      × (member id client'.pending_goals ≡ true)
receive_raw-send_goal c bytes client s {client'} {s'} id sub vt h long small mapped behind =
    let (_, p, pending) = send_goal_success c bytes client client' s s' id h in
    let packet = goal_packet id c.now bytes in
    let n = length-goal_packet id c.now bytes in
    let (offset, d, e) = publish_raw_success c packet msg_custom s s' p in
    let size : (newest s'.topic).data_size ≡ goal_fixed + length bytes =
      rw (e, newest-enqueue (length packet) msg_custom offset c.now vt) (omega (arith, n)) in
    (
      receive_raw_large sub receive_size (pos 100) s'.topic s'.pool mapped behind
          (omega (arith, size)),
      pending,
    )

-- What a client does with a report that `resultLoop` took.
pub get_result-on_result :
    (f : Frame) (client : ActionClient) {r : Report}
    → report_of f ≡ some r
    → (is_finished r.goal_id (on_result f client) ≡ true)
      × ((get_result r.goal_id r.data_size (on_result f client)).0
          ≡ some (take r.data_size r.bytes, r.status))
      × (is_finished r.goal_id (get_result r.goal_id r.data_size (on_result f client)).1 ≡ false)
unfolding on_result is_finished get_result
get_result-on_result f client {r} heard =
    let right : (r.data_size == r.data_size) ≡ true = ground arith in
    let found = lookup-put r.goal_id r client.results in
    let gone = lookup-erase r.goal_id (on_result f client).results in
    (
      rw (is_finished, on_result, heard, found),
      rw (get_result, on_result, heard, found, right),
      rw (is_finished, get_result, on_result, heard, found, right) (rw gone),
    )

-- A result from end to end: a result of at most 236 bytes that `publishResult` published is received
-- by a client that is behind it, and then finished; `getResult` gives exactly its bytes and status,
-- and takes it out of the client.
pub get_result-publish_report :
    (c : Call) (id : ℕ) (bytes : List ℕ) (status : ℕ) (s : Shm) {s' : Shm}
    → (sub : Subscriber) (client : ActionClient) → Bounds.IsValid s.pool
    → IsValid s.topic
    → publish_report c id bytes status s ≡ (ok true, s')
    → id < 256 ^ 4
    → status < 256 ^ 4
    → c.now < 256 ^ 8
    → length bytes ≤ max_msg_size - report_fixed
    → sub.mapped ≡ true
    → sub.last_seq < s'.topic.seq
    → (f : Frame) × (receive_raw sub receive_size (pos 100) (calm s')
        ≡ done (record sub { last_seq = s'.topic.seq }, some f))
      × (is_finished id (on_result f client) ≡ true)
      × ((get_result id (length bytes) (on_result f client)).0 ≡ some (bytes, status))
      × (is_finished id (get_result id (length bytes) (on_result f client)).1 ≡ false)
unfolding deposits publish_report
get_result-publish_report c id bytes status s {s'} sub client vp vt h a b d short mapped behind =
    let packet = report_packet id status c.now bytes in
    let n = length-report_packet id status c.now bytes in
    let (f, got, payload, type, _, size) =
      receive_raw-publish_raw c packet msg_custom s sub receive_size (pos 100) [] 0 vp vt h mapped
        behind (omega (arith, n)) tt (omega arith) (omega (arith, n)) in
    let heard =
      report_of-report_packet f id status c.now bytes a b d (omega arith) type size payload in
    let (finished, result, gone) = get_result-on_result f client heard in
    (f, got, finished, result ∙ ap (λ l. some (l, status)) (take-all bytes), gone)
