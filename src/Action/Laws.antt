-- ===== src/Action/Laws.antt =====
-- What a client and a server of actions promise: goals, results and cancellations.
use com_ipc.Common.{
  ℕ, ◌^◌, ◌<◌, ◌≡◌, refl, ◌∙◌, inl, inr, List, [], ◌∷◌, ◌++◌, true, ◌&&◌, ◌||◌, Option, none, some,
  leb, ◌==◌, take, arith, Bool-cases,
}
use com_ipc.Common.Bytes.{le_bytes, of_le}
use com_ipc.Types.{msg_custom}
use com_ipc.Subscriber.{Frame}
use com_ipc.Action.Map.{member, member-insert, member-insert_stays, member-insert_cases}
use com_ipc.Action.Server.{
  ActionServer, accept_goal, on_goal, next_goal, process_round, cancel_callback, on_cancel,
  is_preempted, new_server, Step, round, cancel, Steps, stop, more,
}
use com_ipc.Action.Wire.{of_le-take_all}

-- Taking a goal leaves both sets.
next_goal-sets :
    (srv : ActionServer)
    → ((next_goal srv).1.active_goals ≡ srv.active_goals)
      × ((next_goal srv).1.preempted_goals ≡ srv.preempted_goals)
unfolding next_goal
next_goal-sets srv = go srv.goal_queue
  where
    go :
        (q : List (ℕ × List ℕ))
        → ((next_goal (record srv { goal_queue = q })).1.active_goals ≡ srv.active_goals)
          × ((next_goal (record srv { goal_queue = q })).1.preempted_goals ≡ srv.preempted_goals)
    go [] = (refl, refl)
    go (g ∷ rest) = (refl, refl)

-- Accepted goals stay.
on_goal-sets :
    (i : ℕ) (f : Frame) (srv : ActionServer)
    → (member i srv.active_goals ≡ true → member i (on_goal f srv).active_goals ≡ true)
      × ((on_goal f srv).preempted_goals ≡ srv.preempted_goals)
unfolding on_goal accept_goal
on_goal-sets i f srv =
    elim (Bool-cases (f.header.type == msg_custom && leb 16 f.header.data_size)) [
      | inl e ↦
          rw e (λ h. member-insert_stays (of_le (take 4 f.payload)) i srv.active_goals h, refl)
      | inr e ↦ rw e (λ h. h, refl)
    ]

process_round-sets :
    (i : ℕ) (f : Option Frame) (srv : ActionServer)
    → (member i srv.active_goals ≡ true → member i (process_round f srv).1.active_goals ≡ true)
      × ((process_round f srv).1.preempted_goals ≡ srv.preempted_goals)
unfolding process_round accept_goal
process_round-sets i none srv = let (a, p) = next_goal-sets srv in rw (a, p) (λ h. h, refl)
process_round-sets i (some f) srv =
    let (a, p) = next_goal-sets (on_goal f srv) in rw (a, p) (on_goal-sets i f srv)

-- The answer to a cancel request is success for every goal, known to the server or not; the goal is
-- preempted afterwards exactly if it was before or the server has ever accepted it.
pub on_cancel_success :
    (id : ℕ) (srv : ActionServer)
    → id < 256 ^ 4
    → let (reply, srv') = on_cancel (le_bytes 4 id) 4 srv in
      ((cancelled : ℕ) × (reply ≡ some (le_bytes 4 1 ++ le_bytes 4 cancelled)))
      × (is_preempted id srv' ≡ (is_preempted id srv || member id srv.active_goals))
unfolding on_cancel cancel_callback is_preempted
on_cancel_success id srv h =
    rw (of_le-take_all 4 id h) (elim (Bool-cases (member id srv.active_goals)) [
      | inl a ↦ rw a ((1, refl), rw (member-insert id srv.preempted_goals) (ground arith))
      | inr a ↦ rw a ((0, refl), ground arith)
    ])

-- One step: what was accepted stays so, and what is preempted then was preempted or accepted before.
Step-sets :
    (i : ℕ) {a b : ActionServer}
    → Step a b
    → (member i a.active_goals ≡ true → member i b.active_goals ≡ true)
      × ((member i a.preempted_goals ≡ true → member i a.active_goals ≡ true)
          → member i b.preempted_goals ≡ true
          → member i b.active_goals ≡ true)
unfolding on_cancel cancel_callback
Step-sets i (round f {srv}) = let (a, p) = process_round-sets i f srv in rw p (a, λ v h. a (v h))
Step-sets i (cancel req size {srv}) =
    ground (arith, member-insert_cases (of_le (take 4 req)) i srv.preempted_goals)

Steps-preempted :
    (i : ℕ) {a b : ActionServer}
    → Steps a b
    → (member i a.preempted_goals ≡ true → member i a.active_goals ≡ true)
    → member i b.preempted_goals ≡ true
    → member i b.active_goals ≡ true
Steps-preempted i stop v h = v h
Steps-preempted i (more s rest) v h = Steps-preempted i rest ((Step-sets i s).1 v) h

-- In every state that a new server reaches, a goal that is preempted was accepted.
pub is_preempted-Steps :
    (i : ℕ) {srv : ActionServer}
    → Steps new_server srv
    → is_preempted i srv ≡ true
    → member i srv.active_goals ≡ true
unfolding is_preempted member
is_preempted-Steps i steps h = Steps-preempted i steps (λ e. cc) h

Steps-active :
    (i : ℕ) {a b : ActionServer}
    → Steps a b
    → member i a.active_goals ≡ true
    → member i b.active_goals ≡ true
Steps-active i stop h = h
Steps-active i (more s rest) h = Steps-active i rest ((Step-sets i s).0 h)

-- Whatever a server does after it accepted a goal, executing it included, a request to cancel the
-- goal preempts it: an accepted goal is never retired.
pub on_cancel-Steps :
    (i : ℕ) {a b : ActionServer}
    → Steps a b
    → member i a.active_goals ≡ true
    → i < 256 ^ 4
    → is_preempted i (on_cancel (le_bytes 4 i) 4 b).1 ≡ true
on_cancel-Steps i {a} {b} steps h small =
    (on_cancel_success i b small).1 ∙ ground (arith, Steps-active i steps h)
