-- ===== src/Action/Waiting.antt =====
-- waitForResult of src/action_client.cpp. While it waits on the condition variable, the thread of
-- resultLoop changes the client: a wake-up is the client as it is then, and whether the time-out is
-- over. Waiting with a predicate tests it before each wait, and once more when the time is over.
use com_ipc.Common.{
  ℕ, zero, suc, ◌≡◌, List, [], ◌∷◌, ◌++◌, Bool, true, false, ◌&&◌, some, if◌then◌else◌, take, arith,
}
use com_ipc.Common.Int.{ℤ, pos, negsuc}
use com_ipc.Subscriber.{Frame}
use com_ipc.Action.{ActionClient, Report, report_of, on_result, is_finished, get_result}
use com_ipc.Action.Delivery.{get_result-on_result}

pub record Wake : Type 0 where
  pub client : ActionClient
  pub expired : Bool

-- A wait that has returned, or not yet.
pub data Awaited : Type 0 where
  returned : Bool → Awaited
  blocked : Awaited

-- `timeout_ms <= 0` waits for ever.
abbrev pub is_timed : ℤ → Bool
is_timed (pos zero) = false
is_timed (pos (suc ms)) = true
is_timed (negsuc ms) = false

-- `cv_.wait` and `cv_.wait_for`, behind a test of the predicate that failed.
unfoldable pub await_finished : (timed : Bool) → ℕ → List Wake → Awaited
await_finished timed id [] = blocked
await_finished timed id (w ∷ ws) =
    let rest = await_finished timed id ws in
    if is_finished id w.client
    then returned true
    else if timed && w.expired
    then returned false
    else rest

-- `waitForResult`
unfoldable pub wait_for_result : ℕ → ℤ → ActionClient → List Wake → Awaited
unfolding await_finished
wait_for_result id timeout_ms client ws =
    if is_finished id client then returned true else await_finished (is_timed timeout_ms) id ws

-- The goal is not finished, and the time is not over.
abbrev pub AreIdle : ℕ → List Wake → Type 0
AreIdle id [] = Unit {0}
AreIdle id (w ∷ ws) = ((is_finished id w.client ≡ false) × (w.expired ≡ false)) × AreIdle id ws

await_finished_idle :
    (timed : Bool) (id : ℕ) (ws : List Wake) (w : Wake) (rest : List Wake)
    → AreIdle id ws
    → is_finished id w.client ≡ true
    → await_finished timed id (ws ++ w ∷ rest) ≡ returned true
unfolding await_finished
await_finished_idle timed id [] w rest i e = rw e
await_finished_idle timed id (w' ∷ ws) w rest i e =
    ground (arith, i.0, await_finished_idle timed id ws w rest i.1 e)

-- A client that waits for a goal that is not finished, with any time-out, returns true at the
-- wake-up behind the message that `resultLoop` takes as the goal's result, if that comes before the
-- time-out is over, or with it; and `getResult` of that size then gives the payload and the status
-- of that message.
pub wait_for_result-on_result :
    (timeout_ms : ℤ) (client : ActionClient) (ws : List Wake) (k : ActionClient) (f : Frame)
    → (expired : Bool) (rest : List Wake) {r : Report} → report_of f ≡ some r
    → is_finished r.goal_id client ≡ false
    → AreIdle r.goal_id ws
    → (wait_for_result r.goal_id timeout_ms client
          (ws ++ record { client = on_result f k; expired = expired } ∷ rest)
        ≡ returned true)
      × ((get_result r.goal_id r.data_size (on_result f k)).0
          ≡ some (take r.data_size r.bytes, r.status))
unfolding wait_for_result
wait_for_result-on_result timeout_ms client ws k f expired rest {r} e n i =
    let (finished, result, _) = get_result-on_result f k e in
    (
      rw n (
          await_finished_idle (is_timed timeout_ms) r.goal_id ws
            (record { client = on_result f k; expired = expired }) rest i finished),
      result,
    )
