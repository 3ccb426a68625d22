-- ===== src/Action/Opening.antt =====
-- How both sides of an action come to be: the constructors of src/action_server.cpp and
-- src/action_client.cpp, over any kernel, and the threads that they and `start` begin.
pub mod Names
pub mod Cancelling
use com_ipc.Common.{ℕ, List, [], ◌∷◌, ◌++◌, Option, some, none, Result, ok, throw, true}
use com_ipc.Posix.{Posix}
use com_ipc.Manager.{SystemManagerShm}
use com_ipc.Subscriber.{Subscriber}
use com_ipc.Endpoint.{
  Built, built, unassigned, threw, polling, Turn, publisher, subscriber, service_server,
  service_client,
}
use com_ipc.Worker.{Worker, no_thread, start, shutdown}

-- "/goal", "/feedback", "/result" and "/cancel" behind the action's name.
abbrev pub goal_topic : List ℕ → List ℕ
goal_topic action_name = action_name ++ b'/' ∷ b'g' ∷ b'o' ∷ b'a' ∷ b'l' ∷ []

abbrev pub feedback_topic : List ℕ → List ℕ
feedback_topic action_name =
    action_name ++ b'/' ∷ b'f' ∷ b'e' ∷ b'e' ∷ b'd' ∷ b'b' ∷ b'a' ∷ b'c' ∷ b'k' ∷ []

abbrev pub result_topic : List ℕ → List ℕ
result_topic action_name = action_name ++ b'/' ∷ b'r' ∷ b'e' ∷ b's' ∷ b'u' ∷ b'l' ∷ b't' ∷ []

abbrev pub cancel_service : List ℕ → List ℕ
cancel_service action_name = action_name ++ b'/' ∷ b'c' ∷ b'a' ∷ b'n' ∷ b'c' ∷ b'e' ∷ b'l' ∷ []

-- The segments and threads of a server, those of its cancel service included.
pub record ServerParts : Type 0 where
  pub goal_pub : ℕ
  pub goal_sub : Subscriber
  pub feedback_pub : ℕ
  pub result_pub : ℕ
  pub cancel_srv : ℕ
  pub process : Worker
  pub cancelling : Worker

pub record ClientParts : Type 0 where
  pub goal_pub : ℕ
  pub feedback_sub : Subscriber
  pub result_sub : Subscriber
  pub cancel_client : Option ℕ
  pub feedback : Worker
  pub result : Worker

-- `start` and `shutdown` of the server.
abbrev with_process : ServerParts → Option Worker → Option ServerParts
with_process s none = none
with_process s (some w) = some (record s { process = w })

unfoldable pub start_server : ServerParts → Option ServerParts
unfolding start
start_server s = with_process s (start s.process)

unfoldable pub shut_down_server : ServerParts → ServerParts
unfolding shutdown
shut_down_server s = record s { process = shutdown s.process }

module _ (P : Posix) where
  open P use {Os}

  -- The rest of a constructor behind a publisher or a server, and behind one that polls.
  abbrev pub then_open {ℓ} :
      {B : Type ℓ} → Result ℕ × SystemManagerShm × Os → (ℕ → Built B) → Built B
  then_open (ok address, m, os) k = k address
  then_open (throw e, m, os) k = threw e

  abbrev pub then_found {ℓ κ} : {A : Type ℓ} {B : Type κ} → Built (A × Os) → (A → Built B) → Built B
  then_found (built (a, os)) k = k a
  then_found unassigned k = unassigned
  then_found (threw e) k = threw e
  then_found polling k = polling

  -- What the five calls of the server's constructor find, and the four of the client's.
  pub record ServerTurns : Type 0 where
    pub goal : Turn P
    pub goal_turns : List (Turn P)
    pub feedback : Turn P
    pub result : Turn P
    pub cancel : Turn P

  pub record ClientTurns : Type 0 where
    pub goal : Turn P
    pub feedback_turns : List (Turn P)
    pub result_turns : List (Turn P)
    pub cancel_turns : List (Turn P)

  -- `Publisher::Publisher` at a turn.
  abbrev pub publisher_at : List ℕ → Turn P → Result ℕ × SystemManagerShm × Os
  publisher_at name t = publisher P t.lock name t.manager t.os

  -- The constructor of the server behind its goal topic.
  unfoldable pub open_server : List ℕ → ServerTurns → ℕ → Subscriber → Built ServerParts
  unfolding publisher service_server
  open_server name e goal_pub goal_sub =
      then_open (publisher_at (feedback_topic name) e.feedback) (λ feedback_pub.
        then_open (publisher_at (result_topic name) e.result) (λ result_pub.
          then_open
            (service_server P e.cancel.lock (cancel_service name) e.cancel.manager e.cancel.os)
            (λ cancel_srv. built (record {
              goal_pub = goal_pub;
              goal_sub = goal_sub;
              feedback_pub = feedback_pub;
              result_pub = result_pub;
              cancel_srv = cancel_srv;
              process = no_thread;
              cancelling = no_thread;
            }))))

  -- `ActionServer::ActionServer`
  unfoldable pub action_server : List ℕ → ServerTurns → Built ServerParts
  unfolding publisher subscriber open_server
  action_server name e = then_open (publisher_at (goal_topic name) e.goal) (λ goal_pub.
      then_found (subscriber P (goal_topic name) e.goal_turns) (open_server name e goal_pub))

  -- `ActionClient::ActionClient`, which begins both of its threads.
  unfoldable pub action_client : List ℕ → ClientTurns → Built ClientParts
  unfolding publisher subscriber service_client
  action_client name e = then_open (publisher_at (goal_topic name) e.goal) (λ goal_pub.
      then_found (subscriber P (feedback_topic name) e.feedback_turns) (λ feedback_sub.
        then_found (subscriber P (result_topic name) e.result_turns) (λ result_sub.
          then_found (service_client P (cancel_service name) e.cancel_turns) (λ cancel_client.
            built (record {
              goal_pub = goal_pub;
              feedback_sub = feedback_sub;
              result_sub = result_sub;
              cancel_client = cancel_client;
              feedback = record { running = true; joinable = true };
              result = record { running = true; joinable = true };
            })))))
