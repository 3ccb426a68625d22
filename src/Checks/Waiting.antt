-- ===== src/Checks/Waiting.antt =====
-- Receivers that wait.
use com_ipc.Common.{◌≢◌, inl, inr, ◌-◌, ◌^◌, ◌≡◌, refl, [], ◌∷◌, true, false, arith}
use com_ipc.Common.Int.{pos}
use com_ipc.Types.{TopicShm, new_topic}
use com_ipc.Pool.{init}
use com_ipc.Topic.{enqueue}
use com_ipc.Topic.Ring.{newest, enqueue-IsValid, new_topic-IsValid}
use com_ipc.Subscriber
use com_ipc.Subscriber.{
  receive_raw, Subscriber, Wake, Scene, receive_loaned, done, loan, async_loop,
}
use com_ipc.Subscriber.Liveness.{receive_returns, receive_loaned_news, async_loop_saturated}
use com_ipc.Checks.Fixtures.{newcomer}

abbrev first_topic : TopicShm
first_topic = enqueue 5 4 0 9 new_topic

abbrev spurious : Wake
spurious = record { ret = 0; topic = new_topic; shutdown = false }

abbrev news : Wake
news = record { ret = 0; topic = first_topic; shutdown = false }

receive_loaned_news_example :
    receive_loaned newcomer (pos 500) (record {
      shutdown = false;
      topic = new_topic;
      lock = 0;
      wakes = spurious ∷ news ∷ [];
      pool = init (λ a. 0);
    })
    ≡ done (loan newcomer (newest first_topic))
unfolding enqueue
receive_loaned_news_example =
    receive_loaned_news newcomer (pos 500) new_topic (spurious ∷ []) news [] (init (λ a. 0)) refl
      (λ e. cc) (omega arith) ((omega arith, refl, omega arith), tt)
      (omega arith, refl, omega arith)

abbrev first_scene : Scene
first_scene = record {
  shutdown = false;
  topic = first_topic;
  lock = 0;
  wakes = [];
  pool = init (λ a. 0);
}

async_loop_saturated_example :
    async_loop
      (record { mapped = true; last_seq = 2 ^ 32 - 1 })
      (record { running = true; scene = first_scene } ∷ [])
    ≡ []
async_loop_saturated_example =
    async_loop_saturated (record { mapped = true; last_seq = 2 ^ 32 - 1 })
      (record { running = true; scene = first_scene } ∷ []) refl
      ((enqueue-IsValid 5 4 0 9 new_topic-IsValid, tt), tt)

abbrev late : Wake
late = record { ret = 110; topic = new_topic; shutdown = false }

abbrev expiring : Scene
expiring = record {
  shutdown = false;
  topic = new_topic;
  lock = 0;
  wakes = spurious ∷ late ∷ [];
  pool = init (λ a. 0);
}

receive_returns_example :
    (receive_raw newcomer 280 (pos 500) expiring ≢ Subscriber.blocked)
    × (receive_loaned newcomer (pos 500) expiring ≢ Subscriber.blocked)
receive_returns_example = receive_returns newcomer 280 (pos 500) expiring (inr (inl refl))
