-- ===== src/Checks/Topics.antt =====
-- Publishers and subscribers.
use com_ipc.Common.{
  ℕ, ◌≡◌, refl, List, [], ◌∷◌, true, false, none, some, ok, lock_robust, arith, length,
}
use com_ipc.Common.Int.{pos, negsuc}
use com_ipc.Types.{TopicShm, new_topic}
use com_ipc.Pool.{Pool, init, deposit, deposits, read}
use com_ipc.Pool.Bounds
use com_ipc.Topic.{Shm, enqueue, stamp, publish_raw, publish_loaned, loan_raw}
use com_ipc.Topic.Ring.{Holds, new_topic-IsValid, new_topic-Holds, enqueue-IsValid, enqueue-Holds}
use com_ipc.Subscriber.{Scene, done, blocked, Frame, receive_raw, receive_string, async_loop}
use com_ipc.Subscriber.Wait.{Rising, async_loop-Rising}
use com_ipc.Subscriber.Delivery.{receive_raw-publish_raw}
use com_ipc.Checks.Fixtures.{fresh, newcomer, quiet}

abbrev hello : List ℕ
hello = 104 ∷ 101 ∷ 108 ∷ 108 ∷ 111 ∷ []

fresh-IsValid : Bounds.IsValid (fresh.pool)
fresh-IsValid = omega arith

abbrev published : Shm
published = (publish_raw quiet hello 4 fresh).1

abbrev polls : Scene
polls = record {
  shutdown = false;
  topic = published.topic;
  lock = 0;
  wakes = [];
  pool = deposits [] published.pool;
}

second_number : (stamp 5 4 8 0 published.topic).seq ≡ 2
unfolding publish_raw deposit enqueue lock_robust
second_number = refl

shut_down : (publish_raw (record quiet { shutdown = true }) hello 4 fresh).0 ≡ ok false
unfolding publish_raw
shut_down = refl

loan_and_publish : (publish_loaned quiet 0 5 4 (loan_raw quiet 5 fresh).1).0 ≡ ok true
unfolding publish_loaned loan_raw com_ipc.Pool.allocate com_ipc.Pool.get_offset lock_robust
loan_and_publish = refl

nothing_new :
    receive_raw newcomer 280 (pos 0) (record polls { topic = new_topic }) ≡ done (newcomer, none)
unfolding receive_raw lock_robust
nothing_new = refl

waits : receive_raw newcomer 280 (negsuc 0) (record polls { topic = new_topic }) ≡ blocked
unfolding receive_raw lock_robust
waits = refl

as_text : receive_string newcomer (pos 10) polls ≡ done (record newcomer { last_seq = 1 }, none)
unfolding receive_string publish_raw deposit enqueue lock_robust deposits
as_text = refl

receive_raw-publish_raw_example :
    (f : Frame) × (receive_raw newcomer 280 (negsuc 0) polls
      ≡ done (record newcomer { last_seq = published.topic.seq }, some f))
    × (f.payload ≡ hello)
    × (f.header.type ≡ 4)
    × (f.header.seq ≡ published.topic.seq)
    × (f.header.data_size ≡ length hello)
unfolding publish_raw deposit lock_robust
receive_raw-publish_raw_example =
    receive_raw-publish_raw quiet hello 4 fresh {s' = published} newcomer 280 (negsuc 0) [] 8
      fresh-IsValid new_topic-IsValid refl refl (omega arith) (omega arith) tt (omega arith)
      (omega arith)

enqueue-Holds_example : Holds (enqueue 5 4 0 9 new_topic) (stamp 5 4 0 9 new_topic ∷ [])
enqueue-Holds_example = enqueue-Holds 5 4 0 9 new_topic-Holds (omega arith)

abbrev first_topic : TopicShm
first_topic = enqueue 5 4 0 9 new_topic

abbrev first_scene : Scene
first_scene = record {
  shutdown = false;
  topic = first_topic;
  lock = 0;
  wakes = [];
  pool = init (λ a. 0);
}

async_loop-Rising_example : Rising 0 (
    async_loop newcomer (
      record { running = true; scene = first_scene }
      ∷ record { running = true; scene = first_scene }
      ∷ []))
async_loop-Rising_example =
    async_loop-Rising newcomer
      (record { running = true; scene = first_scene }
        ∷ record { running = true; scene = first_scene }
        ∷ [])
      (
        (enqueue-IsValid 5 4 0 9 new_topic-IsValid, tt),
        ((enqueue-IsValid 5 4 0 9 new_topic-IsValid, tt), tt),
      )
