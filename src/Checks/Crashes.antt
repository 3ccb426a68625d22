-- ===== src/Checks/Crashes.antt =====
-- Publishers that die, and a topic among its processes.
use com_ipc.Common.{◌≡◌, refl, inl, [], ◌∷◌, true, false, ok, owner_dead, arith, replicate}
use com_ipc.Common.Int.{pos}
use com_ipc.Types.{TopicShm, new_topic}
use com_ipc.Pool.{init}
use com_ipc.Topic.{Shm, stamp, enqueue, post, publish_raw}
use com_ipc.Topic.Ring.{IsValid, newest, new_topic-IsValid, enqueue-IsValid, IsValid-IsUsable}
use com_ipc.Topic.Crash.{Death, died, all_died}
use com_ipc.Topic.Crash.Recovery.{post-all_died}
use com_ipc.Subscriber.{Subscriber, Scene, Round, loaned, receive_loaned, receive_raw, async_loop}
use com_ipc.Subscriber.Repeats.{async_loop-died}
use com_ipc.Traffic.{State, publishes, here, then_one}
use com_ipc.Traffic.Safety.{LoanInside, CopyInside, received_inside, new_topic-IsSafeState}
use com_ipc.Checks.Fixtures.{quiet, fresh, newcomer}

-- It dies when the number, but not the size, is written.
abbrev early_death : Death
early_death = record { size = 5; type = 4; offset = 64; now = 9; steps = 2 }

post-all_died_example :
    (s : Shm) × (post
        (record quiet { topic_lock = owner_dead })
        7
        4
        0
        (record fresh { topic = all_died (early_death ∷ early_death ∷ []) new_topic })
      ≡ (ok true, s))
    × (newest s.topic
        ≡ stamp 7 4 0 1700000000 (all_died (early_death ∷ early_death ∷ []) new_topic))
    × (s.pool ≡ fresh.pool)
    × IsValid s.topic
post-all_died_example =
    post-all_died (record quiet { topic_lock = owner_dead }) (early_death ∷ early_death ∷ []) 7 4 0
      fresh (IsValid-IsUsable new_topic-IsValid) refl

abbrev first_topic : TopicShm
first_topic = enqueue 5 4 0 9 new_topic

abbrev seen_it : Subscriber
seen_it = record newcomer { last_seq = 1 }

abbrev stale : Round
stale = record {
  running = true;
  scene = record {
    shutdown = false;
    topic = died early_death first_topic;
    lock = 0;
    wakes = [];
    pool = init (λ a. 0);
  };
}

async_loop-died_example :
    async_loop seen_it (stale ∷ stale ∷ stale ∷ []) ≡ replicate 3 (loaned (newest first_topic))
unfolding enqueue
async_loop-died_example =
    async_loop-died early_death first_topic seen_it (stale ∷ stale ∷ stale ∷ [])
      (enqueue-IsValid 5 4 0 9 new_topic-IsValid) (omega arith) (omega arith) (omega arith) refl
      refl
      (refl, refl, refl, inl refl, (refl, refl, refl, inl refl, (refl, refl, refl, inl refl, tt)))

abbrev quiet_state : State
quiet_state = record { shm = fresh; loans = [] }

abbrev published : Shm
published = (publish_raw quiet (1 ∷ 2 ∷ []) 4 fresh).1

abbrev looks : Scene
looks = record {
  shutdown = false;
  topic = published.topic;
  lock = 0;
  wakes = [];
  pool = published.pool;
}

received_inside_example :
    LoanInside (receive_loaned newcomer (pos 5) looks)
    × CopyInside 280 (receive_raw newcomer 280 (pos 5) looks)
received_inside_example =
    received_inside quiet_state newcomer 280 (pos 5) looks
      (new_topic-IsSafeState (fresh.pool) (omega arith))
      (
        (
          record quiet_state { shm = published },
          then_one here (publishes quiet (1 ∷ 2 ∷ []) 4),
          refl,
        ),
        tt,
      )
