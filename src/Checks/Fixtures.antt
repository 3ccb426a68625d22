-- ===== src/Checks/Fixtures.antt =====
-- What the tests share: a call on a topic that is mapped, new shared memory, and a new subscriber.
use com_ipc.Common.{true, false}
use com_ipc.Types.{new_topic}
use com_ipc.Pool.{init}
use com_ipc.Topic.{Shm, Call}
use com_ipc.Subscriber.{Subscriber}

abbrev pub quiet : Call
quiet = record { mapped = true; shutdown = false; pool_lock = 0; topic_lock = 0; now = 1700000000 }

abbrev pub fresh : Shm
fresh = record { pool = init (λ a. 0); topic = new_topic }

abbrev pub newcomer : Subscriber
newcomer = record { mapped = true; last_seq = 0 }
