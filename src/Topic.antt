-- ===== src/Topic.antt =====
-- The publisher: src/publisher.cpp and the templates of inc/publisher.h. A call takes what the
-- environment decides (is the segment mapped, shutdown, the results of the two locks, the time) and
-- the shared memory, and returns its result with the shared memory after it.
pub mod Ring
pub mod Crash
use com_ipc.Common.{
  ℕ, ◌+◌, ◌%◌, ◌^◌, List, [], ◌∷◌, ◌++◌, Bool, true, false, not, ◌||◌, Result, ok, throw,
  lock_robust, if◌then◌else◌, length, set,
}
use com_ipc.Types.{MessageHeader, TopicShm, buffer_size, msg_string}
use com_ipc.Pool.{Pool, allocate, deposit, get_offset, get_pointer}

-- The shared memory that a publisher works on.
pub record Shm : Type 0 where
  pub pool : Pool
  pub topic : TopicShm

-- What the environment gives to a call.
pub record Call : Type 0 where
  pub mapped : Bool
  pub shutdown : Bool
  pub pool_lock : ℕ
  pub topic_lock : ℕ
  pub now : ℕ

-- The header of the next message: numbered on from `seq`.
abbrev pub stamp : (size type offset now : ℕ) → TopicShm → MessageHeader
stamp size type offset now t = record {
  type = type;
  seq = (t.seq + 1) % 2 ^ 32;
  timestamp = now;
  data_size = size % 2 ^ 32;
  pool_offset = offset;
}

-- The section of `publishRaw` and `publishLoaned` under the topic's mutex: write the header into
-- the slot of `write_index` and advance.
unfoldable pub enqueue : (size type offset now : ℕ) → TopicShm → TopicShm
enqueue size type offset now t =
    let slot = t.write_index % buffer_size in
    record t {
      buffer = set t.buffer slot (stamp size type offset now t);
      seq = (t.seq + 1) % 2 ^ 32;
      write_index = (t.write_index + 1) % 2 ^ 32;
    }

-- Lock the topic and enqueue.
unfoldable pub post : Call → (size type offset : ℕ) → Shm → Result Bool × Shm
unfolding enqueue
post c size type offset s = elim (lock_robust c.topic_lock) [
  | ok _ ↦ (ok true, record s { topic = enqueue size type offset c.now s.topic })
  | throw e ↦ (throw e, s)
]

-- `publishRaw`
unfoldable pub publish_raw : Call → List ℕ → ℕ → Shm → Result Bool × Shm
unfolding post
publish_raw c bytes type s =
    if not c.mapped || c.shutdown
    then (ok false, s)
    else let (r, pool) = deposit c.pool_lock bytes s.pool in
      elim r [
        | ok offset ↦ post c (length bytes) type offset (record s { pool = pool })
        | throw e ↦ (throw e, record s { pool = pool })
      ]

-- `publish(const std::string&)`: the text with its terminating zero.
unfoldable pub publish_string : Call → List ℕ → Shm → Result Bool × Shm
unfolding publish_raw
publish_string c text s = publish_raw c (text ++ 0 ∷ []) msg_string s

-- `loanRaw`: a pointer to a block of the pool.
unfoldable pub loan_raw : Call → ℕ → Shm → Result ℕ × Shm
unfolding allocate
loan_raw c size s =
    let (r, pool) = allocate c.pool_lock size s.pool in
    elim r [
      | ok offset ↦ (ok (get_pointer offset), record s { pool = pool })
      | throw e ↦ (throw e, record s { pool = pool })
    ]

-- `publishLoaned`
unfoldable pub publish_loaned : Call → (pointer size type : ℕ) → Shm → Result Bool × Shm
unfolding post
publish_loaned c pointer size type s =
    if not c.mapped || c.shutdown then (ok false, s) else elim (get_offset pointer) [
      | ok offset ↦ post c size type offset s
      | throw e ↦ (throw e, s)
    ]
