-- ===== src/Subscriber/Delivery.antt =====
-- From a publisher to a subscriber: what was published is what is received.
use com_ipc.Common.{
  ℕ, ◌+◌, ◌≤◌, ◌<◌, ◌≡◌, refl, ◌∙◌, inl, inr, List, [], true, false, none, not, ◌||◌, some, Result,
  ok, throw, lock_robust, length, Bool-cases, arith, ap,
}
use com_ipc.Common.Int.{ℤ}
use com_ipc.Types.{TopicShm, header_size}
use com_ipc.Pool.{Pool, pool_size, align8, deposit, deposits, read}
use com_ipc.Pool.Bounds
use com_ipc.Pool.Bounds.{deposit_ok}
use com_ipc.Pool.Survival.{total, AtMost, deposit_survives}
use com_ipc.Topic.{Shm, Call, stamp, enqueue, publish_raw}
use com_ipc.Topic.Ring.{IsValid, newest, newest-enqueue, enqueue-IsValid}
use com_ipc.Subscriber.{
  Subscriber, await, after_wait, done, Frame, copy_out, receive_with, receive_raw,
}

-- What a `publishRaw` that returned true has done: the bytes are deposited, and the topic has one
-- more message, whose header names them.
pub publish_raw_success :
    (c : Call) (bytes : List ℕ) (type : ℕ) (s s' : Shm)
    → publish_raw c bytes type s ≡ (ok true, s')
    → (offset : ℕ) × (deposit c.pool_lock bytes s.pool ≡ (ok offset, s'.pool))
      × (s'.topic ≡ enqueue (length bytes) type offset c.now s.topic)
unfolding publish_raw
publish_raw_success c bytes type s s' h = elim (Bool-cases (not c.mapped || c.shutdown)) [
  | inl e ↦ cc (rw e at h)
  | inr e ↦ go (deposit c.pool_lock bytes s.pool) refl
]
  where
    go :
        (d : Result ℕ × Pool)
        → deposit c.pool_lock bytes s.pool ≡ d
        → (offset : ℕ) × (deposit c.pool_lock bytes s.pool ≡ (ok offset, s'.pool))
          × (s'.topic ≡ enqueue (length bytes) type offset c.now s.topic)
    go (ok offset, p) d = (offset, ground arith, ground arith)
    go (throw err, p) d = ground arith

-- A subscriber behind the topic's number takes the newest header at once, whatever its timeout.
receive_raw_ready :
    (s : Subscriber) (size : ℕ) (timeout_ms : ℤ) (t : TopicShm) (p : Pool)
    → s.mapped ≡ true
    → s.last_seq < t.seq
    → header_size + (newest t).data_size ≤ size
    → receive_raw s size timeout_ms
        (record { shutdown = false; topic = t; lock = 0; wakes = []; pool = p })
      ≡ done (
        record s { last_seq = (newest t).seq },
        some (record {
          header = newest t;
          payload = read (newest t).pool_offset (newest t).data_size p;
        }),
      )
unfolding receive_raw copy_out receive_with await after_wait lock_robust
receive_raw_ready s size timeout_ms t p m n fits = ground arith

-- A subscriber takes nothing of a newest message that does not fit its buffer.
pub receive_raw_large :
    (s : Subscriber) (size : ℕ) (timeout_ms : ℤ) (t : TopicShm) (p : Pool)
    → s.mapped ≡ true
    → s.last_seq < t.seq
    → size < header_size + (newest t).data_size
    → receive_raw s size timeout_ms
        (record { shutdown = false; topic = t; lock = 0; wakes = []; pool = p })
      ≡ done (s, none)
unfolding receive_raw copy_out receive_with await after_wait lock_robust
receive_raw_large s size timeout_ms t p m n large = ground arith

-- The wire of a topic, end to end: after a `publishRaw` that returned true, a subscriber that is
-- behind the new number, with a buffer that the message fits, receives exactly the published bytes
-- under the published type, and its cursor moves to the topic's number; also where the payload is
-- copied only after any later deposits of at most `m` bytes each that leave room in the pool.
pub receive_raw-publish_raw :
    (c : Call) (bytes : List ℕ) (type : ℕ) (s : Shm) {s' : Shm}
    → (sub : Subscriber) (size : ℕ) (timeout_ms : ℤ) (later : List (ℕ × List ℕ)) (m : ℕ)
    → Bounds.IsValid s.pool
    → IsValid s.topic
    → publish_raw c bytes type s ≡ (ok true, s')
    → sub.mapped ≡ true
    → sub.last_seq < s'.topic.seq
    → header_size + length bytes ≤ size
    → AtMost m later
    → m ≤ pool_size
    → align8 (length bytes) + total later + align8 m ≤ pool_size
    → (f : Frame) × (receive_raw sub size timeout_ms (record {
      shutdown = false;
      topic = s'.topic;
      lock = 0;
      wakes = [];
      pool = deposits later s'.pool;
    })
        ≡ done (record sub { last_seq = s'.topic.seq }, some f))
      × (f.payload ≡ bytes)
      × (f.header.type ≡ type)
      × (f.header.seq ≡ s'.topic.seq)
      × (f.header.data_size ≡ length bytes)
receive_raw-publish_raw c bytes type s {s'} sub size timeout_ms later m vp vt h mapped behind fits
      small room all =
    let (offset, d, e) = publish_raw_success c bytes type s s' h in
    let (inside, _, _, _, _) = deposit_ok c.pool_lock bytes vp d in
    let head : newest s'.topic ≡ stamp (length bytes) type offset c.now s.topic =
      rw e (newest-enqueue (length bytes) type offset c.now vt) in
    let valid : IsValid s'.topic = rw e (enqueue-IsValid (length bytes) type offset c.now vt) in
    let n : (newest s'.topic).data_size ≡ length bytes = rw head (omega arith) in
    let at : (newest s'.topic).pool_offset ≡ offset = rw head in
    let got : Frame = record {
      header = newest s'.topic;
      payload =
          read (newest s'.topic).pool_offset (newest s'.topic).data_size (deposits later s'.pool);
    } in
    (
      got,
      receive_raw_ready sub size timeout_ms s'.topic (deposits later s'.pool) mapped behind
            (rw n fits)
          ∙ ap (λ k. done (record sub { last_seq = k }, some got)) valid.numbered,
      rw (n, at) (deposit_survives c.pool_lock bytes later m vp d small room all),
      rw head,
      valid.numbered,
      n,
    )
