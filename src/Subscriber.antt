-- ===== src/Subscriber.antt =====
-- The subscriber: src/subscriber.cpp and the templates of inc/subscriber.h. While a call waits on
-- the condition variable the other processes run: what `pthread_cond_timedwait` or
-- `pthread_cond_wait` returned, and the topic and the shutdown flag found then, are a list of
-- wake-ups, one for each wait. Where the list ends the call is still blocked. The payload is copied
-- after the mutex is released, so the pool that it is copied from is the environment's too.
pub mod Ends
pub mod Wait
pub mod Delivery
pub mod Liveness
pub mod Repeats
use com_ipc.Common.{
  ℕ, zero, suc, ◌+◌, ◌-◌, ◌≡◌, List, [], ◌∷◌, Bool, true, false, not, ◌&&◌, ◌||◌, Option, none,
  some, Result, Error, ok, throw, lock_robust, timed_out, if◌then◌else◌, leb, ltb, ◌==◌,
}
use com_ipc.Common.Int.{ℤ, pos, negsuc}
use com_ipc.Types.{MessageHeader, TopicShm, header_size, max_msg_size, msg_string}
use com_ipc.Pool.{Pool, read, get_pointer}
use com_ipc.Topic.Ring.{newest}

pub record Subscriber : Type 0 where
  pub mapped : Bool
  pub last_seq : ℕ

-- One return from the condition variable: the return code, and what it finds.
pub record Wake : Type 0 where
  pub ret : ℕ
  pub topic : TopicShm
  pub shutdown : Bool

-- What the environment gives to a call: the flag and the topic when it locks, the lock's result,
-- the wake-ups, and the pool when the payload is copied.
pub record Scene : Type 0 where
  pub shutdown : Bool
  pub topic : TopicShm
  pub lock : ℕ
  pub wakes : List Wake
  pub pool : Pool

-- How the waiting loop is left.
pub data Waited : Type 0 where
  ready : TopicShm → Bool → Waited
  gave_up : Waited
  waiting : Waited

-- The loop's condition.
abbrev pub idle : ℕ → TopicShm → Bool → Bool
idle last_seq t shutdown = leb t.seq last_seq && not shutdown

-- One round of the loop, over the rest of the loop: no wait at timeout 0, a wait with a deadline at
-- a positive timeout, and a wait for ever at a negative one.
abbrev pub on_wake : ℤ → ℕ → Waited → Waited
on_wake (pos zero) ret rest = gave_up
on_wake (pos (suc ms)) ret rest = if ret == timed_out then gave_up else rest
on_wake (negsuc ms) ret rest = rest

abbrev pub on_block : ℤ → Waited
on_block (pos zero) = gave_up
on_block (pos (suc ms)) = waiting
on_block (negsuc ms) = waiting

-- `while (last_seq_ >= shm_ptr_->seq && !g_shutdown_requested)`
unfoldable pub await : ℕ → ℤ → TopicShm → Bool → List Wake → Waited
await last_seq timeout_ms t shutdown [] =
    if idle last_seq t shutdown then on_block timeout_ms else ready t shutdown
await last_seq timeout_ms t shutdown (w ∷ wakes) =
    let rest = await last_seq timeout_ms w.topic w.shutdown wakes in
    if idle last_seq t shutdown then on_wake timeout_ms w.ret rest else ready t shutdown

-- A call returns, throws, or is still blocked.
pub data Reply {ℓ} (A : Type ℓ) : Type ℓ where
  done : A → Reply A
  failed : Error → Reply A
  blocked : Reply A

-- What `receiveRaw` leaves in the caller's buffer. It returns the size of it.
pub record Frame : Type 0 where
  pub header : MessageHeader
  pub payload : List ℕ

-- The part of `receiveRaw` behind the loop: the newest header, then the payload if it all fits.
unfoldable pub copy_out : Subscriber → ℕ → Pool → MessageHeader → Subscriber × Option Frame
copy_out s size pool h =
    if leb (header_size + h.data_size) size
    then (
      record s { last_seq = h.seq },
      some (record { header = h; payload = read h.pool_offset h.data_size pool }),
    )
    else (s, none)

pub after_wait {ℓ} :
    {A : Type ℓ}
    → Subscriber
    → (TopicShm → Subscriber × Option A)
    → Waited
    → Reply (Subscriber × Option A)
after_wait s take (ready t shutdown) = if shutdown then done (s, none) else done (take t)
after_wait s take gave_up = done (s, none)
after_wait s take waiting = blocked

-- The frame that both receivers share: the guard, the lock and the loop.
pub receive_with {ℓ} :
    {A : Type ℓ}
    → Subscriber
    → ℤ
    → Scene
    → (TopicShm → Subscriber × Option A)
    → Reply (Subscriber × Option A)
unfolding await after_wait
receive_with s timeout_ms e take =
    if not s.mapped || e.shutdown then done (s, none) else elim (lock_robust e.lock) [
      | throw err ↦ failed err
      | ok _ ↦ after_wait s take (await s.last_seq timeout_ms e.topic e.shutdown e.wakes)
    ]

-- `receiveRaw` into a buffer of `size` bytes; `none` is -1.
unfoldable pub receive_raw : Subscriber → ℕ → ℤ → Scene → Reply (Subscriber × Option Frame)
unfolding receive_with copy_out
receive_raw s size timeout_ms e =
    receive_with s timeout_ms e (λ t. copy_out s size e.pool (newest t))

-- `LoanedMessage`
pub record LoanedMessage : Type 0 where
  pub pointer : ℕ
  pub size : ℕ
  pub seq : ℕ

abbrev pub loaned : MessageHeader → LoanedMessage
loaned h = record { pointer = get_pointer h.pool_offset; size = h.data_size; seq = h.seq }

abbrev pub loan : Subscriber → MessageHeader → Subscriber × Option LoanedMessage
loan s h = (record s { last_seq = h.seq }, some (loaned h))

-- `receiveLoaned`; `none` is false.
unfoldable pub receive_loaned : Subscriber → ℤ → Scene → Reply (Subscriber × Option LoanedMessage)
unfolding receive_with
receive_loaned s timeout_ms e = receive_with s timeout_ms e (λ t. loan s (newest t))

-- The size of the buffer of both `receive` templates.
abbrev pub receive_size : ℕ
receive_size = header_size + max_msg_size

abbrev pub then_check :
    (Frame → Option (List ℕ))
    → Reply (Subscriber × Option Frame)
    → Reply (Subscriber × Option (List ℕ))
then_check check (done (s, some f)) = done (s, check f)
then_check check (done (s, none)) = done (s, none)
then_check check (failed e) = failed e
then_check check blocked = blocked

abbrev pub sized : ℕ → Frame → Option (List ℕ)
sized n f = if f.header.data_size == n then some f.payload else none

abbrev pub is_text : Frame → Option (List ℕ)
is_text f = if f.header.type == msg_string then some f.payload else none

-- `receive<T>` for a type of `n` bytes: the size must be right. The message is consumed either way.
unfoldable pub receive : ℕ → Subscriber → ℤ → Scene → Reply (Subscriber × Option (List ℕ))
unfolding receive_raw
receive n s timeout_ms e = then_check (sized n) (receive_raw s receive_size timeout_ms e)

-- `receive(std::string&)`: the type must be right.
unfoldable pub receive_string : Subscriber → ℤ → Scene → Reply (Subscriber × Option (List ℕ))
unfolding receive_raw
receive_string s timeout_ms e = then_check is_text (receive_raw s receive_size timeout_ms e)

-- One round of `asyncLoop`: what `async_running_` reads, and the scene of the call.
pub record Round : Type 0 where
  pub running : Bool
  pub scene : Scene

-- `asyncLoop` with a callback: the messages that it is called with.
pub async_loop : Subscriber → List Round → List LoanedMessage
unfolding receive_loaned
async_loop s [] = []
async_loop s (r ∷ rounds) =
    if r.running && not r.scene.shutdown
    then elim (receive_loaned s (pos 500) r.scene) [
      | done (s', some m) ↦ m ∷ async_loop s' rounds
      | done (s', none) ↦ async_loop s' rounds
      | failed e ↦ []
      | blocked ↦ []
    ]
    else []

-- The constructor once the topic is there: the cursor starts at the current number, so that only
-- later messages are received.
unfoldable pub attach : ℕ → TopicShm → Result Subscriber
attach lock t = elim (lock_robust lock) [
  | ok _ ↦ ok (record { mapped = true; last_seq = t.seq })
  | throw e ↦ throw e
]

-- The destructor's section under the topic's mutex.
unfoldable pub detach : TopicShm → TopicShm
detach t =
    if ltb 0 t.active_subscribers
    then record t { active_subscribers = t.active_subscribers - 1 }
    else t
