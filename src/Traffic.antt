-- ===== src/Traffic.antt =====
-- The life of a topic and of the pool that its payloads are in: what any number of processes do to
-- them, one call of src/publisher.cpp, src/subscriber.cpp or src/memory_pool.cpp at a time, with
-- processes that die in the locked section of a publisher.
pub mod Calls
pub mod Safety
use com_ipc.Common.{ℕ, ◌+◌, ◌≤◌, ◌≡◌, List, [], ◌∷◌, Result, ok, throw, length, arith}
use mathlib.Core.List.{Memᴰ}
use com_ipc.Types.{TopicShm}
use com_ipc.Pool.{Pool, deposit, deposits}
use com_ipc.Topic.{Shm, Call, publish_raw, loan_raw, publish_loaned}
use com_ipc.Topic.Crash.{Death, died}
use com_ipc.Subscriber.{detach}

-- The memory, and the blocks that `loanRaw` has lent out, by pointer and size.
pub record State : Type 0 where
  pub shm : Shm
  pub loans : List (ℕ × ℕ)

abbrev pub lent : ℕ → Result ℕ × Shm → State → State
lent size (ok pointer, m) s = record { shm = m; loans = (pointer, size) ∷ s.loans }
lent size (throw e, m) s = record { shm = m; loans = s.loans }

-- A publisher that dies in publishRaw once it has its block.
abbrev pub died_with : ℕ → (size type now steps : ℕ) → Shm → Shm
died_with offset size type now steps m = record m {
  topic =
      died (record { size = size; type = type; offset = offset; now = now; steps = steps }) m.topic;
}

abbrev pub died_after : (size type now steps : ℕ) → Result ℕ × Pool → Shm → Shm
died_after size type now steps (ok offset, p) m =
    died_with offset size type now steps (record m { pool = p })
died_after size type now steps (throw e, p) m = record m { pool = p }

-- A call of any process. A loan may be published as often as its holder likes, and with any part of
-- its size. `deposits` are those of other topics and services.
pub data Step (s : State) : State → Type 0 where
  publishes :
      (c : Call) (bytes : List ℕ) (type : ℕ)
      → Step s (record s { shm = (publish_raw c bytes type s.shm).1 })
  lends : (c : Call) (size : ℕ) → Step s (lent size (loan_raw c size s.shm) s)
  publishes_loan :
      (c : Call) (pointer room size type : ℕ)
      → Memᴰ (pointer, room) s.loans
      → size ≤ room
      → Step s (record s { shm = (publish_loaned c pointer size type s.shm).1 })
  dies :
      (ret : ℕ) (bytes : List ℕ) (type now steps : ℕ)
      → Step s (record s {
        shm = died_after (length bytes) type now steps (deposit ret bytes s.shm.pool) s.shm;
      })
  dies_with_loan :
      (pointer room size type now steps : ℕ)
      → Memᴰ (pointer, room) s.loans
      → size ≤ room
      → Step s (record s { shm = died_with pointer size type now steps s.shm })
  others :
      (calls : List (ℕ × List ℕ))
      → Step s (record s { shm = record s.shm { pool = deposits calls s.shm.pool } })
  joins : Step s (record s {
    shm = record s.shm {
      topic = record s.shm.topic { active_subscribers = s.shm.topic.active_subscribers + 1 };
    };
  })
  leaves : Step s (record s { shm = record s.shm { topic = detach s.shm.topic } })

-- What can come of a state.
pub data Reach (s : State) : State → Type 0 where
  here : Reach s s
  then_one : {t u : State} → Reach s t → Step t u → Reach s u
