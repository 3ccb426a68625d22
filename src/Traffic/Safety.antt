-- ===== src/Traffic/Safety.antt =====
-- Where the payloads of a topic lie, whatever its processes do and wherever they die.
use com_ipc.Common.{
  ℕ, ◌+◌, ◌≤◌, ◌≡◌, sym, inl, inr, [], Result, ok, throw, arith, Bool-cases, Option, none, some,
  leb, ltb, ap,
}
use mathlib.Core.List.{Memᴰ}
use mathlib.Core.List.Memᴰ
use mathlib.Core.Path.{subst}
use com_ipc.Common.Int.{ℤ}
use com_ipc.Types.{MessageHeader, TopicShm, header_size, new_topic}
use com_ipc.Pool.{Pool, pool_size, allocate, get_pointer}
use com_ipc.Pool.Bounds
use com_ipc.Pool.Bounds.{reserve_bounds, allocate_cases, deposit_cases, deposit_ok}
use com_ipc.Topic.{Shm, Call, loan_raw}
use com_ipc.Topic.Ring.{new_topic-IsValid, newest, IsValid-IsUsable}
use com_ipc.Subscriber.{
  detach, Subscriber, Scene, LoanedMessage, loan, receive_loaned, receive_raw, Frame, copy_out,
  done, failed, blocked, Reply,
}
use com_ipc.Subscriber.Ends.{Finds, receive_with-Ends}
use com_ipc.Traffic.{
  State, Step, Reach, lent, publishes, lends, publishes_loan, dies, dies_with_loan, others, joins,
  leaves, here, then_one,
}
use com_ipc.Traffic.Calls.{
  Inside, IsSound, IsSafe, deposits-IsValid, publish_raw-IsSafe, publish_loaned-IsSafe,
  died_with-IsSafe, died_after-IsSafe,
}

-- The memory is safe, and what is lent out lies inside the pool.
pub record IsSafeState (s : State) : Type 0 where
  pub memory : IsSafe s.shm
  pub loans : (pointer room : ℕ) → Memᴰ (pointer, room) s.loans → Inside pointer room

detach-IsSound : (t : TopicShm) → IsSound t → IsSound (detach t)
unfolding detach
detach-IsSound t (u, i) = elim (Bool-cases (ltb 0 t.active_subscribers)) [
  | inl e ↦
      rw e (record { slots = u.slots; index_bound = u.index_bound; seq_bound = u.seq_bound }, i)
  | inr e ↦ rw e (u, i)
]

lent-IsSafeState :
    (c : Call) (size : ℕ) (s : State)
    → IsSafeState s
    → IsSafeState (lent size (loan_raw c size s.shm) s)
unfolding loan_raw
lent-IsSafeState c size s v = elim (allocate_cases c.pool_lock size s.shm.pool) [
  | inl (_, e) ↦ back (sym e) unchanged
  | inr (inl (_, _, _, e)) ↦ back (sym e) unchanged
  | inr (inr (h, _, e)) ↦
      let (i, _, _, w) = reserve_bounds size v.memory.pool h in
      back (sym e) (record {
        memory = record { pool = w; topic = v.memory.topic };
        loans = λ pointer room l. elim (Memᴰ.cases_cons l) [
          | inl same ↦ rw (ap (λ (b : ℕ × ℕ). b.0) same, ap (λ (b : ℕ × ℕ). b.1) same) i
          | inr old ↦ v.loans pointer room old
        ];
      })
]
  where
    After : Result ℕ × Pool → Type 0
    After (r, p) = IsSafeState (
        lent size
          (elim r as (λ _. Result ℕ × Shm) [
            | ok offset ↦ (ok (get_pointer offset), record s.shm { pool = p })
            | throw e ↦ (throw e, record s.shm { pool = p })
          ])
          s)

    back :
        {d : Result ℕ × Pool}
        → d ≡ allocate c.pool_lock size s.shm.pool
        → After d
        → After (allocate c.pool_lock size s.shm.pool)
    back e a = subst After e a

    unchanged : IsSafeState s
    unchanged = v

Step-IsSafeState : {s t : State} → Step s t → IsSafeState s → IsSafeState t
Step-IsSafeState {s} (publishes c bytes type) v = record {
  memory = publish_raw-IsSafe c bytes type s.shm v.memory;
  loans = v.loans;
}
Step-IsSafeState {s} (lends c size) v = lent-IsSafeState c size s v
Step-IsSafeState {s} (publishes_loan c pointer room size type l b) v =
    let i : Inside pointer size = omega (arith, v.loans pointer room l) in
    record { memory = publish_loaned-IsSafe c pointer size type s.shm i v.memory; loans = v.loans }
Step-IsSafeState {s} (dies ret bytes type now steps) v = record {
  memory = died_after-IsSafe ret bytes type now steps s.shm v.memory;
  loans = v.loans;
}
Step-IsSafeState {s} (dies_with_loan pointer room size type now steps l b) v =
    let i : Inside pointer size = omega (arith, v.loans pointer room l) in
    record {
      memory = died_with-IsSafe pointer size type now steps s.shm i v.memory;
      loans = v.loans;
    }
Step-IsSafeState {s} (others calls) v = record {
  memory = record {
    pool = deposits-IsValid calls s.shm.pool v.memory.pool;
    topic = v.memory.topic;
  };
  loans = v.loans;
}
Step-IsSafeState {s} joins v =
    let (u, i) = v.memory.topic in
    record {
      memory = record {
        pool = v.memory.pool;
        topic =
            (record { slots = u.slots; index_bound = u.index_bound; seq_bound = u.seq_bound }, i);
      };
      loans = v.loans;
    }
Step-IsSafeState {s} leaves v = record {
  memory = record { pool = v.memory.pool; topic = detach-IsSound s.shm.topic v.memory.topic };
  loans = v.loans;
}

pub Reach-IsSafeState : {s t : State} → Reach s t → IsSafeState s → IsSafeState t
Reach-IsSafeState here v = v
Reach-IsSafeState (then_one r x) v = Step-IsSafeState x (Reach-IsSafeState r v)

-- The memory of a new topic on a valid pool, with nothing lent out.
pub new_topic-IsSafeState :
    (p : Pool)
    → Bounds.IsValid p
    → IsSafeState (record { shm = record { pool = p; topic = new_topic }; loans = [] })
new_topic-IsSafeState p v = record {
  memory = record { pool = v; topic = (IsValid-IsUsable new_topic-IsValid, omega arith) };
  loans = λ pointer room l. elim l [ ];
}

-- A topic that the processes can come to.
abbrev pub Comes : State → TopicShm → Type 0
Comes s t = (u : State) × Reach s u × (u.shm.topic ≡ t)

Comes-IsSound : {s : State} (t : TopicShm) → IsSafeState s → Comes s t → IsSound t
Comes-IsSound t v (u, r, e) = subst IsSound e (Reach-IsSafeState r v).memory.topic

-- What a return gives away lies inside the pool, and what it copies inside the caller's buffer.
abbrev pub LoanInside : Reply (Subscriber × Option LoanedMessage) → Type 0
LoanInside (done (sub, some m)) = m.pointer + m.size ≤ pool_size
LoanInside (done (sub, none)) = Unit {0}
LoanInside (failed e) = Unit {0}
LoanInside blocked = Unit {0}

abbrev pub CopyInside : ℕ → Reply (Subscriber × Option Frame) → Type 0
CopyInside size (done (sub, some f)) =
    (f.header.pool_offset + f.header.data_size ≤ pool_size)
    × (header_size + f.header.data_size ≤ size)
CopyInside size (done (sub, none)) = Unit {0}
CopyInside size (failed e) = Unit {0}
CopyInside size blocked = Unit {0}

copy_out-CopyInside :
    (sub : Subscriber) (size : ℕ) (p : Pool) (g : MessageHeader)
    → Inside g.pool_offset g.data_size
    → CopyInside size (done (copy_out sub size p g))
unfolding copy_out
copy_out-CopyInside sub size p g i = elim (Bool-cases (leb (header_size + g.data_size) size)) [
  | inl b ↦ rw b (i, ground arith)
  | inr b ↦ rw b tt
]

-- What a receiver is given or copies lies inside the pool, and what it copies inside its buffer,
-- whatever the processes of the topic do, wherever publishers die, and whatever the receiver finds
-- of it at each of its looks: from memory that is safe on, and as long as a publisher of a loan
-- keeps to the block that was lent.
pub received_inside :
    (s : State) (sub : Subscriber) (size : ℕ) (timeout_ms : ℤ) (e : Scene)
    → IsSafeState s
    → Finds (Comes s) e
    → LoanInside (receive_loaned sub timeout_ms e)
      × CopyInside size (receive_raw sub size timeout_ms e)
unfolding receive_loaned receive_raw
received_inside s sub size timeout_ms e v found = (
  elim (receive_with-Ends (Comes s) (λ t. loan sub (newest t)) sub timeout_ms e found) [
    | inl f ↦ rw f tt
    | inr (inl (_, f)) ↦ rw f tt
    | inr (inr (inl f)) ↦ rw f tt
    | inr (inr (inr (t, w, n, f))) ↦ rw f (Comes-IsSound t v w).1
  ],
  elim (receive_with-Ends (Comes s) (λ t. copy_out sub size e.pool (newest t)) sub timeout_ms e
      found) [
        | inl f ↦ rw f tt
        | inr (inl (_, f)) ↦ rw f tt
        | inr (inr (inl f)) ↦ rw f tt
        | inr (inr (inr (t, w, n, f))) ↦
            rw f (copy_out-CopyInside sub size e.pool (newest t) (Comes-IsSound t v w).1)
      ],
)
