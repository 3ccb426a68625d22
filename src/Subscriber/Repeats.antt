-- ===== src/Subscriber/Repeats.antt =====
-- What subscribers see after a publisher has died in its locked section.
use com_ipc.Common.{
  ℕ, ◌+◌, ◌^◌, ◌<◌, ◌≤◌, ◌≡◌, refl, ◌∙◌, List, [], ◌∷◌, length, arith, ap, lock_robust, owner_dead,
  true, false, replicate, ◌⊎◌, inl, inr, some, none, not, Option, ◌&&◌,
}
use com_ipc.Common.Int.{ℤ, pos}
use com_ipc.Types.{TopicShm}
use com_ipc.Topic.Ring.{IsValid, IsValid-IsUsable, newest}
use com_ipc.Topic.Crash.{Death, died}
use com_ipc.Topic.Crash.Newest.{died_cases, died-seq}
use com_ipc.Subscriber.{
  Subscriber, Scene, LoanedMessage, loaned, loan, receive_loaned, receive_with, await, after_wait,
  done, failed, blocked, ready, Reply, Wake, Round, async_loop,
}

-- A round that runs and finds a topic before the next message, with a lock that can be had.
abbrev pub Sees : TopicShm → List Round → Type 0
Sees t [] = Unit {0}
Sees t (r ∷ rs) =
    (r.running ≡ true)
    × (r.scene.shutdown ≡ false)
    × (r.scene.topic ≡ t)
    × ((r.scene.lock ≡ 0) ⊎ (r.scene.lock ≡ owner_dead))
    × Sees t rs

await_ready :
    (last_seq : ℕ) (timeout_ms : ℤ) (t : TopicShm) (wakes : List Wake)
    → last_seq < t.seq
    → await last_seq timeout_ms t false wakes ≡ ready t false
unfolding await
await_ready last_seq timeout_ms t [] h = ground arith
await_ready last_seq timeout_ms t (w ∷ wakes) h = ground arith

-- A receiver that is behind the number of a topic takes its newest message at once.
receive_loaned_ready :
    (s : Subscriber) (ms : ℕ) (e : Scene)
    → s.mapped ≡ true
    → e.shutdown ≡ false
    → (e.lock ≡ 0) ⊎ (e.lock ≡ owner_dead)
    → s.last_seq < e.topic.seq
    → receive_loaned s (pos ms) e ≡ done (loan s (newest e.topic))
unfolding receive_loaned receive_with after_wait lock_robust
receive_loaned_ready s ms e m q l n =
    ground (arith, await_ready s.last_seq (pos ms) e.topic e.wakes n)

repeat :
    (s : Subscriber) (t : TopicShm) (rounds : List Round)
    → s.mapped ≡ true
    → s.last_seq < t.seq
    → (newest t).seq < t.seq
    → Sees t rounds
    → async_loop s rounds ≡ replicate (length rounds) (loaned (newest t))
unfolding async_loop
repeat s t [] m b n v = refl
repeat s t (r ∷ rounds) m b n (x, y, z, l, v) =
    let run : r.running && not r.scene.shutdown ≡ true = rw (x, y) refl in
    rw run (
      ap step (receive_loaned_ready s 500 r.scene m y l (rw z b))
      ∙ ap step (ap (λ u. done (loan s (newest u))) z)
      ∙ ap (λ ms. loaned (newest t) ∷ ms)
          (repeat (record s { last_seq = (newest t).seq }) t rounds m n n v))
  where
    step : Reply (Subscriber × Option LoanedMessage) → List LoanedMessage
    step a = elim a [
      | done (s', some m) ↦ m ∷ async_loop s' rounds
      | done (s', none) ↦ async_loop s' rounds
      | failed e ↦ []
      | blocked ↦ []
    ]

-- After a publisher has died between its first write and its last, and until the next message, a
-- subscriber that had every message before is called again with the newest of them in each of its
-- rounds that gets the lock.
pub async_loop-died :
    (d : Death) (t : TopicShm) (s : Subscriber) (rounds : List Round)
    → IsValid t
    → t.seq + 1 < 2 ^ 32
    → 1 ≤ d.steps
    → d.steps ≤ 6
    → s.mapped ≡ true
    → s.last_seq ≡ t.seq
    → Sees (died d t) rounds
    → async_loop s rounds ≡ replicate (length rounds) (loaned (newest t))
async_loop-died d t s rounds v short l h m at sees = elim (died_cases d t (IsValid-IsUsable v)) [
  | inr (late, _) ↦ absurd (omega arith)
  | inl (_, same) ↦
      let ahead : (died d t).seq ≡ t.seq + 1 = died-seq d t l h ∙ omega arith in
      repeat s (died d t) rounds m (omega (arith, ahead))
        (rw same (omega (arith, ahead, v.numbered))) sees
      ∙ ap (λ k. replicate (length rounds) (loaned k)) same
]
