-- ===== src/Subscriber/Liveness.antt =====
-- When the receivers of src/subscriber.cpp return.
use com_ipc.Common.{
  ◌⊎◌, ℕ, zero, suc, ◌-◌, ◌^◌, ◌≤◌, ◌<◌, ◌≡◌, ◌≢◌, refl, inl, inr, List, [], ◌∷◌, ◌++◌, Bool, true,
  false, ◌&&◌, not, Option, none, some, lock_robust, timed_out, arith, Bool-cases,
}
use com_ipc.Common.Int.{ℤ, pos, negsuc}
use com_ipc.Types.{TopicShm}
use com_ipc.Pool.{Pool}
use com_ipc.Topic.Ring.{IsValid, newest}
use com_ipc.Subscriber.{
  Subscriber, Wake, Scene, Waited, gave_up, ready, await, after_wait, Reply, done, receive_with,
  LoanedMessage, loan, receive_loaned, Round, async_loop, failed, blocked, receive_raw, copy_out,
  waiting,
}
use com_ipc.Subscriber.Wait.{SceneIsValid, RoundsAreValid}
use com_ipc.Subscriber.Ends.{receive_with-Ends}

-- A wake-up that leaves the receiver waiting: nothing newer, no shutdown, and no time-out.
abbrev pub IsIdle : ℕ → Wake → Type 0
IsIdle last_seq w = (w.topic.seq ≤ last_seq) × (w.shutdown ≡ false) × (w.ret ≢ timed_out)

abbrev pub AreIdle : ℕ → List Wake → Type 0
AreIdle last_seq [] = Unit {0}
AreIdle last_seq (w ∷ ws) = IsIdle last_seq w × AreIdle last_seq ws

-- The wake-up finds a newer message.
abbrev pub IsNews : ℕ → Wake → Type 0
IsNews last_seq w = (last_seq < w.topic.seq) × (w.shutdown ≡ false) × (w.ret ≢ timed_out)

await_news :
    (last_seq : ℕ) (timeout_ms : ℤ) (t : TopicShm) (idle : List Wake) (w : Wake) (rest : List Wake)
    → timeout_ms ≢ pos 0
    → t.seq ≤ last_seq
    → AreIdle last_seq idle
    → IsNews last_seq w
    → await last_seq timeout_ms t false (idle ++ w ∷ rest) ≡ ready w.topic false
unfolding await
await_news last_seq (pos zero) t ws w rest h a i n = absurd (h refl)
await_news last_seq (pos (suc ms)) t [] w [] h a i n = ground arith
await_news last_seq (pos (suc ms)) t [] w (w' ∷ rest) h a i n = ground arith
await_news last_seq (negsuc ms) t [] w [] h a i n = ground arith
await_news last_seq (negsuc ms) t [] w (w' ∷ rest) h a i n = ground arith
await_news last_seq (pos (suc ms)) t (v ∷ ws) w rest h a i n =
    ground (arith, i.0, await_news last_seq (pos (suc ms)) v.topic ws w rest h i.0.0 i.1 n)
await_news last_seq (negsuc ms) t (v ∷ ws) w rest h a i n =
    ground (arith, i.0, await_news last_seq (negsuc ms) v.topic ws w rest h i.0.0 i.1 n)

-- A receiver on a mapped topic that has the lock and waits, with any time-out but 0, returns the
-- newest message of the topic at the first wake-up that finds one newer than its cursor, if no
-- shutdown and no time-out was seen by then.
pub receive_loaned_news :
    (s : Subscriber) (timeout_ms : ℤ) (t : TopicShm) (ws : List Wake) (w : Wake) (rest : List Wake)
    → (pool : Pool) → s.mapped ≡ true
    → timeout_ms ≢ pos 0
    → t.seq ≤ s.last_seq
    → AreIdle s.last_seq ws
    → IsNews s.last_seq w
    → receive_loaned s timeout_ms
        (record { shutdown = false; topic = t; lock = 0; wakes = ws ++ w ∷ rest; pool = pool })
      ≡ done (loan s (newest w.topic))
unfolding receive_loaned receive_with after_wait lock_robust
receive_loaned_news s timeout_ms t ws w rest pool m h a i n =
    rw (m, await_news s.last_seq timeout_ms t ws w rest h a i n)

-- Nothing is newer than the last number.
receive_loaned_saturated :
    (s s' : Subscriber) (timeout_ms : ℤ) (e : Scene) (m : Option LoanedMessage)
    → s.last_seq ≡ 2 ^ 32 - 1
    → SceneIsValid e
    → receive_loaned s timeout_ms e ≡ done (s', m)
    → (m ≡ none) × (s' ≡ s)
unfolding receive_loaned
receive_loaned_saturated s s' timeout_ms e m sat v h =
    elim (receive_with-Ends IsValid (λ t. loan s (newest t)) s timeout_ms e v) [
      | inl f ↦ (ground arith, ground arith)
      | inr (inl (_, f)) ↦ cc
      | inr (inr (inl f)) ↦ cc
      | inr (inr (inr (t, valid, newer, _))) ↦ absurd (omega (arith, valid.seq_bound, sat, newer))
    ]

-- Once a subscriber has taken the message with number 2^32 - 1, its callback is never called again,
-- whatever valid topics its rounds find.
pub async_loop_saturated :
    (s : Subscriber) (rounds : List Round)
    → s.last_seq ≡ 2 ^ 32 - 1
    → RoundsAreValid rounds
    → async_loop s rounds ≡ []
unfolding async_loop
async_loop_saturated s [] sat v = refl
async_loop_saturated s (r ∷ rounds) sat v = elim (Bool-cases (r.running && not r.scene.shutdown)) [
  | inr e ↦ rw e
  | inl e ↦
      rw e (go (async_loop_saturated s rounds sat v.1) (receive_loaned s (pos 500) r.scene) refl)
]
  where
    go :
        async_loop s rounds ≡ []
        → (x : Reply (Subscriber × Option LoanedMessage)) → receive_loaned s (pos 500) r.scene ≡ x
        → (elim x [
          | done (s', some m) ↦ m ∷ async_loop s' rounds
          | done (s', none) ↦ async_loop s' rounds
          | failed e ↦ []
          | blocked ↦ []
        ])
          ≡ []
    go ih (done (s', some m)) h =
        let (e, _) = receive_loaned_saturated s s' (pos 500) r.scene (some m) sat v.0 h in cc
    go ih (done (s', none)) h =
        let (_, same) = receive_loaned_saturated s s' (pos 500) r.scene none sat v.0 h in rw same ih
    go ih (failed e) h = refl
    go ih blocked h = refl

-- The time-out is 0, or it is positive and some wake-up reports that it is over.
abbrev pub Expires : ℤ → List Wake → Type 0
Expires (pos zero) ws = Unit {0}
Expires (pos (suc ms)) [] = ⊥
Expires (pos (suc ms)) (w ∷ ws) = (w.ret ≡ timed_out) ⊎ Expires (pos (suc ms)) ws
Expires (negsuc ms) ws = ⊥

await_returns :
    (last_seq : ℕ) (timeout_ms : ℤ) (t : TopicShm) (shutdown : Bool) (ws : List Wake)
    → Expires timeout_ms ws
    → await last_seq timeout_ms t shutdown ws ≢ waiting
unfolding await
await_returns last_seq (pos zero) t shutdown [] x = ground arith
await_returns last_seq (pos zero) t shutdown (w ∷ ws) x = ground arith
await_returns last_seq (pos (suc ms)) t shutdown [] x = absurd x
await_returns last_seq (pos (suc ms)) t shutdown (w ∷ ws) (inl e) = ground arith
await_returns last_seq (pos (suc ms)) t shutdown (w ∷ ws) (inr x) =
    ground (arith, await_returns last_seq (pos (suc ms)) w.topic w.shutdown ws x)
await_returns last_seq (negsuc ms) t shutdown ws x = absurd x

after_wait_returns :
    {A : Type 0} (s : Subscriber) (take : TopicShm → Subscriber × Option A) (w : Waited)
    → w ≢ waiting
    → after_wait s take w ≢ blocked
unfolding after_wait
after_wait_returns s take (ready t true) h = cc
after_wait_returns s take (ready t false) h = cc
after_wait_returns s take gave_up h = cc
after_wait_returns s take waiting h = absurd (h refl)

receive_with_returns :
    {A : Type 0} (s : Subscriber) (timeout_ms : ℤ) (e : Scene)
    (take : TopicShm → Subscriber × Option A)
    → Expires timeout_ms e.wakes
    → receive_with s timeout_ms e take ≢ blocked
unfolding receive_with
receive_with_returns s timeout_ms e take x = ground (
  arith,
  after_wait_returns s take (await s.last_seq timeout_ms e.topic e.shutdown e.wakes)
      (await_returns s.last_seq timeout_ms e.topic e.shutdown e.wakes x),
)

-- Both receivers come back, whatever the other processes do: at once for a time-out of 0, and for a
-- positive one at the latest when a wake-up reports that it is over.
pub receive_returns :
    (s : Subscriber) (size : ℕ) (timeout_ms : ℤ) (e : Scene)
    → Expires timeout_ms e.wakes
    → (receive_raw s size timeout_ms e ≢ blocked) × (receive_loaned s timeout_ms e ≢ blocked)
unfolding receive_raw receive_loaned
receive_returns s size timeout_ms e x = (
  receive_with_returns s timeout_ms e (λ t. copy_out s size e.pool (newest t)) x,
  receive_with_returns s timeout_ms e (λ t. loan s (newest t)) x,
)
