-- ===== src/Subscriber/Ends.antt =====
-- How a receiving call of src/subscriber.cpp ends, over whatever holds of each topic that it finds.
use com_ipc.Common.{
  ℕ, zero, suc, ◌<◌, ◌≡◌, refl, ◌⊎◌, inl, inr, List, [], ◌∷◌, Bool, true, false, not, ◌||◌, Option,
  none, Result, ok, throw, lock_robust, timed_out, ◌==◌, Error, Bool-cases, arith,
}
use com_ipc.Common.Int.{ℤ, pos, negsuc}
use com_ipc.Types.{TopicShm}
use com_ipc.Subscriber.{
  Subscriber, Wake, Scene, Waited, ready, gave_up, waiting, idle, await, after_wait, Reply, done,
  failed, blocked, receive_with, on_wake, on_block,
}

-- `V` holds of every topic that a call can find.
abbrev pub AllWakes : (V : TopicShm → Type 0) → List Wake → Type 0
AllWakes V [] = Unit {0}
AllWakes V (w ∷ ws) = V w.topic × AllWakes V ws

abbrev pub Finds : (V : TopicShm → Type 0) → Scene → Type 0
Finds V e = V e.topic × AllWakes V e.wakes

-- The loop ends with a topic that has a message behind the cursor, or at a shutdown.
abbrev Left : (V : TopicShm → Type 0) → ℕ → Waited → Type 0
Left V last_seq (ready t shutdown) = V t × ((last_seq < t.seq) ⊎ (shutdown ≡ true))
Left V last_seq gave_up = Unit {0}
Left V last_seq waiting = Unit {0}

Left-ready :
    (V : TopicShm → Type 0) (last_seq : ℕ) (t : TopicShm) (shutdown : Bool)
    → V t
    → idle last_seq t shutdown ≡ false
    → Left V last_seq (ready t shutdown)
Left-ready V last_seq t shutdown v e = (v, ground arith)

Left-on_wake :
    (V : TopicShm → Type 0) (last_seq ret : ℕ) (timeout_ms : ℤ) (w : Waited)
    → Left V last_seq w
    → Left V last_seq (on_wake timeout_ms ret w)
Left-on_wake V last_seq ret (pos zero) w h = tt
Left-on_wake V last_seq ret (pos (suc ms)) w h = elim (Bool-cases (ret == timed_out)) [
  | inl e ↦ rw e tt
  | inr e ↦ rw e h
]
Left-on_wake V last_seq ret (negsuc ms) w h = h

Left-on_block :
    (V : TopicShm → Type 0) (last_seq : ℕ) (timeout_ms : ℤ) → Left V last_seq (on_block timeout_ms)
Left-on_block V last_seq (pos zero) = tt
Left-on_block V last_seq (pos (suc ms)) = tt
Left-on_block V last_seq (negsuc ms) = tt

await-Left :
    (V : TopicShm → Type 0) (last_seq : ℕ) (timeout_ms : ℤ) (t : TopicShm) (shutdown : Bool)
    (wakes : List Wake)
    → V t
    → AllWakes V wakes
    → Left V last_seq (await last_seq timeout_ms t shutdown wakes)
unfolding await
await-Left V last_seq timeout_ms t shutdown [] v vs = elim (Bool-cases (idle last_seq t shutdown)) [
  | inl e ↦ rw e (Left-on_block V last_seq timeout_ms)
  | inr e ↦ rw e (Left-ready V last_seq t shutdown v e)
]
await-Left V last_seq timeout_ms t shutdown (w ∷ wakes) v vs =
    elim (Bool-cases (idle last_seq t shutdown)) [
      | inl e ↦ rw e (
          Left-on_wake V last_seq w.ret timeout_ms _
            (await-Left V last_seq timeout_ms w.topic w.shutdown wakes vs.0 vs.1))
      | inr e ↦ rw e (Left-ready V last_seq t shutdown v e)
    ]

-- The four ways in which a receiving call ends: with nothing and the cursor as it was, by an
-- exception, blocked, or with what `take` makes of such a topic that is ahead of the cursor.
module _ (V : TopicShm → Type 0) {A : Type 0} (take : TopicShm → Subscriber × Option A)
    (s : Subscriber) where
  abbrev pub Ends : Reply (Subscriber × Option A) → Type 0
  Ends r =
      (r ≡ done (s, none))
      ⊎ ((e : Error) × (r ≡ failed e))
      ⊎ (r ≡ blocked)
      ⊎ ((t : TopicShm) × V t × (s.last_seq < t.seq) × (r ≡ done (take t)))

  after_wait-Ends : (w : Waited) → Left V s.last_seq w → Ends (after_wait s take w)
  unfolding after_wait
  after_wait-Ends (ready t true) h = inl refl
  after_wait-Ends (ready t false) (v, inl h) = inr (inr (inr (t, v, h, refl)))
  after_wait-Ends (ready t false) (v, inr h) = cc
  after_wait-Ends gave_up h = inl refl
  after_wait-Ends waiting h = inr (inr (inl refl))

  pub receive_with-Ends :
      (timeout_ms : ℤ) (e : Scene) → Finds V e → Ends (receive_with s timeout_ms e take)
  unfolding receive_with
  receive_with-Ends timeout_ms e v = elim (Bool-cases (not s.mapped || e.shutdown)) [
    | inl h ↦ rw h (inl refl)
    | inr h ↦ rw h (locked (lock_robust e.lock))
  ]
    where
      left : Left V s.last_seq (await s.last_seq timeout_ms e.topic e.shutdown e.wakes)
      left = await-Left V s.last_seq timeout_ms e.topic e.shutdown e.wakes v.0 v.1

      locked :
          (r : Result Bool)
          → Ends (elim r [
            | throw err ↦ failed err
            | ok _ ↦ after_wait s take (await s.last_seq timeout_ms e.topic e.shutdown e.wakes)
          ])
      locked (ok _) = after_wait-Ends _ left
      locked (throw err) = inr (inl (err, refl))
