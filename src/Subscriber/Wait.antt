-- ===== src/Subscriber/Wait.antt =====
-- What a return of a receiving call says: on a message it is newer than the cursor and the cursor
-- moves to it, on none the cursor stays.
use com_ipc.Common.{
  ℕ, ◌+◌, ◌≤◌, ◌<◌, ◌≡◌, refl, sym, ◌∙◌, ◌⊎◌, inl, inr, List, [], ◌∷◌, not, ◌&&◌, Option, none,
  some, leb, Bool-cases, arith,
}
use mathlib.Core.Path.{subst}
use com_ipc.Common.Int.{ℤ, pos}
use com_ipc.Types.{MessageHeader, TopicShm, header_size}
use com_ipc.Pool.{read}
use com_ipc.Topic.Ring.{IsValid, newest}
use com_ipc.Subscriber.Ends.{Finds, receive_with-Ends}
use com_ipc.Subscriber.{
  Subscriber, Scene, Reply, done, failed, blocked, Frame, copy_out, receive_raw, LoanedMessage,
  loan, loaned, receive_loaned, Round, async_loop,
}

-- Every topic that a call can find is valid.
abbrev pub SceneIsValid : Scene → Type 0
SceneIsValid e = Finds IsValid e

-- `receiveLoaned` returns true only with a message newer than the cursor, and then the cursor is at
-- that message; when it returns false the cursor is where it was.
pub receive_loaned_newer :
    (s s' : Subscriber) (timeout_ms : ℤ) (e : Scene) (m : Option LoanedMessage)
    → SceneIsValid e
    → receive_loaned s timeout_ms e ≡ done (s', m)
    → ((m ≡ none) × (s' ≡ s))
      ⊎ ((l : LoanedMessage) × (m ≡ some l)
          × (s.last_seq < l.seq)
          × (s'.last_seq ≡ l.seq)
          × (s'.mapped ≡ s.mapped))
unfolding receive_loaned
receive_loaned_newer s s' timeout_ms e m v h =
    elim (receive_with-Ends IsValid (λ t. loan s (newest t)) s timeout_ms e v) [
      | inl f ↦ inl (ground arith, ground arith)
      | inr (inl (_, f)) ↦ cc
      | inr (inr (inl f)) ↦ cc
      | inr (inr (inr (t, w, n, f))) ↦
          inr (loaned (newest t), ground arith, ground arith, ground arith, ground arith)
    ]

-- `receiveRaw` returns a frame only with a message newer than the cursor that fits the buffer, and
-- then the cursor is at that message and the payload is what the pool holds at its offset; when it
-- returns -1 the cursor is where it was.
pub receive_raw_newer :
    (s s' : Subscriber) (size : ℕ) (timeout_ms : ℤ) (e : Scene) (m : Option Frame)
    → SceneIsValid e
    → receive_raw s size timeout_ms e ≡ done (s', m)
    → ((m ≡ none) × (s' ≡ s))
      ⊎ ((f : Frame) × (m ≡ some f)
          × (s.last_seq < f.header.seq)
          × (s'.last_seq ≡ f.header.seq)
          × (header_size + f.header.data_size ≤ size)
          × (f.payload ≡ read f.header.pool_offset f.header.data_size e.pool))
unfolding receive_raw copy_out
receive_raw_newer s s' size timeout_ms e m v h =
    elim (receive_with-Ends IsValid (λ t. copy_out s size e.pool (newest t)) s timeout_ms e v) [
      | inl f ↦ inl (ground arith, ground arith)
      | inr (inl (_, f)) ↦ cc
      | inr (inr (inl f)) ↦ cc
      | inr (inr (inr (t, w, n, f))) ↦ fits t w n (sym f ∙ h)
    ]
  where
    frame : MessageHeader → Frame
    frame g = record { header = g; payload = read g.pool_offset g.data_size e.pool }

    fits :
        (t : TopicShm)
        → IsValid t
        → s.last_seq < t.seq
        → done (copy_out s size e.pool (newest t)) ≡ done (s', m)
        → ((m ≡ none) × (s' ≡ s))
          ⊎ ((f : Frame) × (m ≡ some f)
              × (s.last_seq < f.header.seq)
              × (s'.last_seq ≡ f.header.seq)
              × (header_size + f.header.data_size ≤ size)
              × (f.payload ≡ read f.header.pool_offset f.header.data_size e.pool))
    fits t w n g = elim (Bool-cases (leb (header_size + (newest t).data_size) size)) [
      | inr b ↦ inl (ground arith, ground arith)
      | inl b ↦
          inr
            (frame (newest t), ground arith, ground arith, ground arith, ground arith, ground arith)
    ]

-- The numbers of the messages rise, from above `b`.
abbrev pub Rising : ℕ → List LoanedMessage → Type 0
Rising b [] = Unit {0}
Rising b (m ∷ ms) = (b < m.seq) × Rising m.seq ms

abbrev pub RoundsAreValid : List Round → Type 0
RoundsAreValid [] = Unit {0}
RoundsAreValid (r ∷ rs) = SceneIsValid r.scene × RoundsAreValid rs

-- As long as every topic that a call of `asyncLoop` finds is valid, the callback gets each message at
-- most once, in the order of their numbers, and none that the subscriber had before. Valid means that
-- the newest header carries the topic's number, beside the bounds of the fields: no publisher has died
-- in its locked section without another one publishing since.
pub async_loop-Rising :
    (s : Subscriber) (rounds : List Round)
    → RoundsAreValid rounds
    → Rising s.last_seq (async_loop s rounds)
unfolding async_loop
async_loop-Rising s [] v = tt
async_loop-Rising s (r ∷ rounds) v = elim (Bool-cases (r.running && not r.scene.shutdown)) [
  | inr e ↦ rw e tt
  | inl e ↦
      rw e (go (λ s1. async_loop-Rising s1 rounds v.1) (receive_loaned s (pos 500) r.scene) refl)
]
  where
    go :
        ((s1 : Subscriber) → Rising s1.last_seq (async_loop s1 rounds))
        → (a : Reply (Subscriber × Option LoanedMessage)) → receive_loaned s (pos 500) r.scene ≡ a
        → Rising s.last_seq (elim a [
          | done (s', some m) ↦ m ∷ async_loop s' rounds
          | done (s', none) ↦ async_loop s' rounds
          | failed e ↦ []
          | blocked ↦ []
        ])
    go ih (done (s', some m)) e = elim (receive_loaned_newer s s' (pos 500) r.scene _ v.0 e) [
      | inl (f, _) ↦ cc
      | inr (l, f, n, c, _) ↦
          let at : s'.last_seq ≡ m.seq = ground arith in
          (ground arith, subst (λ k. Rising k (async_loop s' rounds)) at (ih s'))
    ]
    go ih (done (s', none)) e = elim (receive_loaned_newer s s' (pos 500) r.scene _ v.0 e) [
      | inl (_, f) ↦
          let at : s'.last_seq ≡ s.last_seq = ground arith in
          subst (λ k. Rising k (async_loop s' rounds)) at (ih s')
      | inr (l, f, _, _, _) ↦ cc
    ]
    go ih (failed err) e = tt
    go ih blocked e = tt
