-- ===== src/Topic/Ring.antt =====
-- The ring of headers: which slot is the newest, and what the ring still holds.
use com_ipc.Common.{
  ℕ, zero, suc, ◌+◌, ◌-◌, ◌%◌, ◌^◌, ◌<◌, ◌≡◌, refl, List, [], ◌∷◌, length, set, get_or, arith,
  length-set, ◌∙◌, ◌≢◌, ap,
}
use com_ipc.Types.{MessageHeader, TopicShm, buffer_size, zero_header, new_topic}
use com_ipc.Topic.{enqueue, stamp}

-- The slot `(write_index - 1) % BUFFER_SIZE` that a subscriber reads; `uint32_t` wraps at 0.
abbrev pub newest_slot : TopicShm → ℕ
newest_slot t = ((t.write_index + 2 ^ 32 - 1) % 2 ^ 32) % buffer_size

abbrev pub newest : TopicShm → MessageHeader
newest t = get_or t.buffer (newest_slot t) zero_header

-- The counters are 32-bit, the ring has its slots, and the newest header has the topic's number.
pub record IsValid (t : TopicShm) : Type 0 where
  pub slots : length t.buffer ≡ buffer_size
  pub index_bound : t.write_index < 2 ^ 32
  pub seq_bound : t.seq < 2 ^ 32
  pub numbered : (newest t).seq ≡ t.seq

-- What of it outlives the death of a publisher: the slots, and the bounds of the counters.
pub record IsUsable (t : TopicShm) : Type 0 where
  pub slots : length t.buffer ≡ buffer_size
  pub index_bound : t.write_index < 2 ^ 32
  pub seq_bound : t.seq < 2 ^ 32

pub IsValid-IsUsable : {t : TopicShm} → IsValid t → IsUsable t
IsValid-IsUsable v = record {
  slots = v.slots;
  index_bound = v.index_bound;
  seq_bound = v.seq_bound;
}

pub new_topic-IsValid : IsValid new_topic
new_topic-IsValid = record {
  slots = refl;
  index_bound = omega arith;
  seq_bound = omega arith;
  numbered = refl;
}

pub get_or-set_self {ℓ} :
    {A : Type ℓ} (xs : List A) (i : ℕ) (v d : A) → i < length xs → get_or (set xs i v) i d ≡ v
get_or-set_self [] i v d h = absurd (omega arith)
get_or-set_self (x ∷ xs) zero v d h = refl
get_or-set_self (x ∷ xs) (suc i) v d h = get_or-set_self xs i v d (omega arith)

pub get_or-set_ne {ℓ} :
    {A : Type ℓ} (xs : List A) (i j : ℕ) (v d : A) → i ≢ j → get_or (set xs i v) j d ≡ get_or xs j d
get_or-set_ne [] i j v d h = refl
get_or-set_ne (x ∷ xs) zero zero v d h = absurd (h refl)
get_or-set_ne (x ∷ xs) zero (suc j) v d h = refl
get_or-set_ne (x ∷ xs) (suc i) zero v d h = refl
get_or-set_ne (x ∷ xs) (suc i) (suc j) v d h = get_or-set_ne xs i j v d (λ e. h (ap suc e))

-- The slot that is read after a message is the slot that the message went to, also where the
-- 32-bit `write_index` wraps.
slot_after :
    (w : ℕ)
    → w < 2 ^ 32
    → (((w + 1) % 2 ^ 32 + 2 ^ 32 - 1) % 2 ^ 32) % buffer_size ≡ w % buffer_size
slot_after w h = omega arith

-- The header that a subscriber reads next.
pub newest-enqueue_usable :
    (size type offset now : ℕ) {t : TopicShm}
    → IsUsable t
    → newest (enqueue size type offset now t) ≡ stamp size type offset now t
unfolding enqueue
newest-enqueue_usable size type offset now {t} v =
    rw (slot_after t.write_index v.index_bound) (
      get_or-set_self t.buffer (t.write_index % buffer_size) _ zero_header (omega (arith, v.slots)))

pub newest-enqueue :
    (size type offset now : ℕ) {t : TopicShm}
    → IsValid t
    → newest (enqueue size type offset now t) ≡ stamp size type offset now t
newest-enqueue size type offset now v =
    newest-enqueue_usable size type offset now (IsValid-IsUsable v)

-- A message makes the ring well-formed, also where a publisher died before it: its slots, the
-- 32-bit counters, and the number of the newest header, which is the topic's.
pub enqueue-IsValid_usable :
    (size type offset now : ℕ) {t : TopicShm}
    → IsUsable t
    → IsValid (enqueue size type offset now t)
unfolding enqueue
enqueue-IsValid_usable size type offset now {t} v = record {
  slots = length-set t.buffer _ _ ∙ v.slots;
  index_bound = omega arith;
  seq_bound = omega arith;
  numbered = ap (λ (h : MessageHeader). h.seq) (newest-enqueue_usable size type offset now v);
}

pub enqueue-IsValid :
    (size type offset now : ℕ) {t : TopicShm} → IsValid t → IsValid (enqueue size type offset now t)
enqueue-IsValid size type offset now v =
    enqueue-IsValid_usable size type offset now (IsValid-IsUsable v)

-- The ring against the list of all headers of the topic, the newest first: the last
-- `BUFFER_SIZE` of them are still in their slots.
pub record Holds (t : TopicShm) (history : List MessageHeader) : Type 0 where
  pub room : length t.buffer ≡ buffer_size
  pub count : t.write_index ≡ length history
  pub kept :
      (k : ℕ)
      → k < buffer_size
      → k < length history
      → get_or t.buffer ((t.write_index - 1 - k) % buffer_size) zero_header
        ≡ get_or history k zero_header

pub new_topic-Holds : Holds new_topic []
new_topic-Holds = record { room = refl; count = refl; kept = λ k p q. absurd (omega arith) }

kept-enqueue :
    (h : MessageHeader) (t : TopicShm) (history : List MessageHeader)
    → Holds t history
    → (k : ℕ) → k < buffer_size
    → k < suc (length history)
    → get_or
        (set t.buffer (t.write_index % buffer_size) h)
        ((t.write_index + 1 - 1 - k) % buffer_size)
        zero_header
      ≡ get_or (h ∷ history) k zero_header
kept-enqueue h t history v zero p q =
    let same : (t.write_index + 1 - 1 - 0) % buffer_size ≡ t.write_index % buffer_size =
      omega arith in
    rw same
      (get_or-set_self t.buffer (t.write_index % buffer_size) h zero_header (omega (arith, v.room)))
kept-enqueue h t history v (suc k) p q =
    let same : (t.write_index + 1 - 1 - suc k) % buffer_size
        ≡ (t.write_index - 1 - k) % buffer_size =
      omega arith in
    rw same (
      get_or-set_ne t.buffer (t.write_index % buffer_size) ((t.write_index - 1 - k) % buffer_size) h
        zero_header (omega (arith, v.count))
      ∙ v.kept k (omega arith) (omega arith))

-- Each message joins the history in front, and no slot of the `BUFFER_SIZE` newest is lost, until
-- the 32-bit `write_index` wraps.
pub enqueue-Holds :
    (size type offset now : ℕ) {t : TopicShm} {history : List MessageHeader}
    → Holds t history
    → suc (length history) < 2 ^ 32
    → Holds (enqueue size type offset now t) (stamp size type offset now t ∷ history)
unfolding enqueue
enqueue-Holds size type offset now {t} {history} v short =
    let next : (t.write_index + 1) % 2 ^ 32 ≡ t.write_index + 1 = omega (arith, v.count) in
    record {
      room = length-set t.buffer _ _ ∙ v.room;
      count = omega (arith, v.count);
      kept = rw next (kept-enqueue (stamp size type offset now t) t history v);
    }
