-- ===== src/Topic/Crash/Recovery.antt =====
-- What the next process finds after a death in the locked section of a publisher.
use com_ipc.Common.{
  ℕ, zero, suc, ◌%◌, ◌^◌, ◌<◌, ◌≡◌, refl, ◌∙◌, List, [], ◌∷◌, take, length, set, get_or, length-set,
  arith, ap, ok, lock_robust, owner_dead, true,
}
use com_ipc.Types.{MessageHeader, TopicShm, buffer_size, zero_header}
use com_ipc.Topic.{Shm, Call, stamp, enqueue, post}
use com_ipc.Topic.Ring.{
  IsValid, IsUsable, newest, get_or-set_self, newest-enqueue_usable, enqueue-IsValid_usable,
}
use com_ipc.Topic.Crash.{Write, to_header, count_up, advance, section, run, Death, died, all_died}

-- A property that each of the writes keeps.
abbrev pub Keep : (TopicShm → Type 0) → List Write → Type 0
Keep V [] = Unit {0}
Keep V (f ∷ fs) = ((t : TopicShm) → V t → V (f t)) × Keep V fs

pub Keep-run :
    (V : TopicShm → Type 0) (k : ℕ) (fs : List Write) (t : TopicShm)
    → Keep V fs
    → V t
    → V (run (take k fs) t)
Keep-run V zero fs t s v = v
Keep-run V (suc k) [] t s v = v
Keep-run V (suc k) (f ∷ fs) t s v = Keep-run V k fs (f t) s.1 (s.0 t v)

to_header-IsUsable :
    (slot : ℕ) (f : MessageHeader → MessageHeader) (t : TopicShm)
    → IsUsable t
    → IsUsable (to_header slot f t)
to_header-IsUsable slot f t v = record {
  slots = length-set t.buffer slot _ ∙ v.slots;
  index_bound = v.index_bound;
  seq_bound = v.seq_bound;
}

section-Keep : (size type offset now slot : ℕ) → Keep IsUsable (section size type offset now slot)
section-Keep size type offset now slot = (
  λ t v. record { slots = v.slots; index_bound = v.index_bound; seq_bound = omega arith },
  (
    λ t. to_header-IsUsable slot (λ h. record h { seq = t.seq }) t,
    (
      to_header-IsUsable slot (λ h. record h { timestamp = now }),
      (
        to_header-IsUsable slot (λ h. record h { data_size = size % 2 ^ 32 }),
        (
          to_header-IsUsable slot (λ h. record h { type = type }),
          (
            to_header-IsUsable slot (λ h. record h { pool_offset = offset }),
            (
              λ t v. record { slots = v.slots; index_bound = omega arith; seq_bound = v.seq_bound },
              tt,
            ),
          ),
        ),
      ),
    ),
  ),
)

pub died-IsUsable : (d : Death) (t : TopicShm) → IsUsable t → IsUsable (died d t)
unfolding died
died-IsUsable d t v =
    Keep-run IsUsable d.steps _ t
      (section-Keep d.size d.type d.offset d.now (t.write_index % buffer_size)) v

pub all_died-IsUsable : (ds : List Death) (t : TopicShm) → IsUsable t → IsUsable (all_died ds t)
unfolding all_died
all_died-IsUsable [] t v = v
all_died-IsUsable (d ∷ ds) t v = all_died-IsUsable ds (died d t) (died-IsUsable d t v)

-- A row of deaths and the recovery from it: however many publishers in a row die anywhere in their
-- locked sections on a usable ring, the next publisher gets the lock of the dead owner, its message
-- is the newest then, under the next number, and the ring is valid.
pub post-all_died :
    (c : Call) (ds : List Death) (size type offset : ℕ) (s : Shm)
    → IsUsable s.topic
    → c.topic_lock ≡ owner_dead
    → (s' : Shm) × (post c size type offset (record s { topic = all_died ds s.topic })
        ≡ (ok true, s'))
      × (newest s'.topic ≡ stamp size type offset c.now (all_died ds s.topic))
      × (s'.pool ≡ s.pool)
      × IsValid s'.topic
unfolding post lock_robust
post-all_died c ds size type offset s v dead =
    let u : IsUsable (all_died ds s.topic) = all_died-IsUsable ds s.topic v in
    (
      record s { topic = enqueue size type offset c.now (all_died ds s.topic) },
      rw dead,
      newest-enqueue_usable size type offset c.now u,
      refl,
      enqueue-IsValid_usable size type offset c.now u,
    )

set-set {ℓ} : {A : Type ℓ} (xs : List A) (i : ℕ) (v w : A) → set (set xs i v) i w ≡ set xs i w
set-set [] i v w = refl
set-set (x ∷ xs) zero v w = refl
set-set (x ∷ xs) (suc i) v w = ap (λ r. x ∷ r) (set-set xs i v w)

to_header-to_header :
    (slot : ℕ) (g f : MessageHeader → MessageHeader) (t : TopicShm)
    → slot < length t.buffer
    → to_header slot g (to_header slot f t) ≡ to_header slot (λ h. g (f h)) t
to_header-to_header slot g f t h =
    let old : MessageHeader = get_or t.buffer slot zero_header in
    rw (
      get_or-set_self t.buffer slot (f old) zero_header h,
      set-set t.buffer slot (f old) (g (f old)),
    )

-- The writes of the section are all of `enqueue`, and no more.
pub section-enqueue :
    (size type offset now : ℕ) (t : TopicShm)
    → length t.buffer ≡ buffer_size
    → run (section size type offset now (t.write_index % buffer_size)) t
      ≡ enqueue size type offset now t
unfolding enqueue
section-enqueue size type offset now t l =
    let slot : ℕ = t.write_index % buffer_size in
    let u : TopicShm = count_up t in
    let inside : slot < length u.buffer = omega (arith, l) in
    let f1 : MessageHeader → MessageHeader = λ h. record h { seq = u.seq } in
    let f2 : MessageHeader → MessageHeader = λ h. record (f1 h) { timestamp = now } in
    let f3 : MessageHeader → MessageHeader = λ h. record (f2 h) { data_size = size % 2 ^ 32 } in
    let f4 : MessageHeader → MessageHeader = λ h. record (f3 h) { type = type } in
    ap advance (
      ap (to_header slot (λ h. record h { pool_offset = offset })) (
        ap (to_header slot (λ h. record h { type = type })) (
          ap (to_header slot (λ h. record h { data_size = size % 2 ^ 32 }))
            (to_header-to_header slot (λ h. record h { timestamp = now }) f1 u inside)
          ∙ to_header-to_header slot (λ h. record h { data_size = size % 2 ^ 32 }) f2 u inside)
        ∙ to_header-to_header slot (λ h. record h { type = type }) f3 u inside)
      ∙ to_header-to_header slot (λ h. record h { pool_offset = offset }) f4 u inside)
