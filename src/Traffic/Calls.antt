-- ===== src/Traffic/Calls.antt =====
-- The calls of a publisher, whole or cut short, keep the memory safe: a valid pool, and a ring whose
-- newest message lies inside it.
use com_ipc.Common.{
  ℕ, ◌+◌, ◌%◌, ◌^◌, ◌≤◌, ◌≡◌, refl, inl, inr, List, [], ◌∷◌, Result, ok, throw, length, arith, Bool,
  true, lock_robust, not, ◌||◌, Bool-cases, leb,
}
use mathlib.Core.Path.{subst}
use com_ipc.Types.{TopicShm}
use com_ipc.Pool.{Pool, pool_size, deposit, deposits, get_offset, write}
use com_ipc.Pool.Bounds
use com_ipc.Pool.Bounds.{reserve_bounds, allocate_cases, deposit_cases, deposit_ok}
use com_ipc.Topic.{Shm, Call, enqueue, post, publish_raw, publish_loaned}
use com_ipc.Topic.Ring.{
  IsUsable, newest, newest-enqueue_usable, enqueue-IsValid_usable, IsValid-IsUsable,
}
use com_ipc.Topic.Crash.{Death, died}
use com_ipc.Topic.Crash.Recovery.{died-IsUsable}
use com_ipc.Topic.Crash.Newest.{died_cases}
use com_ipc.Traffic.{died_with, died_after}

-- A block inside the pool, and the payload of a header as one.
abbrev pub Inside : (pointer size : ℕ) → Type 0
Inside pointer size = pointer + size ≤ pool_size

-- A ring that can be used and whose newest message lies inside the pool.
abbrev pub IsSound : TopicShm → Type 0
IsSound t = IsUsable t × Inside (newest t).pool_offset (newest t).data_size

pub record IsSafe (m : Shm) : Type 0 where
  pub pool : Bounds.IsValid m.pool
  pub topic : IsSound m.topic

enqueue-IsSound :
    (size type offset now : ℕ) (t : TopicShm)
    → Inside offset size
    → IsSound t
    → IsSound (enqueue size type offset now t)
enqueue-IsSound size type offset now t i (u, _) = (
  IsValid-IsUsable (enqueue-IsValid_usable size type offset now u),
  rw (newest-enqueue_usable size type offset now u) (omega (arith, i)),
)

died-IsSound : (d : Death) (t : TopicShm) → Inside d.offset d.size → IsSound t → IsSound (died d t)
died-IsSound d t i (u, n) = elim (died_cases d t u) [
  | inl (_, e) ↦ (died-IsUsable d t u, rw e n)
  | inr (_, e) ↦ rw e (enqueue-IsSound d.size d.type d.offset d.now t i (u, n))
]

deposit-IsValid :
    (ret : ℕ) (bs : List ℕ) (p : Pool) → Bounds.IsValid p → Bounds.IsValid (deposit ret bs p).1
unfolding write
deposit-IsValid ret bs p v = elim (deposit_cases ret bs p) [
  | inl (_, e) ↦ rw e v
  | inr (h, e) ↦
      let (_, _, _, w) = reserve_bounds (length bs) v h in
      rw e (record { inside = w.inside; aligned = w.aligned })
]

pub deposits-IsValid :
    (calls : List (ℕ × List ℕ)) (p : Pool) → Bounds.IsValid p → Bounds.IsValid (deposits calls p)
unfolding deposits
deposits-IsValid [] p v = v
deposits-IsValid ((ret, bs) ∷ calls) p v =
    deposits-IsValid calls (deposit ret bs p).1 (deposit-IsValid ret bs p v)

post-IsSafe :
    (c : Call) (size type offset : ℕ) (m : Shm)
    → Inside offset size
    → IsSafe m
    → IsSafe (post c size type offset m).1
unfolding post
post-IsSafe c size type offset m i v = go (lock_robust c.topic_lock)
  where
    go :
        (r : Result Bool)
        → IsSafe (
            (elim r as (λ _. Result Bool × Shm) [
              | ok _ ↦ (ok true, record m { topic = enqueue size type offset c.now m.topic })
              | throw e ↦ (throw e, m)
            ]).1)
    go (ok _) = record {
      pool = v.pool;
      topic = enqueue-IsSound size type offset c.now m.topic i v.topic;
    }
    go (throw e) = v

pub publish_raw-IsSafe :
    (c : Call) (bytes : List ℕ) (type : ℕ) (m : Shm)
    → IsSafe m
    → IsSafe (publish_raw c bytes type m).1
unfolding publish_raw
publish_raw-IsSafe c bytes type m v = elim (Bool-cases (not c.mapped || c.shutdown)) [
  | inl e ↦ rw e v
  | inr e ↦ rw e (go (deposit c.pool_lock bytes m.pool) refl)
]
  where
    go :
        (d : Result ℕ × Pool)
        → deposit c.pool_lock bytes m.pool ≡ d
        → IsSafe (
            (elim d.0 as (λ _. Result Bool × Shm) [
              | ok offset ↦ post c (length bytes) type offset (record m { pool = d.1 })
              | throw e ↦ (throw e, record m { pool = d.1 })
            ]).1)
    go (ok offset, p) e =
        let (i, _, _, w, _) = deposit_ok c.pool_lock bytes v.pool e in
        post-IsSafe c (length bytes) type offset (record m { pool = p }) i
          (record { pool = w; topic = v.topic })
    go (throw err, p) e =
        let w : Bounds.IsValid (deposit c.pool_lock bytes m.pool).1 =
          deposit-IsValid c.pool_lock bytes m.pool v.pool in
        record { pool = subst (λ (d : Result ℕ × Pool). Bounds.IsValid d.1) e w; topic = v.topic }

pub publish_loaned-IsSafe :
    (c : Call) (pointer size type : ℕ) (m : Shm)
    → Inside pointer size
    → IsSafe m
    → IsSafe (publish_loaned c pointer size type m).1
unfolding publish_loaned get_offset
publish_loaned-IsSafe c pointer size type m i v = elim (Bool-cases (not c.mapped || c.shutdown)) [
  | inl e ↦ rw e v
  | inr e ↦ rw e (elim (Bool-cases (leb pool_size pointer)) [
    | inl l ↦ rw l v
    | inr l ↦ rw l (post-IsSafe c size type (pointer % 2 ^ 32) m (omega (arith, i)) v)
  ])
]

pub died_with-IsSafe :
    (offset size type now steps : ℕ) (m : Shm)
    → Inside offset size
    → IsSafe m
    → IsSafe (died_with offset size type now steps m)
died_with-IsSafe offset size type now steps m i v = record {
  pool = v.pool;
  topic =
      died-IsSound (record { size = size; type = type; offset = offset; now = now; steps = steps })
        m.topic i v.topic;
}

pub died_after-IsSafe :
    (ret : ℕ) (bytes : List ℕ) (type now steps : ℕ) (m : Shm)
    → IsSafe m
    → IsSafe (died_after (length bytes) type now steps (deposit ret bytes m.pool) m)
died_after-IsSafe ret bytes type now steps m v = go (deposit ret bytes m.pool) refl
  where
    go :
        (d : Result ℕ × Pool)
        → deposit ret bytes m.pool ≡ d
        → IsSafe (died_after (length bytes) type now steps d m)
    go (ok offset, p) e =
        let (i, _, _, w, _) = deposit_ok ret bytes v.pool e in
        died_with-IsSafe offset (length bytes) type now steps (record m { pool = p }) i
          (record { pool = w; topic = v.topic })
    go (throw err, p) e =
        let w : Bounds.IsValid (deposit ret bytes m.pool).1 =
          deposit-IsValid ret bytes m.pool v.pool in
        record { pool = subst (λ (d : Result ℕ × Pool). Bounds.IsValid d.1) e w; topic = v.topic }
