-- ===== src/Router/Guard.antt =====
-- Shared memory behind a gateway: what its calls of src/publisher.cpp and its writes leave alone.
use com_ipc.Common.{ℕ, ◌≤◌, ◌≡◌, sym, ◌∙◌, inl, inr, List, Result, ok, throw, length, arith}
use mathlib.Core.Path.{subst}
use com_ipc.Common.Bytes.{Memory, store_outside}
use com_ipc.Pool.{Pool, pool_size, write, get_pointer}
use com_ipc.Pool.Bounds.{allocate_cases, reserve_bounds}
use com_ipc.Topic.{Shm, Call, post, loan_raw, publish_loaned}
use com_ipc.Traffic.Calls.{Inside, IsSafe, publish_loaned-IsSafe}

-- Safe memory with the bytes of `m` behind the data area.
pub record IsGuarded (m : Memory) (s : Shm) : Type 0 where
  pub safe : IsSafe s
  pub behind : (a : ℕ) → pool_size ≤ a → s.pool.bytes a ≡ m a

publish_loaned-pool :
    (c : Call) (pointer size type : ℕ) (s : Shm)
    → (publish_loaned c pointer size type s).1.pool ≡ s.pool
unfolding publish_loaned post
publish_loaned-pool c pointer size type s = ground arith

pub write-IsGuarded :
    {m : Memory} {s : Shm} (pointer size : ℕ) (bytes : List ℕ)
    → Inside pointer size
    → length bytes ≤ size
    → IsGuarded m s
    → IsGuarded m (record s { pool = write pointer bytes s.pool })
unfolding write
write-IsGuarded {m} {s} pointer size bytes i h v = record {
  safe = record {
    pool = record { inside = v.safe.pool.inside; aligned = v.safe.pool.aligned };
    topic = v.safe.topic;
  };
  behind =
      λ a p. store_outside s.pool.bytes pointer bytes a (inr (omega (arith, i))) ∙ v.behind a p;
}

pub publish_loaned-IsGuarded :
    {m : Memory} {s : Shm} (c : Call) (pointer size type : ℕ)
    → Inside pointer size
    → IsGuarded m s
    → IsGuarded m (publish_loaned c pointer size type s).1
publish_loaned-IsGuarded {m} {s} c pointer size type i v = record {
  safe = publish_loaned-IsSafe c pointer size type s i v.safe;
  behind = λ a p.
      subst (λ (q : Pool). q.bytes a ≡ m a) (sym (publish_loaned-pool c pointer size type s))
        (v.behind a p);
}

-- A block that is lent lies inside the pool.
pub loan_raw-IsGuarded :
    {m : Memory} {s : Shm} (c : Call) (size : ℕ)
    → IsGuarded m s
    → IsGuarded m (loan_raw c size s).1
      × ((ptr : ℕ) → (loan_raw c size s).0 ≡ ok ptr → Inside ptr size)
unfolding loan_raw
loan_raw-IsGuarded {m} {s} c size v = elim (allocate_cases c.pool_lock size s.pool) [
  | inl (_, e) ↦ subst After (sym e) (v, λ ptr h. cc)
  | inr (inl (_, _, _, e)) ↦ subst After (sym e) (v, λ ptr h. cc)
  | inr (inr (h, _, e)) ↦
      let (i, _, _, w) = reserve_bounds size v.safe.pool h in
      subst After (sym e) (
        record { safe = record { pool = w; topic = v.safe.topic }; behind = v.behind },
        λ ptr g. subst (λ (r : Result ℕ). Place r) g i,
      )
]
  where
    After : Result ℕ × Pool → Type 0
    After (r, p) =
        let d : Result ℕ × Shm = elim r as (λ _. Result ℕ × Shm) [
          | ok offset ↦ (ok (get_pointer offset), record s { pool = p })
          | throw e ↦ (throw e, record s { pool = p })
        ] in
        IsGuarded m d.1 × ((ptr : ℕ) → d.0 ≡ ok ptr → Inside ptr size)

    Place : Result ℕ → Type 0
    Place (ok ptr) = Inside ptr size
    Place (throw e) = Unit {0}
