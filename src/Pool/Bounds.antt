-- ===== src/Pool/Bounds.antt =====
-- Blocks of the pool: aligned, inside the data area, and no request that fits is refused.
use com_ipc.Common.{
  List, length, Error, Result, ◌⊎◌, inl, inr, ltb, Bool-cases, ◌==◌, owner_dead, ℕ, ◌+◌, ◌%◌, ◌≤◌,
  ◌<◌, ◌≡◌, ap, refl, ok, throw, size_exceeds_pool, lock_robust, lock_failed, ◌≢◌, arith,
}
use mathlib.Core.Path.{subst}
use com_ipc.Common.Bytes.{load-store_self}
use com_ipc.Common.{sym, ◌∙◌}
use com_ipc.Pool.{read, Pool, pool_size, align8, place, reserve, allocate, deposit, write}

-- The cursor stays inside the pool and on a multiple of 8.
pub record IsValid (p : Pool) : Type 0 where
  pub inside : p.head_offset ≤ pool_size
  pub aligned : p.head_offset % 8 ≡ 0

pub align8_bounds :
    (size : ℕ)
    → size ≤ pool_size
    → (size ≤ align8 size)
      × (align8 size < size + 8)
      × (align8 size % 8 ≡ 0)
      × (align8 size ≤ pool_size)
align8_bounds size h = omega arith

pub place_lem :
    (head size : ℕ)
    → head ≤ pool_size
    → size ≤ pool_size
    → ((head + size ≤ pool_size) × (place head size ≡ head))
      ⊎ ((pool_size < head + size) × (place head size ≡ 0))
place_lem head size h k = ground arith

-- A block that is reserved is aligned, lies inside the pool, ends at the cursor, and keeps the
-- pool valid.
pub reserve_bounds :
    {p : Pool} (size : ℕ)
    → IsValid p
    → size ≤ pool_size
    → let (offset, q) = reserve size p in
      (offset + size ≤ pool_size)
      × (offset % 8 ≡ 0)
      × (q.head_offset ≡ offset + align8 size)
      × IsValid q
unfolding reserve
reserve_bounds {p} size v h =
    ground (arith, align8_bounds size h, place_lem p.head_offset (align8 size))

-- `allocate` throws exactly for a request over the pool size and for a lock that cannot be had,
-- and leaves the pool as it was; any other request gets its block.
pub allocate_cases :
    (ret size : ℕ) (p : Pool)
    → ((pool_size < size) × (allocate ret size p ≡ (throw size_exceeds_pool, p)))
      ⊎ ((size ≤ pool_size)
          × (ret ≢ 0)
          × (ret ≢ owner_dead)
          × (allocate ret size p ≡ (throw (lock_failed ret), p)))
      ⊎ ((size ≤ pool_size)
          × ((ret ≡ 0) ⊎ (ret ≡ owner_dead))
          × (allocate ret size p ≡ (ok (reserve size p).0, (reserve size p).1)))
unfolding allocate lock_robust
allocate_cases ret size p = elim (Bool-cases (ltb pool_size size)) [
  | inl h ↦ inl (ground arith, rw h)
  | inr h ↦ inr (elim (Bool-cases (ret == owner_dead)) [
    | inl d ↦ inr (ground arith, inr (ground arith), rw (h, d))
    | inr d ↦ elim (Bool-cases (ret == 0)) [
      | inl z ↦ inr (ground arith, inl (ground arith), rw (h, d, z))
      | inr z ↦ inl (ground arith, ground arith, ground arith, rw (h, d, z))
    ]
  ])
]

-- What `deposit` does: nothing, or the bytes stand in a block of their own.
pub deposit_cases :
    (ret : ℕ) (bs : List ℕ) (p : Pool)
    → ((e : Error) × (deposit ret bs p ≡ (throw e, p)))
      ⊎ ((length bs ≤ pool_size)
          × (deposit ret bs p ≡ (
            ok (reserve (length bs) p).0,
            write (reserve (length bs) p).0 bs (reserve (length bs) p).1,
          )))
unfolding deposit
deposit_cases ret bs p = elim (allocate_cases ret (length bs) p) [
  | inl (_, e) ↦ inl (size_exceeds_pool, ground arith)
  | inr (inl (_, _, _, e)) ↦ inl (lock_failed ret, ground arith)
  | inr (inr (h, _, e)) ↦ inr (h, ground arith)
]

-- A successful `deposit` in a valid pool returns an aligned block inside the data area that ends
-- before the cursor and holds the bytes, and leaves the pool valid.
pub deposit_ok :
    (ret : ℕ) (bs : List ℕ) {p q : Pool} {offset : ℕ}
    → IsValid p
    → deposit ret bs p ≡ (ok offset, q)
    → (offset + length bs ≤ pool_size)
      × (offset % 8 ≡ 0)
      × (q.head_offset ≡ offset + align8 (length bs))
      × IsValid q
      × (read offset (length bs) q ≡ bs)
unfolding write reserve
deposit_ok ret bs {p} {q} {offset} v e = elim (deposit_cases ret bs p) [
  | inl (_, f) ↦ cc
  | inr (h, f) ↦ done h (sym f ∙ e)
]
  where
    room : Pool
    room = (reserve (length bs) p).1

    block : ℕ
    block = (reserve (length bs) p).0

    Good : Result ℕ × Pool → Type 0
    Good (ok o, r) =
        (o + length bs ≤ pool_size)
        × (o % 8 ≡ 0)
        × (r.head_offset ≡ o + align8 (length bs))
        × IsValid r
        × (read o (length bs) r ≡ bs)
    Good (throw _, r) = Unit {0}

    done :
        length bs ≤ pool_size
        → ◌≡◌ {A = Result ℕ × Pool} (ok block, write block bs room) (ok offset, q)
        → Good (ok offset, q)
    done h g = subst Good g (
        let (a, b, c, d) = reserve_bounds (length bs) v h in
        (
          a,
          b,
          c,
          record { inside = d.inside; aligned = d.aligned },
          load-store_self room.bytes block bs,
        ))

-- With the mutex free every request that fits the pool gets a block.
deposit_free :
    (bs : List ℕ) (p : Pool)
    → length bs ≤ pool_size
    → deposit 0 bs p
      ≡ (ok (reserve (length bs) p).0, write (reserve (length bs) p).0 bs (reserve (length bs) p).1)
unfolding deposit
deposit_free bs p h = elim (allocate_cases 0 (length bs) p) [
  | inl (g, _) ↦ absurd (omega arith)
  | inr (inl (_, n, _, _)) ↦ absurd (n refl)
  | inr (inr (_, _, e)) ↦ ground arith
]

first_place : (size : ℕ) → place 0 size ≡ 0
first_place size = ground arith

-- In a pool whose offset is 0 the block is the first.
pub deposit_first :
    (bs : List ℕ) (p : Pool)
    → p.head_offset ≡ 0
    → length bs ≤ pool_size
    → (q : Pool) × (deposit 0 bs p ≡ (ok 0, q)) × (read 0 (length bs) q ≡ bs)
unfolding reserve write
deposit_first bs p z h =
    let first : (reserve (length bs) p).0 ≡ 0 =
      ap (λ (k : ℕ). place k (align8 (length bs))) z ∙ first_place (align8 (length bs)) in
    let q : Pool = write (reserve (length bs) p).0 bs (reserve (length bs) p).1 in
    (
      q,
      deposit_free bs p h ∙ ap (λ (o : ℕ). (ok o, q)) first,
      ap (λ (o : ℕ). read o (length bs) q) (sym first)
          ∙ load-store_self (reserve (length bs) p).1.bytes (reserve (length bs) p).0 bs,
    )
