-- ===== src/Pool.antt =====
-- The shared memory pool: inc/memory_pool.h and src/memory_pool.cpp. `head_offset` and the data
-- area are the state; an address is its distance from the start of the data area. `size_t` and
-- `uint32_t` keep their wrap-around. An operation returns its result and the pool after it.
pub mod Bounds
pub mod Survival
use com_ipc.Common.{
  ℕ, ◌+◌, ◌*◌, ◌/◌, ◌%◌, ◌^◌, List, [], ◌∷◌, Result, ok, throw, size_exceeds_pool, not_from_pool,
  lock_robust, ltb, leb, if◌then◌else◌, length,
}
use com_ipc.Common.Bytes.{Memory, store, load}

-- `POOL_SIZE`: 100 MB.
abbrev pub pool_size : ℕ
pool_size = 100 * 1024 * 1024

-- `MemoryPoolShm`, without its mutex, and the data area behind it.
pub record Pool : Type 0 where
  pub head_offset : ℕ
  pub bytes : Memory

-- What the constructor leaves when it creates the segment: the mapped bytes and offset 0.
abbrev pub init : Memory → Pool
init m = record { head_offset = 0; bytes = m }

-- `(size + 7) & ~7` on `size_t`: the next multiple of 8.
abbrev pub align8 : ℕ → ℕ
align8 size = ((size + 7) % 2 ^ 64) / 8 * 8

-- The offset of a block of `size` aligned bytes: 0 if the rest of the pool is too small.
abbrev pub place : ℕ → ℕ → ℕ
place head size = if ltb pool_size ((head + size) % 2 ^ 64) then 0 else head

-- What `allocate` does once it holds the mutex.
pub reserve : ℕ → Pool → ℕ × Pool
reserve size p =
    let offset = place p.head_offset (align8 size) in
    (offset, record p { head_offset = (offset + align8 size) % 2 ^ 32 })

-- `allocate`, over what `pthread_mutex_lock` returned.
unfoldable pub allocate : ℕ → ℕ → Pool → Result ℕ × Pool
unfolding reserve lock_robust
allocate ret size p =
    if ltb pool_size size then (throw size_exceeds_pool, p) else elim (lock_robust ret) [
      | ok _ ↦ (let (offset, q) = reserve size p in (ok offset, q))
      | throw e ↦ (throw e, p)
    ]

-- `getPointer`: a pointer is the offset of the byte that it points at.
abbrev pub get_pointer : ℕ → ℕ
get_pointer offset = offset

-- `getOffset` of a pointer into the data area, or past it. (A pointer below the area is refused
-- too; it is no number here.)
unfoldable pub get_offset : ℕ → Result ℕ
get_offset p = if leb pool_size p then throw not_from_pool else ok (p % 2 ^ 32)

-- `memcpy` into the block at `offset`, and out of it.
unfoldable pub write : ℕ → List ℕ → Pool → Pool
write offset bs p = record p { bytes = store p.bytes offset bs }

-- `allocate`, `getPointer` and `memcpy`, as every sender of raw data does.
unfoldable pub deposit : ℕ → List ℕ → Pool → Result ℕ × Pool
unfolding allocate write
deposit ret bs p =
    let (r, q) = allocate ret (length bs) p in
    elim r [ ok offset ↦ (ok offset, write (get_pointer offset) bs q) | throw e ↦ (throw e, q) ]

-- A sequence of such calls, each with what its `pthread_mutex_lock` returned.
unfoldable pub deposits : List (ℕ × List ℕ) → Pool → Pool
unfolding deposit
deposits [] p = p
deposits ((ret, bs) ∷ rest) p = deposits rest (deposit ret bs p).1

abbrev pub read : ℕ → ℕ → Pool → List ℕ
read offset n p = load p.bytes offset n
