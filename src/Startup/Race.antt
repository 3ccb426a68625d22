-- ===== src/Startup/Race.antt =====
-- Two processes that set up the memory pool at the same time: the constructor of MemoryPool
-- (src/memory_pool.cpp), with another process between its calls.
use com_ipc.Common.{
  ℕ, ◌≤◌, ◌≡◌, refl, ap, ◌∙◌, List, length, true, ok, some, none, pool_mmap_failed,
}
use com_ipc.Common.Bytes.{Memory}
use com_ipc.Posix.{Posix, pool_shm}
use com_ipc.Pool.{Pool, pool_size, deposit, init, read}
use com_ipc.Pool.Bounds.{deposit_first}
use com_ipc.Startup.{Stores, Mapping, pool_name, open_pool, init_pool, mapped, memory_pool}
use com_ipc.Startup.Joining.{KeepsFile}

module _ (P : Posix) (S : Stores P) where
  open P use {Os, shm_open_new, ftruncate, mmap}
  open S use {load_pool, store_pool}

  -- A process that joins while the creator of the pool is between creating the file and
  -- initialising it, where the kernel refuses nothing: it gets the block at offset 0 for its bytes,
  -- then the creator resets the offset, and the next message of at most the pool's size, of any
  -- process, gets the block at offset 0 as well, over those bytes.
  pub join_early :
      (bytes : Memory) (k : KeepsFile P pool_shm pool_name load_pool store_pool (init bytes))
      (os : Os) (bs later : List ℕ)
      → k.content os ≡ none
      → length bs ≤ pool_size
      → length later ≤ pool_size
      → (fd : ℕ) × (os1 : Os) × (open_pool P S (shm_open_new pool_name os) ≡ (ok (true, fd), os1))
        × (it : Mapping) × (os2 : Os) × (memory_pool P S os1 ≡ (ok it, os2))
        × (p : Pool) × (deposit 0 bs (load_pool it.address os2) ≡ (ok 0, p))
        × (creator : Mapping) × (os3 : Os) × (mapped P S pool_mmap_failed
              (init_pool P S)
              true
              fd
              (mmap fd pool_shm (store_pool it.address p os2))
            ≡ (ok creator, os3))
        × (q : Pool) × (k.content os3 ≡ some q)
        × (r : Pool) × (deposit 0 later q ≡ (ok 0, r))
        × (read 0 (length later) r ≡ later)
  unfolding memory_pool open_pool
  join_early bytes k os bs later e h fits =
      let (fd, os1, f, g) = k.open_new_absent os e in
      let created = (ftruncate fd pool_shm os1).1 in
      let sized = k.keeps_ftruncate fd os1 ∙ g in
      let (os2, f2, g2) = k.open_new_present created (init bytes) sized in
      let (fd2, os3, f3, g3) = k.open_present os2 (init bytes) g2 in
      let (a, os4, f4, _, l4, w4) = k.mmap_present fd2 os3 (init bytes) g3 in
      let (p, d, _) = deposit_first bs (load_pool a os4) (ap (λ (x : Pool). x.head_offset) l4) h in
      let (a5, os5, f5, _, l5, w5) = k.mmap_present fd (store_pool a p os4) p (w4 p) in
      let q : Pool = record (load_pool a5 os5) { head_offset = 0 } in
      let (r, d2, kept) = deposit_first later q refl fits in
      (
        fd,
        created,
        rw f,
        record { shm_fd = fd2; address = a },
        os4,
        rw (f2, f3, f4),
        p,
        d,
        record { shm_fd = fd; address = a5 },
        init_pool P S a5 os5,
        rw f5,
        q,
        w5 q,
        r,
        d2,
        kept,
      )
