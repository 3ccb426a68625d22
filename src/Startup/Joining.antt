-- ===== src/Startup/Joining.antt =====
-- Processes that construct SystemManager and MemoryPool one after another.
use com_ipc.Common.{ℕ, ◌≡◌, sym, ap, ◌∙◌, List, Option, some, none, ok, inl, inr, Option-cases}
use com_ipc.Common.Bytes.{Memory}
use com_ipc.Posix.{Posix, opened, refused, eexist, Segment, manager_shm, pool_shm}
use com_ipc.Manager.{SystemManagerShm, new_manager}
use com_ipc.Pool.{Pool, init}
use com_ipc.Startup.{
  Stores, Mapping, mgr_name, pool_name, open_manager, open_pool, init_manager, init_pool,
  system_manager, memory_pool,
}

-- The kernel's promises about the file of a segment that holds an `A`, where nothing fails: it is
-- created once, with zeroed memory; sizing, opening and mapping keep its content; and a mapping
-- reads and writes it.
pub record KeepsFile {A : Type 0} (P : Posix) (kind : Segment) (name : List ℕ) (load : ℕ → P.Os → A)
    (store : ℕ → A → P.Os → P.Os) (zeroed : A) : Type 0 where
  pub content : P.Os → Option A
  pub open_new_absent :
      (os : P.Os)
      → content os ≡ none
      → (fd : ℕ) × (os' : P.Os) × (P.shm_open_new name os ≡ (opened fd, os'))
        × (content os' ≡ some zeroed)
  pub open_new_present :
      (os : P.Os) (x : A)
      → content os ≡ some x
      → (os' : P.Os) × (P.shm_open_new name os ≡ (refused eexist, os')) × (content os' ≡ some x)
  pub open_present :
      (os : P.Os) (x : A)
      → content os ≡ some x
      → (fd : ℕ) × (os' : P.Os) × (P.shm_open name os ≡ (opened fd, os')) × (content os' ≡ some x)
  pub keeps_ftruncate : (fd : ℕ) (os : P.Os) → content (P.ftruncate fd kind os).1 ≡ content os
  pub mmap_present :
      (fd : ℕ) (os : P.Os) (x : A)
      → content os ≡ some x
      → (a : ℕ) × (os' : P.Os) × (P.mmap fd kind os ≡ (some a, os'))
        × (content os' ≡ some x)
        × (load a os' ≡ x)
        × ((y : A) → content (store a y os') ≡ some y)

-- What a file holds, or what a new one starts with.
abbrev pub found_or : {A : Type 0} → A → Option A → A
found_or a none = a
found_or a (some x) = x

module _ (P : Posix) (S : Stores P) where
  open P use {Os, ftruncate}
  open S use {load_manager, store_manager, load_pool, store_pool}

  -- The manager of a process, where the kernel refuses nothing: the first process to construct it
  -- finds no file and sets up the empty registry, and every later one finds the registry as the
  -- others have left it. Neither throws.
  pub system_manager_joins :
      (k : KeepsFile P manager_shm mgr_name load_manager store_manager new_manager) (os : Os)
      → (it : Mapping) × (os' : Os) × (system_manager P S os ≡ (ok it, os'))
        × (k.content os' ≡ some (found_or new_manager (k.content os)))
  unfolding system_manager open_manager
  system_manager_joins k os = elim (Option-cases (k.content os)) [
    | inl e ↦
        (let (fd, os1, f, g) = k.open_new_absent os e in
          let sized = k.keeps_ftruncate fd os1 ∙ g in
          let (a, os2, h, _, l, written) =
            k.mmap_present fd (ftruncate fd manager_shm os1).1 new_manager sized in
          let reset = λ (m : SystemManagerShm). record m { topic_count = 0; service_count = 0 } in
          (
            record { shm_fd = fd; address = a },
            init_manager P S a os2,
            rw (f, h),
            ap (λ m. k.content (store_manager a (reset m) os2)) l
                ∙ written new_manager
                ∙ ap (λ c. some (found_or new_manager c)) (sym e),
          ))
    | inr (m, e) ↦
        (let (os1, f, g) = k.open_new_present os m e in
          let (fd, os2, h, i) = k.open_present os1 m g in
          let (a, os3, j, l, _, _) = k.mmap_present fd os2 m i in
          (record { shm_fd = fd; address = a }, os3, rw (f, h, j), rw e l))
  ]

  -- The same of the pool: the first process starts the pool at offset 0, and no later one moves its
  -- offset or touches its bytes.
  pub memory_pool_joins :
      (bytes : Memory) (k : KeepsFile P pool_shm pool_name load_pool store_pool (init bytes))
      (os : Os)
      → (it : Mapping) × (os' : Os) × (memory_pool P S os ≡ (ok it, os'))
        × (k.content os' ≡ some (found_or (init bytes) (k.content os)))
  unfolding memory_pool open_pool
  memory_pool_joins bytes k os = elim (Option-cases (k.content os)) [
    | inl e ↦
        (let (fd, os1, f, g) = k.open_new_absent os e in
          let sized = k.keeps_ftruncate fd os1 ∙ g in
          let (a, os2, h, _, l, written) =
            k.mmap_present fd (ftruncate fd pool_shm os1).1 (init bytes) sized in
          (
            record { shm_fd = fd; address = a },
            init_pool P S a os2,
            rw (f, h),
            ap (λ (p : Pool). k.content (store_pool a (record p { head_offset = 0 }) os2)) l
                ∙ written (init bytes)
                ∙ ap (λ c. some (found_or (init bytes) c)) (sym e),
          ))
    | inr (p, e) ↦
        (let (os1, f, g) = k.open_new_present os p e in
          let (fd, os2, h, i) = k.open_present os1 p g in
          let (a, os3, j, l, _, _) = k.mmap_present fd os2 p i in
          (record { shm_fd = fd; address = a }, os3, rw (f, h, j), rw e l))
  ]
