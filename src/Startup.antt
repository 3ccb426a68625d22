-- ===== src/Startup.antt =====
-- How a process joins the system: the constructors, destructors and singletons of SystemManager
-- (src/system_manager.cpp) and MemoryPool (src/memory_pool.cpp), over any kernel. Initialising the
-- mutexes is left out.
pub mod Joining
pub mod Race
use com_ipc.Common.{
  ℕ, List, [], ◌∷◌, Bool, true, false, Option, some, none, Result, ok, throw, Error,
  mgr_open_failed, mgr_shm_open_failed, mgr_mmap_failed, pool_open_failed, pool_mmap_failed,
  if◌then◌else◌, ◌==◌,
}
use com_ipc.Posix.{Posix, Opened, opened, refused, eexist, Segment, manager_shm, pool_shm}
use com_ipc.Manager.{SystemManagerShm}
use com_ipc.Pool.{Pool}

-- The memory of the two segments.
pub record Stores (P : Posix) : Type 0 where
  pub load_manager : ℕ → P.Os → SystemManagerShm
  pub store_manager : ℕ → SystemManagerShm → P.Os → P.Os
  pub load_pool : ℕ → P.Os → Pool
  pub store_pool : ℕ → Pool → P.Os → P.Os

-- The fields of both classes.
pub record Mapping : Type 0 where
  pub shm_fd : ℕ
  pub address : ℕ

-- `SHM_MGR_NAME` and `SHM_POOL_NAME`: "/ros_ipc_mgr" and "/com_ipc_pool".
abbrev pub mgr_name : List ℕ
mgr_name = b'/' ∷ b'r' ∷ b'o' ∷ b's' ∷ b'_' ∷ b'i' ∷ b'p' ∷ b'c' ∷ b'_' ∷ b'm' ∷ b'g' ∷ b'r' ∷ []

abbrev pub pool_name : List ℕ
pool_name =
    b'/' ∷ b'c' ∷ b'o' ∷ b'm' ∷ b'_' ∷ b'i' ∷ b'p' ∷ b'c' ∷ b'_' ∷ b'p' ∷ b'o' ∷ b'o' ∷ b'l' ∷ []

module _ (P : Posix) (S : Stores P) where
  open P use {Os, shm_open_new, shm_open, ftruncate, mmap, munmap, close}
  open S use {load_manager, store_manager, load_pool, store_pool}

  -- A descriptor, and whether this process created the file.
  abbrev pub Descriptor : Type 0
  Descriptor = Result (Bool × ℕ) × Os

  -- The existing file, or the exception for a failure.
  abbrev pub existing : Error → Opened × Os → Descriptor
  existing e (opened fd, os) = (ok (false, fd), os)
  existing e (refused errno, os) = (throw e, os)

  -- The file of the manager: a failure of `ftruncate` is only printed.
  unfoldable pub open_manager : Opened × Os → Descriptor
  open_manager (opened fd, os) = (ok (true, fd), (ftruncate fd manager_shm os).1)
  open_manager (refused errno, os) =
      if errno == eexist
      then existing mgr_open_failed (shm_open mgr_name os)
      else (throw mgr_shm_open_failed, os)

  -- The file of the pool: any failure to create it leads to opening it.
  unfoldable pub open_pool : Opened × Os → Descriptor
  open_pool (opened fd, os) = (ok (true, fd), (ftruncate fd pool_shm os).1)
  open_pool (refused errno, os) = existing pool_open_failed (shm_open pool_name os)

  -- What the first creator writes.
  abbrev pub init_manager : ℕ → Os → Os
  init_manager address os =
      store_manager address
        (record (load_manager address os) { topic_count = 0; service_count = 0 }) os

  abbrev pub init_pool : ℕ → Os → Os
  init_pool address os = store_pool address (record (load_pool address os) { head_offset = 0 }) os

  -- Map the file, and initialise it if it is new.
  abbrev pub mapped : Error → (ℕ → Os → Os) → Bool → ℕ → Option ℕ × Os → Result Mapping × Os
  mapped e init is_first fd (none, os) = (throw e, os)
  mapped e init is_first fd (some a, os) =
      (ok (record { shm_fd = fd; address = a }), if is_first then init a os else os)

  abbrev pub map_opened : Error → Segment → (ℕ → Os → Os) → Descriptor → Result Mapping × Os
  map_opened e kind init (throw e', os) = (throw e', os)
  map_opened e kind init (ok (is_first, fd), os) = mapped e init is_first fd (mmap fd kind os)

  -- `SystemManager::SystemManager`
  unfoldable pub system_manager : Os → Result Mapping × Os
  unfolding open_manager
  system_manager os =
      map_opened mgr_mmap_failed manager_shm init_manager (open_manager (shm_open_new mgr_name os))

  -- `MemoryPool::MemoryPool`
  unfoldable pub memory_pool : Os → Result Mapping × Os
  unfolding open_pool
  memory_pool os =
      map_opened pool_mmap_failed pool_shm init_pool (open_pool (shm_open_new pool_name os))

  -- The destructors, which leave the files.
  abbrev pub unmap : Segment → Mapping → Os → Os
  unmap kind it os = close it.shm_fd (munmap it.address kind os)

  -- `instance()`: the object of the process is constructed once.
  abbrev pub first_instance : Result Mapping × Os → Result Mapping × Option Mapping × Os
  first_instance (ok it, os) = (ok it, some it, os)
  first_instance (throw e, os) = (throw e, none, os)

  abbrev pub instance_of :
      (Os → Result Mapping × Os) → Option Mapping → Os → Result Mapping × Option Mapping × Os
  instance_of construct (some it) os = (ok it, some it, os)
  instance_of construct none os = first_instance (construct os)

  -- `destroy()`
  abbrev pub destroy : Segment → Option Mapping → Os → Option Mapping × Os
  destroy kind none os = (none, os)
  destroy kind (some it) os = (none, unmap kind it os)
