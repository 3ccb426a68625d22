-- ===== src/Posix.antt =====
-- What the library asks of the kernel: POSIX shared memory, mapped segments and the mutexes inside
-- them. None of it is code of the repository, so it is an argument of the definitions that use it.
use com_ipc.Common.{ℕ, List, Bool, Option}
use com_ipc.Types.{TopicShm, ServiceShm}

-- What `shm_open` returned: a file descriptor, or -1 with `errno`.
pub data Opened : Type 0 where
  opened : ℕ → Opened
  refused : ℕ → Opened

-- `EEXIST` of Linux.
abbrev pub eexist : ℕ
eexist = 17

-- The four structures whose size `ftruncate` and `mmap` are given: those of a topic and a service,
-- of the manager, and of the memory pool with its data area.
pub data Segment : Type 0 where
  topic_shm service_shm manager_shm pool_shm : Segment

pub record Posix : Type 1 where
  -- The state of the kernel and of all mapped segments.
  pub Os : Type 0
  -- `shm_open` with O_CREAT | O_EXCL | O_RDWR, and with O_RDWR.
  pub shm_open_new : List ℕ → Os → Opened × Os
  pub shm_open : List ℕ → Os → Opened × Os
  pub shm_unlink : List ℕ → Os → Os
  -- True if it did not return -1.
  pub ftruncate : ℕ → Segment → Os → Bool × Os
  -- The address, or `none` for MAP_FAILED.
  pub mmap : ℕ → Segment → Os → Option ℕ × Os
  pub munmap : ℕ → Segment → Os → Os
  pub close : ℕ → Os → Os
  -- `pthread_mutex_lock` of the mutex in the segment at an address, and what it returned.
  pub mutex_lock : ℕ → Os → ℕ × Os
  pub mutex_unlock : ℕ → Os → Os
  -- The memory of a segment.
  pub load_topic : ℕ → Os → TopicShm
  pub store_topic : ℕ → TopicShm → Os → Os
  pub load_service : ℕ → Os → ServiceShm
  pub store_service : ℕ → ServiceShm → Os → Os
