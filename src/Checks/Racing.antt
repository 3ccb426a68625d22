-- ===== src/Checks/Racing.antt =====
-- Two processes that set up the memory pool, over a kernel with one file.
use com_ipc.Common.{
  ℕ, ◌≡◌, refl, ap, List, [], ◌∷◌, true, Option, some, none, ok, length, arith, pool_mmap_failed,
}
use com_ipc.Types.{new_topic}
use com_ipc.Posix.{Posix, Opened, opened, refused, eexist, pool_shm}
use com_ipc.Pool.{Pool, init, deposit, read}
use com_ipc.Manager.{new_manager}
use com_ipc.Startup.{Stores, Mapping, pool_name, open_pool, init_pool, mapped, memory_pool}
use com_ipc.Startup.Joining.{KeepsFile, found_or}
use com_ipc.Startup.Race.{join_early}
use com_ipc.Checks.Calls.{free_channel}

abbrev no_bytes : ℕ → ℕ
no_bytes a = 0

abbrev create_new : List ℕ → Option Pool → Opened × Option Pool
create_new name none = (opened 3, some (init no_bytes))
create_new name (some p) = (refused eexist, some p)

abbrev open_old : List ℕ → Option Pool → Opened × Option Pool
open_old name none = (refused 2, none)
open_old name (some p) = (opened 3, some p)

abbrev pool_file : Posix
pool_file = record {
  Os = Option Pool;
  shm_open_new = create_new;
  shm_open = open_old;
  shm_unlink = λ name os. none;
  ftruncate = λ fd kind os. (true, os);
  mmap = λ fd kind os. (some 4096, os);
  munmap = λ address kind os. os;
  close = λ fd os. os;
  mutex_lock = λ address os. (0, os);
  mutex_unlock = λ address os. os;
  load_topic = λ address os. new_topic;
  store_topic = λ address t os. os;
  load_service = λ address os. free_channel;
  store_service = λ address s os. os;
}

abbrev stores : Stores pool_file
stores = record {
  load_manager = λ address os. new_manager;
  store_manager = λ address m os. os;
  load_pool = λ address os. found_or (init no_bytes) os;
  store_pool = λ address p os. some p;
}

open_new_absent :
    (os : Option Pool)
    → os ≡ none
    → (fd : ℕ) × (os' : Option Pool) × (create_new pool_name os ≡ (opened fd, os'))
      × (os' ≡ some (init no_bytes))
open_new_absent none e = (3, some (init no_bytes), refl, refl)
open_new_absent (some p) e = cc

open_new_present :
    (os : Option Pool) (x : Pool)
    → os ≡ some x
    → (os' : Option Pool) × (create_new pool_name os ≡ (refused eexist, os')) × (os' ≡ some x)
open_new_present none x e = cc
open_new_present (some p) x e = (some p, refl, e)

open_present :
    (os : Option Pool) (x : Pool)
    → os ≡ some x
    → (fd : ℕ) × (os' : Option Pool) × (open_old pool_name os ≡ (opened fd, os')) × (os' ≡ some x)
open_present none x e = cc
open_present (some p) x e = (3, some p, refl, e)

keeps : KeepsFile pool_file pool_shm pool_name stores.load_pool stores.store_pool (init no_bytes)
keeps = record {
  content = λ os. os;
  open_new_absent = open_new_absent;
  open_new_present = open_new_present;
  open_present = open_present;
  keeps_ftruncate = λ fd os. refl;
  mmap_present = λ fd os x e. (4096, os, refl, e, ap (found_or (init no_bytes)) e, λ y. refl);
}

abbrev hello : List ℕ
hello = 104 ∷ 105 ∷ []

abbrev world : List ℕ
world = 119 ∷ 111 ∷ []

join_early_example :
    (fd : ℕ) × (os1 : Option Pool) × (open_pool pool_file stores (create_new pool_name none)
      ≡ (ok (true, fd), os1))
    × (it : Mapping) × (os2 : Option Pool) × (memory_pool pool_file stores os1 ≡ (ok it, os2))
    × (p : Pool) × (deposit 0 hello (found_or (init no_bytes) os2) ≡ (ok 0, p))
    × (creator : Mapping) × (os3 : Option Pool) × (mapped pool_file stores pool_mmap_failed
          (init_pool pool_file stores)
          true
          fd
          (some 4096, some p)
        ≡ (ok creator, os3))
    × (q : Pool) × (os3 ≡ some q)
    × (r : Pool) × (deposit 0 world q ≡ (ok 0, r))
    × (read 0 (length world) r ≡ world)
unfolding keeps
join_early_example =
    join_early pool_file stores no_bytes keeps none hello world refl (omega arith) (omega arith)
